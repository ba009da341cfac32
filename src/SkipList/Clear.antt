-- ===== src/SkipList/Clear.antt =====
-- clear: every node is deleted once, and the head keeps no pointer.
use cpp_kvstore.Common.{ℕ, zero, suc, ◌≤◌, ◌<◌, ◌≡◌, ◌≢◌, refl, sym, ap, ◌∙◌, arith, inl, inr}
use cpp_kvstore.Common.{List, [], ◌∷◌, none, length, All, All-map, done}
use cpp_kvstore.Common.Lex.{lex_refl}
use cpp_kvstore.SkipList.{
  Node, Pointer, Heap, head, SkipList, forward_at, store, delete_from, reset_head, clear,
}
use cpp_kvstore.SkipList.Rows.{Ghost, row, first_of, Links, Above, Sorted}
use cpp_kvstore.SkipList.Search.{IsNode, IsValid}
use cpp_kvstore.SkipList.Frame.{load-store_other, forward_at-same, set_forward_lem, eq_split}
use cpp_kvstore.SkipList.Get.{row-IsNode, Links-first}

-- No two of the nodes stand at one address.
abbrev Distinct : List Ghost → Type 0
Distinct [] = Unit
Distinct (g ∷ gs) = All (λ (x : Ghost). x.addr ≢ g.addr) gs × Distinct gs

-- The pointers of level 0 behind each of the nodes.
abbrev pub Nexts : Heap → List Ghost → Type 0
Nexts h [] = Unit
Nexts h (g ∷ gs) = (forward_at h 0 g.addr ≡ done (first_of gs)) × Nexts h gs

pub Nexts-Links : (h : Heap) (a : ℕ) (gs : List Ghost) → Links h 0 a gs → Nexts h gs
Nexts-Links h a [] links = tt
Nexts-Links h a (g ∷ gs) links =
    (Links-first h 0 g.addr gs links.2, Nexts-Links h g.addr gs links.2)

Distinct-IsNode : (h : Heap) (gs : List Ghost) → All (IsNode h) gs → Sorted gs → Distinct gs
Distinct-IsNode h [] nodes sorted = tt
Distinct-IsNode h (g ∷ gs) nodes sorted =
    (others gs nodes.1 sorted.0, Distinct-IsNode h gs nodes.1 sorted.1)
  where
    others :
        (xs : List Ghost)
        → All (IsNode h) xs
        → Above g.key xs
        → All (λ (x : Ghost). x.addr ≢ g.addr) xs
    others [] ns above = tt
    others (x ∷ xs) ns above =
        let n = nodes.0 in
        let m = ns.0 in
        let apart : x.addr ≢ g.addr = λ same.
          (let node_same : m.node ≡ n.node = cc (m.loaded, n.loaded, same) in
            let key_same : x.key ≡ g.key = sym m.key ∙ ap (λ (k : Node). k.key) node_same ∙ n.key in
            absurd (cc (rw (key_same, lex_refl g.key) at above.0))) in
        (apart, others xs ns.1 above.1)

Nexts-store :
    (h : Heap) (a : ℕ) (gs : List Ghost)
    → All (λ (x : Ghost). x.addr ≢ a) gs
    → Nexts h gs
    → Nexts (store h a none) gs
Nexts-store h a [] apart nexts = tt
Nexts-store h a (g ∷ gs) apart nexts = (
  forward_at-same h (store h a none) 0 g.addr (load-store_other h a g.addr none apart.0) ∙ nexts.0,
  Nexts-store h a gs apart.1 nexts.1,
)

-- Only the nodes of the list are gone.
abbrev Deletes : Heap → List Ghost → Heap → Type 0
Deletes h gs h' =
    ((j b : ℕ) → All (λ (g : Ghost). b ≢ g.addr) gs → forward_at h' j b ≡ forward_at h j b)
    × (h'.fresh ≡ h.fresh)

delete_from_lem :
    (fuel : ℕ) (h : Heap) (gs : List Ghost)
    → length gs ≤ fuel
    → Nexts h gs
    → Distinct gs
    → (h' : Heap) × (delete_from fuel h (first_of gs) ≡ done h') × Deletes h gs h'
unfolding delete_from store
delete_from_lem fuel h [] le nexts apart = (h, refl, ((λ j b away. refl), refl))
delete_from_lem zero h (g ∷ gs) le nexts apart = absurd (omega arith)
delete_from_lem (suc fuel) h (g ∷ gs) le nexts apart =
    let h1 = store h g.addr none in
    let (h', run, same) =
      delete_from_lem fuel h1 gs (omega arith) (Nexts-store h g.addr gs apart.0 nexts.1) apart.1 in
    (
      h',
      rw (nexts.0, delete_from) run,
      (
        (λ j b away.
            same.0 j b away.1 ∙ forward_at-same h h1 j b (load-store_other h g.addr b none away.0)),
        same.1,
      ),
    )

reset_head_lem :
    (n : ℕ) (h : Heap)
    → ((i : ℕ) → i < n → (p : Pointer) × (forward_at h i head ≡ done p))
    → (h' : Heap) × (reset_head h n ≡ done h')
      × (((i : ℕ) → i < n → forward_at h' i head ≡ done none)
          × ((i : ℕ) → n ≤ i → forward_at h' i head ≡ forward_at h i head)
          × (h'.fresh ≡ h.fresh))
unfolding reset_head
reset_head_lem zero h there = (h, refl, ((λ i lt. absurd (omega arith)), (λ i le. refl), refl))
reset_head_lem (suc n) h there =
    let (h1, run, (below, above, fresh)) = reset_head_lem n h (λ i lt. there i (omega arith)) in
    let (p, at) = there n (omega arith) in
    let (h2, set, sets) = set_forward_lem h1 n head p none (above n (omega arith) ∙ at) in
    (
      h2,
      rw (run, reset_head) set,
      (
        (λ i lt. elim (eq_split n i) [
          | inl e ↦ rw e sets.here
          | inr ne ↦ sets.other_level i head ne ∙ below i (ground (arith, ne))
        ]),
        (λ i le. sets.other_level i head (λ e. omega arith) ∙ above i (omega arith)),
        (sets.keeps).1 ∙ fresh,
      ),
    )

-- clear succeeds on every valid list, reads no node that it has deleted, and leaves a valid list
-- that holds nothing and has the same maximal level.
pub clear-IsValid :
    (s : SkipList) (gs : List Ghost)
    → IsValid s gs
    → (s' : SkipList) × (clear s ≡ done s') × IsValid s' [] × (s'.max_level ≡ s.max_level)
unfolding clear
clear-IsValid s gs v =
    let links : Links s.heap 0 head gs =
      rw (row-IsNode s.heap gs v.nodes) at (v.levels 0 (omega (arith, v.some_level, v.within))) in
    let (h1, deleted, (same, fresh1)) =
      delete_from_lem s.node_count s.heap gs (omega (arith, v.count))
        (Nexts-Links s.heap head gs links) (Distinct-IsNode s.heap gs v.nodes v.sorted) in
    let away : All (λ (g : Ghost). head ≢ g.addr) gs =
      All-map (IsNode s.heap) (λ (g : Ghost). head ≢ g.addr) (λ g n e. omega (arith, e, n.not_head))
        gs v.nodes in
    let there : (i : ℕ) → i < s.max_level → (p : Pointer) × (forward_at h1 i head ≡ done p) =
      λ i lt. (
        first_of (row i gs),
        same i head away ∙ Links-first s.heap i head (row i gs) (v.levels i lt),
      ) in
    let (h2, reset, (empty, above, fresh2)) = reset_head_lem s.max_level h1 there in
    (
      record s { heap = h2; current_level = 1; node_count = 0 },
      rw (Links-first s.heap 0 head gs links, clear, deleted, reset) refl,
      record {
        sorted = tt;
        levels = λ i lt. empty i lt;
        nodes = tt;
        heights = tt;
        some_level = omega arith;
        within = omega (arith, v.some_level, v.within);
        count = refl;
        head_allocated = omega (arith, v.head_allocated, fresh1, fresh2);
      },
      refl,
    )
