-- ===== src/Spatial/Ranges.antt =====
-- MergeRanges of include/spatial_key.h. std::sort compares the start codes only; of the orders that
-- it may give to equal ones the model takes one.
use cpp_kvstore.Common.{ℕ, ◌+◌, ◌%◌, ◌^◌, ◌≤◌, ◌<◌, arith, ◌↔◌, ◌⊎◌, inl, inr}
use cpp_kvstore.Common.{List, [], ◌∷◌, if◌then◌else◌, ltb, leb, Bool-cases, All}
use Prim.Native.Nat.{max}

pub record MortonRange : Type 0 where
  pub start_code : ℕ
  pub end_code : ℕ

unfoldable pub insert_range : MortonRange → List MortonRange → List MortonRange
insert_range r [] = r ∷ []
insert_range r (x ∷ xs) =
    let rest = insert_range r xs in if ltb x.start_code r.start_code then x ∷ rest else r ∷ x ∷ xs

unfoldable pub sort_ranges : List MortonRange → List MortonRange
sort_ranges [] = []
sort_ranges (r ∷ rs) = insert_range r (sort_ranges rs)

-- The loop over the sorted ranges, and the push behind it.
unfoldable pub merge_loop : MortonRange → List MortonRange → List MortonRange
merge_loop current [] = current ∷ []
merge_loop current (r ∷ rs) =
    let joined =
      merge_loop
        (record { start_code = current.start_code; end_code = max current.end_code r.end_code })
        rs in
    let parted = merge_loop r rs in
    if leb r.start_code ((current.end_code + 1) % 2 ^ 64) then joined else current ∷ parted

unfoldable pub merge_sorted : List MortonRange → List MortonRange
merge_sorted [] = []
merge_sorted (r ∷ rs) = merge_loop r rs

unfoldable pub merge_ranges : List MortonRange → List MortonRange
merge_ranges raw_ranges = merge_sorted (sort_ranges raw_ranges)

-- One of the ranges has the code.
abbrev pub Covers : List MortonRange → ℕ → Type 0
Covers [] c = ⊥
Covers (r ∷ rs) c = ((r.start_code ≤ c) × (c ≤ r.end_code)) ⊎ Covers rs c

-- A range that is not empty and ends before the last code.
abbrev pub InRange : MortonRange → Type 0
InRange r = (r.start_code ≤ r.end_code) × (r.end_code + 1 < 2 ^ 64)

-- The first range does not start before `n`, and the others follow in this way.
abbrev pub Ascends : ℕ → List MortonRange → Type 0
Ascends n [] = Unit
Ascends n (r ∷ rs) = (n ≤ r.start_code) × Ascends r.start_code rs

-- Between a range and the next there is at least one code; none starts before `n`.
abbrev pub Apart : ℕ → List MortonRange → Type 0
Apart n [] = Unit
Apart n (r ∷ rs) = (n ≤ r.start_code) × (r.start_code ≤ r.end_code) × Apart (r.end_code + 2) rs

insert_range-InRange :
    (r : MortonRange) (rs : List MortonRange)
    → InRange r
    → All InRange rs
    → All InRange (insert_range r rs)
unfolding insert_range
insert_range-InRange r [] h hs = (h, tt)
insert_range-InRange r (x ∷ xs) h hs = elim (Bool-cases (ltb x.start_code r.start_code)) [
  | inl e ↦ rw e (hs.0, insert_range-InRange r xs h hs.1)
  | inr e ↦ rw e (h, hs)
]

insert_range-Ascends :
    (n : ℕ) (r : MortonRange) (rs : List MortonRange)
    → n ≤ r.start_code
    → Ascends n rs
    → Ascends n (insert_range r rs)
unfolding insert_range
insert_range-Ascends n r [] h hs = (h, tt)
insert_range-Ascends n r (x ∷ xs) h hs = elim (Bool-cases (ltb x.start_code r.start_code)) [
  | inl e ↦ rw e (hs.0, insert_range-Ascends x.start_code r xs (ground arith) hs.1)
  | inr e ↦
      let le : r.start_code ≤ x.start_code = ground (arith, e) in
      let up : Ascends r.start_code (x ∷ xs) = (le, hs.1) in rw e (h, up)
]

insert_range-Covers :
    (r : MortonRange) (rs : List MortonRange) (c : ℕ)
    → Covers (insert_range r rs) c ↔ Covers (r ∷ rs) c
unfolding insert_range
insert_range-Covers r [] c = (λ h. h, λ h. h)
insert_range-Covers r (x ∷ xs) c =
    let rest = insert_range-Covers r xs c in
    elim (Bool-cases (ltb x.start_code r.start_code)) [
      | inl e ↦ rw e (grind arith)
      | inr e ↦ rw e (λ h. h, λ h. h)
    ]

sort_ranges-InRange : (rs : List MortonRange) → All InRange rs → All InRange (sort_ranges rs)
unfolding sort_ranges
sort_ranges-InRange [] h = tt
sort_ranges-InRange (r ∷ rs) h =
    insert_range-InRange r (sort_ranges rs) h.0 (sort_ranges-InRange rs h.1)

sort_ranges-Ascends : (rs : List MortonRange) → Ascends 0 (sort_ranges rs)
unfolding sort_ranges
sort_ranges-Ascends [] = tt
sort_ranges-Ascends (r ∷ rs) =
    insert_range-Ascends 0 r (sort_ranges rs) (omega arith) (sort_ranges-Ascends rs)

sort_ranges-Covers : (rs : List MortonRange) (c : ℕ) → Covers (sort_ranges rs) c ↔ Covers rs c
unfolding sort_ranges
sort_ranges-Covers [] c = (λ h. h, λ h. h)
sort_ranges-Covers (r ∷ rs) c =
    let rest = sort_ranges-Covers rs c in
    let step = insert_range-Covers r (sort_ranges rs) c in grind arith

Ascends-earlier : (n m : ℕ) (rs : List MortonRange) → n ≤ m → Ascends m rs → Ascends n rs
Ascends-earlier n m [] le up = tt
Ascends-earlier n m (r ∷ rs) le up = (omega (arith, up.0), up.1)

abbrev Within : ℕ → ℕ → ℕ → Type 0
Within a b c = (a ≤ c) × (c ≤ b)

join_lem :
    (q r : MortonRange) (c : ℕ)
    → q.start_code ≤ q.end_code
    → r.start_code ≤ r.end_code
    → q.start_code ≤ r.start_code
    → r.start_code ≤ q.end_code + 1
    → Within q.start_code (max q.end_code r.end_code) c
      ↔ (Within q.start_code q.end_code c ⊎ Within r.start_code r.end_code c)
join_lem q r c h k le near = ground arith

merge_loop-Covers :
    (current : MortonRange) (rs : List MortonRange) (c : ℕ)
    → InRange current
    → All InRange rs
    → Ascends current.start_code rs
    → Covers (merge_loop current rs) c ↔ Covers (current ∷ rs) c
unfolding merge_loop
merge_loop-Covers current [] c h hs up = (λ p. p, λ p. p)
merge_loop-Covers current (r ∷ rs) c h hs up =
    elim (Bool-cases (leb r.start_code ((current.end_code + 1) % 2 ^ 64))) [
      | inl e ↦
          let near : r.start_code ≤ current.end_code + 1 = ground arith in
          let joined : MortonRange = record {
            start_code = current.start_code;
            end_code = max current.end_code r.end_code;
          } in
          let rest =
            merge_loop-Covers joined rs c (omega (arith, h, hs.0)) hs.1
              (Ascends-earlier current.start_code r.start_code rs up.0 up.1) in
          let both = join_lem current r c h.0 (hs.0).0 up.0 near in rw e (grind arith)
      | inr e ↦ let rest = merge_loop-Covers r rs c hs.0 hs.1 up.1 in rw e (grind arith)
    ]

merge_loop-Apart :
    (n : ℕ) (current : MortonRange) (rs : List MortonRange)
    → n ≤ current.start_code
    → InRange current
    → All InRange rs
    → Ascends current.start_code rs
    → Apart n (merge_loop current rs)
unfolding merge_loop
merge_loop-Apart n current [] le h hs up = (le, h.0, tt)
merge_loop-Apart n current (r ∷ rs) le h hs up =
    elim (Bool-cases (leb r.start_code ((current.end_code + 1) % 2 ^ 64))) [
      | inl e ↦
          let joined : MortonRange = record {
            start_code = current.start_code;
            end_code = max current.end_code r.end_code;
          } in
          rw e (
            merge_loop-Apart n joined rs le (omega (arith, h, hs.0)) hs.1
              (Ascends-earlier current.start_code r.start_code rs up.0 up.1))
      | inr e ↦
          let gap : current.end_code + 2 ≤ r.start_code = ground arith in
          let rest = merge_loop-Apart (current.end_code + 2) r rs gap hs.0 hs.1 up.1 in
          rw e (le, h.0, rest)
    ]

merge_sorted-Covers :
    (rs : List MortonRange) (c : ℕ)
    → All InRange rs
    → Ascends 0 rs
    → Covers (merge_sorted rs) c ↔ Covers rs c
unfolding merge_sorted
merge_sorted-Covers [] c h up = (λ p. p, λ p. p)
merge_sorted-Covers (r ∷ rs) c h up = merge_loop-Covers r rs c h.0 h.1 up.1

merge_sorted-Apart :
    (rs : List MortonRange) → All InRange rs → Ascends 0 rs → Apart 0 (merge_sorted rs)
unfolding merge_sorted
merge_sorted-Apart [] h up = tt
merge_sorted-Apart (r ∷ rs) h up = merge_loop-Apart 0 r rs up.0 h.0 h.1 up.1

-- MergeRanges keeps exactly the codes that its ranges had, if none of these is empty or ends at the
-- last code, and leaves ranges in ascending order with a code between each two.
pub merge_ranges_lem :
    (rs : List MortonRange)
    → All InRange rs
    → ((c : ℕ) → Covers (merge_ranges rs) c ↔ Covers rs c) × Apart 0 (merge_ranges rs)
unfolding merge_ranges
merge_ranges_lem rs h =
    let hs = sort_ranges-InRange rs h in
    let up = sort_ranges-Ascends rs in
    (
      (λ c.
          let merged = merge_sorted-Covers (sort_ranges rs) c hs up in
          let sorted = sort_ranges-Covers rs c in
          (λ p. sorted.0 (merged.0 p), λ p. merged.1 (sorted.1 p))),
      merge_sorted-Apart (sort_ranges rs) hs up,
    )
