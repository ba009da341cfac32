-- ===== src/Slice/Laws.antt =====
-- What the operations of a valid Slice show: those of the byte string that it is a view of.
use cpp_kvstore.Common.{ℕ, zero, suc, ◌+◌, ◌-◌, ◌≤◌, ◌≡◌, refl, ap, true, false, [], ◌∷◌}
use cpp_kvstore.Common.{
  ◌<◌, ◌%◌, ◌^◌, ltb, if◌then◌else◌, length, take, drop, arith, ◌++◌, Bool-cases,
}
use cpp_kvstore.Common.{ltb→lt, ltb→le, length-append, take-append}
use cpp_kvstore.Common.{
  done, fault, inl, inr, length-take, ◌↔◌, not, take-append-drop, take-take, drop-take, length-drop,
  sym, ◌∙◌,
}
use cpp_kvstore.Common.Bytes.{Bytes, read_bytes}
use cpp_kvstore.Common.Lex.{lex, is_lt, is_eq, is_gt, lex-eq, lex_refl}
use cpp_kvstore.Slice.{Slice, IsValid, view, memcmp, compare, by_size, remove_prefix, starts_with}
use cpp_kvstore.Slice.{slice_eq, slice_ne, slice_lt, slice_le, slice_gt, slice_ge}

pub read_bytes-take :
    (n : ℕ) (m : Bytes) → n ≤ length m → read_bytes n m ≡ done (take n m, drop n m)
read_bytes-take zero m h = refl
read_bytes-take (suc n) [] h = absurd (omega arith)
read_bytes-take (suc n) (b ∷ m) h = rw (read_bytes-take n m (omega arith))

pub read_bytes_short : (n : ℕ) (m : Bytes) → length m + 1 ≤ n → read_bytes n m ≡ fault
read_bytes_short zero m h = absurd (omega arith)
read_bytes_short (suc n) [] h = refl
read_bytes_short (suc n) (b ∷ m) h = rw (read_bytes_short n m (omega arith))

-- The bytes that both have decide, and then the lengths.
lex-take :
    (n m : ℕ) (a b : Bytes)
    → n ≤ length a
    → m ≤ length b
    → lex (take n a) (take m b)
      ≡ (let k = if ltb n m then n else m in by_size n m (lex (take k a) (take k b)))
unfolding lex
lex-take zero zero a b p q = refl
lex-take zero (suc m) a [] p q = absurd (omega arith)
lex-take zero (suc m) a (y ∷ b) p q = ground arith
lex-take (suc n) m [] b p q = absurd (omega arith)
lex-take (suc n) zero (x ∷ a) b p q = ground arith
lex-take (suc n) (suc m) (x ∷ a) [] p q = absurd (omega arith)
lex-take (suc n) (suc m) (x ∷ a) (y ∷ b) p q = elim (Bool-cases (ltb n m)) [
  | inl e ↦ ground (arith, lex-take n m a b)
  | inr e ↦ ground (arith, lex-take n m a b)
]

memcmp_lem :
    (n : ℕ) (a b : Bytes)
    → n ≤ length a
    → n ≤ length b
    → memcmp a b n ≡ done (lex (take n a) (take n b))
unfolding memcmp
memcmp_lem n a b p q = rw (read_bytes-take n a p, read_bytes-take n b q)

-- `compare` on valid slices reads inside both, and is the order of the byte strings.
pub compare_lem : (s t : Slice) → IsValid s → IsValid t → compare s t ≡ done (lex (view s) (view t))
unfolding compare
compare_lem s t p q = elim (Bool-cases (ltb s.size t.size)) [
  | inl e ↦ ground (arith, memcmp_lem s.size s.mem t.mem, lex-take s.size t.size s.mem t.mem)
  | inr e ↦ ground (arith, memcmp_lem t.size s.mem t.mem, lex-take s.size t.size s.mem t.mem)
]

module _ (s t : Slice) (p : IsValid s) (q : IsValid t) where
  -- The six operators read valid slices by one order, that of their byte strings.
  pub operators_lem :
      (slice_eq s t ≡ done (is_eq (lex (view s) (view t))))
      × (slice_ne s t ≡ done (not (is_eq (lex (view s) (view t)))))
      × (slice_lt s t ≡ done (is_lt (lex (view s) (view t))))
      × (slice_le s t ≡ done (not (is_gt (lex (view s) (view t)))))
      × (slice_gt s t ≡ done (is_gt (lex (view s) (view t))))
      × (slice_ge s t ≡ done (not (is_lt (lex (view s) (view t)))))
  unfolding slice_eq slice_ne slice_lt slice_le slice_gt slice_ge
  operators_lem = let e = compare_lem s t p q in ground (arith, e)

  -- `==` holds of two valid slices exactly if they show the same bytes.
  pub slice_eq_iff : (slice_eq s t ≡ done true) ↔ (view s ≡ view t)
  unfolding slice_eq
  slice_eq_iff =
      rw (compare_lem s t p q)
        ((λ h. lex-eq (view s) (view t) (ground (arith, h))), (λ h. rw (h, lex_refl (view t)) refl))

length-view : (s : Slice) → IsValid s → length (view s) ≡ s.size
length-view s p = omega (arith, length-take s.size s.mem)

-- The bytes that `starts_with` compares.
front-view : (s x : Slice) → x.size ≤ s.size → take x.size (view s) ≡ take x.size s.mem
front-view s x h = take-take x.size s.size s.mem h

module _ (s x : Slice) (p : IsValid s) (q : IsValid x) where
  starts_with_long :
      x.size ≤ s.size → starts_with s x ≡ done (is_eq (lex (take x.size (view s)) (view x)))
  unfolding starts_with
  starts_with_long h = rw (front-view s x h) (ground (arith, memcmp_lem x.size s.mem x.mem))

  starts_with_short : suc s.size ≤ x.size → starts_with s x ≡ done false
  unfolding starts_with
  starts_with_short h = ground arith

  is_front : starts_with s x ≡ done true → (rest : Bytes) × (view s ≡ view x ++ rest)
  is_front h = elim (Bool-cases (ltb s.size x.size)) [
    | inl short ↦ cc (starts_with_short (ltb→lt _ _ short), h)
    | inr long ↦
        let same : take x.size (view s) ≡ view x =
          lex-eq _ _ (ground (arith, starts_with_long (ltb→le _ _ long), h)) in
        (
          drop x.size (view s),
          sym (take-append-drop x.size (view s)) ∙ ap (λ c. c ++ drop x.size (view s)) same,
        )
  ]

  front-le : (rest : Bytes) → view s ≡ view x ++ rest → x.size ≤ s.size
  front-le rest e =
      omega (arith, ap length e, length-append (view x) rest, length-view s p, length-view x q)

  of_front : (rest : Bytes) → view s ≡ view x ++ rest → starts_with s x ≡ done true
  of_front rest e =
      let same : take x.size (view s) ≡ view x =
        rw e (take-append x.size (view x) rest (sym (length-view x q))) in
      starts_with_long (front-le rest e) ∙ rw (same, lex_refl (view x)) refl

  -- On valid slices `starts_with` says yes exactly if the bytes of `x` are the front of those
  -- of `s`.
  pub starts_with_iff : (starts_with s x ≡ done true) ↔ ((rest : Bytes) × (view s ≡ view x ++ rest))
  starts_with_iff = (is_front, λ (rest, e). of_front rest e)

-- What `remove_prefix` leaves of a valid slice.
abbrev pub WithoutPrefix : Slice → ℕ → Slice → Type 0
WithoutPrefix s n t = IsValid t × (view s ≡ take n (view s) ++ view t) × (t.size + n ≡ s.size)

-- On a valid slice with less than 2 ^ 64 bytes of memory, `remove_prefix` of at most `size` bytes
-- cuts them off the front and leaves the slice valid; of more bytes, up to the largest size_t, it
-- leaves a slice that shows more bytes than its memory has.
pub remove_prefix_lem :
    (s : Slice) (n : ℕ)
    → IsValid s
    → length s.mem < 2 ^ 64
    → n < 2 ^ 64
    → (n ≤ s.size → WithoutPrefix s n (remove_prefix s n))
      × (s.size < n → ¬ IsValid (remove_prefix s n))
unfolding remove_prefix
remove_prefix_lem s n p small n_small = (
  (λ h.
      let size : (s.size + (2 ^ 64 - n % 2 ^ 64)) % 2 ^ 64 ≡ s.size - n = omega arith in
      (
        omega (arith, size, length-drop n s.mem),
        rw size (
            sym (take-append-drop n (view s))
            ∙ ap (λ c. take n (view s) ++ c) (drop-take n s.size s.mem)),
        omega (arith, size),
      )),
  (λ h valid. omega (arith, length-drop n s.mem)),
)
