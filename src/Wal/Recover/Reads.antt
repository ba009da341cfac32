-- ===== src/Wal/Recover/Reads.antt =====
-- What WalLogger::Recover reads of a stream: the fields of a header, and strings that may be short.
use cpp_kvstore.Common.{ℕ, zero, suc, ◌+◌, ◌-◌, ◌^◌, ◌≤◌, ◌<◌, ◌≡◌, refl, sym, ap, ◌∙◌, arith}
use cpp_kvstore.Common.{[], ◌∷◌, ◌++◌, length, take, drop, replicate, All, append_assoc}
use cpp_kvstore.Common.{append-nil, take_all, ap₂, inl, inr, ◌⊎◌}
use cpp_kvstore.Common.{length-take, length-drop, length-append, take-append-drop}
use cpp_kvstore.Common.Bytes.{Bytes, IsByte, fixed, fixed_value, fixed-fixed_value, fixed_value-lt}
use cpp_kvstore.Wal.Record.{header_bytes}
use cpp_kvstore.Wal.Recover.{header_size, parse_header, read_string}

pub All-take : (n : ℕ) (bs : Bytes) → All IsByte bs → All IsByte (take n bs)
All-take zero bs h = tt
All-take (suc n) [] h = tt
All-take (suc n) (b ∷ bs) h = (h.0, All-take n bs h.1)

pub All-drop : (n : ℕ) (bs : Bytes) → All IsByte bs → All IsByte (drop n bs)
All-drop zero bs h = h
All-drop (suc n) [] h = tt
All-drop (suc n) (b ∷ bs) h = All-drop n bs h.1

drop_more : (n m k : ℕ) (bs : Bytes) → m + n ≡ k → drop n (drop m bs) ≡ drop k bs
drop_more n zero k bs e = let same : n ≡ k = omega arith in ap (λ i. drop i bs) same
drop_more zero (suc m) zero bs e = absurd (omega arith)
drop_more (suc n) (suc m) zero bs e = absurd (omega arith)
drop_more zero (suc m) (suc k) [] e = refl
drop_more (suc n) (suc m) (suc k) [] e = refl
drop_more zero (suc m) (suc k) (b ∷ bs) e = drop_more zero m k bs (omega arith)
drop_more (suc n) (suc m) (suc k) (b ∷ bs) e = drop_more (suc n) m k bs (omega arith)

drop_nil : (n : ℕ) → drop {A = ℕ} n [] ≡ []
drop_nil zero = refl
drop_nil (suc n) = refl

-- NULs in a row.
abbrev pub nuls : ℕ → Bytes
nuls n = replicate n 0

nuls-append : (n m : ℕ) → nuls n ++ nuls m ≡ nuls (n + m)
nuls-append zero m = let e : 0 + m ≡ m = omega arith in rw e refl
nuls-append (suc n) m =
    let e : suc n + m ≡ suc (n + m) = omega arith in rw e (ap (λ l. 0 ∷ l) (nuls-append n m))

length-nuls : (n : ℕ) → length (nuls n) ≡ n
length-nuls zero = refl
length-nuls (suc n) = ap suc (length-nuls n)

-- What a read of `n` bytes takes and what it leaves are the stream, with NULs behind a short one.
module _ where
  read_string-drop : (n : ℕ) (s : Bytes) → read_string n s ++ drop n s ≡ s ++ nuls (n - length s)
  unfolding read_string
  read_string-drop zero s = let e : 0 - length s ≡ 0 = omega arith in rw e (sym (append-nil s))
  read_string-drop (suc n) [] =
      let e : suc n - 0 ≡ suc n = omega arith in rw e (append-nil (nuls (suc n)))
  read_string-drop (suc n) (b ∷ s) =
      let e : suc n - suc (length s) ≡ n - length s = omega arith in
      rw e (ap (λ l. b ∷ l) (read_string-drop n s))

  drop_short : (n : ℕ) (s : Bytes) → (n - length s ≡ 0) ⊎ (drop n s ≡ [])
  drop_short zero s = inl (omega arith)
  drop_short (suc n) [] = inr refl
  drop_short (suc n) (b ∷ s) =
      let e : suc n - suc (length s) ≡ n - length s = omega arith in rw e (drop_short n s)

  pub length-read_string : (n : ℕ) (s : Bytes) → length (read_string n s) ≡ n
  unfolding read_string
  length-read_string n s = omega (
    arith,
    length-append (take n s) (nuls (n - length s)),
    length-take n s,
    length-nuls (n - length s),
  )

-- The bytes of a little-endian number of `w` bytes.
fixed-value : (w : ℕ) (bs : Bytes) → All IsByte bs → length bs ≡ w → fixed w (fixed_value bs) ≡ bs
fixed-value w bs h e = ap (λ n. fixed n (fixed_value bs)) (sym e) ∙ fixed-fixed_value bs h

value-lt : (w : ℕ) (bs : Bytes) → All IsByte bs → length bs ≡ w → fixed_value bs < 256 ^ w
value-lt w bs h e = rw (← e) (fixed_value-lt bs h)

module _ (t : Bytes) (bytes : All IsByte t) (size : length t ≡ header_size) where
  field : (at w : ℕ) → at + w ≤ header_size → length (take w (drop at t)) ≡ w
  field at w le = omega (arith, length-take w (drop at t), length-drop at t)

  -- The bytes of one field and of all that follows it.
  join :
      (at w : ℕ) {rest : Bytes}
      → at + w ≤ header_size
      → rest ≡ drop (at + w) t
      → fixed w (fixed_value (take w (drop at t))) ++ rest ≡ drop at t
  join at w {rest = rest} le e =
      ap₂ (λ a b. a ++ b)
        (fixed-value w (take w (drop at t)) (All-take w (drop at t) (All-drop at t bytes))
          (field at w le))
        (e ∙ sym (drop_more w at (at + w) t refl))
      ∙ take-append-drop w (drop at t)

  pub header_bytes-parse_header : header_bytes (parse_header t) ≡ t
  unfolding header_bytes parse_header
  header_bytes-parse_header = join 0 4 (omega arith) (
      join 4 4 (omega arith) (
        join 8 4 (omega arith) (
          fixed-value 1 (take 1 (drop 12 t)) (All-take 1 (drop 12 t) (All-drop 12 t bytes))
            (field 12 1 (omega arith))
          ∙ take_all 1 (drop 12 t) (omega (arith, length-drop 12 t)))))

  pub parse_header_fits :
      ((parse_header t).key_len < 2 ^ 32)
      × ((parse_header t).value_len < 2 ^ 32)
      × ((parse_header t).op_type < 256)
  unfolding parse_header
  parse_header_fits = (
    value-lt 4 (take 4 (drop 4 t)) (All-take 4 (drop 4 t) (All-drop 4 t bytes))
        (field 4 4 (omega arith)),
    value-lt 4 (take 4 (drop 8 t)) (All-take 4 (drop 8 t) (All-drop 8 t bytes))
        (field 8 4 (omega arith)),
    value-lt 1 (take 1 (drop 12 t)) (All-take 1 (drop 12 t) (All-drop 12 t bytes))
        (field 12 1 (omega arith)),
  )

-- Two short reads in a row leave as many NULs as they miss bytes.
module _ (k v : ℕ) (s : Bytes) where
  pub missed : ℕ
  missed = (k - length s) + (v - length (drop k s))

  pub strings-drop :
      read_string k s ++ (read_string v (drop k s) ++ drop v (drop k s)) ≡ s ++ nuls missed
  unfolding missed
  strings-drop =
      ap (λ l. read_string k s ++ l) (read_string-drop v (drop k s))
      ∙ sym (append_assoc (read_string k s) (drop k s) (nuls (v - length (drop k s))))
      ∙ ap (λ l. l ++ nuls (v - length (drop k s))) (read_string-drop k s)
      ∙ append_assoc s (nuls (k - length s)) (nuls (v - length (drop k s)))
      ∙ ap (λ l. s ++ l) (nuls-append (k - length s) (v - length (drop k s)))

  pub missed_at_end : (missed ≡ 0) ⊎ (drop v (drop k s) ≡ [])
  unfolding missed
  missed_at_end = elim (drop_short k s) [
    | inr e ↦ inr (rw e (drop_nil v))
    | inl e ↦ elim (drop_short v (drop k s)) [ inr f ↦ inr f | inl f ↦ inl (omega (arith, e, f)) ]
  ]
