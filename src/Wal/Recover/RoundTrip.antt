-- ===== src/Wal/Recover/RoundTrip.antt =====
-- Whole logs: what recovery makes of the records that were appended and of what follows them.
use cpp_kvstore.Common.{ℕ, zero, suc, ◌+◌, ◌≤◌, ◌≡◌, refl, sym, ap, ◌∙◌, arith}
use cpp_kvstore.Common.{List, [], ◌∷◌, ◌++◌, length, take, drop, All, append_assoc, append-nil}
use cpp_kvstore.Common.{done, ◌>>=◌, length-drop}
use cpp_kvstore.Common.{inl, inr, ◌⊎◌}
use cpp_kvstore.Common.Bytes.{Bytes}
use cpp_kvstore.Wal.Record.{ParsedLogRecord}
use cpp_kvstore.Wal.Recover.{header_size, Round, stop, push, parse_header}
use cpp_kvstore.Wal.Recover.{recover_payload, recover_round, recover_loop, recover}
use cpp_kvstore.Wal.Recover.Rounds.{Fits, bytes_of, recover_round-bytes_of}

-- The log file after these appends.
abbrev pub log_bytes : List ParsedLogRecord → Bytes
log_bytes [] = []
log_bytes (r ∷ rs) = bytes_of r ++ log_bytes rs

pub log_bytes-append :
    (rs ts : List ParsedLogRecord) → log_bytes (rs ++ ts) ≡ log_bytes rs ++ log_bytes ts
log_bytes-append [] ts = refl
log_bytes-append (r ∷ rs) ts =
    ap (λ l. bytes_of r ++ l) (log_bytes-append rs ts)
    ∙ sym (append_assoc (bytes_of r) (log_bytes rs) (log_bytes ts))

-- A round that goes on has taken a header at least.
pub recover_round_takes :
    (s : Bytes) (r : ParsedLogRecord) (rest : Bytes)
    → recover_round s ≡ push r rest
    → length rest + header_size ≤ length s
unfolding recover_round recover_payload
recover_round_takes s r rest e =
    let h = parse_header (take header_size s) in
    let s' = drop header_size s in
    ground (
      arith,
      length-drop header_size s,
      length-drop h.key_len s',
      length-drop h.value_len (drop h.key_len s'),
    )

pub Round-cases :
    (o : Round) → (o ≡ stop) ⊎ ((r : ParsedLogRecord) × (rest : Bytes) × (o ≡ push r rest))
Round-cases stop = inl refl
Round-cases (push r rest) = inr (r, rest, refl)

module _ (n : ℕ) (b : ℕ) (s : Bytes) where
  recover_loop_push :
      (r : ParsedLogRecord) (rest : Bytes)
      → recover_round (b ∷ s) ≡ push r rest
      → recover_loop (suc n) (b ∷ s) ≡ (recover_loop n rest >>= λ rs. done (r ∷ rs))
  unfolding recover_loop
  recover_loop_push r rest e = rw (e, recover_loop)

  recover_loop_stop : recover_round (b ∷ s) ≡ stop → recover_loop (suc n) (b ∷ s) ≡ done []
  unfolding recover_loop
  recover_loop_stop e = rw (e, recover_loop)

-- Fuel beyond the length of the stream makes no difference.
recover_loop_fuel :
    (n m : ℕ) (s : Bytes) → length s ≤ n → length s ≤ m → recover_loop n s ≡ recover_loop m s
unfolding recover_loop
recover_loop_fuel zero zero [] p q = refl
recover_loop_fuel zero (suc m) [] p q = refl
recover_loop_fuel (suc n) zero [] p q = refl
recover_loop_fuel (suc n) (suc m) [] p q = refl
recover_loop_fuel zero m (b ∷ s) p q = absurd (omega arith)
recover_loop_fuel (suc n) zero (b ∷ s) p q = absurd (omega arith)
recover_loop_fuel (suc n) (suc m) (b ∷ s) p q = elim (Round-cases (recover_round (b ∷ s))) [
  | inl e ↦ rw (recover_loop_stop n b s e, recover_loop_stop m b s e)
  | inr (r, rest, e) ↦
      let fewer = recover_round_takes (b ∷ s) r rest e in
      rw (
        recover_loop_push n b s r rest e,
        recover_loop_push m b s r rest e,
        recover_loop_fuel n m rest (omega arith) (omega arith),
      )
]

pub recover_stop : (s : Bytes) → recover_round s ≡ stop → recover s ≡ done []
unfolding recover
recover_stop [] e = refl
recover_stop (b ∷ s) e = recover_loop_stop (length s) b s e

pub recover_push :
    (s : Bytes) (r : ParsedLogRecord) (rest : Bytes)
    → recover_round s ≡ push r rest
    → recover s ≡ (recover rest >>= λ rs. done (r ∷ rs))
unfolding recover
recover_push [] r rest e = absurd (omega (arith, recover_round_takes [] r rest e))
recover_push (b ∷ s) r rest e =
    let fewer = recover_round_takes (b ∷ s) r rest e in
    recover_loop_push (length s) b s r rest e
    ∙ rw (recover_loop_fuel (length s) (length rest) rest (omega arith) (omega arith))

recover_total_bounded :
    (n : ℕ) (s : Bytes) → length s ≤ n → (rs : List ParsedLogRecord) × (recover s ≡ done rs)
recover_total_bounded n [] h = ([], unfold recover in refl)
recover_total_bounded zero (b ∷ s) h = absurd (omega arith)
recover_total_bounded (suc n) (b ∷ s) h = elim (Round-cases (recover_round (b ∷ s))) [
  | inl e ↦ ([], recover_stop (b ∷ s) e)
  | inr (r, rest, e) ↦
      let fewer = recover_round_takes (b ∷ s) r rest e in
      let (rs, done_rest) = recover_total_bounded n rest (omega arith) in
      (r ∷ rs, recover_push (b ∷ s) r rest e ∙ rw done_rest)
]

pub recover_total : (file : Bytes) → (rs : List ParsedLogRecord) × (recover file ≡ done rs)
recover_total file = recover_total_bounded (length file) file (omega arith)

-- Records that were written whole, each with a key and a value below 2 ^ 32 bytes and an operation
-- below 256, come first in what is recovered, in order; then comes what is recovered from the
-- bytes behind them.
pub recover-append :
    (rs : List ParsedLogRecord) (tail : Bytes)
    → All Fits rs
    → recover (log_bytes rs ++ tail) ≡ (recover tail >>= λ ts. done (rs ++ ts))
recover-append [] tail f = let (ts, e) = recover_total tail in rw e
recover-append (r ∷ rs) tail f =
    let (ts, e) = recover_total tail in
    let whole =
      recover_push (bytes_of r ++ (log_bytes rs ++ tail)) r (log_bytes rs ++ tail)
        (recover_round-bytes_of r f.0 (log_bytes rs ++ tail)) in
    rw append_assoc (whole ∙ rw (recover-append rs tail f.1, e))

-- A log of whole records is recovered as it was written.
pub recover-log_bytes : (rs : List ParsedLogRecord) → All Fits rs → recover (log_bytes rs) ≡ done rs
unfolding recover_round
recover-log_bytes rs f =
    ap recover (sym (append-nil (log_bytes rs)))
    ∙ recover-append rs [] f
    ∙ rw (recover_stop [] refl, append-nil rs)
