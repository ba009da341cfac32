-- ===== src/Wal/Recover/Sound.antt =====
-- WalLogger::Recover on an arbitrary file: what it gives stands in the file as Append writes it.
use cpp_kvstore.Common.{ℕ, zero, suc, ◌≤◌, ◌≡◌, refl, sym, ap, ◌∙◌, arith}
use cpp_kvstore.Common.{List, [], ◌∷◌, ◌++◌, length, replicate, All, append_assoc}
use cpp_kvstore.Common.{append-nil, done, inl, inr, ◌⊎◌}
use cpp_kvstore.Common.Bytes.{Bytes, IsByte}
use cpp_kvstore.Wal.Record.{ParsedLogRecord}
use cpp_kvstore.Wal.Recover.{push}
use cpp_kvstore.Wal.Recover.{recover_round, recover}
use cpp_kvstore.Wal.Recover.Rounds.{Fits, bytes_of}
use cpp_kvstore.Wal.Recover.RoundTrip.{
  log_bytes, Round-cases, recover_round_takes, recover_stop, recover_push,
}
use cpp_kvstore.Wal.Recover.Reads.{nuls}
use cpp_kvstore.Wal.Recover.Found.{Found, recover_round-Found}

-- What recovery gives stands at the front of the file; behind it no record is found.
abbrev pub Recovered : Bytes → Type 0
Recovered file =
    (rs : List ParsedLogRecord) × (missing : ℕ) × (rest : Bytes) × (recover file ≡ done rs)
    × All Fits rs
    × (file ++ replicate missing 0 ≡ log_bytes rs ++ rest)
    × ((missing ≡ 0) ⊎ (rest ≡ []))
    × (recover rest ≡ done [])

stop-Recovered : (s : Bytes) → recover s ≡ done [] → Recovered s
stop-Recovered s e = ([], 0, s, e, tt, append-nil s, inl refl, e)

push-Recovered :
    (s : Bytes) (r : ParsedLogRecord) (rest : Bytes)
    → recover_round s ≡ push r rest
    → Found s r rest
    → Recovered rest
    → Recovered s
push-Recovered s r rest e found (rs, n, left, run, fits, there, at_end, ends) =
    let run' = recover_push s r rest e ∙ rw run refl in
    let empty = recover_stop [] (unfold recover_round in refl) in
    let alone : found.missing ≡ 0 → s ≡ bytes_of r ++ rest =
      λ none. sym (append-nil s) ∙ ap (λ m. s ++ nuls m) (sym none) ∙ found.there in
    elim (found.at_end) [
      | inl whole ↦ (
        r ∷ rs,
        n,
        left,
        run',
        (found.fits, fits),
        ap (λ l. l ++ nuls n) (alone whole)
            ∙ append_assoc (bytes_of r) rest (nuls n)
            ∙ ap (λ l. bytes_of r ++ l) there
            ∙ sym (append_assoc (bytes_of r) (log_bytes rs) left),
        at_end,
        ends,
      )
      | inr nothing ↦ (
        r ∷ [],
        found.missing,
        [],
        recover_push s r rest e ∙ rw (nothing, empty) refl,
        (found.fits, tt),
        found.there ∙ rw nothing (sym (append-nil (bytes_of r ++ []))),
        inr refl,
        empty,
      )
    ]

sound_bounded : (n : ℕ) (s : Bytes) → length s ≤ n → All IsByte s → Recovered s
sound_bounded n [] h bytes = stop-Recovered [] (recover_stop [] (unfold recover_round in refl))
sound_bounded zero (b ∷ s) h bytes = absurd (omega arith)
sound_bounded (suc n) (b ∷ s) h bytes = elim (Round-cases (recover_round (b ∷ s))) [
  | inl e ↦ stop-Recovered (b ∷ s) (recover_stop (b ∷ s) e)
  | inr (r, rest, e) ↦
      let fewer = recover_round_takes (b ∷ s) r rest e in
      let found = recover_round-Found (b ∷ s) r rest bytes e in
      push-Recovered (b ∷ s) r rest e found (sound_bounded n rest (omega arith) found.bytes_rest)
]

-- Whatever bytes the file holds, recovery ends with records with keys and values below 2 ^ 32 bytes
-- and operations below 256 that stand at its front as Append writes them, header and checksum
-- included, and behind which nothing is recovered; only at the very end of the file may NULs of
-- the last record be missing.
pub recover_sound :
    (file : Bytes)
    → All IsByte file
    → (rs : List ParsedLogRecord) × (missing : ℕ) × (rest : Bytes) × (recover file ≡ done rs)
      × All Fits rs
      × (file ++ replicate missing 0 ≡ log_bytes rs ++ rest)
      × ((missing ≡ 0) ⊎ (rest ≡ []))
      × (recover rest ≡ done [])
recover_sound file bytes = sound_bounded (length file) file (omega arith) bytes
