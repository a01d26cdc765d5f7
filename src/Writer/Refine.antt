-- ===== src/Writer/Refine.antt =====
-- `FileWriter.Write`, one call and a history of calls, implements the ledger.
use onelog.Prelude.{
  ℕ, ◌+◌, ◌^◌, ◌<◌, ◌≤◌, ◌≡◌, ◌≢◌, refl, sym, ap, ◌∙◌, ◌⊎◌, inl, inr, List, [], ◌∷◌, ◌++◌, Bytes,
  length, length-append, if_elim, subst, Bool-cases, arith,
}
use onelog.Writer.Files.{Disk, content, or_empty}
use onelog.Writer.{FileWriter, Calls, write_file}
use onelog.Writer.Ledger.{
  Ledger, overflows, ledger_write, ledger_all, ledger_bytes, all_bytes, ledger_bytes-all,
}
use onelog.Writer.Rotate.{IsFaultless, Holds, IsFresh}
use onelog.Writer.Keep.{AfterWrite, write_append, write_rotate}

-- One Write of an open file, where no call of the system fails and no backup has the stamp yet,
-- returns the length of its argument without an error and does to the files what the ledger
-- says: a write over a positive size limit moves the old bytes to a backup and starts the file
-- anew, another one appends.
pub write_file_refines :
    (c : Calls) (w : FileWriter) (d : Disk) (l : Ledger) (p : Bytes)
    → Holds w d l
    → IsFaultless c
    → IsFresh c.stamp l
    → length l.current + length p < 2 ^ 63
    → AfterWrite c w l p (write_file c w d p)
write_file_refines c w d l p h q fresh small = elim (Bool-cases (overflows w.max_size l p)) [
  | inl big ↦ write_rotate c w d l p h q fresh small big
  | inr fits ↦ write_append c w d l p h q small fits
]

-- A history of calls, each after the one before it.
unfoldable pub write_all : FileWriter → Disk → List (Calls × Bytes) → FileWriter × Disk
write_all w d [] = (w, d)
write_all w d ((c, p) ∷ ws) = let r = write_file c w d p in write_all r.writer r.disk ws

-- No call fails, no stamp is used for two backups, and no file reaches 2 ^ 63 bytes.
abbrev pub IsSmooth : ℕ → Ledger → List (Calls × Bytes) → Type 0
IsSmooth max l [] = Unit
IsSmooth max l ((c, p) ∷ ws) =
    IsFaultless c
    × IsFresh c.stamp l
    × (length l.current + length p < 2 ^ 63)
    × IsSmooth max (ledger_write max c.stamp l p) ws

write_all-Holds :
    (ws : List (Calls × Bytes)) (w : FileWriter) (d : Disk) (l : Ledger)
    → Holds w d l
    → IsSmooth w.max_size l ws
    → let (w', d') = write_all w d ws in Holds w' d' (ledger_all w.max_size l ws)
unfolding write_all
write_all-Holds [] w d l h s = h
write_all-Holds ((c, p) ∷ ws) w d l h (q, fresh, small, rest) =
    let (_, _, same, _, held) = write_file_refines c w d l p h q fresh small in
    let r = write_file c w d p in
    let next = ledger_write w.max_size c.stamp l p in
    subst (λ m. let (w', d') = write_all r.writer r.disk ws in Holds w' d' (ledger_all m next ws))
      same
      (write_all-Holds ws r.writer r.disk next held
        (subst (λ m. IsSmooth m next ws) (sym same) rest))

-- After any history of writes to an open file, where no call fails, no stamp is used for two
-- backups and the file stays below 2 ^ 63 bytes, the backups from the oldest to the newest and then
-- the file hold the bytes that were there before, followed by all that was written, in order. The
-- clean-ups and compressions that the rotations start have not run then.
pub write_all_keeps :
    (ws : List (Calls × Bytes)) (w : FileWriter) (d : Disk) (l : Ledger)
    → Holds w d l
    → IsSmooth w.max_size l ws
    → let (w', d') = write_all w d ws in
      (m : Ledger) × Holds w' d' m × (ledger_bytes m ≡ ledger_bytes l ++ all_bytes ws)
write_all_keeps ws w d l h s =
    (ledger_all w.max_size l ws, write_all-Holds ws w d l h s, ledger_bytes-all w.max_size l ws)

ledger_bounded :
    (max : ℕ) (stamp : Bytes) (l : Ledger) (p : Bytes)
    → max ≢ 0
    → let m = ledger_write max stamp l p in (length m.current ≤ max) ⊎ (m.current ≡ p)
ledger_bounded max stamp l p h =
    if_elim (λ (m : Ledger). (length m.current ≤ max) ⊎ (m.current ≡ p)) (overflows max l p) _ _
      (λ e. inr refl) (λ e. inl (ground (arith, length-append l.current p)))

-- After a Write to an open file with a size limit, where no call of the system fails, no backup has
-- the stamp yet and the file would stay below 2 ^ 63 bytes, the file has at most the size of the
-- limit, or it holds the bytes of this one call only.
pub write_file_bounded :
    (c : Calls) (w : FileWriter) (d : Disk) (l : Ledger) (p : Bytes)
    → Holds w d l
    → IsFaultless c
    → IsFresh c.stamp l
    → length l.current + length p < 2 ^ 63
    → w.max_size ≢ 0
    → let r = write_file c w d p in
      let now = or_empty (content r.disk w.filename) in (length now ≤ w.max_size) ⊎ (now ≡ p)
write_file_bounded c w d l p h q fresh small limit =
    let (_, _, _, named, held) = write_file_refines c w d l p h q fresh small in
    let r = write_file c w d p in
    subst (λ o. (length (or_empty o) ≤ w.max_size) ⊎ (or_empty o ≡ p))
      (sym (held.current) ∙ ap (content r.disk) named) (ledger_bounded w.max_size c.stamp l p limit)
