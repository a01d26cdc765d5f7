-- ===== src/Writer/Fail.antt =====
-- A rotation that fails: what `FileWriter.Write` does from then on.
use onelog.Prelude.{
  ◌≡◌, refl, sym, ap, ◌∙◌, true, Option, none, some, List, [], ◌∷◌, Bytes, if◌then◌else◌, if_elim,
  subst, ap₂, some_ne,
}
use onelog.Errors.{Error}
use onelog.Writer.Files.{Disk}
use onelog.Writer.{
  FileWriter, opened, closed, Handle, open_steps, close_handle, after_close, already_closed, Calls,
  Opening, Rotation, Written, open_file, reopened, rotate_steps, rotate, needs_rotation,
  after_rotation, write_handle, write_opened, opened_for_write, write_file, Job,
}
use onelog.Writer.Refine.{write_all}

-- The answer of a call that does nothing.
abbrev pub IsRefused : FileWriter → Disk → Written → Type 0
IsRefused w d r = (r.error ≡ some already_closed) × (r.count ≡ 0) × (r.disk ≡ d) × (r.writer ≡ w)

abbrev pub shut : FileWriter → FileWriter
shut w = record w { file = some closed }

-- A writer whose file is closed refuses every call.
write_file-shut :
    (c : Calls) (w : FileWriter) (d : Disk) (p : Bytes)
    → IsRefused (shut w) d (write_file c (shut w) d p)
unfolding write_file write_opened opened_for_write rotate
write_file-shut c w d p =
    if_elim (IsRefused (shut w) d) (needs_rotation w p) _ _ (λ _. (refl, refl, refl, refl))
      (λ _. (refl, refl, refl, refl))

write_all-shut :
    (ws : List (Calls × Bytes)) (w : FileWriter) (d : Disk) → write_all (shut w) d ws ≡ (shut w, d)
unfolding write_all
write_all-shut [] w d = refl
write_all-shut ((c, p) ∷ ws) w d =
    let (_, _, same_disk, same_writer) = write_file-shut c w d p in
    ap₂ (λ v e. write_all v e ws) same_writer same_disk ∙ write_all-shut ws w d

open_file_fails :
    (o : Opening) (w : FileWriter) (d : Disk) (jobs : List Job) (e : Error)
    → (reopened jobs (open_file o w d)).error ≡ some e
    → (reopened jobs (open_file o w d)).writer ≡ w
unfolding open_file
open_file_fails o w d jobs e = by_answer o.mkdir o.create o.stat
  where
    by_answer :
        (m c s : Option Error)
        → (reopened jobs (open_steps m c s w d)).error ≡ some e
        → (reopened jobs (open_steps m c s w d)).writer ≡ w
    by_answer (some _) c s h = refl
    by_answer none (some _) s h = refl
    by_answer none none (some _) h = refl
    by_answer none none none h = absurd (some_ne (sym h))

rotate_fails :
    (c : Calls) (w : FileWriter) (d : Disk) (e : Error)
    → w.file ≡ some opened
    → (rotate c w d).error ≡ some e
    → (rotate c w d).writer ≡ shut w
unfolding rotate
rotate_fails c w d e = by_handle w.file
  where
    by_answer :
        (a k : Option Error)
        → (rotate_steps a k c.stamp c.second (shut w) d).error ≡ some e
        → (rotate_steps a k c.stamp c.second (shut w) d).writer ≡ shut w
    by_answer (some _) k h = refl
    by_answer none (some _) h = refl
    by_answer none none h = open_file_fails c.second (shut w) _ _ e h

    by_handle :
        (f : Option Handle)
        → f ≡ some opened
        → (rotate_steps
            (close_handle f c.close_error)
            c.rename_error
            c.stamp
            c.second
            (record w { file = after_close f })
            d).error
          ≡ some e
        → (rotate_steps
            (close_handle f c.close_error)
            c.rename_error
            c.stamp
            c.second
            (record w { file = after_close f })
            d).writer
          ≡ shut w
    by_handle none g h = absurd (some_ne (sym g))
    by_handle (some opened) g h = by_answer c.close_error c.rename_error h
    by_handle (some closed) g h = refl

write_file-rotate :
    (c : Calls) (w : FileWriter) (d : Disk) (p : Bytes)
    → w.file ≡ some opened
    → needs_rotation w p ≡ true
    → write_file c w d p ≡ after_rotation c p (rotate c w d)
unfolding write_file write_opened opened_for_write
write_file-rotate c w d p h big =
    ap (λ f. write_opened c p (opened_for_write f c w d)) h
    ∙ ap
        (λ b. if b then after_rotation c p (rotate c w d) else write_handle w.file c.fault w d [] p)
        big

after_failed :
    (c : Calls) (p : Bytes) (r : Rotation) (e : Error)
    → r.error ≡ some e
    → after_rotation c p r
      ≡ record { writer = r.writer; disk = r.disk; count = 0; error = some e; jobs = r.jobs }
after_failed c p r e h = rw h refl

-- A Write to an open file that has to rotate it, and whose rotation fails, at the close, the
-- rename or the opening of the new file, returns that error and writes nothing. From then on no
-- history of writes changes the writer or the files, and every Write returns 0 and the error of
-- a closed file.
pub write_file_fails :
    (c : Calls) (w : FileWriter) (d : Disk) (p : Bytes) (e : Error)
    → w.file ≡ some opened
    → needs_rotation w p ≡ true
    → (rotate c w d).error ≡ some e
    → let r = write_file c w d p in
      (r.error ≡ some e)
      × (r.count ≡ 0)
      × ((ws : List (Calls × Bytes)) → write_all r.writer r.disk ws ≡ (r.writer, r.disk))
      × ((k : Calls) (q : Bytes) → IsRefused r.writer r.disk (write_file k r.writer r.disk q))
write_file_fails c w d p e h big failed =
    subst Claim (sym (shape ∙ ap refusing (rotate_fails c w d e h failed)))
      (refl, refl, (λ ws. write_all-shut ws w moved), (λ k q. write_file-shut k w moved q))
  where
    moved : Disk
    moved = (rotate c w d).disk

    refusing : FileWriter → Written
    refusing v = record {
      writer = v;
      disk = moved;
      count = 0;
      error = some e;
      jobs = (rotate c w d).jobs;
    }

    shape : write_file c w d p ≡ refusing (rotate c w d).writer
    shape = write_file-rotate c w d p h big ∙ after_failed c p (rotate c w d) e failed

    Claim : Written → Type 0
    Claim r =
        (r.error ≡ some e)
        × (r.count ≡ 0)
        × ((ws : List (Calls × Bytes)) → write_all r.writer r.disk ws ≡ (r.writer, r.disk))
        × ((k : Calls) (q : Bytes) → IsRefused r.writer r.disk (write_file k r.writer r.disk q))
