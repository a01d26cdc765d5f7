-- ===== src/Writer/Keep.antt =====
-- `FileWriter.Write` without faults keeps a ledger on the disk: nothing is lost, in order.
use onelog.Prelude.{
  ◌+◌, ◌^◌, ◌<◌, ◌≡◌, refl, sym, ap, ◌∙◌, true, false, none, some, List, [], ◌∷◌, ◌++◌, Bytes,
  length, length-append, if◌then◌else◌, add64, All, All-map, subst, arith,
}
use onelog.Writer.Files.{
  Disk, content, put, content-put_self, content-put_ne, content-remove_ne, remove,
}
use onelog.Writer.{FileWriter, opened, Calls, Written, write_file, rotated_name}
use onelog.Writer.Ledger.{Ledger, overflows, ledger_write}
use onelog.Writer.Rotate.{
  IsFaultless, Holds, IsFresh, rotated_name_ne, needs_rotation_lem, append_lem, shifted, rotate_lem,
}

abbrev pub AfterWrite : Calls → FileWriter → Ledger → Bytes → Written → Type 0
AfterWrite c w l p r =
    (r.error ≡ none)
    × (r.count ≡ length p)
    × (r.writer.max_size ≡ w.max_size)
    × (r.writer.filename ≡ w.filename)
    × Holds r.writer r.disk (ledger_write w.max_size c.stamp l p)

pub write_append :
    (c : Calls) (w : FileWriter) (d : Disk) (l : Ledger) (p : Bytes)
    → Holds w d l
    → IsFaultless c
    → length l.current + length p < 2 ^ 63
    → overflows w.max_size l p ≡ false
    → AfterWrite c w l p (write_file c w d p)
write_append c w d l p h q small fits =
    subst (AfterWrite c w l p)
      (sym (append_lem c w d l p h q (needs_rotation_lem w d l p h small ∙ fits)))
      (
        refl,
        refl,
        refl,
        refl,
        subst (Holds after disk) (sym (ap (λ b. if b then rotated else grown) fits)) held,
      )
  where
    after : FileWriter
    after = record w { size = add64 w.size (length p) }

    disk : Disk
    disk = put d w.filename (l.current ++ p)

    rotated : Ledger
    rotated = record { backups = (c.stamp, l.current) ∷ l.backups; current = p }

    grown : Ledger
    grown = record l { current = l.current ++ p }

    held : Holds after disk grown
    held = record {
      ready = h.ready;
      current = content-put_self d w.filename (l.current ++ p);
      measured = rw (h.measured, length-append) (omega arith);
      limited = h.limited;
      kept =
          All-map (λ b. content d (rotated_name w b.0) ≡ some b.1)
            (λ b. content disk (rotated_name w b.0) ≡ some b.1) l.backups
            (λ b e.
              content-put_ne d w.filename (l.current ++ p) (rotated_name w b.0)
                (rotated_name_ne w b.0)
              ∙ e)
            h.kept;
    }

rotated_name-inj : (w : FileWriter) (s t : Bytes) → rotated_name w s ≡ rotated_name w t → s ≡ t
rotated_name-inj w s t e = strip w.filename e
  where
    strip : (f : Bytes) → f ++ (b'.' ∷ s) ≡ f ++ (b'.' ∷ t) → s ≡ t
    strip [] h = cc
    strip (x ∷ f) h = strip f (cc)

pub write_rotate :
    (c : Calls) (w : FileWriter) (d : Disk) (l : Ledger) (p : Bytes)
    → Holds w d l
    → IsFaultless c
    → IsFresh c.stamp l
    → length l.current + length p < 2 ^ 63
    → overflows w.max_size l p ≡ true
    → AfterWrite c w l p (write_file c w d p)
write_rotate c w d l p h q fresh small big =
    subst (AfterWrite c w l p)
      (sym (rotate_lem c w d l p h q (needs_rotation_lem w d l p h small ∙ big)))
      (
        refl,
        refl,
        refl,
        refl,
        subst (Holds after disk) (sym (ap (λ b. if b then rotated else grown) big)) held,
      )
  where
    after : FileWriter
    after = record w { file = some opened; size = add64 0 (length p) }

    base : Disk
    base = shifted w d c.stamp l.current

    disk : Disk
    disk = put base w.filename p

    rotated : Ledger
    rotated = record { backups = (c.stamp, l.current) ∷ l.backups; current = p }

    grown : Ledger
    grown = record l { current = l.current ++ p }

    -- A backup's name is not the file's: only the rename touches it.
    behind :
        (s : Bytes)
        → content disk (rotated_name w s)
          ≡ content
              (put (remove d w.filename) (rotated_name w c.stamp) l.current)
              (rotated_name w s)
    behind s =
        content-put_ne base w.filename p (rotated_name w s) (rotated_name_ne w s)
        ∙ content-put_ne (put (remove d w.filename) (rotated_name w c.stamp) l.current) w.filename
            [] (rotated_name w s) (rotated_name_ne w s)

    held : Holds after disk rotated
    held = record {
      ready = refl;
      current = content-put_self base w.filename p;
      measured = omega arith;
      limited = h.limited;
      kept = (
        behind c.stamp ∙ content-put_self (remove d w.filename) (rotated_name w c.stamp) l.current,
        kept_older l.backups fresh h.kept,
      );
    }
      where
        kept_older :
            (bs : List (Bytes × Bytes))
            → All (λ b. ¬ (b.0 ≡ c.stamp)) bs
            → All (λ b. content d (rotated_name w b.0) ≡ some b.1) bs
            → All (λ b. content disk (rotated_name w b.0) ≡ some b.1) bs
        kept_older [] f k = tt
        kept_older ((s, b) ∷ bs) (f, fs) (k, ks) = (
          behind s
              ∙ content-put_ne (remove d w.filename) (rotated_name w c.stamp) l.current
                  (rotated_name w s) (λ e. f (rotated_name-inj w s c.stamp e))
              ∙ content-remove_ne d w.filename (rotated_name w s) (rotated_name_ne w s)
              ∙ k,
          kept_older bs fs ks,
        )
