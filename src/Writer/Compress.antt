-- ===== src/Writer/Compress.antt =====
-- writer.go, `compressFile`: a backup becomes a gzip file beside it, and is removed.
use onelog.Prelude.{
  ◌≡◌, refl, sym, ap, ◌∙◌, Option, none, some, ◌++◌, Bytes, codes, length, length-append, drop,
  subst, arith,
}
use onelog.Errors.{Error, foreign}
use onelog.Writer.Files.{
  Disk, content, put, remove, or_empty, content-put_self, content-put_ne, content-remove_self,
  content-remove_ne,
}

-- The errors of the calls of one compression, and how much of the stream an error leaves.
pub record Answers : Type 0 where
  pub open_error : Option Error
  pub create_error : Option Error
  pub copy_error : Option Error
  pub finish_error : Option Error
  pub remove_error : Option Error

abbrev pub gz_name : Bytes → Bytes
gz_name name = name ++ codes ".gz"

-- The file is opened without `O_TRUNC`: what it held behind the new bytes stays.
abbrev pub overwritten : Bytes → Bytes → Bytes
overwritten new old = new ++ drop (length new) old

-- `gzip c` is the stream for the content `c`, and `partial c` what an error leaves of it.
module _ (gzip partial : Bytes → Bytes) where
  abbrev pub stored : (Bytes → Bytes) → Disk → Bytes → Bytes → Disk
  stored f d name c = put d (gz_name name) (overwritten (f c) (or_empty (content d (gz_name name))))

  abbrev pub remove_steps : Option Error → Disk → Bytes → Disk × Option Error
  remove_steps (some e) d name = (d, some e)
  remove_steps none d name = (remove d name, none)

  abbrev pub finish_steps :
      Option Error → Option Error → Option Error → Disk → Bytes → Bytes → Disk × Option Error
  finish_steps (some e) finish rm d name c = (stored partial d name c, some e)
  finish_steps none (some e) rm d name c = (stored partial d name c, some e)
  finish_steps none none rm d name c = remove_steps rm (stored gzip d name c) name

  abbrev pub create_steps : Option Error → Answers → Disk → Bytes → Bytes → Disk × Option Error
  create_steps (some e) a d name c = (d, some e)
  create_steps none a d name c = finish_steps a.copy_error a.finish_error a.remove_error d name c

  -- Opening a file that is not there fails, with the error of the answers or of the system.
  abbrev pub open_source :
      Option Error → Option Bytes → Answers → Disk → Bytes → Disk × Option Error
  open_source (some e) source a d name = (d, some e)
  open_source none none a d name = (d, some (foreign (codes "file does not exist")))
  open_source none (some c) a d name = create_steps a.create_error a d name c

  unfoldable pub compress_file : Answers → Disk → Bytes → Disk × Option Error
  compress_file a d name = open_source a.open_error (content d name) a d name

  -- Removes a backup only when its stream is stored.
  abbrev pub IsSafe : Disk → Bytes → Bytes → Disk × Option Error → Type 0
  IsSafe d name c (after, none) =
      (content after name ≡ none)
      × (content after (gz_name name)
          ≡ some (overwritten (gzip c) (or_empty (content d (gz_name name)))))
  IsSafe d name c (after, some e) = content after name ≡ some c

  -- The same, and nothing of the other files.
  abbrev Keeps : Disk → Bytes → Bytes → Disk × Option Error → Type 0
  Keeps d name c r =
      IsSafe d name c r
      × ((other : Bytes)
          → ¬ (other ≡ name)
          → ¬ (other ≡ gz_name name)
          → content r.0 other ≡ content d other)

  gz_name_ne : (name : Bytes) → ¬ (name ≡ gz_name name)
  gz_name_ne name e = longer name (ap length e)
    where
      longer : (n : Bytes) → ¬ (length n ≡ length (n ++ codes ".gz"))
      longer n h = omega (arith, length-append n (codes ".gz"))

  stored-Keeps :
      (f : Bytes → Bytes) (d : Disk) (name c : Bytes) (e : Error)
      → content d name ≡ some c
      → Keeps d name c (stored f d name c, some e)
  stored-Keeps f d name c e h = (
    content-put_ne d (gz_name name) _ name (gz_name_ne name) ∙ h,
    (λ other _ g. content-put_ne d (gz_name name) _ other g),
  )

  remove_steps-Keeps :
      (rm : Option Error) (d : Disk) (name c : Bytes)
      → content d name ≡ some c
      → Keeps d name c (remove_steps rm (stored gzip d name c) name)
  remove_steps-Keeps (some e) d name c h = stored-Keeps gzip d name c e h
  remove_steps-Keeps none d name c h =
      let next = stored gzip d name c in
      (
        (
          content-remove_self next name,
          content-remove_ne next name (gz_name name) (λ e. gz_name_ne name (sym e))
              ∙ content-put_self d (gz_name name) _,
        ),
        (λ other n g.
            content-remove_ne next name other n ∙ content-put_ne d (gz_name name) _ other g),
      )

  create_steps-Keeps :
      (cr copy finish rm : Option Error) (a : Answers) (d : Disk) (name c : Bytes)
      → content d name ≡ some c
      → Keeps d name c (
          create_steps cr
            (record a { copy_error = copy; finish_error = finish; remove_error = rm })
            d
            name
            c)
  create_steps-Keeps (some e) copy finish rm a d name c h = (h, (λ _ _ _. refl))
  create_steps-Keeps none (some e) finish rm a d name c h = stored-Keeps partial d name c e h
  create_steps-Keeps none none (some e) rm a d name c h = stored-Keeps partial d name c e h
  create_steps-Keeps none none none rm a d name c h = remove_steps-Keeps rm d name c h

  -- Whatever fails, a compression of a file keeps its content: with an error the file is as it
  -- was, and without one it is gone and the gzip stream of its content stands at the front of
  -- the file with the suffix, which is that stream alone if there was no such file. Every other
  -- file is as it was.
  pub compress_file_lem :
      (a : Answers) (d : Disk) (name c : Bytes)
      → content d name ≡ some c
      → IsSafe d name c (compress_file a d name)
        × ((other : Bytes)
            → ¬ (other ≡ name)
            → ¬ (other ≡ gz_name name)
            → content (compress_file a d name).0 other ≡ content d other)
  unfolding compress_file
  compress_file_lem a d name c h = by_open a.open_error
    where
      by_open : (o : Option Error) → Keeps d name c (open_source o (content d name) a d name)
      by_open (some e) = (h, (λ _ _ _. refl))
      by_open none =
          subst (λ s. Keeps d name c (open_source none s a d name)) (sym h)
            (create_steps-Keeps a.create_error a.copy_error a.finish_error a.remove_error a d name c
              h)
