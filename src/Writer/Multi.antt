-- ===== src/Writer/Multi.antt =====
-- writer.go: the interface of writers, the console writer, and the multi writer over others.
use onelog.Prelude.{
  ℕ, ◌≡◌, refl, ap, ◌∙◌, false, ◌⊎◌, inl, inr, Option, none, some, List, [], ◌∷◌, ◌++◌, Bytes,
  length, if◌then◌else◌, ◌==◌, All, arith,
}
use onelog.Errors.{Error}

-- The values of `LogWriter` over a state that all of them share: the files, the terminal and
-- what else they write to.
pub record LogWriter {ℓ} (S : Type ℓ) : Type ℓ where
  pub write : Bytes → S → S × ℕ × Option Error
  pub close : S → S × Option Error

-- `out` is an `io.Writer`, of which only Write is called.
pub record ConsoleWriter {ℓ} (S : Type ℓ) : Type ℓ where
  pub out : LogWriter S

module _ {ℓ} {S : Type ℓ} where
  abbrev pub new_console_writer : LogWriter S → ConsoleWriter S
  new_console_writer stdout = record { out = stdout }

  abbrev pub console_write : ConsoleWriter S → Bytes → S → S × ℕ × Option Error
  console_write w p s = w.out.write p s

  abbrev pub console_close : ConsoleWriter S → S → S × Option Error
  console_close w s = (s, none)

  abbrev pub set_output : LogWriter S → ConsoleWriter S → ConsoleWriter S
  set_output out w = record w { out = out }

-- Writers are compared by identity, a number.
pub record MultiWriter : Type 0 where
  pub writers : List ℕ

abbrev pub new_multi_writer : List ℕ → MultiWriter
new_multi_writer ws = record { writers = ws }

abbrev pub add_writer : ℕ → MultiWriter → MultiWriter
add_writer v w = record w { writers = w.writers ++ v ∷ [] }

abbrev pub remove_first : ℕ → List ℕ → List ℕ
remove_first v [] = []
remove_first v (x ∷ xs) = let rest = remove_first v xs in if x == v then xs else x ∷ rest

unfoldable pub remove_writer : ℕ → MultiWriter → MultiWriter
remove_writer v w = record w { writers = remove_first v w.writers }

-- Taking away a writer that was added to others undoes the addition.
pub remove_writer-add_writer :
    (v : ℕ) (w : MultiWriter)
    → All (λ x. ¬ (x ≡ v)) w.writers
    → remove_writer v (add_writer v w) ≡ w
unfolding remove_writer
remove_writer-add_writer v w h = ap (λ ws. record w { writers = ws }) (drop_last w.writers h)
  where
    drop_last : (xs : List ℕ) → All (λ x. ¬ (x ≡ v)) xs → remove_first v (xs ++ v ∷ []) ≡ xs
    drop_last [] h = ground arith
    drop_last (x ∷ xs) (hx, h) =
        let other : (x == v) ≡ false = ground arith in rw (other, drop_last xs h) refl

module _ {ℓ} {S : Type ℓ} (writer : ℕ → LogWriter S) where
  abbrev pub write_next : Option Error → S → (S → S × ℕ × Option Error) → S × ℕ × Option Error
  write_next (some e) s rest = (s, 0, some e)
  write_next none s rest = rest s

  abbrev pub write_each : List ℕ → Bytes → S → S × ℕ × Option Error
  write_each [] p s = (s, length p, none)
  write_each (v ∷ vs) p s =
      let (s', _, error) = (writer v).write p s in write_next error s' (write_each vs p)

  unfoldable pub multi_write : MultiWriter → Bytes → S → S × ℕ × Option Error
  multi_write w p s = write_each w.writers p s

  abbrev pub first_error : Option Error → Option Error → Option Error
  first_error none e = e
  first_error (some d) e = some d

  abbrev pub close_each : List ℕ → Option Error → S → S × Option Error
  close_each [] first s = (s, first)
  close_each (v ∷ vs) first s =
      let (s', error) = (writer v).close s in close_each vs (first_error first error) s'

  unfoldable pub multi_close : MultiWriter → S → S × Option Error
  multi_close w s = close_each w.writers none s

  -- The state after all the writers of a list, and that none of them fails.
  abbrev pub written : List ℕ → Bytes → S → S
  written [] p s = s
  written (v ∷ vs) p s = written vs p ((writer v).write p s).0

  abbrev pub IsAccepted : List ℕ → Bytes → S → Type 0
  IsAccepted [] p s = Unit
  IsAccepted (v ∷ vs) p s =
      let (s', _, error) = (writer v).write p s in (error ≡ none) × IsAccepted vs p s'

  -- The first writer that fails, with those before it and behind it.
  abbrev pub FailsAt : List ℕ → Bytes → S → S × ℕ × Option Error → Type ℓ
  FailsAt vs p s r =
      (before : List ℕ) × (v : ℕ) × (after : List ℕ) × (e : Error) × (vs ≡ before ++ v ∷ after)
      × IsAccepted before p s
      × (((writer v).write p (written before p s)).2 ≡ some e)
      × (r ≡ (written (before ++ v ∷ []) p s, 0, some e))

  abbrev Outcome : List ℕ → Bytes → S → S × ℕ × Option Error → Type ℓ
  Outcome vs p s r = (IsAccepted vs p s × (r ≡ (written vs p s, length p, none))) ⊎ FailsAt vs p s r

  write_each_lem : (vs : List ℕ) (p : Bytes) (s : S) → Outcome vs p s (write_each vs p s)
  write_each_lem [] p s = inl (tt, refl)
  write_each_lem (v ∷ vs) p s =
      by_error ((writer v).write p s).2 refl (write_each_lem vs p ((writer v).write p s).0)
    where
      s' : S
      s' = ((writer v).write p s).0

      by_error :
          (error : Option Error)
          → ((writer v).write p s).2 ≡ error
          → Outcome vs p s' (write_each vs p s')
          → Outcome (v ∷ vs) p s (write_next error s' (write_each vs p))
      by_error (some e) h ih = inr ([], v, vs, e, refl, tt, h, refl)
      by_error none h (inl (ok, r)) = inl ((h, ok), r)
      by_error none h (inr (before, u, after, e, split, ok, fails, r)) =
          inr (v ∷ before, u, after, e, ap (◌∷◌ v) split, (h, ok), fails, r)

  -- A write to all writers passes the bytes to each of them in order, and returns their number
  -- without an error if none of them fails. Otherwise those before the first that fails have
  -- got the bytes and those behind it have not, and it returns 0 and that writer's error.
  pub multi_write_lem :
      (w : MultiWriter) (p : Bytes) (s : S)
      → (IsAccepted w.writers p s × (multi_write w p s ≡ (written w.writers p s, length p, none)))
        ⊎ FailsAt w.writers p s (multi_write w p s)
  unfolding multi_write
  multi_write_lem w p s = write_each_lem w.writers p s

  abbrev pub closed_all : List ℕ → S → S
  closed_all [] s = s
  closed_all (v ∷ vs) s = closed_all vs ((writer v).close s).0

  -- The errors of the calls, in order.
  abbrev pub close_errors : List ℕ → S → List (Option Error)
  close_errors [] s = []
  close_errors (v ∷ vs) s = let (s', error) = (writer v).close s in error ∷ close_errors vs s'

  abbrev pub first_some : List (Option Error) → Option Error
  first_some [] = none
  first_some (none ∷ es) = first_some es
  first_some (some e ∷ es) = some e

  close_each_lem :
      (vs : List ℕ) (first : Option Error) (s : S)
      → close_each vs first s
        ≡ (closed_all vs s, first_error first (first_some (close_errors vs s)))
  close_each_lem [] none s = refl
  close_each_lem [] (some e) s = refl
  close_each_lem (v ∷ vs) first s =
      close_each_lem vs (first_error first ((writer v).close s).1) ((writer v).close s).0
      ∙ ap (λ e. (closed_all (v ∷ vs) s, e))
          (by_error first ((writer v).close s).1 (close_errors vs ((writer v).close s).0))
    where
      by_error :
          (first error : Option Error) (es : List (Option Error))
          → first_error (first_error first error) (first_some es)
            ≡ first_error first (first_some (error ∷ es))
      by_error none none es = refl
      by_error none (some e) es = refl
      by_error (some d) error es = refl

  -- Closing closes every writer once and in order, also when some of them fail, and returns the
  -- first error.
  pub multi_close_lem :
      (w : MultiWriter) (s : S)
      → multi_close w s ≡ (closed_all w.writers s, first_some (close_errors w.writers s))
  unfolding multi_close
  multi_close_lem w s = close_each_lem w.writers none s
