-- ===== src/Logger/Trace.antt =====
-- entry.go, `write`: the calls of the client's code in the order in which they happen, and what a
-- log call without a ring promises of them.
use onelog.Prelude.{
  ℕ, ◌≡◌, refl, sym, ap, ap₂, ◌∙◌, Bool, Option, none, some, List, [], ◌∷◌, ◌++◌, append_assoc,
  append-nil, Bytes, subst,
}
use onelog.Errors.{Error}
use onelog.Field.{Entry}
use onelog.Logger.Pipeline.{Client, report}

pub data Event : Type 0 where
  sampled_by : ℕ → Entry → Bool → Event
  hooked_by : ℕ → Entry → Option Error → Event
  formatted_by : ℕ → Entry → Bytes → Option Error → Event
  written_to : ℕ → Bytes → Option Error → Event
  handled_by : ℕ → Error → Event

-- The client's answers, which may depend on all that has happened.
pub record Answers : Type 0 where
  pub sample : List Event → ℕ → Entry → Bool
  pub hook : List Event → ℕ → Entry → Entry × Option Error
  pub format : List Event → ℕ → Entry → Bytes × Option Error
  pub write_to : List Event → ℕ → Bytes → ℕ × Option Error

-- A client that keeps the trace of its calls as the state.
abbrev pub recording : Answers → Client (List Event)
recording a = record {
  sample = λ k e tr. (tr ++ sampled_by k e (a.sample tr k e) ∷ [], a.sample tr k e);
  hook = λ k e tr. let (e', error) = a.hook tr k e in (tr ++ hooked_by k e error ∷ [], e', error);
  format =
      λ k e tr. let (p, error) = a.format tr k e in (tr ++ formatted_by k e p error ∷ [], p, error);
  write_to =
      λ k p tr. let (n, error) = a.write_to tr k p in (tr ++ written_to k p error ∷ [], n, error);
  handle = λ k d tr. tr ++ handled_by k d ∷ [];
}

abbrev pub opt {ℓ} : {A : Type ℓ} → Option A → List A
opt none = []
opt (some a) = a ∷ []

-- The errors that the client's code returned, and those that its handler got, in order.
abbrev pub errors_of : List Event → List Error
errors_of [] = []
errors_of (hooked_by k e error ∷ tr) = opt error ++ errors_of tr
errors_of (formatted_by k e p error ∷ tr) = opt error ++ errors_of tr
errors_of (written_to k p error ∷ tr) = opt error ++ errors_of tr
errors_of (_ ∷ tr) = errors_of tr

abbrev pub handled_of : List Event → List Error
handled_of [] = []
handled_of (handled_by k d ∷ tr) = d ∷ handled_of tr
handled_of (_ ∷ tr) = handled_of tr

-- The lines that were formatted without an error, and those that were written, in order.
abbrev pub lines_of : List Event → List Bytes
lines_of [] = []
lines_of (formatted_by k e p none ∷ tr) = p ∷ lines_of tr
lines_of (_ ∷ tr) = lines_of tr

abbrev pub written_of : List Event → List Bytes
written_of [] = []
written_of (written_to k p error ∷ tr) = p ∷ written_of tr
written_of (_ ∷ tr) = written_of tr

-- Every error has reached the handler, and every line has been written, once and in order.
abbrev pub IsFaithful : List Event → Type 0
IsFaithful tr = (errors_of tr ≡ handled_of tr) × (lines_of tr ≡ written_of tr)

errors_of-append : (a b : List Event) → errors_of (a ++ b) ≡ errors_of a ++ errors_of b
errors_of-append [] b = refl
errors_of-append (hooked_by k e error ∷ tr) b =
    ap (λ x. opt error ++ x) (errors_of-append tr b) ∙ sym (append_assoc (opt error) _ _)
errors_of-append (formatted_by k e p error ∷ tr) b =
    ap (λ x. opt error ++ x) (errors_of-append tr b) ∙ sym (append_assoc (opt error) _ _)
errors_of-append (written_to k p error ∷ tr) b =
    ap (λ x. opt error ++ x) (errors_of-append tr b) ∙ sym (append_assoc (opt error) _ _)
errors_of-append (sampled_by k e b' ∷ tr) b = errors_of-append tr b
errors_of-append (handled_by k d ∷ tr) b = errors_of-append tr b

lines_of-append : (a b : List Event) → lines_of (a ++ b) ≡ lines_of a ++ lines_of b
lines_of-append [] b = refl
lines_of-append (sampled_by k e q ∷ tr) b = lines_of-append tr b
lines_of-append (hooked_by k e error ∷ tr) b = lines_of-append tr b
lines_of-append (formatted_by k e p none ∷ tr) b = ap (◌∷◌ p) (lines_of-append tr b)
lines_of-append (formatted_by k e p (some d) ∷ tr) b = lines_of-append tr b
lines_of-append (written_to k p error ∷ tr) b = lines_of-append tr b
lines_of-append (handled_by k d ∷ tr) b = lines_of-append tr b

written_of-append : (a b : List Event) → written_of (a ++ b) ≡ written_of a ++ written_of b
written_of-append [] b = refl
written_of-append (sampled_by k e q ∷ tr) b = written_of-append tr b
written_of-append (hooked_by k e error ∷ tr) b = written_of-append tr b
written_of-append (formatted_by k e p none ∷ tr) b = written_of-append tr b
written_of-append (formatted_by k e p (some d) ∷ tr) b = written_of-append tr b
written_of-append (written_to k p error ∷ tr) b = ap (◌∷◌ p) (written_of-append tr b)
written_of-append (handled_by k d ∷ tr) b = written_of-append tr b

handled_of-append : (a b : List Event) → handled_of (a ++ b) ≡ handled_of a ++ handled_of b
handled_of-append [] b = refl
handled_of-append (sampled_by k e q ∷ tr) b = handled_of-append tr b
handled_of-append (hooked_by k e error ∷ tr) b = handled_of-append tr b
handled_of-append (formatted_by k e p none ∷ tr) b = handled_of-append tr b
handled_of-append (formatted_by k e p (some d) ∷ tr) b = handled_of-append tr b
handled_of-append (written_to k p error ∷ tr) b = handled_of-append tr b
handled_of-append (handled_by k d ∷ tr) b = ap (◌∷◌ d) (handled_of-append tr b)

-- Between the formatting and the writing of lines, `ps` waits.
abbrev pub Balance : List Bytes → List Event → Type 0
Balance ps tr = (errors_of tr ≡ handled_of tr) × (lines_of tr ≡ written_of tr ++ ps)

pub extend :
    (tr evs : List Event) (ps qs : List Bytes)
    → Balance ps tr
    → errors_of evs ≡ handled_of evs
    → ps ++ lines_of evs ≡ written_of evs ++ qs
    → Balance qs (tr ++ evs)
extend tr evs ps qs (same, left) e w = (
  errors_of-append tr evs ∙ ap₂ ◌++◌ same e ∙ sym (handled_of-append tr evs),
  lines_of-append tr evs
      ∙ ap (λ x. x ++ lines_of evs) left
      ∙ append_assoc (written_of tr) ps (lines_of evs)
      ∙ ap (λ x. written_of tr ++ x) w
      ∙ sym (append_assoc (written_of tr) (written_of evs) qs)
      ∙ ap (λ x. x ++ qs) (sym (written_of-append tr evs)),
)

-- An event with an error, and then the report of the error to a handler.
pub report-Balance :
    (a : Answers) (k : ℕ) (error : Option Error) (ev : Event) (tr : List Event) (ps qs : List Bytes)
    → Balance ps tr
    → errors_of (ev ∷ []) ≡ opt error
    → handled_of (ev ∷ []) ≡ []
    → ps ++ lines_of (ev ∷ []) ≡ written_of (ev ∷ []) ++ qs
    → Balance qs (report (recording a) (some k) error (tr ++ ev ∷ []))
report-Balance a k none ev tr ps qs b e n w = extend tr (ev ∷ []) ps qs b (e ∙ sym n) w
report-Balance a k (some d) ev tr ps qs b e n w =
    subst (Balance qs) (sym (append_assoc tr (ev ∷ []) (handled_by k d ∷ []))) (
      extend tr (ev ∷ handling) ps qs b
        (errors_of-append (ev ∷ []) handling
          ∙ ap (λ x. x ++ []) e
          ∙ sym (handled_of-append (ev ∷ []) handling ∙ ap (λ x. x ++ d ∷ []) n))
        (ap (λ x. ps ++ x) (lines_of-append (ev ∷ []) handling ∙ append-nil (lines_of (ev ∷ [])))
          ∙ w
          ∙ sym (
              ap (λ x. x ++ qs)
                (written_of-append (ev ∷ []) handling ∙ append-nil (written_of (ev ∷ []))))))
  where
    handling : List Event
    handling = handled_by k d ∷ []
