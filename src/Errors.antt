-- ===== src/Errors.antt =====
-- errors.go: the sentinel errors, wrapping, and `errors.Is` along a chain of wrapped errors.
mod Tests
use onelog.Prelude.{Bytes, ◌≡◌, refl, Bool, true, false, Option, none, some}
use onelog.Prelude.{List, [], ◌∷◌, ◌⊎◌, inl, inr, ◌∙◌, fun_ext}

pub data Sentinel : Type 0 where
  buffer_full invalid_level invalid_formatter invalid_writer : Sentinel
  write_failed logger_closed field_not_found : Sentinel

-- An error value: a sentinel, an error of another package by its text, or one that
-- `fmt.Errorf("%s: %w", …)` wraps.
pub data Error : Type 0 where
  sentinel : Sentinel → Error
  foreign : Bytes → Error
  wrapped : Bytes → Error → Error

pub Sentinel-discrete : Discrete Sentinel
Sentinel-discrete = hlevel

abbrev pub same : Sentinel → Sentinel → Bool
same buffer_full buffer_full = true
same invalid_level invalid_level = true
same invalid_formatter invalid_formatter = true
same invalid_writer invalid_writer = true
same write_failed write_failed = true
same logger_closed logger_closed = true
same field_not_found field_not_found = true
same _ _ = false

-- `errors.Is(err, target)` for a sentinel: a search along the chain; nil is no error.
abbrev pub is_chain : Error → Sentinel → Bool
is_chain (sentinel s) t = same s t
is_chain (foreign m) t = false
is_chain (wrapped m e) t = is_chain e t

abbrev pub is : Option Error → Sentinel → Bool
is none t = false
is (some e) t = is_chain e t

unfoldable pub wrap_error : Option Error → Bytes → Option Error
wrap_error none message = none
wrap_error (some e) message = some (wrapped message e)

-- `WrapErrorf`, where `formatted` is the text of `fmt.Sprintf(format, args...)`.
unfoldable pub wrap_errorf : Option Error → Bytes → Option Error
wrap_errorf none formatted = none
wrap_errorf (some e) formatted = some (wrapped formatted e)

pub is_buffer_full_error : Option Error → Bool
is_buffer_full_error e = is e buffer_full

pub is_invalid_level_error : Option Error → Bool
is_invalid_level_error e = is e invalid_level

pub is_invalid_formatter_error : Option Error → Bool
is_invalid_formatter_error e = is e invalid_formatter

pub is_invalid_writer_error : Option Error → Bool
is_invalid_writer_error e = is e invalid_writer

pub is_write_failed_error : Option Error → Bool
is_write_failed_error e = is e write_failed

pub is_logger_closed_error : Option Error → Bool
is_logger_closed_error e = is e logger_closed

pub is_field_not_found_error : Option Error → Bool
is_field_not_found_error e = is e field_not_found

-- The answers of the seven predicates, in the order of the file.
abbrev pub all_checks : Option Error → List Bool
all_checks e =
    is_buffer_full_error e
    ∷ is_invalid_level_error e
    ∷ is_invalid_formatter_error e
    ∷ is_invalid_writer_error e
    ∷ is_write_failed_error e
    ∷ is_logger_closed_error e
    ∷ is_field_not_found_error e
    ∷ []

-- One call of `WrapError` (left) or of `WrapErrorf` (right), with its message.
abbrev pub wrap_all : Option Error → List (Bytes ⊎ Bytes) → Option Error
wrap_all e [] = e
wrap_all e (inl m ∷ ms) = wrap_error (wrap_all e ms) m
wrap_all e (inr m ∷ ms) = wrap_errorf (wrap_all e ms) m

is-wrap_error :
    (e : Option Error) (m : Bytes) (t : Sentinel)
    → (is (wrap_error e m) t ≡ is e t) × (is (wrap_errorf e m) t ≡ is e t)
unfolding wrap_error wrap_errorf
is-wrap_error none m t = (refl, refl)
is-wrap_error (some e) m t = (refl, refl)

is-wrap_all :
    (e : Option Error) (ms : List (Bytes ⊎ Bytes)) (t : Sentinel) → is (wrap_all e ms) t ≡ is e t
is-wrap_all e [] t = refl
is-wrap_all e (inl m ∷ ms) t = (is-wrap_error _ m t).0 ∙ is-wrap_all e ms t
is-wrap_all e (inr m ∷ ms) t = (is-wrap_error _ m t).1 ∙ is-wrap_all e ms t

wrap_all-none : (ms : List (Bytes ⊎ Bytes)) → wrap_all none ms ≡ none
unfolding wrap_error wrap_errorf
wrap_all-none [] = refl
wrap_all-none (inl m ∷ ms) = rw (wrap_all-none ms)
wrap_all-none (inr m ∷ ms) = rw (wrap_all-none ms)

-- Wrapping an error by WrapError and WrapErrorf, any number of times, changes the answer of none
-- of the seven predicates, and a nil error stays nil.
pub all_checks-wrap_all :
    (e : Option Error) (ms : List (Bytes ⊎ Bytes))
    → (all_checks (wrap_all e ms) ≡ all_checks e) × (wrap_all none ms ≡ none)
unfolding is_buffer_full_error is_invalid_level_error is_invalid_formatter_error
    is_invalid_writer_error is_write_failed_error is_logger_closed_error is_field_not_found_error
all_checks-wrap_all e ms = (rw (fun_ext (is-wrap_all e ms)), wrap_all-none ms)
