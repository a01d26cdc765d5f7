-- ===== src/Entry/Tests.antt =====
-- The theorems about entries at concrete data.
use onelog.Prelude.{◌≡◌, true, none, some, List, [], ◌∷◌, Bytes, codes}
use onelog.Errors.{Error, foreign}
use onelog.Entry.{pooled_entry, with_fields}
use onelog.Entry.Fields.{
  Call, adds_str, adds_err, adds_bool, all_fields, run_calls, run_calls-with_fields,
}

abbrev text : Error → Bytes
text e = codes "failed"

abbrev calls : List Call
calls =
    adds_str (codes "user") (codes "ann")
    ∷ adds_err none
    ∷ adds_err (some (foreign (codes "failed")))
    ∷ adds_bool (codes "ok") true
    ∷ []

run_calls-with_fields_example :
    run_calls (λ n. n) text calls pooled_entry
    ≡ with_fields (all_fields (λ n. n) text calls) pooled_entry
run_calls-with_fields_example = run_calls-with_fields (λ n. n) text calls pooled_entry
