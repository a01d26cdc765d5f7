-- ===== src/Entry/Fields.antt =====
-- entry.go: a chain of calls on an entry is one list of fields.
use onelog.Prelude.{
  ℕ, ◌≡◌, refl, sym, ap, ◌∙◌, Bool, Option, none, some, List, [], ◌∷◌, ◌++◌, append_assoc,
  append-nil, Bytes,
}
use onelog.Errors.{Error}
use onelog.Field.{
  Payload, Field, Entry, str_field, bool_field, int_field, int64_field, uint_field, uint64_field,
  float32_field, float64_field, time_field, duration_field, err_field, named_err_field, any_field,
  binary_field, array_field,
}
use onelog.Entry.{
  with_field, with_fields, str, bool, int, int64, uint, uint64, float32, float64, time, duration,
  err, named_err, any, binary, array,
}

-- The calls that add fields.
pub data Call : Type 0 where
  adds : Field → Call
  adds_all : List Field → Call
  adds_str : Bytes → Bytes → Call
  adds_bool : Bytes → Bool → Call
  adds_int adds_int64 adds_uint adds_uint64 adds_float32 adds_float64 : Bytes → ℕ → Call
  adds_time adds_duration : Bytes → ℕ → Call
  adds_err : Option Error → Call
  adds_named_err : Bytes → Option Error → Call
  adds_any : Bytes → Payload → Call
  adds_binary : Bytes → Option Bytes → Call
  adds_array : Bytes → Payload → Call

module _ (widen : ℕ → ℕ) (text : Error → Bytes) where
  pub run_call : Call → Entry → Entry
  unfolding with_field with_fields str bool int int64 uint uint64 float32 float64 time duration err
      named_err any binary array
  run_call (adds f) e = with_field f e
  run_call (adds_all fs) e = with_fields fs e
  run_call (adds_str k v) e = str k v e
  run_call (adds_bool k v) e = bool k v e
  run_call (adds_int k v) e = int k v e
  run_call (adds_int64 k v) e = int64 k v e
  run_call (adds_uint k v) e = uint k v e
  run_call (adds_uint64 k v) e = uint64 k v e
  run_call (adds_float32 k v) e = float32 widen k v e
  run_call (adds_float64 k v) e = float64 k v e
  run_call (adds_time k v) e = time k v e
  run_call (adds_duration k v) e = duration k v e
  run_call (adds_err d) e = err text d e
  run_call (adds_named_err k d) e = named_err text k d e
  run_call (adds_any k v) e = any k v e
  run_call (adds_binary k v) e = binary k v e
  run_call (adds_array k v) e = array k v e

  pub run_calls : List Call → Entry → Entry
  unfolding run_call
  run_calls [] e = e
  run_calls (c ∷ cs) e = run_calls cs (run_call c e)

  abbrev pub error_fields : (Option Error → Field) → Option Error → List Field
  error_fields make none = []
  error_fields make (some d) = make (some d) ∷ []

  -- The fields that the constructors of field.go make for a call.
  abbrev pub call_fields : Call → List Field
  call_fields (adds f) = f ∷ []
  call_fields (adds_all fs) = fs
  call_fields (adds_str k v) = str_field k v ∷ []
  call_fields (adds_bool k v) = bool_field k v ∷ []
  call_fields (adds_int k v) = int_field k v ∷ []
  call_fields (adds_int64 k v) = int64_field k v ∷ []
  call_fields (adds_uint k v) = uint_field k v ∷ []
  call_fields (adds_uint64 k v) = uint64_field k v ∷ []
  call_fields (adds_float32 k v) = float32_field widen k v ∷ []
  call_fields (adds_float64 k v) = float64_field k v ∷ []
  call_fields (adds_time k v) = time_field k v ∷ []
  call_fields (adds_duration k v) = duration_field k v ∷ []
  call_fields (adds_err d) = error_fields (err_field text) d
  call_fields (adds_named_err k d) = error_fields (named_err_field text k) d
  call_fields (adds_any k v) = any_field k v ∷ []
  call_fields (adds_binary k v) = binary_field k v ∷ []
  call_fields (adds_array k v) = array_field k v ∷ []

  abbrev pub all_fields : List Call → List Field
  all_fields [] = []
  all_fields (c ∷ cs) = call_fields c ++ all_fields cs

  run_call-with_fields : (c : Call) (e : Entry) → run_call c e ≡ with_fields (call_fields c) e
  unfolding run_call with_fields
  run_call-with_fields (adds_err none) e =
      ap (λ fs. record e { fields = fs }) (sym (append-nil e.fields))
  run_call-with_fields (adds_err (some d)) e = refl
  run_call-with_fields (adds_named_err k none) e =
      ap (λ fs. record e { fields = fs }) (sym (append-nil e.fields))
  run_call-with_fields (adds_named_err k (some d)) e = refl
  run_call-with_fields (adds f) e = refl
  run_call-with_fields _ e = refl

  -- A chain of calls is one call of WithFields with the fields of all of them, in order: the
  -- rest of the entry stays, and Err and NamedErr add a field unless the error is nil.
  pub run_calls-with_fields :
      (cs : List Call) (e : Entry) → run_calls cs e ≡ with_fields (all_fields cs) e
  unfolding run_calls with_fields
  run_calls-with_fields [] e = ap (λ fs. record e { fields = fs }) (sym (append-nil e.fields))
  run_calls-with_fields (c ∷ cs) e =
      ap (run_calls cs) (run_call-with_fields c e)
      ∙ run_calls-with_fields cs (with_fields (call_fields c) e)
      ∙ ap (λ fs. record e { fields = fs }) (simp append_assoc)
