-- ===== src/Entry.antt =====
-- entry.go: the life of an entry, from the pool to its release, and the calls that add fields.
-- Writing an entry is in Logger/Pipeline.antt.
mod Tests
pub mod Fields
use onelog.Prelude.{ℕ, Bool, Option, none, some, List, [], ◌∷◌, ◌++◌, Bytes, map, leb}
use onelog.Errors.{Error}
use onelog.Level.{AtomicLevel}
use onelog.Field.{
  Payload, Field, Entry, zero_field, str_field, bool_field, int_field, int64_field, uint_field,
  uint64_field, float32_field, float64_field, time_field, duration_field, err_field,
  named_err_field, any_field, binary_field, array_field,
}

-- The pool gives an entry that was released before, or a new one: `recycled`, of which the level
-- and the message stay. `now` is the time.
unfoldable pub new_entry : Entry → ℕ → Entry
new_entry recycled now = record recycled { time = now; fields = []; ctx = none; caller_info = none }

-- What `New` of the pool makes.
abbrev pub pooled_entry : Entry
pooled_entry = record {
  level = 0;
  time = 0;
  message = [];
  fields = [];
  ctx = none;
  caller_info = none;
}

-- The array behind the fields is cleared, and the slice is empty then.
abbrev pub zeroed : List Field → List Field
zeroed = map (λ f. zero_field)

-- What goes back to the pool: the entry, and what is left in the array behind its fields.
unfoldable pub release : Entry → Entry × List Field
release e =
    (record e { fields = []; message = []; ctx = none; caller_info = none }, zeroed e.fields)

-- The logger's level is an argument.
unfoldable pub entry_enabled : AtomicLevel → Entry → Bool
entry_enabled a e = leb a.level e.level

unfoldable pub with_field : Field → Entry → Entry
with_field f e = record e { fields = e.fields ++ f ∷ [] }

unfoldable pub with_fields : List Field → Entry → Entry
with_fields fs e = record e { fields = e.fields ++ fs }

unfoldable pub with_context : ℕ → Entry → Entry
with_context ctx e = record e { ctx = some ctx }

-- `background` is `context.Background()`.
unfoldable pub context : ℕ → Entry → ℕ
context background e = context_or e.ctx
  where
    context_or : Option ℕ → ℕ
    context_or none = background
    context_or (some c) = c

unfoldable pub str : Bytes → Bytes → Entry → Entry
str k val e = record e { fields = e.fields ++ str_field k val ∷ [] }

unfoldable pub bool : Bytes → Bool → Entry → Entry
bool k val e = record e { fields = e.fields ++ bool_field k val ∷ [] }

unfoldable pub int : Bytes → ℕ → Entry → Entry
int k val e = record e { fields = e.fields ++ int_field k val ∷ [] }

unfoldable pub int64 : Bytes → ℕ → Entry → Entry
int64 k val e = record e { fields = e.fields ++ int64_field k val ∷ [] }

unfoldable pub uint : Bytes → ℕ → Entry → Entry
uint k val e = record e { fields = e.fields ++ uint_field k val ∷ [] }

unfoldable pub uint64 : Bytes → ℕ → Entry → Entry
uint64 k val e = record e { fields = e.fields ++ uint64_field k val ∷ [] }

unfoldable pub float32 : (ℕ → ℕ) → Bytes → ℕ → Entry → Entry
float32 widen k val e = record e { fields = e.fields ++ float32_field widen k val ∷ [] }

unfoldable pub float64 : Bytes → ℕ → Entry → Entry
float64 k val e = record e { fields = e.fields ++ float64_field k val ∷ [] }

unfoldable pub time : Bytes → ℕ → Entry → Entry
time k val e = record e { fields = e.fields ++ time_field k val ∷ [] }

unfoldable pub duration : Bytes → ℕ → Entry → Entry
duration k val e = record e { fields = e.fields ++ duration_field k val ∷ [] }

-- `text` is the error's `Error()`; a nil error adds nothing.
unfoldable pub err : (Error → Bytes) → Option Error → Entry → Entry
err text none e = e
err text (some d) e = record e { fields = e.fields ++ err_field text (some d) ∷ [] }

unfoldable pub named_err : (Error → Bytes) → Bytes → Option Error → Entry → Entry
named_err text k none e = e
named_err text k (some d) e = record e { fields = e.fields ++ named_err_field text k (some d) ∷ [] }

unfoldable pub any : Bytes → Payload → Entry → Entry
any k val e = record e { fields = e.fields ++ any_field k val ∷ [] }

unfoldable pub binary : Bytes → Option Bytes → Entry → Entry
binary k val e = record e { fields = e.fields ++ binary_field k val ∷ [] }

unfoldable pub array : Bytes → Payload → Entry → Entry
array k val e = record e { fields = e.fields ++ array_field k val ∷ [] }
