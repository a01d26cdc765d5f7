-- ===== src/Field.antt =====
-- field.go and the data of entry.go: fields, their constructors, and the entry that holds them.
use onelog.Prelude.{ℕ, Bool, true, false, Option, none, some, List, [], Bytes, codes, if◌then◌else◌}
use onelog.Errors.{Error}

pub data FieldType : Type 0 where
  unknown_type bool_type int_type int64_type uint_type uint64_type : FieldType
  float32_type float64_type string_type time_type duration_type error_type : FieldType
  object_type array_type binary_type : FieldType

-- What an `interface{}` of a field holds. A time is in nanoseconds, a duration is an int64, and a
-- value of another type is known by a number.
pub data Payload : Type 0 where
  nil_value : Payload
  time_value : ℕ → Payload
  duration_value : ℕ → Payload
  error_value : Error → Payload
  bytes_value : Option Bytes → Payload
  other_value : ℕ → Payload

-- `Integer` is an int64 pattern, `Float` the bits of a float64.
pub record Field : Type 0 where
  pub key : Bytes
  pub type : FieldType
  pub integer : ℕ
  pub float : ℕ
  pub string : Bytes
  pub interface : Payload
  pub is_sensitive : Bool

-- The field of a literal that sets the key and the type only.
abbrev pub blank : Bytes → FieldType → Field
blank k t = record {
  key = k;
  type = t;
  integer = 0;
  float = 0;
  string = [];
  interface = nil_value;
  is_sensitive = false;
}

abbrev pub zero_field : Field
zero_field = blank [] unknown_type

unfoldable pub bool_field : Bytes → Bool → Field
bool_field k val = record (blank k bool_type) { integer = if val then 1 else 0 }

unfoldable pub int_field : Bytes → ℕ → Field
int_field k val = record (blank k int_type) { integer = val }

unfoldable pub int64_field : Bytes → ℕ → Field
int64_field k val = record (blank k int64_type) { integer = val }

-- The conversion of a uint to an int64 keeps the pattern.
unfoldable pub uint_field : Bytes → ℕ → Field
uint_field k val = record (blank k uint_type) { integer = val }

unfoldable pub uint64_field : Bytes → ℕ → Field
uint64_field k val = record (blank k uint64_type) { integer = val }

-- `widen` is the conversion of a float32 to a float64.
unfoldable pub float32_field : (ℕ → ℕ) → Bytes → ℕ → Field
float32_field widen k val = record (blank k float32_type) { float = widen val }

unfoldable pub float64_field : Bytes → ℕ → Field
float64_field k val = record (blank k float64_type) { float = val }

unfoldable pub str_field : Bytes → Bytes → Field
str_field k val = record (blank k string_type) { string = val }

unfoldable pub time_field : Bytes → ℕ → Field
time_field k val = record (blank k time_type) { interface = time_value val }

unfoldable pub duration_field : Bytes → ℕ → Field
duration_field k val = record (blank k duration_type) { interface = duration_value val }

-- `text` is the error's `Error()`.
module _ (text : Error → Bytes) where
  unfoldable pub named_err_field : Bytes → Option Error → Field
  named_err_field k none = blank k error_type
  named_err_field k (some e) = record (blank k error_type) {
    interface = error_value e;
    string = text e;
  }

  unfoldable pub err_field : Option Error → Field
  err_field none = blank (codes "error") error_type
  err_field (some e) = record (blank (codes "error") error_type) {
    interface = error_value e;
    string = text e;
  }

unfoldable pub any_field : Bytes → Payload → Field
any_field k val = record (blank k object_type) { interface = val }

unfoldable pub binary_field : Bytes → Option Bytes → Field
binary_field k val = record (blank k binary_type) { interface = bytes_value val }

unfoldable pub array_field : Bytes → Payload → Field
array_field k val = record (blank k array_type) { interface = val }

unfoldable pub sensitive : Field → Field
sensitive f = record f { is_sensitive = true }

pub record CallerInfo : Type 0 where
  pub file : Bytes
  pub line : ℕ
  pub function : Bytes

-- The logger of an entry is the one that runs it; the context is known by a number.
pub record Entry : Type 0 where
  pub level : ℕ
  pub time : ℕ
  pub message : Bytes
  pub fields : List Field
  pub ctx : Option ℕ
  pub caller_info : Option CallerInfo
