-- ===== src/Sampling/Key.antt =====
-- sampling.go: the KeySampler. The hash is FNV-1a with 32 bits (hash/fnv).
use onelog.Prelude.{
  ℕ, ◌*◌, ◌/◌, ◌%◌, ◌^◌, ◌<◌, ◌≡◌, refl, ap, ◌∙◌, Bool, true, Option, none, some, List, [], ◌∷◌,
  ◌++◌, Bytes, bytes_eq, bytes_eq_iff, bytes_eq_ne, ap₂, All, if◌then◌else◌, ◌==◌, le64, arith,
}
use Prim.Native.Nat.{bit_xor}
use onelog.Async.{shr64}
use onelog.Field.{
  Field, FieldType, Entry, string_type, int_type, int64_type, uint_type, uint64_type, error_type,
  int64_field, uint64_field,
}

pub record KeySampler : Type 0 where
  pub n : ℕ
  pub key : Bytes

unfoldable pub new_key_sampler : ℕ → Bytes → KeySampler
new_key_sampler n key = record { n = if le64 n 0 then 1 else n; key = key }

-- `Write` of hash/fnv on the running hash.
unfoldable pub fnv1a : ℕ → Bytes → ℕ
fnv1a h [] = h
fnv1a h (c ∷ s) = fnv1a (bit_xor h c * 16777619 % 2 ^ 32) s

-- `Sum32` of the bytes, after `Reset`.
unfoldable pub sum32 : Bytes → ℕ
unfolding fnv1a
sum32 s = fnv1a 2166136261 s

-- byte(v >> (i * 8)) for i below 8, for an int64 and for a uint64.
abbrev pub int_bytes : ℕ → Bytes
int_bytes v =
    shr64 v 0 % 256
    ∷ shr64 v 8 % 256
    ∷ shr64 v 16 % 256
    ∷ shr64 v 24 % 256
    ∷ shr64 v 32 % 256
    ∷ shr64 v 40 % 256
    ∷ shr64 v 48 % 256
    ∷ shr64 v 56 % 256
    ∷ []

abbrev pub uint_bytes : ℕ → Bytes
uint_bytes v =
    v % 256
    ∷ v / 2 ^ 8 % 256
    ∷ v / 2 ^ 16 % 256
    ∷ v / 2 ^ 24 % 256
    ∷ v / 2 ^ 32 % 256
    ∷ v / 2 ^ 40 % 256
    ∷ v / 2 ^ 48 % 256
    ∷ v / 2 ^ 56 % 256
    ∷ []

-- What of a field is hashed; `none` for a type that is not.
unfoldable pub hashed : FieldType → Field → Option Bytes
hashed string_type f = some f.string
hashed int_type f = some (int_bytes f.integer)
hashed int64_type f = some (int_bytes f.integer)
hashed uint_type f = some (uint_bytes f.integer)
hashed uint64_type f = some (uint_bytes f.integer)
hashed error_type f = some f.string
hashed _ f = none

-- `panics` is Go's division by zero.
pub data Decision : Type 0 where
  decided : Bool → Decision
  panics : Decision

abbrev pub decide_hash : ℕ → Option Bytes → Decision
decide_hash n none = decided true
decide_hash n (some s) = if n % 2 ^ 32 == 0 then panics else decided (sum32 s % (n % 2 ^ 32) == 0)

-- The loop over the entry's fields.
unfoldable pub key_loop : KeySampler → List Field → Decision
unfolding hashed sum32
key_loop s [] = decided true
key_loop s (f ∷ fs) =
    let rest = key_loop s fs in
    if bytes_eq f.key s.key then decide_hash s.n (hashed f.type f) else rest

unfoldable pub key_sample : KeySampler → Entry → Decision
unfolding key_loop
key_sample s e = key_loop s e.fields

-- Where no field of `before` has the sampler's key and `f` has it, an entry with the fields
-- `before` alone is kept, and one with `f` and any others behind them is decided by `f`: fields
-- before it and behind it have no say.
pub key_sample_lem :
    (s : KeySampler) (e : Entry) (before after : List Field) (f : Field)
    → All (λ (g : Field). ¬ (g.key ≡ s.key)) before
    → f.key ≡ s.key
    → (e.fields ≡ before → key_sample s e ≡ decided true)
      × (e.fields ≡ before ++ f ∷ after → key_sample s e ≡ decide_hash s.n (hashed f.type f))
unfolding key_sample
key_sample_lem s e before after f others this = (
  (λ at. ap (key_loop s) at ∙ missing before others),
  (λ at. ap (key_loop s) at ∙ found before others),
)
  where
    missing :
        (gs : List Field) → All (λ (g : Field). ¬ (g.key ≡ s.key)) gs → key_loop s gs ≡ decided true
    missing [] h = refl
    missing (g ∷ gs) (h, hs) = rw (bytes_eq_ne g.key s.key h) (missing gs hs)

    found :
        (gs : List Field)
        → All (λ (g : Field). ¬ (g.key ≡ s.key)) gs
        → key_loop s (gs ++ f ∷ after) ≡ decide_hash s.n (hashed f.type f)
    found [] h = rw ((bytes_eq_iff f.key s.key).1 this) refl
    found (g ∷ gs) (h, hs) = rw (bytes_eq_ne g.key s.key h) (found gs hs)

int_bytes-uint_bytes : (v : ℕ) → v < 2 ^ 64 → int_bytes v ≡ uint_bytes v
int_bytes-uint_bytes v h = ap₂ ◌∷◌ {y = v % 256} (ground arith) (
    ap₂ ◌∷◌ {y = v / 256 % 256} (ground arith) (
      ap₂ ◌∷◌ {y = v / 65536 % 256} (ground arith) (
        ap₂ ◌∷◌ {y = v / 16777216 % 256} (ground arith) (
          ap₂ ◌∷◌ {y = v / 4294967296 % 256} (ground arith) (
            ap₂ ◌∷◌ {y = v / 1099511627776 % 256} (ground arith) (
              ap₂ ◌∷◌ {y = v / 281474976710656 % 256} (ground arith)
                (ap₂ ◌∷◌ {y = v / 72057594037927936 % 256} (ground arith) (refl))))))))

-- The bytes of an int64 and of a uint64 with the same pattern are the same, so that fields of
-- the two types with one key are always decided alike.
pub int_bytes-eq-uint_bytes :
    (s : KeySampler) (k : Bytes) (v : ℕ) (fs : List Field)
    → v < 2 ^ 64
    → key_loop s (int64_field k v ∷ fs) ≡ key_loop s (uint64_field k v ∷ fs)
unfolding key_loop hashed int64_field uint64_field
int_bytes-eq-uint_bytes s k v fs h =
    ap (λ bs. if bytes_eq k s.key then decide_hash s.n (some bs) else key_loop s fs)
      (int_bytes-uint_bytes v h)
