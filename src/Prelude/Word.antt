-- ===== src/Prelude/Word.antt =====
-- Go's `int` and `int64`: a value is its two's complement pattern, a number below 2 ^ 64.
use Prim.Native.Nat.{ℕ, ◌+◌, ◌-◌, ◌*◌, ◌/◌, ◌%◌, ◌^◌, ◌<◌}
use mathlib.Core.Path.{◌≡◌}
use mathlib.Core.Bool.{Bool, false, not}
use native.Mathlib.Omega.{arith}
use onelog.Prelude.Tests.{leb, ltb, if◌then◌else◌}

abbrev pub add64 : ℕ → ℕ → ℕ
add64 a b = (a + b) % 2 ^ 64

abbrev pub sub64 : ℕ → ℕ → ℕ
sub64 a b = (a + 2 ^ 64 - b) % 2 ^ 64

abbrev pub mul64 : ℕ → ℕ → ℕ
mul64 a b = (a * b) % 2 ^ 64

abbrev pub is_neg : ℕ → Bool
is_neg a = leb (2 ^ 63) a

-- The absolute value, as a number.
abbrev pub mag : ℕ → ℕ
mag a = if is_neg a then 2 ^ 64 - a else a

-- Signed comparisons: shifting by 2 ^ 63 turns the signed order into that of the patterns.
abbrev pub le64 : ℕ → ℕ → Bool
le64 a b = leb (add64 a (2 ^ 63)) (add64 b (2 ^ 63))

abbrev pub lt64 : ℕ → ℕ → Bool
lt64 a b = ltb (add64 a (2 ^ 63)) (add64 b (2 ^ 63))

-- Go's division truncates towards zero. It is used at a divisor that is not 0.
abbrev pub div64 : ℕ → ℕ → ℕ
div64 a b =
    let q = mag a / mag b in
    let below = if is_neg a then not (is_neg b) else is_neg b in
    if below then (2 ^ 64 - q) % 2 ^ 64 else q

-- The remainder has the dividend's sign.
abbrev pub rem64 : ℕ → ℕ → ℕ
rem64 a b = let r = mag a % mag b in if is_neg a then (2 ^ 64 - r) % 2 ^ 64 else r

-- On values that are not negative these are the operations on numbers.
pub is_neg_exact : (a : ℕ) → a < 2 ^ 63 → is_neg a ≡ false
is_neg_exact a h = ground arith

pub mag_exact : (a : ℕ) → a < 2 ^ 63 → mag a ≡ a
mag_exact a h = ground arith

pub div64_exact : (a b : ℕ) → a < 2 ^ 63 → b < 2 ^ 63 → div64 a b ≡ a / b
div64_exact a b h k = rw (is_neg_exact a h, is_neg_exact b k)

pub rem64_exact : (a b : ℕ) → a < 2 ^ 63 → b < 2 ^ 63 → rem64 a b ≡ a % b
rem64_exact a b h k = rw (is_neg_exact a h, is_neg_exact b k)

pub le64_exact : (a b : ℕ) → a < 2 ^ 63 → b < 2 ^ 63 → le64 a b ≡ leb a b
le64_exact a b h k = ground arith

pub lt64_exact : (a b : ℕ) → a < 2 ^ 63 → b < 2 ^ 63 → lt64 a b ≡ ltb a b
lt64_exact a b h k = ground arith
