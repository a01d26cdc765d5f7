-- ===== src/Prelude/Bits.antt =====
-- `&` at variables: with a mask of low bits it is a remainder, and `n & (n - 1)` is 0 only at the
-- powers of two.
use Prim.Native.Nat.{
  ℕ, zero, suc, ◌+◌, ◌-◌, ◌*◌, ◌/◌, ◌%◌, ◌^◌, ◌≤◌, ◌<◌, min, bit_and, digits, bitwise,
}
use Prim.Native.Nat.{bit_and-bitwise}
use mathlib.Core.Path.{◌≡◌, refl, ap, sym, ◌∙◌}
use mathlib.Core.Logic.{◌⊎◌, inl, inr}
use mathlib.Core.WellFounded
use native.Mathlib.Nat.{
  pow-suc, one-le-pow, div-add-mod, add-mul-mod_self_left, mod-eq_of_lt, mod-lt,
}
use native.Mathlib.Decide.{dec_lt}
use native.Mathlib.Omega.{arith}
use onelog.Prelude.Order.{lt_wf}

-- The native operations stand for a recursion on binary digits with a count of digits to go. Any
-- count that is at least the first number does.
module _ (rest : ℕ → ℕ) (digit : ℕ → ℕ → ℕ) where
  abbrev Enough : ℕ → Type 0
  Enough a = (n b : ℕ) → a ≤ n → digits rest digit n a b ≡ bitwise rest digit a b

  Enough-step : (a : ℕ) → ((m : ℕ) → m < a → Enough m) → Enough a
  Enough-step zero ih zero b h = refl
  Enough-step zero ih (suc n) b h = refl
  Enough-step (suc a) ih zero b h = elim h [ ]
  Enough-step (suc a) ih (suc n) b h =
      let half = ih (suc a / 2) (omega arith) in
      let lowest = λ (t : ℕ). t * 2 + digit (suc a % 2) (b % 2) in
      ap lowest (half n (b / 2) (omega arith) ∙ sym (half a (b / 2) (omega arith)))

  Enough-all : (a : ℕ) → Enough a
  Enough-all a = WellFounded.induction lt_wf {C = Enough} a Enough-step

  lowest_digit :
      (a b : ℕ)
      → 0 < a
      → bitwise rest digit a b ≡ bitwise rest digit (a / 2) (b / 2) * 2 + digit (a % 2) (b % 2)
  lowest_digit zero b h = elim h [ ]
  lowest_digit (suc a) b h =
      ap (λ (t : ℕ). t * 2 + digit (suc a % 2) (b % 2))
        (Enough-all (suc a / 2) a (b / 2) (omega arith))

zero-bit_and : (b : ℕ) → bit_and 0 b ≡ 0
zero-bit_and b = bit_and-bitwise 0 b

pub bit_and_step : (x y : ℕ) → bit_and x y ≡ bit_and (x / 2) (y / 2) * 2 + min (x % 2) (y % 2)
bit_and_step x y = elim (dec_lt 0 x) [
  | yes pos ↦ omega (
    arith,
    bit_and-bitwise x y,
    bit_and-bitwise (x / 2) (y / 2),
    lowest_digit (λ _. zero) min x y pos,
  )
  | no none_left ↦
      let e : x ≡ 0 = omega arith in rw e (omega (arith, zero-bit_and y, zero-bit_and (y / 2)))
]

bit_and-zero : (a : ℕ) → bit_and a 0 ≡ 0
bit_and-zero a =
    WellFounded.induction lt_wf {C = λ n. bit_and n 0 ≡ 0} a
      λ n ih. grind (arith, bit_and_step n 0, zero-bit_and 0, λ (h : n / 2 < n). ih (n / 2) h)

pub bit_and_self : (a : ℕ) → bit_and a a ≡ a
bit_and_self a =
    WellFounded.induction lt_wf {C = λ n. bit_and n n ≡ n} a
      λ n ih. grind (arith, bit_and_step n n, zero-bit_and 0, λ (h : n / 2 < n). ih (n / 2) h)

-- The numbers whose binary form has one digit 1.
abbrev pub IsPowerOfTwo : ℕ → Type 0
IsPowerOfTwo n = (k : ℕ) × (n ≡ 2 ^ k)

mod_double : (p a : ℕ) → 0 < p → a % (p * 2) ≡ a / 2 % p * 2 + a % 2
mod_double p a h =
    let low = a / 2 % p * 2 + a % 2 in
    ap (λ t. t % (p * 2)) (omega (arith, div-add-mod (a / 2) p))
    ∙ add-mul-mod_self_left low (p * 2) (a / 2 / p)
    ∙ mod-eq_of_lt (omega (arith, mod-lt (a / 2) h))

pub bit_and_mask : (k a : ℕ) → bit_and a (2 ^ k - 1) ≡ a % 2 ^ k
bit_and_mask zero a = omega (arith, bit_and-zero a)
bit_and_mask (suc k) a =
    let half : (2 ^ suc k - 1) / 2 ≡ 2 ^ k - 1 = omega (arith, pow-suc 2 k) in
    omega (
      arith,
      bit_and_step a (2 ^ suc k - 1),
      ap (bit_and (a / 2)) half,
      bit_and_mask k (a / 2),
      mod_double (2 ^ k) a (one-le-pow k 2 (omega arith)),
      ap (λ t. a % t) (pow-suc 2 k),
      pow-suc 2 k,
      one-le-pow k 2 (omega arith),
    )

double-IsPowerOfTwo : (n : ℕ) → IsPowerOfTwo (n / 2) → n % 2 ≡ 0 → IsPowerOfTwo n
double-IsPowerOfTwo n (k, e) h = (suc k, omega (arith, e, pow-suc 2 k))

parity : (n : ℕ) → (n % 2 ≡ 0) ⊎ (n % 2 ≡ 1)
parity n = omega arith

half_pred : (n : ℕ) → n % 2 ≡ 0 → 0 < n → (n - 1) / 2 ≡ n / 2 - 1
half_pred n e h = omega arith

half_pred_odd : (n : ℕ) → n % 2 ≡ 1 → (n - 1) / 2 ≡ n / 2
half_pred_odd n e = omega arith

pub IsPowerOfTwo-bit_and : (n : ℕ) → 0 < n → bit_and n (n - 1) ≡ 0 → IsPowerOfTwo n
IsPowerOfTwo-bit_and n =
    WellFounded.induction lt_wf {C = λ m. 0 < m → bit_and m (m - 1) ≡ 0 → IsPowerOfTwo m} n
      λ m ih pos h. elim (parity m) [
        | inl even ↦
            double-IsPowerOfTwo m
              (ih (m / 2) (omega arith) (omega arith) (
                omega (arith, bit_and_step m (m - 1), ap (bit_and (m / 2)) (half_pred m even pos))))
              even
        | inr odd ↦ (
          0,
          omega (
            arith,
            bit_and_step m (m - 1),
            ap (bit_and (m / 2)) (half_pred_odd m odd),
            bit_and_self (m / 2),
          ),
        )
      ]
