-- ===== src/Sampling/Rate.antt =====
-- sampling.go: the test of a counter, and the RateSampler over many calls.
use native.Mathlib.Nat.{
  pow-suc, one-le-pow, div-add-mod, mod-lt, mod_self, mul-one, mul-mod_right, add-zero, mod-add-mod,
  zero-div, add-mul-div_left, add-mul-mod_self_left, div-eq_of_lt, mod-eq_of_lt, div_self,
  pow-le-pow_right,
}
use native.Mathlib.Decide.{dec_lt}
use onelog.Prelude.{
  ℕ, zero, suc, ◌+◌, ◌-◌, ◌*◌, ◌/◌, ◌%◌, ◌^◌, ◌≤◌, ◌<◌, ◌≡◌, refl, sym, ap, ◌∙◌, bit_and, ==_iff,
  if◌then◌else◌, ◌==◌, add64, sub64, mag, le64, arith, Bool-cases, inl, inr, mag_exact,
}
use onelog.Prelude.Bits.{bit_and_mask, IsPowerOfTwo-bit_and}
use onelog.Sampling.{is_hit, RateSampler, new_rate_sampler, rate_sample}

pow-add : (a b : ℕ) → 2 ^ (a + b) ≡ 2 ^ a * 2 ^ b
pow-add a zero = ap (λ t. 2 ^ t) (add-zero a) ∙ sym (mul-one (2 ^ a))
pow-add a (suc b) = omega (
  arith,
  pow-add a b,
  pow-suc 2 b,
  pow-suc 2 (a + b),
  ap (λ t. 2 ^ t) {x = a + suc b} {y = suc (a + b)} (omega arith),
  ap (λ t. 2 ^ a * t) (pow-suc 2 b),
)

rem_of_sum : (x y p q : ℕ) → x + y ≡ p * q → x % p ≡ 0 → y % p ≡ 0
rem_of_sum x y p q total e =
    ap (λ t. t % p) {y = 0 + y} (omega arith)
    ∙ ap (λ t. (t + y) % p) (sym e)
    ∙ mod-add-mod x p y
    ∙ ap (λ t. t % p) total
    ∙ mul-mod_right p q

zero_tests : (a b : ℕ) → (a ≡ 0 → b ≡ 0) → (b ≡ 0 → a ≡ 0) → (a == 0) ≡ (b == 0)
zero_tests zero zero f g = refl
zero_tests zero (suc b) f g = absurd (omega (arith, f refl))
zero_tests (suc a) zero f g = absurd (omega (arith, g refl))
zero_tests (suc a) (suc b) f g = ground arith

-- The bits of a negative int64 below a mask are 0 exactly if those of its absolute value are.
low_bits_of_neg : (k c : ℕ) → k ≤ 64 → c < 2 ^ 64 → (c % 2 ^ k == 0) ≡ ((2 ^ 64 - c) % 2 ^ k == 0)
low_bits_of_neg k c h lt =
    let whole : 2 ^ 64 ≡ 2 ^ k * 2 ^ (64 - k) =
      ap (λ t. 2 ^ t) {x = 64} (omega arith) ∙ pow-add k (64 - k) in
    zero_tests _ _ (rem_of_sum c (2 ^ 64 - c) (2 ^ k) (2 ^ (64 - k)) (omega (arith, whole)))
      (rem_of_sum (2 ^ 64 - c) c (2 ^ k) (2 ^ (64 - k)) (omega (arith, whole)))

is_hit_pow : (k c : ℕ) → k ≤ 62 → c < 2 ^ 64 → is_hit (2 ^ k) c ≡ (mag c % 2 ^ k == 0)
is_hit_pow k c h lt =
    let low = one-le-pow k 2 (omega arith) in
    let high = pow-le-pow_right {n = 2} (omega arith) {i = k} {j = 62} h in
    let pred_eq : sub64 (2 ^ k) 1 ≡ 2 ^ k - 1 = omega (arith, high) in
    ground (
      arith,
      ap (bit_and (2 ^ k)) pred_eq ∙ bit_and_mask k (2 ^ k) ∙ mod_self (2 ^ k),
      ap (bit_and c) pred_eq ∙ bit_and_mask k c,
      low_bits_of_neg k c (omega arith) lt,
    )

small_exponent : (k : ℕ) → 2 ^ k < 2 ^ 63 → k ≤ 62
small_exponent k h = elim (dec_lt k 63) [
  | yes below ↦ omega arith
  | no above ↦
      absurd (omega (arith, pow-le-pow_right {n = 2} (omega arith) {i = 63} {j = k} (omega arith)))
]

-- The mask that the code takes for a power of two and the remainder that it takes for the other
-- rates agree: for a positive rate below 2 ^ 63, an entry is kept exactly if the rate divides the
-- counter's absolute value, also once the int64 counter has wrapped around to negative values.
pub is_hit_lem : (n c : ℕ) → 0 < n → n < 2 ^ 63 → c < 2 ^ 64 → is_hit n c ≡ (mag c % n == 0)
is_hit_lem n c pos small lt = elim (Bool-cases (bit_and n (sub64 n 1) == 0)) [
  | inl power ↦
      let pred_eq : sub64 n 1 ≡ n - 1 = omega arith in
      let (k, e) =
        IsPowerOfTwo-bit_and n pos (ap (bit_and n) (sym pred_eq) ∙ (==_iff _ 0).0 power) in
      rw e (is_hit_pow k c (small_exponent k (omega arith)) lt)
  | inr other ↦ ground (arith, mod-lt (mag c) pos)
]

-- One more step of the counter is a hit exactly if it begins a new multiple of the rate.
div-suc : (c n : ℕ) → 0 < n → (c + 1) / n ≡ (if (c + 1) % n == 0 then c / n + 1 else c / n)
div-suc c n pos =
    let r = c % n in
    let split : c + 1 ≡ r + 1 + n * (c / n) = omega (arith, div-add-mod c n) in
    let quotient = ap (λ t. t / n) split ∙ add-mul-div_left (r + 1) (c / n) pos in
    let remainder = ap (λ t. t % n) split ∙ add-mul-mod_self_left (r + 1) n (c / n) in
    elim (dec_lt (r + 1) n) [
      | yes more ↦ ground (arith, quotient, remainder, div-eq_of_lt more, mod-eq_of_lt more)
      | no last ↦
          let e : r + 1 ≡ n = omega (arith, mod-lt c pos) in
          ground (
            arith,
            quotient,
            remainder,
            ap (λ t. t / n) e ∙ div_self pos,
            ap (λ t. t % n) e ∙ mod_self n,
          )
    ]

-- How many of `m` calls in a row keep their entry.
pub kept : ℕ → RateSampler → ℕ
kept zero s = 0
kept (suc m) s = let rest = kept m (rate_sample s).0 in if (rate_sample s).1 then rest + 1 else rest

kept_from :
    (m n c : ℕ)
    → 0 < n
    → n < 2 ^ 63
    → c + m < 2 ^ 63
    → c / n + kept m (record { n = n; counter = c }) ≡ (c + m) / n
unfolding kept rate_sample
kept_from zero n c pos small fits = add-zero (c / n) ∙ ap (λ t. t / n) (sym (add-zero c))
kept_from (suc m) n c pos small fits =
    let next_eq : add64 c 1 ≡ c + 1 = omega arith in
    let hit =
      is_hit_lem n (c + 1) pos small (omega arith)
      ∙ ap (λ t. t % n == 0) (mag_exact (c + 1) (omega arith)) in
    rw (next_eq, hit)
      (ground (
        arith,
        kept_from m n (c + 1) pos small (omega arith),
        div-suc c n pos,
        ap (λ t. t / n) {x = c + suc m} {y = c + 1 + m} (omega arith),
      ))

-- A new RateSampler keeps exactly the whole part of `m / n` out of the first `m` calls, for an `m`
-- below 2 ^ 63, one in `n`; where the rate asked for is 0 or negative, it keeps all of them.
pub kept-new_rate_sampler :
    (m n : ℕ)
    → n < 2 ^ 64
    → m < 2 ^ 63
    → kept m (new_rate_sampler n) ≡ (if le64 n 0 then m else m / n)
unfolding new_rate_sampler
kept-new_rate_sampler m n small fits = elim (Bool-cases (le64 n 0)) [
  | inl none_left ↦
      rw none_left (ground (arith, kept_from m 1 0 (omega arith) (omega arith) (omega arith)))
  | inr rate ↦ rw rate (
      ground (
        arith,
        zero-div n,
        kept_from m n 0 (ground arith) (ground arith) (omega arith),
        ap (λ t. t / n) {x = 0 + m} {y = m} (omega arith),
      ))
]
