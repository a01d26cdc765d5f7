-- ===== src/Sampling/Adaptive.antt =====
-- sampling.go: the AdaptiveSampler over one call and over many windows.
use native.Mathlib.Nat.{pow-suc, one-le-pow}
use native.Mathlib.Decide.{dec_lt}
use onelog.Prelude.{
  ℕ, zero, suc, ◌+◌, ◌*◌, ◌%◌, ◌^◌, ◌≤◌, ◌<◌, ◌≡◌, refl, sym, ap, ◌∙◌, Bool, if◌then◌else◌, ◌==◌,
  ltb, add64, mag, le64, lt64, arith, Bool-cases, inl, inr, min, max,
}
use onelog.Sampling.{
  is_hit, AdaptiveSampler, new_adaptive_sampler, adjust_sampling_rate, adaptive_sample, elapsed,
  or_default,
}
use onelog.Sampling.Rate.{is_hit_lem}

-- The rates are positive, the current one lies between the two bounds, doubling it does not
-- overflow, and the counters are int64 patterns.
pub record IsTuned (s : AdaptiveSampler) : Type 0 where
  pub base_pos : 0 < s.base_rate
  pub max_small : s.max_rate < 2 ^ 62
  pub at_least : s.base_rate ≤ s.current_rate
  pub at_most : s.current_rate ≤ s.max_rate
  pub threshold_small : s.threshold < 2 ^ 63
  pub volume_small : s.volume < 2 ^ 63

-- The factor is between 0 and 1.
abbrev pub Decays : (ℕ → ℕ) → Type 0
Decays decay = (r : ℕ) → decay r ≤ r

-- The rate of the next window, by the volume of the last.
abbrev pub next_rate : AdaptiveSampler → ℕ → ℕ
next_rate s volume =
    if ltb s.threshold volume
    then min (2 * s.current_rate) s.max_rate
    else max (s.decay s.current_rate) s.base_rate

adjust_sampling_rate_lem :
    (now : ℕ) (s : AdaptiveSampler)
    → IsTuned s
    → Decays s.decay
    → IsTuned (adjust_sampling_rate now s)
      × ((adjust_sampling_rate now s).current_rate ≡ next_rate s s.volume)
      × ((adjust_sampling_rate now s).volume ≡ 0)
      × ((adjust_sampling_rate now s).last_reset ≡ now)
      × ((adjust_sampling_rate now s).counter ≡ s.counter)
unfolding adjust_sampling_rate
adjust_sampling_rate_lem now s v d =
    let h = d s.current_rate in
    (
      record {
        base_pos = v.base_pos;
        max_small = v.max_small;
        at_least = ground arith;
        at_most = ground arith;
        threshold_small = v.threshold_small;
        volume_small = omega arith;
      },
      ground arith,
      refl,
      refl,
      refl,
    )

IsTuned-counter : {s : AdaptiveSampler} (k : ℕ) → IsTuned s → IsTuned (record s { counter = k })
IsTuned-counter k v = record {
  base_pos = v.base_pos;
  max_small = v.max_small;
  at_least = v.at_least;
  at_most = v.at_most;
  threshold_small = v.threshold_small;
  volume_small = v.volume_small;
}

-- The decision of a tuned sampler.
decision :
    {s : AdaptiveSampler} (c : ℕ)
    → IsTuned s
    → is_hit s.current_rate (add64 c 1) ≡ (mag (add64 c 1) % s.current_rate == 0)
decision {s} c v = is_hit_lem s.current_rate (add64 c 1) (omega arith) (omega arith) (omega arith)

-- Let a sampler be tuned, its factor raise no rate, and its volume stay below 2 ^ 63. A call keeps
-- it tuned, so that the current rate stays between the base rate and the maximum. Within the window
-- it counts the entry and leaves the rate; past the window it starts a new one, with the doubled
-- rate, at most the maximum, where the volume was above the threshold, and the decayed one, at
-- least the base rate, where it was not. The entry is kept exactly if the rate divides the
-- counter's absolute value.
pub adaptive_sample_lem :
    (now : ℕ) (s : AdaptiveSampler)
    → IsTuned s
    → Decays s.decay
    → s.volume + 1 < 2 ^ 63
    → s.counter < 2 ^ 64
    → let (s', keep) = adaptive_sample now s in
      let late = lt64 s.window_size (elapsed now s.last_reset) in
      IsTuned s'
      × (s'.current_rate ≡ (if late then next_rate s (s.volume + 1) else s.current_rate))
      × (s'.volume ≡ (if late then 0 else s.volume + 1))
      × (s'.last_reset ≡ (if late then now else s.last_reset))
      × (s'.counter ≡ add64 s.counter 1)
      × (keep ≡ (mag s'.counter % s'.current_rate == 0))
unfolding adaptive_sample
adaptive_sample_lem now s v d fits small =
    let next_volume : add64 s.volume 1 ≡ s.volume + 1 = omega arith in
    let counted = record s { volume = s.volume + 1 } in
    let v' : IsTuned counted = counted_IsTuned in
    elim (Bool-cases (lt64 s.window_size (elapsed now s.last_reset))) [
      | inl late ↦
          let (tuned, rate, volume, reset, counter) = adjust_sampling_rate_lem now counted v' d in
          rw (next_volume, late)
            (
              IsTuned-counter _ tuned,
              rate,
              volume,
              reset,
              ap (λ c. add64 c 1) counter,
              decision (adjust_sampling_rate now counted).counter tuned,
            )
      | inr early ↦
          rw (next_volume, early)
            (IsTuned-counter _ v', refl, refl, refl, refl, decision s.counter v')
    ]
  where
    counted_IsTuned : IsTuned (record s { volume = s.volume + 1 })
    counted_IsTuned = record {
      base_pos = v.base_pos;
      max_small = v.max_small;
      at_least = v.at_least;
      at_most = v.at_most;
      threshold_small = v.threshold_small;
      volume_small = fits;
    }

-- A new sampler begins at the base rate given, or at 1 where that is not positive, and now; it is
-- tuned where the base rate is at most the maximum, defaults included, and the maximum is below 2 ^
-- 62.
pub new_adaptive_sampler-IsTuned :
    {F : Type 0} (in_range : F → Bool) (nine_tenths : F) (decay_by : F → ℕ → ℕ) (factor : F)
    (base max_rate window threshold now : ℕ)
    → or_default base 1 ≤ or_default max_rate 1000
    → or_default max_rate 1000 < 2 ^ 62
    → base < 2 ^ 64
    → threshold < 2 ^ 64
    → let s =
        new_adaptive_sampler in_range nine_tenths decay_by base max_rate window threshold factor
          now in
      IsTuned s × (s.current_rate ≡ (if le64 base 0 then 1 else base)) × (s.last_reset ≡ now)
unfolding new_adaptive_sampler
new_adaptive_sampler-IsTuned in_range nine_tenths decay_by factor base max_rate window threshold now
      ordered small b64 t64 =
    (
      record {
        base_pos = ground arith;
        max_small = small;
        at_least = omega arith;
        at_most = ordered;
        threshold_small = ground arith;
        volume_small = omega arith;
      },
      refl,
      refl,
    )

-- The sampler after `j` windows in a row, each with the volume given.
pub windows : ℕ → ℕ → ℕ → AdaptiveSampler → AdaptiveSampler
windows zero volume now s = s
windows (suc j) volume now s =
    windows j volume now (adjust_sampling_rate now (record s { volume = volume }))

le_mul : (a p : ℕ) → 1 ≤ p → a ≤ a * p
le_mul a zero h = absurd (omega arith)
le_mul a (suc p) h = omega arith

min_double : (r m p : ℕ) → 1 ≤ p → min (min (2 * r) m * p) m ≡ min (r * (p * 2)) m
min_double r m p h = elim (dec_lt m (2 * r)) [
  | yes over ↦
      let capped : min (2 * r) m ≡ m = omega arith in
      rw capped (omega (arith, le_mul m p h, le_mul r p h))
  | no under ↦ let exact : min (2 * r) m ≡ 2 * r = omega arith in rw exact (omega arith)
]

-- From a tuned sampler whose factor raises no rate, and under a volume below 2 ^ 63 that stays
-- above the threshold, the rate doubles from window to window until it meets the maximum, where it
-- stays.
pub windows_overloaded :
    (j volume now : ℕ) (s : AdaptiveSampler)
    → IsTuned s
    → Decays s.decay
    → s.threshold < volume
    → volume < 2 ^ 63
    → (windows j volume now s).current_rate ≡ min (s.current_rate * 2 ^ j) s.max_rate
unfolding windows adjust_sampling_rate
windows_overloaded zero volume now s v d over fits = omega arith
windows_overloaded (suc j) volume now s v d over fits =
    let loud = record s { volume = volume } in
    let loud_IsTuned : IsTuned loud = record {
      base_pos = v.base_pos;
      max_small = v.max_small;
      at_least = v.at_least;
      at_most = v.at_most;
      threshold_small = v.threshold_small;
      volume_small = fits;
    } in
    let (tuned, rate, _, _, _) = adjust_sampling_rate_lem now loud loud_IsTuned d in
    let doubled : (adjust_sampling_rate now loud).current_rate
        ≡ min (2 * s.current_rate) s.max_rate =
      rate ∙ ground arith in
    windows_overloaded j volume now (adjust_sampling_rate now loud) tuned d over fits
    ∙ ap (λ (r : ℕ). min (r * 2 ^ j) s.max_rate) doubled
    ∙ min_double s.current_rate s.max_rate (2 ^ j) (one-le-pow j 2 (omega arith))
    ∙ ap (λ (t : ℕ). min (s.current_rate * t) s.max_rate) (sym (pow-suc 2 j))
