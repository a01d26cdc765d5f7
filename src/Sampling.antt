-- ===== src/Sampling.antt =====
-- sampling.go: the samplers. A sampler's `Sample` returns its new state and the decision. An int,
-- an int64 or a duration is its pattern. A call runs alone; its reads of `currentRate` and
-- `inSpike` under a lock are plain reads.
pub mod Rate
pub mod Key
pub mod Adaptive
pub mod Spike
pub mod Multi
mod Tests
use onelog.Prelude.{
  ℕ, ◌-◌, ◌^◌, min, Bool, true, false, not, List, [], ◌∷◌, bit_and, if◌then◌else◌, ◌==◌, leb, add64,
  sub64, mul64, rem64, le64, lt64,
}
use onelog.Field.{Entry}

-- Every sampler with a rate decides by this test of the counter after its increment.
abbrev pub is_hit : ℕ → ℕ → Bool
is_hit n counter =
    if bit_and n (sub64 n 1) == 0 then bit_and counter (sub64 n 1) == 0 else rem64 counter n == 0

pub record RateSampler : Type 0 where
  pub n : ℕ
  pub counter : ℕ

unfoldable pub new_rate_sampler : ℕ → RateSampler
new_rate_sampler n = record { n = if le64 n 0 then 1 else n; counter = 0 }

unfoldable pub rate_sample : RateSampler → RateSampler × Bool
rate_sample s =
    let counter = add64 s.counter 1 in (record s { counter = counter }, is_hit s.n counter)

abbrev pub min64 : ℕ → ℕ → ℕ
min64 a b = if lt64 a b then a else b

abbrev pub max64 : ℕ → ℕ → ℕ
max64 a b = if lt64 b a then a else b

-- `now.Sub(last)`, which saturates.
abbrev pub elapsed : ℕ → ℕ → ℕ
elapsed now last =
    if leb last now then min (now - last) (2 ^ 63 - 1) else 2 ^ 64 - min (last - now) (2 ^ 63)

abbrev pub second : ℕ
second = 1_000_000_000

pub record AdaptiveSampler : Type 0 where
  pub base_rate : ℕ
  pub max_rate : ℕ
  pub window_size : ℕ
  pub threshold : ℕ
  -- int(float64(rate) * DecayFactor)
  pub decay : ℕ → ℕ
  pub current_rate : ℕ
  pub counter : ℕ
  pub volume : ℕ
  pub last_reset : ℕ

abbrev pub or_default : ℕ → ℕ → ℕ
or_default value default = if le64 value 0 then default else value

-- `decay_by` gives the multiplication by a factor; the default factor is 0.9 where the one given
-- is not between 0 and 1.
unfoldable pub new_adaptive_sampler :
    {F : Type 0} → (F → Bool) → F → (F → ℕ → ℕ) → ℕ → ℕ → ℕ → ℕ → F → ℕ → AdaptiveSampler
new_adaptive_sampler in_range nine_tenths decay_by base max_rate window threshold factor now =
    record {
      base_rate = or_default base 1;
      max_rate = or_default max_rate 1000;
      window_size = or_default window second;
      threshold = or_default threshold 1000;
      decay = decay_by (if in_range factor then factor else nine_tenths);
      current_rate = or_default base 1;
      counter = 0;
      volume = 0;
      last_reset = now;
    }

unfoldable pub adjust_sampling_rate : ℕ → AdaptiveSampler → AdaptiveSampler
adjust_sampling_rate now s = record s {
  volume = 0;
  last_reset = now;
  current_rate =
      if lt64 s.threshold s.volume
      then min64 (mul64 s.current_rate 2) s.max_rate
      else max64 (s.decay s.current_rate) s.base_rate;
}

-- `now` is `time.Now()`.
unfoldable pub adaptive_sample : ℕ → AdaptiveSampler → AdaptiveSampler × Bool
unfolding adjust_sampling_rate
adaptive_sample now s =
    let counted = record s { volume = add64 s.volume 1 } in
    let adjusted =
      if lt64 s.window_size (elapsed now s.last_reset)
      then adjust_sampling_rate now counted
      else counted in
    let counter = add64 adjusted.counter 1 in
    (record adjusted { counter = counter }, is_hit adjusted.current_rate counter)

pub record SpikeSampler : Type 0 where
  pub normal_rate : ℕ
  pub spike_rate : ℕ
  pub window_size : ℕ
  pub threshold : ℕ
  pub counter : ℕ
  pub volume : ℕ
  pub last_reset : ℕ
  pub in_spike : Bool

unfoldable pub new_spike_sampler : ℕ → ℕ → ℕ → ℕ → ℕ → SpikeSampler
new_spike_sampler normal spike window threshold now = record {
  normal_rate = or_default normal 1;
  spike_rate = or_default spike 100;
  window_size = or_default window second;
  threshold = or_default threshold 1000;
  counter = 0;
  volume = 0;
  last_reset = now;
  in_spike = false;
}

unfoldable pub detect_spike : ℕ → SpikeSampler → SpikeSampler
detect_spike now s = record s { volume = 0; last_reset = now; in_spike = lt64 s.threshold s.volume }

unfoldable pub spike_sample : ℕ → SpikeSampler → SpikeSampler × Bool
unfolding detect_spike
spike_sample now s =
    let counted = record s { volume = add64 s.volume 1 } in
    let checked =
      if lt64 s.window_size (elapsed now s.last_reset) then detect_spike now counted else counted in
    let rate = if checked.in_spike then s.spike_rate else s.normal_rate in
    let counter = add64 checked.counter 1 in
    (record checked { counter = counter }, is_hit rate counter)

pub data MultiSamplerMode : Type 0 where
  and_mode or_mode : MultiSamplerMode

-- The samplers of a MultiSampler, each with its own state; `sample` is their `Sample`.
module _ {S : Type 0} (sample : Entry → S → S × Bool) where
  -- The loop of the mode, which stops at the first sampler that decides it.
  unfoldable pub sample_loop : MultiSamplerMode → Entry → List S → List S × Bool
  sample_loop and_mode e [] = ([], true)
  sample_loop or_mode e [] = ([], false)
  sample_loop and_mode e (s ∷ ss) =
      let (s', keep) = sample e s in
      let (ss', rest) = sample_loop and_mode e ss in
      if not keep then (s' ∷ ss, false) else (s' ∷ ss', rest)
  sample_loop or_mode e (s ∷ ss) =
      let (s', keep) = sample e s in
      let (ss', rest) = sample_loop or_mode e ss in
      if keep then (s' ∷ ss, true) else (s' ∷ ss', rest)

  unfoldable pub multi_sample : MultiSamplerMode → Entry → List S → List S × Bool
  unfolding sample_loop
  multi_sample mode e [] = ([], true)
  multi_sample mode e (s ∷ ss) = sample_loop mode e (s ∷ ss)
