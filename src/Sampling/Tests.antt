-- ===== src/Sampling/Tests.antt =====
-- The samplers of sampling.go at concrete counters, and the theorems about them there.
use onelog.Prelude.{
  ℕ, ◌+◌, ◌*◌, ◌/◌, ◌%◌, ◌^◌, ◌≡◌, refl, false, none, List, [], ◌∷◌, codes, arith, ◌==◌, mag, add64,
  lt64, if◌then◌else◌, le64,
}
use onelog.Field.{Entry, str_field, int64_field}
use onelog.Sampling.{
  RateSampler, new_rate_sampler, rate_sample, AdaptiveSampler, adaptive_sample, elapsed,
  SpikeSampler, or_mode,
}
use onelog.Sampling.Rate.{kept, kept-new_rate_sampler}
use onelog.Sampling.Adaptive.{IsTuned, Decays, next_rate, adaptive_sample_lem}
use onelog.Sampling.Multi.{asked, answers}
use onelog.Sampling.Key.{new_key_sampler, fnv1a, sum32, key_sample, panics, key_loop, hashed}

kept-new_rate_sampler_example :
    kept 1000 (new_rate_sampler 30) ≡ (if le64 30 0 then 1000 else 1000 / 30)
kept-new_rate_sampler_example = kept-new_rate_sampler 1000 30 (omega arith) (omega arith)

-- Nine tenths of a rate, rounded down.
abbrev nine_tenths_of : ℕ → ℕ
nine_tenths_of r = r * 9 / 10

nine_tenths-Decays : Decays nine_tenths_of
nine_tenths-Decays r = omega arith

-- A sampler whose window of one second began at 5 seconds.
abbrev busy : AdaptiveSampler
busy = record {
  base_rate = 4;
  max_rate = 100;
  window_size = 1_000_000_000;
  threshold = 50;
  decay = nine_tenths_of;
  current_rate = 8;
  counter = 15;
  volume = 70;
  last_reset = 5_000_000_000;
}

busy-IsTuned : IsTuned busy
busy-IsTuned = record {
  base_pos = omega arith;
  max_small = omega arith;
  at_least = omega arith;
  at_most = omega arith;
  threshold_small = omega arith;
  volume_small = omega arith;
}

-- At 7 seconds the window is over.
adaptive_sample_lem_example :
    let (s', keep) = adaptive_sample 7_000_000_000 busy in
    let late = lt64 busy.window_size (elapsed 7_000_000_000 busy.last_reset) in
    IsTuned s'
    × (s'.current_rate ≡ (if late then next_rate busy (busy.volume + 1) else busy.current_rate))
    × (s'.volume ≡ (if late then 0 else busy.volume + 1))
    × (s'.last_reset ≡ (if late then 7_000_000_000 else busy.last_reset))
    × (s'.counter ≡ add64 busy.counter 1)
    × (keep ≡ (mag s'.counter % s'.current_rate == 0))
adaptive_sample_lem_example =
    adaptive_sample_lem 7_000_000_000 busy busy-IsTuned nine_tenths-Decays (omega arith)
      (omega arith)

abbrev calm : SpikeSampler
calm = record {
  normal_rate = 3;
  spike_rate = 16;
  window_size = 1_000_000_000;
  threshold = 50;
  counter = 31;
  volume = 70;
  last_reset = 5_000_000_000;
  in_spike = false;
}

-- The entry of a request: its user's name, the request's id, and its path.
abbrev request : Entry
request = record {
  level = 2;
  time = 0;
  message = codes "done";
  fields =
      str_field (codes "user") (codes "ann")
      ∷ int64_field (codes "id") 77
      ∷ str_field (codes "path") (codes "/")
      ∷ [];
  ctx = none;
  caller_info = none;
}

-- One request in three, three in a row, one in two.
abbrev three_rates : List RateSampler
three_rates =
    record { n = 3; counter = 2 }
    ∷ record { n = 1; counter = 7 }
    ∷ record { n = 2; counter = 4 }
    ∷ []

asked_once : asked or_mode (answers (λ e. rate_sample) request three_rates) ≡ 1
unfolding rate_sample
asked_once = refl

-- The rate is converted to a uint32, so a rate that is a multiple of 2 ^ 32 divides by zero.
key_sampler_panics : key_sample (new_key_sampler (2 ^ 32) (codes "user")) request ≡ panics
unfolding key_sample new_key_sampler key_loop str_field hashed
key_sampler_panics = refl

-- The FNV-1a hash of "a" is 0xE40C292C.
hash_of_a : sum32 (codes "a") ≡ 3826002220
unfolding sum32 fnv1a
hash_of_a = refl
