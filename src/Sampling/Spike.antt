-- ===== src/Sampling/Spike.antt =====
-- sampling.go: the SpikeSampler over one call.
use onelog.Prelude.{
  ℕ, ◌+◌, ◌%◌, ◌^◌, ◌<◌, ◌≡◌, refl, Bool, if◌then◌else◌, ◌==◌, ltb, add64, mag, lt64, arith,
  Bool-cases, inl, inr, lt64_exact, if_elim,
}
use onelog.Sampling.{is_hit, elapsed, SpikeSampler, spike_sample}
use onelog.Sampling.Rate.{is_hit_lem}

-- Let both rates be positive, the threshold not negative, and the volume stay below 2 ^ 63. A call
-- of the spike sampler counts the entry within the window; past it a spike is on exactly if the
-- volume was above the threshold, and a new window starts. The entry is kept exactly if the
-- counter's absolute value is divided by the spike rate, in a spike, or by the normal rate.
pub spike_sample_lem :
    (now : ℕ) (s : SpikeSampler)
    → (0 < s.normal_rate) × (s.normal_rate < 2 ^ 63)
    → (0 < s.spike_rate) × (s.spike_rate < 2 ^ 63)
    → s.volume + 1 < 2 ^ 63
    → s.threshold < 2 ^ 63
    → let (s', keep) = spike_sample now s in
      let late = lt64 s.window_size (elapsed now s.last_reset) in
      let rate = if s'.in_spike then s.spike_rate else s.normal_rate in
      (s'.in_spike ≡ (if late then ltb s.threshold (s.volume + 1) else s.in_spike))
      × (s'.volume ≡ (if late then 0 else s.volume + 1))
      × (s'.last_reset ≡ (if late then now else s.last_reset))
      × (keep ≡ (mag (add64 s.counter 1) % rate == 0))
unfolding spike_sample
spike_sample_lem now s (np, ns) (sp, ss) fits small =
    let next_volume : add64 s.volume 1 ≡ s.volume + 1 = omega arith in
    let c = add64 s.counter 1 in
    let decided = λ (spike : Bool).
      if_elim (λ n. is_hit n c ≡ (mag c % n == 0)) spike s.spike_rate s.normal_rate
        (λ _. is_hit_lem s.spike_rate c sp ss (omega arith))
        (λ _. is_hit_lem s.normal_rate c np ns (omega arith)) in
    elim (Bool-cases (lt64 s.window_size (elapsed now s.last_reset))) [
      | inl late ↦
          rw (next_volume, late)
            (lt64_exact s.threshold (s.volume + 1) small fits, refl, refl, decided _)
      | inr early ↦ rw (next_volume, early) (refl, refl, refl, decided s.in_spike)
    ]
