-- ===== src/Logger/Settings.antt =====
-- logger.go: the settings that New and WithWriter give to a ring.
use native.Mathlib.Nat.{one-le-pow, pow-le-pow_right}
use native.Mathlib.Decide.{dec_le}
use onelog.Prelude.{
  ℕ, ◌^◌, ◌<◌, ◌≤◌, ◌≡◌, refl, sym, ◌∙◌, Bool, true, false, [], if◌then◌else◌, lt64, le64, min, max,
  subst, arith,
}
use onelog.Async.{
  Buffer, BackpressureMode, drop_mode, block_mode, new_async_buffer, set_backpressure_mode,
  set_dynamic_resize, set_resize_threshold, set_flush_interval,
}
use onelog.Async.Valid.{IsValid, contents}
use onelog.Async.Resize.{new_async_buffer-IsValid}
use onelog.Config.{Config}
use onelog.Logger.{is_block, when, configured_ring, copied_ring}

-- Settings of a ring do not touch its entries.
abbrev pub IsReady : ℕ → Buffer → Type 0
IsReady k b = IsValid b × (contents b ≡ []) × (b.size ≡ 2 ^ k)

set_resize_threshold-IsReady :
    (t k : ℕ) (b : Buffer) → t < 2 ^ 64 → IsReady k b → IsReady k (set_resize_threshold t b)
unfolding set_resize_threshold
set_resize_threshold-IsReady t k b h (v, empty, size) = (
  record {
    exponent = v.exponent;
    size_eq = v.size_eq;
    mask_eq = v.mask_eq;
    small = v.small;
    slots = v.slots;
    in_order = v.in_order;
    fits = v.fits;
    index_small = v.index_small;
    percent_small = v.percent_small;
    threshold_small = ground arith;
  },
  empty,
  size,
)

-- Modes, intervals and the switch of the resizing are free.
retuned-IsReady :
    (m : BackpressureMode) (on : Bool) (i k : ℕ) (b : Buffer)
    → IsReady k b
    → IsReady k (record b { mode = m; dynamic_resize = on; flush_interval = i })
retuned-IsReady m on i k b (v, empty, size) = (
  record {
    exponent = v.exponent;
    size_eq = v.size_eq;
    mask_eq = v.mask_eq;
    small = v.small;
    slots = v.slots;
    in_order = v.in_order;
    fits = v.fits;
    index_small = v.index_small;
    percent_small = v.percent_small;
    threshold_small = v.threshold_small;
  },
  empty,
  size,
)

when_elim {κ} :
    {A : Type 0} (P : A → Type κ) (b : Bool) (f : A → A) (a : A) → P (f a) → P a → P (when b f a)
when_elim P true f a used unused = used
when_elim P false f a used unused = unused

abbrev IsTuned : ℕ → BackpressureMode → ℕ → Buffer → Type 0
IsTuned k m i b = IsReady k b × (b.mode ≡ m) × (b.dynamic_resize ≡ true) × (b.flush_interval ≡ i)

-- An empty ring with the size and the settings of another.
abbrev pub IsTwin : Buffer → Buffer → Type 0
IsTwin b n =
    IsValid n
    × (contents n ≡ [])
    × (n.size ≡ b.size)
    × (n.mode ≡ b.mode)
    × (n.dynamic_resize ≡ b.dynamic_resize)
    × (n.resize_threshold ≡ b.resize_threshold)
    × (n.flush_interval ≡ b.flush_interval)

two_pow_small : (k : ℕ) → k ≤ 40 → 2 ^ k ≤ 2 ^ 40
two_pow_small k h = pow-le-pow_right (omega arith) h

small_exponent : (k : ℕ) → 2 ^ k ≤ 2 ^ 40 → k ≤ 40
small_exponent k h = elim (dec_le k 40) [
  | yes le ↦ le
  | no gt ↦
      absurd (omega (arith, pow-le-pow_right {n = 2} (omega arith) {i = 41} {j = k} (omega arith)))
]

module _ (cpus : ℕ) where
  -- The ring of a configuration, piece by piece.
  pub configured_ring_lem :
      (k : ℕ) (c : Config)
      → k ≤ 40
      → c.async_buffer_size ≡ 2 ^ k
      → c.buffer_resize_threshold < 2 ^ 64
      → let b = configured_ring cpus c in
        IsReady k b
        × (b.mode ≡ c.backpressure_mode)
        × (b.dynamic_resize ≡ true)
        × (b.flush_interval ≡ (if lt64 0 c.flush_interval then c.flush_interval else 100_000_000))
  unfolding configured_ring set_backpressure_mode set_dynamic_resize set_flush_interval
      new_async_buffer
  configured_ring_lem k c h size t = by_interval (lt64 0 c.flush_interval)
    where
      base : Buffer
      base =
          new_async_buffer (if le64 c.async_buffer_size 0 then 8192 else c.async_buffer_size) cpus

      made :
          IsValid (new_async_buffer (2 ^ k) cpus)
          × (contents (new_async_buffer (2 ^ k) cpus) ≡ [])
          × ((new_async_buffer (2 ^ k) cpus).size ≡ 2 ^ k)
          × ((new_async_buffer (2 ^ k) cpus).shard_count ≡ max 4 (min 32 cpus))
      made = new_async_buffer-IsValid k cpus h

      given : (if le64 c.async_buffer_size 0 then 8192 else c.async_buffer_size) ≡ 2 ^ k
      given =
          let positive : le64 (2 ^ k) 0 ≡ false =
            ground (arith, one-le-pow k 2 (omega arith), two_pow_small k h) in
          rw (size, positive) refl

      start : IsTuned k drop_mode 100_000_000 base
      start =
          subst (λ n. IsTuned k drop_mode 100_000_000 (new_async_buffer n cpus)) (sym given)
            ((made.0, made.1, made.2), refl, refl, refl)

      moded : BackpressureMode → Buffer
      moded m = when (is_block m) (set_backpressure_mode block_mode) base

      by_mode : (m : BackpressureMode) → IsTuned k m 100_000_000 (moded m)
      by_mode drop_mode = start
      by_mode block_mode =
          let (ready, _, on, interval) = start in
          (
            retuned-IsReady block_mode base.dynamic_resize base.flush_interval k base ready,
            refl,
            on,
            interval,
          )

      resized : Buffer
      resized =
          when c.enable_dynamic_buffer_resizing
            (λ b.
              when (lt64 0 c.buffer_resize_threshold)
                (set_resize_threshold c.buffer_resize_threshold) (set_dynamic_resize true b))
            (moded c.backpressure_mode)

      tuned : IsTuned k c.backpressure_mode 100_000_000 resized
      tuned =
          let (ready, mode, on, interval) = by_mode c.backpressure_mode in
          let b = moded c.backpressure_mode in
          let ready' = retuned-IsReady b.mode true b.flush_interval k b ready in
          when_elim (IsTuned k c.backpressure_mode 100_000_000) c.enable_dynamic_buffer_resizing
            (λ (a : Buffer).
              when (lt64 0 c.buffer_resize_threshold)
                (set_resize_threshold c.buffer_resize_threshold) (set_dynamic_resize true a))
            b
            (when_elim (IsTuned k c.backpressure_mode 100_000_000)
              (lt64 0 c.buffer_resize_threshold) (set_resize_threshold c.buffer_resize_threshold)
              (set_dynamic_resize true b)
              (
                set_resize_threshold-IsReady c.buffer_resize_threshold k (set_dynamic_resize true b)
                    t ready',
                mode,
                refl,
                interval,
              )
              (ready', mode, refl, interval))
            (ready, mode, on, interval)

      by_interval :
          (on : Bool)
          → IsTuned k c.backpressure_mode
              (if on then c.flush_interval else 100_000_000)
              (when on (set_flush_interval c.flush_interval) resized)
      by_interval true =
          let (ready, mode, on, _) = tuned in
          (
            retuned-IsReady resized.mode resized.dynamic_resize c.flush_interval k resized ready,
            mode,
            on,
            refl,
          )
      by_interval false = tuned

  pub copied_ring_lem : (b : Buffer) → IsValid b → IsTwin b (copied_ring cpus b)
  unfolding copied_ring set_backpressure_mode set_dynamic_resize set_flush_interval
      set_resize_threshold new_async_buffer
  copied_ring_lem b v = (
    ready.0,
    ready.1,
    ready.2 ∙ sym v.size_eq,
    refl,
    refl,
    ground (arith, v.threshold_small),
    refl,
  )
    where
      base : Buffer
      base = new_async_buffer b.size cpus

      made : IsReady v.exponent base
      made =
          let (valid, empty, size, _) =
            new_async_buffer-IsValid v.exponent cpus
              (small_exponent v.exponent (omega (arith, v.size_eq, v.small))) in
          subst (λ n. IsReady v.exponent (new_async_buffer n cpus)) (sym v.size_eq)
            (valid, empty, size)

      tuned : Buffer
      tuned =
          set_resize_threshold b.resize_threshold
            (record base { mode = b.mode; dynamic_resize = b.dynamic_resize })

      ready : IsReady v.exponent (copied_ring cpus b)
      ready = retuned-IsReady tuned.mode tuned.dynamic_resize b.flush_interval v.exponent tuned (
          set_resize_threshold-IsReady b.resize_threshold v.exponent
            (record base { mode = b.mode; dynamic_resize = b.dynamic_resize })
            (omega (arith, v.threshold_small))
            (retuned-IsReady b.mode b.dynamic_resize base.flush_interval v.exponent base made))
