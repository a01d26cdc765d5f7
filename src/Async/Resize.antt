-- ===== src/Async/Resize.antt =====
-- async.go: `newAsyncBuffer`, `maybeResize` and the setters, against the entries in the ring.
use native.Mathlib.Nat.{pow-suc, one-le-pow, pow-le-pow_right, mod_self}
use onelog.Prelude.{
  ℕ, suc, ◌-◌, ◌*◌, ◌%◌, ◌^◌, ◌≤◌, ◌<◌, ◌≡◌, refl, ap, ap₂, ◌∙◌, Bool, false, Option, none,
  Bool-cases, inl, inr, min, replicate, ◌||◌, ◌&&◌, not, [], Bytes, arith, length-replicate,
  if◌then◌else◌, le64, ltb, leb, sub64, mul64, lt64, bit_and, max, is_neg,
}
use onelog.Prelude.Bits.{bit_and_mask}
use onelog.Async.{
  Buffer, grown_to, maybe_resize, rounds, new_async_buffer, ring_size, set_resize_threshold,
  BackpressureMode, set_backpressure_mode, set_dynamic_resize, set_flush_interval,
}
use onelog.Async.Loops.{window-copy_entries, length-copy_entries}
use onelog.Async.Valid.{IsValid, contents, masked, size_pos}

-- The code's test.
abbrev pub grows : Buffer → Bool
grows b = ltb b.resize_threshold b.utilization && leb (b.size * 2) (1024 * 1024)

abbrev grown : Buffer → Buffer
grown b = grown_to (b.size * 2) (b.size * 2 - 1) (b.write_index - b.read_index) b

rounds_pending :
    {b : Buffer} → IsValid b → rounds b.read_index b.write_index ≡ b.write_index - b.read_index
rounds_pending v = ground arith

stays_iff :
    {b : Buffer}
    → IsValid b
    → (le64 b.utilization b.resize_threshold || lt64 (1024 * 1024) (mul64 b.size 2)) ≡ not (grows b)
stays_iff v = ground arith

maybe_resize_step : {b : Buffer} → IsValid b → maybe_resize b ≡ (if grows b then grown b else b)
unfolding maybe_resize
maybe_resize_step {b} v = elim (Bool-cases (grows b)) [
  | inl e ↦
      rw (stays_iff v, e)
        (ap₂ (λ s m. grown_to s m (rounds b.read_index b.write_index) b) (omega arith)
            (omega (arith, size_pos v))
          ∙ ap (λ n. grown_to (b.size * 2) (b.size * 2 - 1) n b) (rounds_pending v))
  | inr e ↦ rw (stays_iff v, e)
]

mask_grown : {b : Buffer} → IsValid b → (i : ℕ) → bit_and i (b.size * 2 - 1) ≡ i % (b.size * 2)
mask_grown {b} v i = rw (v.size_eq, ← pow-suc) (bit_and_mask (suc v.exponent) i)

grown-IsValid : {b : Buffer} → IsValid b → b.size * 2 ≤ 1024 * 1024 → IsValid (grown b)
unfolding grown_to
grown-IsValid {b} v h = record {
  exponent = suc v.exponent;
  size_eq = omega (arith, v.size_eq, pow-suc 2 v.exponent);
  mask_eq = omega (arith, v.size_eq, pow-suc 2 v.exponent);
  small = omega arith;
  slots =
      length-copy_entries (b.write_index - b.read_index) b.read_index b.mask (b.size * 2 - 1)
        b.buffer (replicate (b.size * 2) none)
      ∙ length-replicate (b.size * 2) none;
  in_order = v.in_order;
  fits = omega arith;
  index_small = v.index_small;
  percent_small = v.percent_small;
  threshold_small = v.threshold_small;
}

contents-grown : {b : Buffer} → IsValid b → contents (grown b) ≡ contents b
unfolding grown_to
contents-grown {b} v =
    window-copy_entries b.size b.mask (b.size * 2) (b.size * 2 - 1) (masked v) (mask_grown v)
      (b.write_index - b.read_index) b.read_index b.buffer (replicate (b.size * 2) none)
      (omega arith) (omega arith)
      (omega (arith, length-replicate {A = Option Bytes} (b.size * 2) none))

-- On a valid ring, `maybeResize` doubles the capacity where the utilization is above the threshold
-- and the result is at most 1024 * 1024, and otherwise changes nothing. The ring stays valid, with
-- its write index, and holds the same entries in the same order.
pub maybe_resize_refines :
    {b : Buffer}
    → IsValid b
    → IsValid (maybe_resize b)
      × (contents (maybe_resize b) ≡ contents b)
      × ((maybe_resize b).size ≡ (if grows b then b.size * 2 else b.size))
      × (grows b ≡ false → maybe_resize b ≡ b)
      × ((maybe_resize b).write_index ≡ b.write_index)
maybe_resize_refines {b} v = rw (maybe_resize_step v) (elim (Bool-cases (grows b)) [
  | inl e ↦ rw e (
    grown-IsValid v (ground arith),
    contents-grown v,
    unfold grown_to in refl,
    (λ c. cc),
    unfold grown_to in refl,
  )
  | inr e ↦ rw e (v, refl, refl, (λ c. refl), refl)
])

two_pow : (k : ℕ) → k ≤ 40 → (1 ≤ 2 ^ k) × (2 ^ k ≤ 2 ^ 40)
two_pow k h = (one-le-pow k 2 (omega arith), pow-le-pow_right {n = 2} (omega arith) h)

ring_size-pow : (k : ℕ) → k ≤ 40 → ring_size (2 ^ k) ≡ 2 ^ k
ring_size-pow k h =
    let (low, high) = two_pow k h in
    let pred_eq : sub64 (2 ^ k) 1 ≡ 2 ^ k - 1 = omega arith in
    ground
      (arith, low, high, ap (bit_and (2 ^ k)) pred_eq, bit_and_mask k (2 ^ k), mod_self (2 ^ k))

-- A new ring whose size is a power of two up to 2 ^ 40 has that capacity and is valid and empty;
-- it has at least 4 and at most 32 shards, and as many as there are processors if that lies
-- between.
pub new_async_buffer-IsValid :
    (k cpus : ℕ)
    → k ≤ 40
    → let b = new_async_buffer (2 ^ k) cpus in
      IsValid b × (contents b ≡ []) × (b.size ≡ 2 ^ k) × (b.shard_count ≡ max 4 (min 32 cpus))
unfolding new_async_buffer
new_async_buffer-IsValid k cpus h = (
  record {
    exponent = k;
    size_eq = e;
    mask_eq = omega (arith, e, two_pow k h);
    small = omega (arith, e, two_pow k h);
    slots = length-replicate (ring_size (2 ^ k)) none;
    in_order = omega arith;
    fits = omega arith;
    index_small = omega arith;
    percent_small = omega arith;
    threshold_small = omega arith;
  },
  refl,
  e,
  ground arith,
)
  where
    e : ring_size (2 ^ k) ≡ 2 ^ k
    e = ring_size-pow k h

-- `SetResizeThreshold` brings any int into the range from 0 to 100 and leaves one in that range as
-- it is, so that the four setters together keep a valid ring valid and its entries as they are.
pub setters-IsValid :
    {b : Buffer} (t : ℕ) (m : BackpressureMode) (on : Bool) (interval : ℕ)
    → t < 2 ^ 64
    → IsValid b
    → let b' =
        set_flush_interval interval
          (set_dynamic_resize on (set_backpressure_mode m (set_resize_threshold t b))) in
      IsValid b'
      × (contents b' ≡ contents b)
      × (b'.resize_threshold ≡ (if is_neg t then 0 else min t 100))
unfolding set_flush_interval set_dynamic_resize set_backpressure_mode set_resize_threshold
setters-IsValid {b} t m on interval h v = (
  record {
    exponent = v.exponent;
    size_eq = v.size_eq;
    mask_eq = v.mask_eq;
    small = v.small;
    slots = v.slots;
    in_order = v.in_order;
    fits = v.fits;
    index_small = v.index_small;
    percent_small = v.percent_small;
    threshold_small = ground arith;
  },
  refl,
  ground arith,
)
