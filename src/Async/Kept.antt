-- ===== src/Async/Kept.antt =====
-- async.go: what each step of the goroutines keeps of the ring, at any point of a resize.
use native.Mathlib.Nat.{div-le_of_le-mul, one-le-pow, pow-suc}
use onelog.Prelude.{
  ℕ, suc, ◌*◌, ◌^◌, ◌≤◌, ◌<◌, ◌≡◌, ◌∙◌, true, false, Option, none, List, Bytes, arith, length-set,
  length-replicate, replicate, mul64, sub64, div64_exact,
}
use onelog.Async.{
  Buffer, claim, fill, reject, usage_from, has_room, is_full, percent_of, stays_at_size,
  copy_entries, rounds,
}
use onelog.Async.Loops.{length-copy_entries}
use onelog.Async.Laid.{Progress, idle, loaded, copied, buffer_set, size_set, IsLaid, size_small}

pub claim-IsLaid :
    {g : Progress} {b : Buffer} {read size : ℕ}
    → IsLaid g b
    → read ≤ b.read_index
    → size ≤ b.size
    → usage_from b.write_index read ≤ size
    → b.write_index < 2 ^ 62
    → IsLaid g (claim b)
claim-IsLaid v below smaller room small = record {
  exponent = v.exponent;
  size_eq = v.size_eq;
  mask_eq = v.mask_eq;
  slots = v.slots;
  new = v.new;
  small = v.small;
  in_order = omega (arith, v.in_order);
  fits = omega (arith, v.in_order);
  index_small = omega arith;
  percent_small = v.percent_small;
  threshold_small = v.threshold_small;
}

pub fill-IsLaid :
    {g : Progress} {b : Buffer} (i : ℕ) (p : Bytes) (metric : ℕ)
    → metric ≤ 100
    → IsLaid g b
    → IsLaid g (fill i p metric b)
fill-IsLaid {g} {b} i p metric h v = record {
  exponent = v.exponent;
  size_eq = v.size_eq;
  mask_eq = v.mask_eq;
  slots = length-set b.buffer _ _ ∙ v.slots;
  new = v.new;
  small = v.small;
  in_order = v.in_order;
  fits = v.fits;
  index_small = v.index_small;
  percent_small = h;
  threshold_small = v.threshold_small;
}

pub percent_of-le : (usage size : ℕ) → usage ≤ size → size ≤ 2 ^ 40 → percent_of usage size ≤ 100
percent_of-le usage size h small =
    let exact : mul64 usage 100 ≡ usage * 100 = omega arith in
    rw (exact, div64_exact (usage * 100) size (omega arith) (omega arith))
      (div-le_of_le-mul size {m = usage * 100} {n = 100} (omega arith))

-- What the two tests say of a ring at any point.
pub has_room-le :
    {g : Progress} {b : Buffer}
    → IsLaid g b
    → (read size : ℕ) → read ≤ b.read_index
    → size ≤ b.size
    → has_room b.write_index read size ≡ true
    → usage_from b.write_index read ≤ size
has_room-le v read size below smaller room =
    ground (arith, size_small v, v.in_order, v.index_small, room)

pub not_full-le :
    {g : Progress} {b : Buffer}
    → IsLaid g b
    → (read : ℕ) → read ≤ b.read_index
    → is_full b.write_index read b.size ≡ false
    → usage_from b.write_index read ≤ b.size
not_full-le v read below room = ground (arith, size_small v, v.in_order, v.index_small, room)

pub reject-IsLaid : {g : Progress} {b : Buffer} → IsLaid g b → IsLaid g (reject b)
unfolding reject
reject-IsLaid v = record {
  exponent = v.exponent;
  size_eq = v.size_eq;
  mask_eq = v.mask_eq;
  slots = v.slots;
  new = v.new;
  small = v.small;
  in_order = v.in_order;
  fits = v.fits;
  index_small = v.index_small;
  percent_small = v.percent_small;
  threshold_small = v.threshold_small;
}

-- The parts of `maybeResize` at each point.
pub loads-IsLaid :
    {b : Buffer} (r w : ℕ) → stays_at_size b ≡ false → IsLaid idle b → IsLaid (loaded r w) b
loads-IsLaid {b} r w go v = record {
  exponent = v.exponent;
  size_eq = v.size_eq;
  mask_eq = v.mask_eq;
  slots = v.slots;
  new = tt;
  small = ground (arith, v.size_eq, v.small, go);
  in_order = v.in_order;
  fits = v.fits;
  index_small = v.index_small;
  percent_small = v.percent_small;
  threshold_small = v.threshold_small;
}

pub copies-IsLaid :
    {b : Buffer} (r w : ℕ)
    → IsLaid (loaded r w) b
    → IsLaid
        (copied (
          copy_entries
            (rounds r w)
            r
            b.mask
            (sub64 (mul64 b.size 2) 1)
            b.buffer
            (replicate (mul64 b.size 2) none)))
        b
copies-IsLaid {b} r w v = record {
  exponent = v.exponent;
  size_eq = v.size_eq;
  mask_eq = v.mask_eq;
  slots = v.slots;
  new =
      length-copy_entries (rounds r w) r b.mask (sub64 (mul64 b.size 2) 1) b.buffer
        (replicate (mul64 b.size 2) none)
      ∙ length-replicate (mul64 b.size 2) none
      ∙ omega (arith, v.size_eq, v.small);
  small = v.small;
  in_order = v.in_order;
  fits = v.fits;
  index_small = v.index_small;
  percent_small = v.percent_small;
  threshold_small = v.threshold_small;
}

pub sets_buffer-IsLaid :
    {b : Buffer} (new : List (Option Bytes))
    → IsLaid (copied new) b
    → IsLaid buffer_set (record b { buffer = new })
sets_buffer-IsLaid new v = record {
  exponent = v.exponent;
  size_eq = v.size_eq;
  mask_eq = v.mask_eq;
  slots = v.new;
  new = tt;
  small = v.small;
  in_order = v.in_order;
  fits = v.fits;
  index_small = v.index_small;
  percent_small = v.percent_small;
  threshold_small = v.threshold_small;
}

pub sets_size-IsLaid :
    {b : Buffer} → IsLaid buffer_set b → IsLaid size_set (record b { size = mul64 b.size 2 })
sets_size-IsLaid {b} v = record {
  exponent = v.exponent;
  size_eq = omega (arith, v.size_eq, v.small);
  mask_eq = v.mask_eq;
  slots = v.slots;
  new = tt;
  small = v.small;
  in_order = v.in_order;
  fits = omega (arith, v.fits, v.size_eq, v.small);
  index_small = v.index_small;
  percent_small = v.percent_small;
  threshold_small = v.threshold_small;
}

pub sets_mask-IsLaid :
    {b : Buffer} → IsLaid size_set b → IsLaid idle (record b { mask = sub64 b.size 1 })
sets_mask-IsLaid {b} v = record {
  exponent = suc v.exponent;
  size_eq = omega (arith, v.size_eq, pow-suc 2 v.exponent);
  mask_eq =
      omega
        (arith, v.size_eq, v.small, pow-suc 2 v.exponent, one-le-pow v.exponent 2 (omega arith));
  slots = omega (arith, v.slots, pow-suc 2 v.exponent);
  new = tt;
  small = omega (arith, v.small, pow-suc 2 v.exponent);
  in_order = v.in_order;
  fits = v.fits;
  index_small = v.index_small;
  percent_small = v.percent_small;
  threshold_small = v.threshold_small;
}
