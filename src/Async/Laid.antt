-- ===== src/Async/Laid.antt =====
-- async.go: the ring at each point of `maybeResize`, which assigns the buffer, the size and the mask
-- one after the other.
use native.Mathlib.Nat.{mod-lt, one-le-pow}
use onelog.Prelude.{
  ℕ, ◌+◌, ◌-◌, ◌*◌, ◌%◌, ◌^◌, ◌≤◌, ◌<◌, ◌≡◌, Option, List, Bytes, arith, length, bit_and,
}
use onelog.Prelude.Bits.{bit_and_mask}
use onelog.Async.{Buffer}
use onelog.Async.Valid.{IsValid}

-- Where `maybeResize` is: not running, or it has loaded the indices, copied the entries, assigned
-- the buffer, and assigned the size. Assigning the mask ends it.
pub data Progress : Type 0 where
  idle : Progress
  loaded : ℕ → ℕ → Progress
  copied : List (Option Bytes) → Progress
  buffer_set size_set : Progress

-- How many times the old capacity the size and the array have.
abbrev pub size_factor : Progress → ℕ
size_factor size_set = 2
size_factor _ = 1

abbrev pub slot_factor : Progress → ℕ
slot_factor buffer_set = 2
slot_factor size_set = 2
slot_factor _ = 1

abbrev pub IsNew : Progress → ℕ → Type 0
IsNew (copied new) k = length new ≡ 2 * 2 ^ k
IsNew _ k = Unit

abbrev pub bound : Progress → ℕ
bound idle = 2 ^ 40
bound _ = 2 ^ 19

-- The ring at each point of a resize.
pub record IsLaid (g : Progress) (b : Buffer) : Type 0 where
  pub exponent : ℕ
  pub size_eq : b.size ≡ size_factor g * 2 ^ exponent
  pub mask_eq : b.mask ≡ 2 ^ exponent - 1
  pub slots : length b.buffer ≡ slot_factor g * 2 ^ exponent
  pub new : IsNew g exponent
  pub small : 2 ^ exponent ≤ bound g
  pub in_order : b.read_index ≤ b.write_index
  pub fits : b.write_index ≤ b.read_index + b.size
  pub index_small : b.write_index ≤ 2 ^ 62
  pub percent_small : b.utilization ≤ 100
  pub threshold_small : b.resize_threshold ≤ 100

pub IsLaid-idle : {b : Buffer} → IsValid b → IsLaid idle b
IsLaid-idle v = record {
  exponent = v.exponent;
  size_eq = omega (arith, v.size_eq);
  mask_eq = v.mask_eq;
  slots = omega (arith, v.slots, v.size_eq);
  new = tt;
  small = omega (arith, v.small, v.size_eq);
  in_order = v.in_order;
  fits = v.fits;
  index_small = v.index_small;
  percent_small = v.percent_small;
  threshold_small = v.threshold_small;
}

pub IsValid-idle : {b : Buffer} → IsLaid idle b → IsValid b
IsValid-idle v = record {
  exponent = v.exponent;
  size_eq = omega (arith, v.size_eq);
  mask_eq = v.mask_eq;
  small = omega (arith, v.small, v.size_eq);
  slots = omega (arith, v.slots, v.size_eq);
  in_order = v.in_order;
  fits = v.fits;
  index_small = v.index_small;
  percent_small = v.percent_small;
  threshold_small = v.threshold_small;
}

-- The slot of every index is in the array.
pub IsLaid-in_bounds :
    {g : Progress} {b : Buffer} → IsLaid g b → (i : ℕ) → bit_and i b.mask < length b.buffer
IsLaid-in_bounds {g} {b} v i =
    rw (v.mask_eq, bit_and_mask v.exponent i)
      (below g (omega (arith, v.slots)) (mod-lt i (one-le-pow v.exponent 2 (omega arith))))
  where
    below :
        (g : Progress)
        → length b.buffer ≡ slot_factor g * 2 ^ v.exponent
        → i % 2 ^ v.exponent < 2 ^ v.exponent
        → i % 2 ^ v.exponent < length b.buffer
    below idle e h = omega arith
    below (loaded r w) e h = omega arith
    below (copied new) e h = omega arith
    below buffer_set e h = omega arith
    below size_set e h = omega arith

pub size_small : {g : Progress} {b : Buffer} → IsLaid g b → b.size ≤ 2 ^ 40
size_small {g} {b} v = by_progress g v.size_eq v.small
  where
    by_progress :
        (g : Progress)
        → b.size ≡ size_factor g * 2 ^ v.exponent
        → 2 ^ v.exponent ≤ bound g
        → b.size ≤ 2 ^ 40
    by_progress idle e h = omega arith
    by_progress (loaded r w) e h = omega arith
    by_progress (copied new) e h = omega arith
    by_progress buffer_set e h = omega arith
    by_progress size_set e h = omega arith
