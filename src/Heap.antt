-- ===== src/Heap.antt =====
-- What loggers share: atomic levels, the rings of async.go and the arrays behind slices of hooks
-- (logger.go), in a heap, by address.
use onelog.Prelude.{
  ℕ, suc, ◌+◌, Bool, false, Option, none, some, List, [], ◌∷◌, ◌++◌, length, take, get_or, set,
  replicate, if◌then◌else◌, ltb,
}
use onelog.Level.{AtomicLevel, new_atomic_level}
use onelog.Async.{Buffer, new_async_buffer}

-- A value behind an interface or a function of the client (a formatter, a writer, a sampler, an
-- error handler, a hook) is known by a number, and `none` is nil.

-- A slice of hooks: its array, its length and its capacity.
pub record Slice : Type 0 where
  pub array : ℕ
  pub len : ℕ
  pub cap : ℕ

-- A ring, the writer that its worker writes to, and whether its stop channel is closed.
pub record Ring : Type 0 where
  pub buffer : Buffer
  pub out : Option ℕ
  pub stopped : Bool

pub record Heap : Type 0 where
  pub levels : List AtomicLevel
  pub rings : List Ring
  pub arrays : List (List ℕ)

-- What is read at an address that was not given out, which does not happen.
unfoldable pub no_ring : Ring
unfolding new_async_buffer
no_ring = record { buffer = new_async_buffer 1 4; out = none; stopped = false }

abbrev pub no_level : AtomicLevel
no_level = record { level = 0 }

abbrev pub level_at : Heap → ℕ → AtomicLevel
level_at h i = get_or h.levels i no_level

unfoldable pub ring_at : Heap → ℕ → Ring
unfolding no_ring
ring_at h i = get_or h.rings i no_ring

abbrev pub array_at : Heap → ℕ → List ℕ
array_at h i = get_or h.arrays i []

-- The new thing is at the address that was the length.
abbrev pub alloc_level : ℕ → Heap → Heap
alloc_level v h = record h { levels = h.levels ++ new_atomic_level v ∷ [] }

abbrev pub alloc_ring : Ring → Heap → Heap
alloc_ring r h = record h { rings = h.rings ++ r ∷ [] }

abbrev pub alloc_array : List ℕ → Heap → Heap
alloc_array a h = record h { arrays = h.arrays ++ a ∷ [] }

-- The hooks of a slice, as the array has them now.
abbrev pub hooks_in : Heap → Option Slice → List ℕ
hooks_in h none = []
hooks_in h (some s) = take s.len (array_at h s.array)

-- `append(s, hook)`: in place if the capacity allows, else in a new array. `spare` is the room that
-- `append` leaves behind the new element, by the old capacity.
abbrev pub append_to : (ℕ → ℕ) → Slice → ℕ → Heap → Slice × Heap
append_to spare s hook h =
    if ltb s.len s.cap
    then (
      record s { len = suc s.len },
      record h { arrays = set h.arrays s.array (set (array_at h s.array) s.len hook) },
    )
    else (
      record { array = length h.arrays; len = suc s.len; cap = suc s.len + spare s.cap },
      alloc_array (take s.len (array_at h s.array) ++ hook ∷ replicate (spare s.cap) 0) h,
    )

-- `make([]Hook, 0, 4)`. A nil hook is 0.
abbrev pub made : Option Slice → Heap → Slice × Heap
made none h = (record { array = length h.arrays; len = 0; cap = 4 }, alloc_array (replicate 4 0) h)
made (some s) h = (s, h)
