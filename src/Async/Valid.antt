-- ===== src/Async/Valid.antt =====
-- async.go: the representation invariant of the ring, and the entries that it holds.
use native.Mathlib.Nat.{one-le-pow, div-le_of_le-mul, mod-lt}
use native.Mathlib.Nat.{add-zero}
use native.Mathlib.Numerals.{add-one}
use onelog.Prelude.{
  ◌↔◌, ℕ, zero, suc, ◌+◌, ◌-◌, ◌*◌, ◌/◌, ◌%◌, ◌^◌, ◌≤◌, ◌<◌, ◌≡◌, ap, ap₂, ◌∙◌, Option, none, some,
  List, [], ◌∷◌, ◌++◌, Bytes, arith, get_or, set, length, length-set, get_or-set_self, bit_and,
  mul64, div64_exact,
}
use onelog.Prelude.Bits.{bit_and_mask}
use onelog.Async.{Buffer, store, usage, percent}
use onelog.Async.Window.{window, length-window, window-set_below}

-- The invariant between two operations. The capacity is a power of two that leaves room for the
-- arithmetic on int64; `utilization` is a percentage.
pub record IsValid (b : Buffer) : Type 0 where
  pub exponent : ℕ
  pub size_eq : b.size ≡ 2 ^ exponent
  pub mask_eq : b.mask ≡ 2 ^ exponent - 1
  pub small : b.size ≤ 2 ^ 40
  pub slots : length b.buffer ≡ b.size
  pub in_order : b.read_index ≤ b.write_index
  pub fits : b.write_index ≤ b.read_index + b.size
  pub index_small : b.write_index ≤ 2 ^ 62
  pub percent_small : b.utilization ≤ 100
  pub threshold_small : b.resize_threshold ≤ 100

-- The entries between the two indices, oldest first. A slot that was claimed and not yet filled
-- may be nil.
abbrev pub contents : Buffer → List (Option Bytes)
contents b = window b.buffer b.size b.read_index (b.write_index - b.read_index)

pub masked : {b : Buffer} → IsValid b → (i : ℕ) → bit_and i b.mask ≡ i % b.size
masked {b} v i = rw (v.mask_eq, v.size_eq) (bit_and_mask v.exponent i)

pub size_pos : {b : Buffer} → IsValid b → 0 < b.size
size_pos v = omega (arith, one-le-pow v.exponent 2 (omega arith))

pub usage_exact : {b : Buffer} → IsValid b → usage b ≡ b.write_index - b.read_index + 1
usage_exact v = omega arith

pub percent_exact : {b : Buffer} → IsValid b → usage b ≤ b.size → percent b ≡ usage b * 100 / b.size
percent_exact {b} v h = rw (fits64) (div64_exact (usage b * 100) b.size (omega arith) (omega arith))
  where
    fits64 : mul64 (usage b) 100 ≡ usage b * 100
    fits64 = omega arith

pub percent-le : {b : Buffer} → IsValid b → usage b ≤ b.size → percent b ≤ 100
percent-le {b} v h =
    omega (
      arith,
      percent_exact v h,
      div-le_of_le-mul b.size {m = usage b * 100} {n = 100} (omega arith),
    )

pub usage-le :
    {b : Buffer} → IsValid b → (usage b ≤ b.size) ↔ (b.write_index - b.read_index < b.size)
usage-le v = (λ h. omega arith, λ h. omega arith)

-- Storing one more entry keeps the invariant where a slot is free, and appends the entry.
pub store-IsValid :
    {b : Buffer} (p : Bytes)
    → IsValid b
    → usage b ≤ b.size
    → b.write_index < 2 ^ 62
    → IsValid (store b p)
unfolding store
store-IsValid {b} p v h small = record {
  exponent = v.exponent;
  size_eq = v.size_eq;
  mask_eq = v.mask_eq;
  small = v.small;
  slots = length-set b.buffer _ _ ∙ v.slots;
  in_order = omega arith;
  fits = omega arith;
  index_small = omega arith;
  percent_small = percent-le v h;
  threshold_small = v.threshold_small;
}

pub window-snoc :
    (buf : List (Option Bytes)) (s i n : ℕ)
    → window buf s i (n + 1) ≡ window buf s i n ++ get_or buf ((i + n) % s) none ∷ []
window-snoc buf s i n = rw add-one (go i n)
  where
    go : (i n : ℕ) → window buf s i (suc n) ≡ window buf s i n ++ get_or buf ((i + n) % s) none ∷ []
    go i zero = rw add-zero
    go i (suc n) = ap (◌∷◌ (get_or buf (i % s) none)) (
        go (i + 1) n
        ∙ ap (λ t. window buf s (i + 1) n ++ get_or buf (t % s) none ∷ []) (omega arith))

pub contents-store :
    {b : Buffer} (p : Bytes)
    → IsValid b
    → usage b ≤ b.size
    → contents (store b p) ≡ contents b ++ some p ∷ []
unfolding store
contents-store {b} p v h =
    let n = b.write_index - b.read_index in
    let s = b.size in
    let buf = set b.buffer (b.write_index % s) (some p) in
    let end_eq : b.read_index + n ≡ b.write_index = omega arith in
    rw (masked v b.write_index) (
      ap (window buf s b.read_index) (omega arith)
      ∙ window-snoc buf s b.read_index n
      ∙ ap₂ ◌++◌
          (window-set_below b.buffer s b.write_index b.read_index n (some p) (omega arith)
            (omega arith))
          (ap (λ x. x ∷ [])
            (ap (λ t. get_or buf (t % s) none) end_eq
              ∙ get_or-set_self b.buffer (b.write_index % s) (some p) none
                  (omega (arith, mod-lt b.write_index (size_pos v), v.slots)))))

pub length-contents : {b : Buffer} → IsValid b → length (contents b) ≡ b.write_index - b.read_index
length-contents {b} v = length-window b.buffer b.size b.read_index (b.write_index - b.read_index)
