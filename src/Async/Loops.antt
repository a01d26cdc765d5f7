-- ===== src/Async/Loops.antt =====
-- async.go: what the loops of `flush` and `maybeResize` do to the entries in the ring.
use onelog.Prelude.{
  ℕ, zero, suc, ◌+◌, ◌%◌, ◌^◌, ◌≤◌, ◌<◌, ◌≡◌, refl, ap, ap₂, ◌∙◌, Bool, Option, none, some,
  Option-cases, inl, inr, List, [], ◌∷◌, Bytes, arith, get_or, set, length, length-set,
  get_or-set_self, bit_and, if◌then◌else◌, add64,
}
use onelog.Async.{drain, copy_entries}
use onelog.Async.Window.{window, window-set, window-set_below}

add64_exact : (i : ℕ) → i < 2 ^ 63 → add64 i 1 ≡ i + 1
add64_exact i h = omega arith

module _ {W : Type 0} (write_out : Bytes → W → W × Bool) where
  -- The writer's state once it is given the entries in order: a nil slot is passed over, and
  -- nothing is written after an error.
  abbrev pub deliver : List (Option Bytes) → W → W
  deliver [] w = w
  deliver (none ∷ es) w = deliver es w
  deliver (some e ∷ es) w =
      let rest = deliver es (write_out e w).0 in
      if (write_out e w).1 then (write_out e w).0 else rest

module _ {W : Type 0} (write_out : Bytes → W → W × Bool) (s mask : ℕ)
    (masked : (i : ℕ) → bit_and i mask ≡ i % s) where
  -- The slots beyond the loop's are left alone.
  pub window-drain :
      (n i j m : ℕ) (buf : List (Option Bytes)) (w : W)
      → i + n < 2 ^ 63
      → i + n ≤ j
      → j + m ≤ i + s
      → window (drain write_out n i mask buf w).0 s j m ≡ window buf s j m
  unfolding drain
  window-drain zero i j m buf w h p q = refl
  window-drain (suc n) i j m buf w h p q = elim (Option-cases (get_or buf (i % s) none)) [
    | inl e ↦ ground (
      arith,
      masked i,
      add64_exact i (omega arith),
      window-drain n (i + 1) j m buf w (omega arith) (omega arith) (omega arith),
    )
    | inr (x, e) ↦ ground (
      arith,
      masked i,
      add64_exact i (omega arith),
      window-drain n (i + 1) j m (set buf (i % s) none) (write_out x w).0 (omega arith)
          (omega arith) (omega arith),
      window-set buf s i j m none (omega arith) q,
    )
  ]

  pub length-drain :
      (n i : ℕ) (buf : List (Option Bytes)) (w : W)
      → length (drain write_out n i mask buf w).0 ≡ length buf
  unfolding drain
  length-drain zero i buf w = refl
  length-drain (suc n) i buf w = elim (Option-cases (get_or buf (bit_and i mask) none)) [
    | inl e ↦ ground (arith, length-drain n (add64 i 1) buf w)
    | inr (x, e) ↦ ground (
      arith,
      length-drain n (add64 i 1) (set buf (bit_and i mask) none) (write_out x w).0,
      length-set buf (bit_and i mask) none,
    )
  ]

  -- The loop hands the writer the entries of its slots, oldest first, up to the first error.
  pub drain-deliver :
      (n i : ℕ) (buf : List (Option Bytes)) (w : W)
      → i + n < 2 ^ 63
      → n ≤ s
      → (drain write_out n i mask buf w).1 ≡ deliver write_out (window buf s i n) w
  unfolding drain
  drain-deliver zero i buf w h p = refl
  drain-deliver (suc n) i buf w h p = elim (Option-cases (get_or buf (i % s) none)) [
    | inl e ↦ ground (
      arith,
      masked i,
      add64_exact i (omega arith),
      drain-deliver n (i + 1) buf w (omega arith) (omega arith),
    )
    | inr (x, e) ↦ ground (
      arith,
      masked i,
      add64_exact i (omega arith),
      drain-deliver n (i + 1) (set buf (i % s) none) (write_out x w).0 (omega arith) (omega arith),
      window-set buf s i (i + 1) n none (omega arith) (omega arith),
    )
  ]

pub length-copy_entries :
    (n i mask new_mask : ℕ) (old new : List (Option Bytes))
    → length (copy_entries n i mask new_mask old new) ≡ length new
unfolding copy_entries
length-copy_entries zero i mask new_mask old new = refl
length-copy_entries (suc n) i mask new_mask old new =
    length-copy_entries n (add64 i 1) mask new_mask old _ ∙ length-set new (bit_and i new_mask) _

module _ (s mask s' mask' : ℕ) (masked : (i : ℕ) → bit_and i mask ≡ i % s)
    (masked' : (i : ℕ) → bit_and i mask' ≡ i % s') where
  window-copy_entries_below :
      (n i j m : ℕ) (old new : List (Option Bytes))
      → i + n < 2 ^ 63
      → j + m ≤ i
      → i + n ≤ j + s'
      → window (copy_entries n i mask mask' old new) s' j m ≡ window new s' j m
  unfolding copy_entries
  window-copy_entries_below zero i j m old new h p q = refl
  window-copy_entries_below (suc n) i j m old new h p q =
      let v = get_or old (i % s) none in
      rw (masked i, masked' i, add64_exact i (omega arith))
        (window-copy_entries_below n (i + 1) j m old (set new (i % s') v) (omega arith)
            (omega arith) (omega arith)
          ∙ window-set_below new s' i j m v p (omega arith))

  copy_entries_step :
      (n i : ℕ) (old new : List (Option Bytes))
      → i < 2 ^ 63
      → copy_entries (suc n) i mask mask' old new
        ≡ copy_entries n (i + 1) mask mask' old (set new (i % s') (get_or old (i % s) none))
  unfolding copy_entries
  copy_entries_step n i old new h = rw (masked i, masked' i, add64_exact i h)

  -- The loop keeps the entries of its slots, in their order.
  pub window-copy_entries :
      (n i : ℕ) (old new : List (Option Bytes))
      → i + n < 2 ^ 63
      → n ≤ s'
      → s' ≤ length new
      → window (copy_entries n i mask mask' old new) s' i n ≡ window old s i n
  window-copy_entries zero i old new h p q = refl
  window-copy_entries (suc n) i old new h p q =
      let v = get_or old (i % s) none in
      let new' = set new (i % s') v in
      ap (λ l. window l s' i (suc n)) (copy_entries_step n i old new (omega arith))
      ∙ (ap₂ ◌∷◌
          (ap (λ l. get_or l 0 none)
              (window-copy_entries_below n (i + 1) i 1 old new' (omega arith) (omega arith)
                (omega arith))
            ∙ get_or-set_self new (i % s') v none (omega arith))
          (window-copy_entries n (i + 1) old new' (omega arith) (omega arith)
            (omega (arith, length-set new (i % s') v))))
