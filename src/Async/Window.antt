-- ===== src/Async/Window.antt =====
-- async.go: runs of slots round the ring, and what the loops over them leave.
use Prim.Native.Nat.{ℕ}
use native.Mathlib.Nat.{div-add-mod}
use onelog.Prelude.{
  zero, suc, ◌+◌, ◌%◌, ◌≤◌, ◌<◌, ◌≡◌, ◌≢◌, refl, sym, ap, ap₂, Option, none, List, [], ◌∷◌, Bytes,
  arith, get_or, set, length, get_or-set_ne,
}

-- The `n` slots from index `i` on, in a ring of `s` slots.
abbrev pub window : List (Option Bytes) → ℕ → ℕ → ℕ → List (Option Bytes)
window buf s i zero = []
window buf s i (suc n) = get_or buf (i % s) none ∷ window buf s (i + 1) n

pub length-window : (buf : List (Option Bytes)) (s i n : ℕ) → length (window buf s i n) ≡ n
length-window buf s i zero = refl
length-window buf s i (suc n) = ap suc (length-window buf s (i + 1) n)

-- Two indices less than `s` apart have different slots.
pub mod_ne : (s i j : ℕ) → i < j → j < i + s → i % s ≢ j % s
mod_ne s i j h k e = grind (arith, div-add-mod i s, div-add-mod j s)

pub window-set :
    (buf : List (Option Bytes)) (s i j m : ℕ) (v : Option Bytes)
    → i < j
    → j + m ≤ i + s
    → window (set buf (i % s) v) s j m ≡ window buf s j m
window-set buf s i j zero v h k = refl
window-set buf s i j (suc m) v h k =
    ap₂ ◌∷◌ (get_or-set_ne buf (i % s) (j % s) v none (mod_ne s i j h (omega arith)))
      (window-set buf s i (j + 1) m v (omega arith) (omega arith))

pub window-set_below :
    (buf : List (Option Bytes)) (s i j m : ℕ) (v : Option Bytes)
    → j + m ≤ i
    → i < j + s
    → window (set buf (i % s) v) s j m ≡ window buf s j m
window-set_below buf s i j zero v h k = refl
window-set_below buf s i j (suc m) v h k =
    ap₂ ◌∷◌ (get_or-set_ne buf (i % s) (j % s) v none (λ e. mod_ne s j i (omega arith) k (sym e)))
      (window-set_below buf s i (j + 1) m v (omega arith) (omega arith))
