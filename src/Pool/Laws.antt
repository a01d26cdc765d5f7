-- ===== src/Pool/Laws.antt =====
-- pool.go: what Get gives after any uses of a pool.
use mathlib.Core.List.{Mem, mem-cons_self, mem-cons_of_mem}
use onelog.Prelude.{
  ℕ, ◌<◌, ◌≡◌, refl, ◌⊎◌, inl, inr, Option, List, [], ◌∷◌, ◌++◌, drop, All, All-map, All-split,
}
use onelog.Field.{Field, zero_field}
use onelog.Pool.{FieldSlice, FieldPool, new_field_pool, get, put}
use onelog.Pool.Sound.{Fits, Sound, get-Sound, put-Sound, new_field_pool-Sound}

-- A use of the pool.
pub data PoolCall : Type 0 where
  gets_slice : ℕ → Option ℕ → PoolCall
  puts_slice : FieldSlice → PoolCall

pub run_pool : List PoolCall → FieldPool → FieldPool
unfolding get put
run_pool [] p = p
run_pool (gets_slice capacity pick ∷ cs) p = run_pool cs (get capacity pick p).1
run_pool (puts_slice s ∷ cs) p = run_pool cs (put s p)

-- The fields that stand behind the length of a slice that is put back.
abbrev pub hidden : List PoolCall → List Field
hidden [] = []
hidden (gets_slice capacity pick ∷ cs) = hidden cs
hidden (puts_slice s ∷ cs) = drop s.len s.array ++ hidden cs

module _ (P : Field → Type 0) (zero_P : P zero_field) where
  run_pool-Sound :
      (cs : List PoolCall) (p : FieldPool)
      → All P (hidden cs)
      → Sound P zero_P 0 p.classes
      → Sound P zero_P 0 (run_pool cs p).classes
  unfolding run_pool
  run_pool-Sound [] p tails h = h
  run_pool-Sound (gets_slice capacity pick ∷ cs) p tails h =
      let (_, _, _, sound) = get-Sound P zero_P capacity pick p h in
      run_pool-Sound cs (get capacity pick p).1 tails sound
  run_pool-Sound (puts_slice s ∷ cs) p tails h =
      let (tail, others) = All-split P (drop s.len s.array) (hidden cs) tails in
      run_pool-Sound cs (put s p) others (put-Sound P zero_P s p tail h)

All-self : (fs : List Field) → All (λ f. Mem f fs) fs
All-self [] = tt
All-self (f ∷ fs) = (
  mem-cons_self,
  All-map (λ g. Mem g fs) (λ g. Mem g (f ∷ fs)) fs (λ g h. mem-cons_of_mem f h) (All-self fs),
)

-- After any uses of a new pool, a slice that Get gives for a capacity above 0 is empty and fits:
-- it has from 1 to 8 places if at most 8 are asked for, or else more than half of the capacity
-- asked for, and less than twice. A field that its array still holds stood behind the length of
-- a slice when that was put back: of the fields within its length, Put leaves nothing.
pub run_pool_lem :
    (limit capacity : ℕ) (pick : Option ℕ) (cs : List PoolCall)
    → 0 < capacity
    → let s = (get capacity pick (run_pool cs (new_field_pool limit))).0 in
      (s.len ≡ 0) × Fits capacity s × All (λ f. (f ≡ zero_field) ⊎ Mem f (hidden cs)) s.array
run_pool_lem limit capacity pick cs pos =
    let (empty, fields, fits, _) =
      get-Sound Left (inl refl) capacity pick (run_pool cs (new_field_pool limit)) (
        run_pool-Sound Left (inl refl) cs (new_field_pool limit)
          (All-map (λ f. Mem f (hidden cs)) Left (hidden cs) (λ f h. inr h) (All-self (hidden cs)))
          (new_field_pool-Sound Left (inl refl) limit)) in
    (empty, fits pos, fields)
  where
    Left : Field → Type 0
    Left f = (f ≡ zero_field) ⊎ Mem f (hidden cs)
