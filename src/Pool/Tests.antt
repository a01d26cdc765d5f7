-- ===== src/Pool/Tests.antt =====
-- Runs of the pool of field slices, and its theorem at concrete uses.
use mathlib.Core.List.{Mem}
use onelog.Prelude.{◌⊎◌, arith, ◌≡◌, refl, none, some, List, [], ◌∷◌, All, codes}
use onelog.Field.{zero_field, blank, int_type}
use onelog.Pool.{FieldSlice, new_field_pool, get, put}
use onelog.Pool.Sound.{Fits}
use onelog.Pool.Laws.{PoolCall, gets_slice, puts_slice, hidden, run_pool, run_pool_lem}

abbrev short : FieldSlice
short = record { array = blank (codes "a") int_type ∷ blank (codes "b") int_type ∷ []; len = 1 }

-- A slice with room for two is given to one that asks for eight, and the field behind its length
-- is still there.
gives_less :
    (get 8 (some 0) (put short (new_field_pool 1024))).0
    ≡ record { array = zero_field ∷ blank (codes "b") int_type ∷ []; len = 0 }
unfolding get put new_field_pool
gives_less = refl

abbrev uses : List PoolCall
uses = gets_slice 8 none ∷ puts_slice short ∷ gets_slice 600 none ∷ []

run_pool_lem_example :
    let s = (get 4 (some 0) (run_pool uses (new_field_pool 1024))).0 in
    (s.len ≡ 0) × Fits 4 s × All (λ f. (f ≡ zero_field) ⊎ Mem f (hidden uses)) s.array
run_pool_lem_example = run_pool_lem 1024 4 (some 0) uses (omega arith)
