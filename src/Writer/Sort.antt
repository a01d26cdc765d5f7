-- ===== src/Writer/Sort.antt =====
-- writer.go, `sortLogsByTime`: the exchange sort of the backups by their times.
use onelog.Prelude.{
  ℕ, zero, suc, ◌≤◌, ◌≡◌, refl, ap, ◌∙◌, Bool, true, false, List, [], ◌∷◌, Bytes, length,
  if◌then◌else◌, ltb, All, arith,
}
use mathlib.Core.List.{Perm}
use mathlib.Core.List.Perm

-- A time is in nanoseconds.
pub record FileInfo : Type 0 where
  pub name : Bytes
  pub time : ℕ
  pub compressed : Bool

-- The loop over `j` from a place of the array on: `x` is the element at `i`, and the list what
-- lies behind `j`. The result is the element left at `i`, and what is left behind it.
abbrev pub exchange : FileInfo → List FileInfo → FileInfo × List FileInfo
exchange x [] = (x, [])
exchange x (y ∷ ys) =
    let after = ltb y.time x.time in
    let (m, rest) = exchange (if after then y else x) ys in (m, (if after then x else y) ∷ rest)

-- The loop over `i`, on what lies behind it; the number bounds the rounds.
abbrev pub exchange_all : ℕ → List FileInfo → List FileInfo
exchange_all (suc n) (x ∷ xs) = let (m, rest) = exchange x xs in m ∷ exchange_all n rest
exchange_all _ logs = logs

unfoldable pub sort_logs_by_time : List FileInfo → List FileInfo
sort_logs_by_time logs = exchange_all (length logs) logs

abbrev pub IsAscending : List FileInfo → Type 0
IsAscending [] = Unit
IsAscending (x ∷ xs) = All (λ y. x.time ≤ y.time) xs × IsAscending xs

exchange-perm :
    (x : FileInfo) (ys : List FileInfo) → let (m, rest) = exchange x ys in Perm (m ∷ rest) (x ∷ ys)
exchange-perm x [] = Perm.rfl
exchange-perm x (y ∷ ys) =
    let b = ltb y.time x.time in by_order b (exchange-perm (if b then y else x) ys)
  where
    by_order :
        (b : Bool)
        → let s = if b then y else x in
          let (m, rest) = exchange s ys in
          Perm (m ∷ rest) (s ∷ ys) → Perm (m ∷ (if b then x else y) ∷ rest) (x ∷ y ∷ ys)
    by_order true h = Perm.trans (Perm.swap x _ _) (Perm.cons x h)
    by_order false h = Perm.trans (Perm.swap y _ _) (Perm.trans (Perm.cons y h) (Perm.swap x y ys))

exchange_least :
    (x : FileInfo) (ys : List FileInfo)
    → let (m, rest) = exchange x ys in (m.time ≤ x.time) × All (λ y. m.time ≤ y.time) rest
exchange_least x [] = (omega arith, tt)
exchange_least x (y ∷ ys) =
    let b = ltb y.time x.time in by_order b refl (exchange_least (if b then y else x) ys)
  where
    by_order :
        (b : Bool)
        → ltb y.time x.time ≡ b
        → let s = if b then y else x in
          let (m, rest) = exchange s ys in
          (m.time ≤ s.time) × All (λ z. m.time ≤ z.time) rest
          → (m.time ≤ x.time)
            × ((m.time ≤ (if b then x else y).time) × All (λ z. m.time ≤ z.time) rest)
    by_order true e (le, below) = (ground arith, (ground arith, below))
    by_order false e (le, below) = (le, (ground arith, below))

length-exchange : (x : FileInfo) (ys : List FileInfo) → length (exchange x ys).1 ≡ length ys
length-exchange x [] = refl
length-exchange x (y ∷ ys) = ap suc (length-exchange (if ltb y.time x.time then y else x) ys)

All-exchange :
    (P : FileInfo → Type 0) (x : FileInfo) (ys : List FileInfo)
    → P x
    → All P ys
    → let (m, rest) = exchange x ys in P m × All P rest
All-exchange P x [] px h = (px, tt)
All-exchange P x (y ∷ ys) px (py, h) =
    by_order (ltb y.time x.time) (λ s ps. All-exchange P s ys ps h)
  where
    by_order :
        (b : Bool)
        → ((s : FileInfo) → P s → P (exchange s ys).0 × All P (exchange s ys).1)
        → let (m, rest) = exchange (if b then y else x) ys in
          P m × (P (if b then x else y) × All P rest)
    by_order true ih = let (hm, hr) = ih y py in (hm, (px, hr))
    by_order false ih = let (hm, hr) = ih x px in (hm, (py, hr))

All-exchange_all :
    (P : FileInfo → Type 0) (n : ℕ) (logs : List FileInfo)
    → All P logs
    → All P (exchange_all n logs)
All-exchange_all P zero logs h = h
All-exchange_all P (suc n) [] h = tt
All-exchange_all P (suc n) (x ∷ xs) (px, h) =
    let (hm, hr) = All-exchange P x xs px h in (hm, All-exchange_all P n (exchange x xs).1 hr)

exchange_all-perm : (n : ℕ) (logs : List FileInfo) → Perm (exchange_all n logs) logs
exchange_all-perm zero logs = Perm.rfl
exchange_all-perm (suc n) [] = Perm.rfl
exchange_all-perm (suc n) (x ∷ xs) =
    Perm.trans (Perm.cons (exchange x xs).0 (exchange_all-perm n (exchange x xs).1))
      (exchange-perm x xs)

exchange_all-IsAscending :
    (n : ℕ) (logs : List FileInfo) → length logs ≤ n → IsAscending (exchange_all n logs)
exchange_all-IsAscending zero [] h = tt
exchange_all-IsAscending zero (x ∷ xs) h = absurd (omega arith)
exchange_all-IsAscending (suc n) [] h = tt
exchange_all-IsAscending (suc n) (x ∷ xs) h =
    let (m, rest) = exchange x xs in
    (
      All-exchange_all (λ y. m.time ≤ y.time) n rest (exchange_least x xs).1,
      exchange_all-IsAscending n rest (omega (arith, length-exchange x xs)),
    )

length-exchange_all : (n : ℕ) (logs : List FileInfo) → length (exchange_all n logs) ≡ length logs
length-exchange_all zero logs = refl
length-exchange_all (suc n) [] = refl
length-exchange_all (suc n) (x ∷ xs) =
    ap suc (length-exchange_all n (exchange x xs).1 ∙ length-exchange x xs)

-- Sorting leaves the logs it is given, in ascending order of their times.
pub sort_logs_by_time_lem :
    (logs : List FileInfo)
    → IsAscending (sort_logs_by_time logs) × Perm (sort_logs_by_time logs) logs
unfolding sort_logs_by_time
sort_logs_by_time_lem logs = (
  exchange_all-IsAscending (length logs) logs (omega arith),
  exchange_all-perm (length logs) logs,
)

pub length-sort_logs_by_time :
    (logs : List FileInfo) → length (sort_logs_by_time logs) ≡ length logs
unfolding sort_logs_by_time
length-sort_logs_by_time logs = length-exchange_all (length logs) logs
