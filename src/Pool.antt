-- ===== src/Pool.antt =====
-- pool.go: the pool of field slices by size class. Nothing but the tests calls Get and Put.
pub mod Sound
pub mod Laws
mod Tests
use onelog.Prelude.{
  ℕ, zero, suc, ◌+◌, Bool, true, false, ◌&&◌, Option, none, some, List, [], ◌∷◌, ◌++◌, length, set,
  get_or, take, drop, replicate, if◌then◌else◌, ◌==◌, leb, ltb, add64,
}
use onelog.Field.{Field, zero_field}

-- A slice that starts its array: all of the array, of which `len` fields are in the slice.
pub record FieldSlice : Type 0 where
  pub array : List Field
  pub len : ℕ

abbrev pub cap : FieldSlice → ℕ
cap s = length s.array

-- `make([]Field, 0, size)`
abbrev pub empty_slice : ℕ → FieldSlice
empty_slice size = record { array = replicate size zero_field; len = 0 }

-- `sync.Pool`: what it holds.
abbrev pub SyncPool : Type 0
SyncPool = List FieldSlice

-- A size class and its pool, none for nil.
pub record SizeClass : Type 0 where
  pub size : ℕ
  pub pool : Option SyncPool

-- The counters are int64.
pub record FieldPool : Type 0 where
  pub classes : List SizeClass
  pub gets : ℕ
  pub puts : ℕ
  pub misses : ℕ
  pub allocations : ℕ

abbrev pub class_sizes : List ℕ
class_sizes = 8 ∷ 16 ∷ 32 ∷ 64 ∷ 128 ∷ 256 ∷ 512 ∷ []

abbrev pub bare_classes : List ℕ → List SizeClass
bare_classes [] = []
bare_classes (n ∷ ns) = record { size = n; pool = none } ∷ bare_classes ns

-- The loop breaks at the first size over the limit; the sizes stay.
abbrev pub make_classes : ℕ → List ℕ → List SizeClass
make_classes limit [] = []
make_classes limit (n ∷ ns) =
    if ltb limit n
    then record { size = n; pool = none } ∷ bare_classes ns
    else record { size = n; pool = some [] } ∷ make_classes limit ns

unfoldable pub new_field_pool : ℕ → FieldPool
new_field_pool max_capacity = record {
  classes = make_classes max_capacity class_sizes;
  gets = 0;
  puts = 0;
  misses = 0;
  allocations = 0;
}

-- `sync.Pool.Get` gives a slice it holds, by its index, or makes one.
abbrev pub without : ℕ → SyncPool → SyncPool
without i [] = []
without zero (s ∷ ss) = ss
without (suc i) (s ∷ ss) = s ∷ without i ss

abbrev pub pick_from : ℕ → Option ℕ → SyncPool → FieldSlice × SyncPool
pick_from size none held = (empty_slice size, held)
pick_from size (some i) held = (get_or held i (empty_slice size), without i held)

-- `slice[:0]`
abbrev pub truncated : FieldSlice → FieldSlice
truncated s = record s { len = 0 }

-- From a class whose pool is there, or what the other classes give.
abbrev pub taken_from :
    SizeClass
    → Option ℕ
    → List SizeClass
    → Option SyncPool
    → Option FieldSlice × List SizeClass
    → Option FieldSlice × List SizeClass
taken_from k pick ks none (found, rest) = (found, k ∷ rest)
taken_from k pick ks (some held) (found, rest) =
    let (s, left) = pick_from k.size pick held in
    (some (truncated s), record k { pool = some left } ∷ ks)

-- Takes from the first class that has room and a pool, or none.
abbrev pub take_class : ℕ → Option ℕ → List SizeClass → Option FieldSlice × List SizeClass
take_class capacity pick [] = (none, [])
take_class capacity pick (k ∷ ks) =
    let (found, rest) = take_class capacity pick ks in
    if leb capacity k.size then taken_from k pick ks k.pool (found, rest) else (found, k ∷ rest)

abbrev pub got : FieldPool → ℕ → Option FieldSlice × List SizeClass → FieldSlice × FieldPool
got p capacity (some s, ks) = (s, record p { classes = ks })
got p capacity (none, ks) = (
  empty_slice capacity,
  record p { misses = add64 p.misses 1; allocations = add64 p.allocations 1 },
)

-- The fast path for the first class is the loop's first round. `pick` is the choice of the
-- `sync.Pool`.
unfoldable pub get : ℕ → Option ℕ → FieldPool → FieldSlice × FieldPool
get capacity pick p =
    let q = record p { gets = add64 p.gets 1 } in
    got q capacity (take_class capacity pick q.classes)

-- The fields of the slice are cleared; what the array holds behind them is not.
abbrev pub cleared : FieldSlice → FieldSlice
cleared s = record s {
  array = replicate (length (take s.len s.array)) zero_field ++ drop s.len s.array;
}

abbrev pub filed_in :
    SizeClass → FieldSlice → List SizeClass → Option SyncPool → List SizeClass → List SizeClass
filed_in k s ks none rest = k ∷ rest
filed_in k s ks (some held) rest = record k { pool = some (truncated (cleared s) ∷ held) } ∷ ks

abbrev pub put_class : FieldSlice → List SizeClass → List SizeClass
put_class s [] = []
put_class s (k ∷ ks) =
    let rest = put_class s ks in
    if leb (cap s) k.size then filed_in k s ks k.pool rest else k ∷ rest

unfoldable pub put : FieldSlice → FieldPool → FieldPool
put s p =
    let q = record p { puts = add64 p.puts 1 } in
    if cap s == 0 then q else record q { classes = put_class s q.classes }

-- The names of the metrics are those of the fields.
abbrev pub get_metrics : FieldPool → ℕ × ℕ × ℕ × ℕ
get_metrics p = (p.gets, p.puts, p.misses, p.allocations)
