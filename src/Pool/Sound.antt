-- ===== src/Pool/Sound.antt =====
-- pool.go: what Get and Put keep of the pool's classes.
use onelog.Prelude.{
  ℕ, zero, suc, ◌*◌, ◌≤◌, ◌<◌, ◌≡◌, refl, sym, ◌⊎◌, inl, inr, Option, none, some, List, [], ◌∷◌,
  length, length-append, length-replicate, length-take, length-drop, get_or, take, drop, replicate,
  if_elim, leb, ltb, ◌==◌, All, All-append, add64, arith, subst,
}
use onelog.Field.{Field, zero_field}
use onelog.Pool.{
  FieldSlice, cap, empty_slice, SyncPool, SizeClass, FieldPool, class_sizes, bare_classes,
  taken_from, filed_in, make_classes, new_field_pool, without, pick_from, take_class, got, get,
  truncated, cleared, put_class, put,
}

-- A slice has about the capacity asked for: up to 8 is one class, and above it a slice has more
-- than half of that and less than twice.
abbrev pub Fits : ℕ → FieldSlice → Type 0
Fits capacity s =
    ((0 < cap s) × (cap s ≤ 8) × (capacity ≤ 8)) ⊎ ((capacity < 2 * cap s) × (cap s < 2 * capacity))

-- The pool whose fields all have the property `P`.
module _ (P : Field → Type 0) (zero_P : P zero_field) where
  -- A slice in the pool of a class, whose capacity lies between the size of the class before and
  -- its own.
  abbrev pub IsFiled : ℕ → ℕ → FieldSlice → Type 0
  IsFiled low size s = (s.len ≡ 0) × (low < cap s) × (cap s ≤ size) × All P s.array

  abbrev pub IsHeld : ℕ → ℕ → Option SyncPool → Type 0
  IsHeld low size none = Unit
  IsHeld low size (some ss) = All (IsFiled low size) ss

  -- Behind a class without a pool there are only such.
  abbrev pub AtEnd : Option SyncPool → List SizeClass → Type 0
  AtEnd none ks = All (λ (k : SizeClass). k.pool ≡ none) ks
  AtEnd (some ss) ks = Unit

  abbrev pub Sound : ℕ → List SizeClass → Type 0
  Sound low [] = Unit
  Sound low (k ∷ ks) =
      (low < k.size)
      × ((k.size ≤ 8) ⊎ (k.size ≤ 2 * low))
      × IsHeld low k.size k.pool
      × AtEnd k.pool ks
      × Sound k.size ks

  zeros-All : (n : ℕ) → All P (replicate n zero_field)
  zeros-All zero = tt
  zeros-All (suc n) = (zero_P, zeros-All n)

  without-All : (Q : FieldSlice → Type 0) (i : ℕ) (ss : SyncPool) → All Q ss → All Q (without i ss)
  without-All Q i [] h = tt
  without-All Q zero (s ∷ ss) (_, h) = h
  without-All Q (suc i) (s ∷ ss) (hs, h) = (hs, without-All Q i ss h)

  empty_slice-IsFiled : (low size : ℕ) → low < size → IsFiled low size (empty_slice size)
  empty_slice-IsFiled low size h = (
    refl,
    omega (arith, length-replicate size zero_field),
    omega (arith, length-replicate size zero_field),
    zeros-All size,
  )

  pick_from-IsFiled :
      (low size : ℕ) (pick : Option ℕ) (ss : SyncPool)
      → low < size
      → All (IsFiled low size) ss
      → IsFiled low size (pick_from size pick ss).0
        × All (IsFiled low size) (pick_from size pick ss).1
  pick_from-IsFiled low size none ss pos h = (empty_slice-IsFiled low size pos, h)
  pick_from-IsFiled low size (some i) ss pos h =
      (picked i ss h, without-All (IsFiled low size) i ss h)
    where
      picked :
          (i : ℕ) (ss : SyncPool)
          → All (IsFiled low size) ss
          → IsFiled low size (get_or ss i (empty_slice size))
      picked i [] h = empty_slice-IsFiled low size pos
      picked zero (s ∷ ss) (hs, h) = hs
      picked (suc i) (s ∷ ss) (hs, h) = picked i ss h

  -- The classes stay sound, and a slice taken from them is empty and fits.
  abbrev IsTaken : ℕ → ℕ → Option FieldSlice × List SizeClass → Type 0
  IsTaken low capacity (none, ks) = Sound low ks
  IsTaken low capacity (some s, ks) =
      (s.len ≡ 0) × All P s.array × (low < capacity → Fits capacity s) × Sound low ks

  -- Nothing is taken from classes without a pool, and nothing put into them.
  no_pools-taken :
      (capacity : ℕ) (pick : Option ℕ) (ks : List SizeClass)
      → All (λ (k : SizeClass). k.pool ≡ none) ks
      → take_class capacity pick ks ≡ (none, ks)
  no_pools-taken capacity pick [] h = refl
  no_pools-taken capacity pick (k ∷ ks) (hk, h) =
      rw (no_pools-taken capacity pick ks h, hk)
        (if_elim
          (λ (r : Option FieldSlice × List SizeClass). r ≡ (none, record k { pool = none } ∷ ks))
          (leb capacity k.size) _ _ (λ _. refl) (λ _. refl))

  no_pools-put :
      (s : FieldSlice) (ks : List SizeClass)
      → All (λ (k : SizeClass). k.pool ≡ none) ks
      → put_class s ks ≡ ks
  no_pools-put s [] h = refl
  no_pools-put s (k ∷ ks) (hk, h) =
      rw (no_pools-put s ks h, hk)
        (if_elim (λ (r : List SizeClass). r ≡ record k { pool = none } ∷ ks) (leb (cap s) k.size) _
          _ (λ _. refl) (λ _. refl))

  taken_from-IsTaken :
      (low capacity : ℕ) (k : SizeClass) (pick : Option ℕ) (ks : List SizeClass)
      (o : Option SyncPool)
      → low < k.size
      → (k.size ≤ 8) ⊎ (k.size ≤ 2 * low)
      → IsHeld low k.size o
      → AtEnd o ks
      → Sound k.size ks
      → capacity ≤ k.size
      → IsTaken low capacity
          (taken_from (record k { pool = o }) pick ks o (take_class capacity pick ks))
  taken_from-IsTaken low capacity k pick ks none up step held ends others enough =
      subst (λ r. IsTaken low capacity (taken_from (record k { pool = none }) pick ks none r))
        (sym (no_pools-taken capacity pick ks ends)) (up, step, tt, ends, others)
  taken_from-IsTaken low capacity k pick ks (some ss) up step held ends others enough =
      let ((empty, above, below, fields), left) = pick_from-IsFiled low k.size pick ss up held in
      (refl, fields, (λ more. by_step step above below more), (up, step, left, tt, others))
    where
      s : FieldSlice
      s = (pick_from k.size pick ss).0

      by_step :
          (k.size ≤ 8) ⊎ (k.size ≤ 2 * low)
          → low < cap s
          → cap s ≤ k.size
          → low < capacity
          → Fits capacity (truncated s)
      by_step (inl small) above below more = inl (omega arith, omega arith, omega arith)
      by_step (inr wide) above below more = inr (omega arith, omega arith)

  add_class :
      (low capacity : ℕ) (k : SizeClass) (pick : Option ℕ) (ks : List SizeClass)
      (o : Option SyncPool)
      → low < k.size
      → (k.size ≤ 8) ⊎ (k.size ≤ 2 * low)
      → IsHeld low k.size o
      → AtEnd o ks
      → Sound k.size ks
      → k.size < capacity
      → IsTaken k.size capacity (take_class capacity pick ks)
      → let r = take_class capacity pick ks in
        IsTaken low capacity (r.0, record k { pool = o } ∷ r.1)
  add_class low capacity k pick ks none up step held ends others more h =
      subst (λ r. IsTaken low capacity (r.0, record k { pool = none } ∷ r.1))
        (sym (no_pools-taken capacity pick ks ends)) (up, step, tt, ends, others)
  add_class low capacity k pick ks (some ss) up step held ends others more h =
      by_found (take_class capacity pick ks) h
    where
      by_found :
          (r : Option FieldSlice × List SizeClass)
          → IsTaken k.size capacity r
          → IsTaken low capacity (r.0, record k { pool = some ss } ∷ r.1)
      by_found (none, rest) sound = (up, step, held, tt, sound)
      by_found (some s, rest) (empty, fields, fits, sound) =
          (empty, fields, (λ _. fits more), (up, step, held, tt, sound))

  take_class-IsTaken :
      (low capacity : ℕ) (pick : Option ℕ) (ks : List SizeClass)
      → Sound low ks
      → IsTaken low capacity (take_class capacity pick ks)
  take_class-IsTaken low capacity pick [] h = tt
  take_class-IsTaken low capacity pick (k ∷ ks) (up, step, held, ends, others) =
      let rest = take_class-IsTaken k.size capacity pick ks others in
      if_elim (IsTaken low capacity) (leb capacity k.size) _ _
        (λ e.
          taken_from-IsTaken low capacity k pick ks k.pool up step held ends others (ground arith))
        (λ e. add_class low capacity k pick ks k.pool up step held ends others (ground arith) rest)

  filed_in-Sound :
      (low : ℕ) (k : SizeClass) (s : FieldSlice) (ks : List SizeClass) (o : Option SyncPool)
      → low < k.size
      → (k.size ≤ 8) ⊎ (k.size ≤ 2 * low)
      → IsHeld low k.size o
      → AtEnd o ks
      → Sound k.size ks
      → low < cap s
      → cap s ≤ k.size
      → All P (drop s.len s.array)
      → Sound low (filed_in (record k { pool = o }) s ks o (put_class s ks))
  filed_in-Sound low k s ks none up step held ends others above below tail =
      subst (λ rest. Sound low (record k { pool = none } ∷ rest)) (sym (no_pools-put s ks ends))
        (up, step, tt, ends, others)
  filed_in-Sound low k s ks (some ss) up step held ends others above below tail =
      (up, step, (filed, held), tt, others)
    where
      same : length (cleared s).array ≡ cap s
      same = omega (
        arith,
        length-append (replicate (length (take s.len s.array)) zero_field) (drop s.len s.array),
        length-replicate (length (take s.len s.array)) zero_field,
        length-take s.len s.array,
        length-drop s.len s.array,
      )

      filed : IsFiled low k.size (truncated (cleared s))
      filed = (
        refl,
        omega (arith, same, above),
        omega (arith, same, below),
        All-append P (replicate (length (take s.len s.array)) zero_field) (drop s.len s.array)
            (zeros-All (length (take s.len s.array))) tail,
      )

  skip_class :
      (low : ℕ) (k : SizeClass) (s : FieldSlice) (ks : List SizeClass) (o : Option SyncPool)
      → low < k.size
      → (k.size ≤ 8) ⊎ (k.size ≤ 2 * low)
      → IsHeld low k.size o
      → AtEnd o ks
      → Sound k.size ks
      → Sound k.size (put_class s ks)
      → Sound low (record k { pool = o } ∷ put_class s ks)
  skip_class low k s ks none up step held ends others h =
      subst (λ rest. Sound low (record k { pool = none } ∷ rest)) (sym (no_pools-put s ks ends))
        (up, step, tt, ends, others)
  skip_class low k s ks (some ss) up step held ends others h = (up, step, held, tt, h)

  put_class-Sound :
      (low : ℕ) (s : FieldSlice) (ks : List SizeClass)
      → low < cap s
      → All P (drop s.len s.array)
      → Sound low ks
      → Sound low (put_class s ks)
  put_class-Sound low s [] above tail h = tt
  put_class-Sound low s (k ∷ ks) above tail (up, step, held, ends, others) =
      if_elim (Sound low) (leb (cap s) k.size) _ _
        (λ e. filed_in-Sound low k s ks k.pool up step held ends others above (ground arith) tail)
        (λ e.
          skip_class low k s ks k.pool up step held ends others
            (put_class-Sound k.size s ks (ground arith) tail others))

  -- One use of the pool.
  pub get-Sound :
      (capacity : ℕ) (pick : Option ℕ) (p : FieldPool)
      → Sound 0 p.classes
      → let (s, p') = get capacity pick p in
        (s.len ≡ 0) × All P s.array × (0 < capacity → Fits capacity s) × Sound 0 p'.classes
  unfolding get
  get-Sound capacity pick p h =
      by_result (take_class capacity pick p.classes)
        (take_class-IsTaken 0 capacity pick p.classes h)
    where
      q : FieldPool
      q = record p { gets = add64 p.gets 1 }

      new : (0 < capacity) → Fits capacity (empty_slice capacity)
      new pos = inr (
        omega (arith, length-replicate capacity zero_field),
        omega (arith, length-replicate capacity zero_field),
      )

      by_result :
          (r : Option FieldSlice × List SizeClass)
          → IsTaken 0 capacity r
          → let (s, p') = got q capacity r in
            (s.len ≡ 0) × All P s.array × (0 < capacity → Fits capacity s) × Sound 0 p'.classes
      by_result (none, ks) sound = (refl, zeros-All capacity, new, h)
      by_result (some s, ks) t = t

  pub put-Sound :
      (s : FieldSlice) (p : FieldPool)
      → All P (drop s.len s.array)
      → Sound 0 p.classes
      → Sound 0 (put s p).classes
  unfolding put
  put-Sound s p tail h =
      if_elim (λ (q : FieldPool). Sound 0 q.classes) (cap s == 0) _ _ (λ _. h)
        (λ room. put_class-Sound 0 s p.classes (ground arith) tail h)

  -- The sizes go on from a class: each at most doubles the one before.
  abbrev Steps : ℕ → List ℕ → Type 0
  Steps low [] = Unit
  Steps low (n ∷ ns) = (low < n) × ((n ≤ 8) ⊎ (n ≤ 2 * low)) × Steps n ns

  bare_classes-nil : (ns : List ℕ) → All (λ (k : SizeClass). k.pool ≡ none) (bare_classes ns)
  bare_classes-nil [] = tt
  bare_classes-nil (n ∷ ns) = (refl, bare_classes-nil ns)

  bare_classes-Sound : (low : ℕ) (ns : List ℕ) → Steps low ns → Sound low (bare_classes ns)
  bare_classes-Sound low [] h = tt
  bare_classes-Sound low (n ∷ ns) (up, step, h) =
      (up, step, tt, bare_classes-nil ns, bare_classes-Sound n ns h)

  make_classes-Sound :
      (low limit : ℕ) (ns : List ℕ) → Steps low ns → Sound low (make_classes limit ns)
  make_classes-Sound low limit [] h = tt
  make_classes-Sound low limit (n ∷ ns) (up, step, h) =
      if_elim (Sound low) (ltb limit n) _ _
        (λ _. (up, step, tt, bare_classes-nil ns, bare_classes-Sound n ns h))
        (λ _. (up, step, tt, tt, make_classes-Sound n limit ns h))

  pub new_field_pool-Sound : (limit : ℕ) → Sound 0 (new_field_pool limit).classes
  unfolding new_field_pool
  new_field_pool-Sound limit = make_classes-Sound 0 limit class_sizes (
    omega arith,
    inl (omega arith),
    (
      omega arith,
      inr (omega arith),
      (
        omega arith,
        inr (omega arith),
        (
          omega arith,
          inr (omega arith),
          (
            omega arith,
            inr (omega arith),
            (omega arith, inr (omega arith), (omega arith, inr (omega arith), tt)),
          ),
        ),
      ),
    ),
  )
