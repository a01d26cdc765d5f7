-- ===== src/Logger/Share.antt =====
-- logger.go: what the loggers that `With…` makes share with the one they are made from.
use onelog.Prelude.{
  get_or-append, get_or-append_end, take-set_end, take-append_more, take-set_below, ℕ, suc, ◌<◌,
  ◌≤◌, ◌≡◌, ◌≢◌, refl, sym, ap, ◌∙◌, true, some, List, [], ◌∷◌, ◌++◌, length, length-set,
  length-take, take, replicate, get_or, set, get_or-set_self, get_or-set_ne, if_elim, ltb, ◌==◌,
  ==_iff, Bool-cases, ◌⊎◌, inl, inr, subst, arith,
}
use onelog.Level.{set_level, get_level, new_atomic_level}
use onelog.Heap.{Slice, Heap, array_at, hooks_in, append_to, made, alloc_level}
use onelog.Logger.{Logger, with_level, with_hook, set_logger_level, get_logger_level}

-- The logger's level is in the heap.
abbrev pub IsPlaced : Logger → Heap → Type 0
IsPlaced l h = l.level < length h.levels

get_logger_level-set :
    (v : ℕ) (l m : Logger) (h : Heap)
    → IsPlaced l h
    → m.level ≡ l.level
    → get_logger_level m (set_logger_level v l h) ≡ v
unfolding get_logger_level set_logger_level get_level set_level
get_logger_level-set v l m h p same =
    ap (λ i. (get_or (set h.levels l.level (record { level = v })) i (record { level = 0 })).level)
      same
    ∙ ap (λ a. a.level)
        (get_or-set_self h.levels l.level (record { level = v }) (record { level = 0 }) p)

get_logger_level-set_ne :
    (v : ℕ) (l m : Logger) (h : Heap)
    → m.level ≢ l.level
    → get_logger_level m (set_logger_level v l h) ≡ get_logger_level m h
unfolding get_logger_level set_logger_level get_level set_level
get_logger_level-set_ne v l m h apart =
    ap (λ a. a.level)
      (get_or-set_ne h.levels l.level m.level (record { level = v }) (record { level = 0 })
        (λ e. apart (sym e)))

get_logger_level-own :
    (v : ℕ) (l : Logger) (h : Heap)
    → get_logger_level (record l { level = length h.levels }) (alloc_level v h) ≡ v
unfolding get_logger_level get_level new_atomic_level
get_logger_level-own v l h =
    ap (λ a. a.level) (get_or-append_end h.levels (record { level = v }) (record { level = 0 }))

get_logger_level-alloc :
    (v : ℕ) (l : Logger) (h : Heap)
    → IsPlaced l h
    → get_logger_level l (alloc_level v h) ≡ get_logger_level l h
unfolding get_logger_level get_level new_atomic_level
get_logger_level-alloc v l h p =
    ap (λ a. a.level)
      (get_or-append h.levels (record { level = v } ∷ []) l.level (record { level = 0 }) p)

-- A level that is set on one of two loggers is that of both if they share it, and changes
-- nothing for the other if they do not.
pub set_logger_level_lem :
    (v : ℕ) (l m : Logger) (h : Heap)
    → IsPlaced l h
    → ((m.level ≡ l.level) × (get_logger_level m (set_logger_level v l h) ≡ v))
      ⊎ ((m.level ≢ l.level) × (get_logger_level m (set_logger_level v l h) ≡ get_logger_level m h))
set_logger_level_lem v l m h p = elim (Bool-cases (m.level == l.level)) [
  | inl e ↦
      let same = (==_iff m.level l.level).0 e in inl (same, get_logger_level-set v l m h p same)
  | inr e ↦
      let apart : m.level ≢ l.level = λ same. ground (arith, (==_iff m.level l.level).1 same) in
      inr (apart, get_logger_level-set_ne v l m h apart)
]

-- WithLevel makes a logger whose level is its own: it has the level asked for, the old logger
-- keeps its level, and setting the level of either leaves that of the other.
pub with_level_lem :
    (v u : ℕ) (l : Logger) (h : Heap)
    → IsPlaced l h
    → let (m, after) = with_level v l h in
      (get_logger_level m after ≡ v)
      × (get_logger_level l after ≡ get_logger_level l h)
      × (get_logger_level l (set_logger_level u m after) ≡ get_logger_level l h)
      × (get_logger_level m (set_logger_level u l after) ≡ v)
unfolding with_level
with_level_lem v u l h p = (
  own,
  kept,
  get_logger_level-set_ne u m l after (λ e. absurd (omega arith)) ∙ kept,
  get_logger_level-set_ne u l m after (λ e. absurd (omega arith)) ∙ own,
)
  where
    m : Logger
    m = record l { level = length h.levels }

    after : Heap
    after = alloc_level v h

    own : get_logger_level m after ≡ v
    own = get_logger_level-own v l h

    kept : get_logger_level l after ≡ get_logger_level l h
    kept = get_logger_level-alloc v l h p

-- The slice of the hooks lies in its array.
abbrev pub IsInArray : Heap → Slice → Type 0
IsInArray h s =
    (s.array < length h.arrays) × (length (array_at h s.array) ≡ s.cap) × (s.len ≤ s.cap)

-- In place, or in a new array.
append_to_lem :
    (spare : ℕ → ℕ) (s : Slice) (hook : ℕ) (h : Heap)
    → IsInArray h s
    → let (t, after) = append_to spare s hook h in
      (hooks_in after (some t) ≡ hooks_in h (some s) ++ hook ∷ [])
      × (hooks_in after (some s) ≡ hooks_in h (some s))
append_to_lem spare s hook h (placed, filled, fits) =
    if_elim
      (λ (r : Slice × Heap).
        (hooks_in r.1 (some r.0) ≡ hooks_in h (some s) ++ hook ∷ [])
        × (hooks_in r.1 (some s) ≡ hooks_in h (some s)))
      (ltb s.len s.cap) _ _
      (λ room.
        let below : s.len < length old = ground arith in
        (
          ap (take (suc s.len)) here ∙ take-set_end old s.len hook below,
          ap (take s.len) here ∙ take-set_below old s.len s.len hook (omega arith),
        ))
      (λ full. (
        ap (take (suc s.len)) (get_or-append_end h.arrays moved [])
            ∙ take-append_more (take s.len old) hook (replicate (spare s.cap) 0) s.len
                (omega (arith, length-take s.len old)),
        ap (take s.len) (get_or-append h.arrays (moved ∷ []) s.array [] placed),
      ))
  where
    old : List ℕ
    old = array_at h s.array

    moved : List ℕ
    moved = take s.len old ++ hook ∷ replicate (spare s.cap) 0

    here : get_or (set h.arrays s.array (set old s.len hook)) s.array [] ≡ set old s.len hook
    here = get_or-set_self h.arrays s.array (set old s.len hook) [] placed

-- WithHook adds the hook behind those of the logger, and leaves the logger's own.
pub with_hook_lem :
    (spare : ℕ → ℕ) (hook : ℕ) (l : Logger) (h : Heap) (s : Slice)
    → l.hooks ≡ some s
    → IsInArray h s
    → let (m, after) = with_hook spare hook l h in
      (hooks_in after m.hooks ≡ hooks_in h l.hooks ++ hook ∷ [])
      × (hooks_in after l.hooks ≡ hooks_in h l.hooks)
unfolding with_hook
with_hook_lem spare hook l h s e p =
    subst
      (λ o.
        let (t, after) = append_to spare (made o h).0 hook (made o h).1 in
        (hooks_in after (some t) ≡ hooks_in h o ++ hook ∷ []) × (hooks_in after o ≡ hooks_in h o))
      (sym e) (append_to_lem spare s hook h p)

-- The heap after an append in place.
abbrev grown : Slice → ℕ → Heap → Heap
grown s hook h = record h { arrays = set h.arrays s.array (set (array_at h s.array) s.len hook) }

append_to-room :
    (spare : ℕ → ℕ) (s : Slice) (hook : ℕ) (h : Heap)
    → s.len < s.cap
    → append_to spare s hook h ≡ (record s { len = suc s.len }, grown s hook h)
append_to-room spare s hook h room =
    let fits : ltb s.len s.cap ≡ true = ground arith in rw fits refl

append_to-twice :
    (spare : ℕ → ℕ) (s : Slice) (first second : ℕ) (h : Heap)
    → IsInArray h s
    → s.len < s.cap
    → let (t, after) = append_to spare s first h in
      let (_, later) = append_to spare s second after in
      hooks_in later (some t) ≡ hooks_in h (some s) ++ second ∷ []
append_to-twice spare s first second h (placed, filled, fits) room =
    ap (λ r. hooks_in (append_to spare s second r.1).1 (some r.0))
      (append_to-room spare s first h room)
    ∙ ap (λ q. hooks_in q.1 (some (record s { len = suc s.len })))
        (append_to-room spare s second once room)
    ∙ ap (take (suc s.len)) (
        get_or-set_self once.arrays s.array (set (array_at once s.array) s.len second) []
          (omega (arith, length-set h.arrays s.array (set old s.len first), placed)))
    ∙ take-set_end (array_at once s.array) s.len second
        (omega (arith, ap length here, length-set old s.len first, filled, room))
    ∙ ap (λ a. take s.len a ++ second ∷ []) here
    ∙ ap (λ a. a ++ second ∷ []) (take-set_below old s.len s.len first (omega arith))
  where
    old : List ℕ
    old = array_at h s.array

    once : Heap
    once = grown s first h

    here : array_at once s.array ≡ set old s.len first
    here = get_or-set_self h.arrays s.array (set old s.len first) [] placed

-- Two loggers made by WithHook from one, where its slice of hooks has room, share the place
-- behind the slice: the second call replaces the hook that the first has added.
pub with_hook_overwrites :
    (spare : ℕ → ℕ) (first second : ℕ) (l : Logger) (h : Heap) (s : Slice)
    → l.hooks ≡ some s
    → IsInArray h s
    → s.len < s.cap
    → let (m, after) = with_hook spare first l h in
      let (_, later) = with_hook spare second l after in
      (hooks_in after m.hooks ≡ hooks_in h l.hooks ++ first ∷ [])
      × (hooks_in later m.hooks ≡ hooks_in h l.hooks ++ second ∷ [])
unfolding with_hook
with_hook_overwrites spare first second l h s e p room =
    subst
      (λ o.
        let (t, after) = append_to spare (made o h).0 first (made o h).1 in
        let (_, later) = append_to spare (made o after).0 second (made o after).1 in
        (hooks_in after (some t) ≡ hooks_in h o ++ first ∷ [])
        × (hooks_in later (some t) ≡ hooks_in h o ++ second ∷ []))
      (sym e) ((append_to_lem spare s first h p).0, append_to-twice spare s first second h p room)
