-- ===== src/Writer/Clean.antt =====
-- writer.go, `cleanup`: which backups a clean-up removes.
use onelog.Prelude.{
  min, ap, ap₂, ◌⊎◌, ℕ, zero, suc, ◌+◌, ◌-◌, ◌^◌, ◌<◌, ◌≤◌, ◌≡◌, refl, true, ◌&&◌, Option, none,
  some, List, [], ◌∷◌, ◌++◌, map, Bytes, codes, bytes_eq, length, take, drop, take-append-drop,
  length-drop, if◌then◌else◌, Bool-cases, inl, inr, ltb, ◌==◌, lt64, lt64_exact, All, arith,
}
use mathlib.Core.List.{Perm, perm_middle}
use mathlib.Core.List.Perm
use onelog.Writer.{FileWriter}
use onelog.Writer.Sort.{
  FileInfo, sort_logs_by_time, IsAscending, sort_logs_by_time_lem, length-sort_logs_by_time,
}

-- `filepath.Ext`: what follows the last dot of the last element, with the dot.
abbrev pub ext_from : Bytes → Bytes → Bytes
ext_from best [] = best
ext_from best (c ∷ s) = ext_from (if c == b'/' then [] else if c == b'.' then c ∷ s else best) s

abbrev pub names : List FileInfo → List Bytes
names = map (λ log. log.name)

-- The files before the cutoff, `now` less the age.
abbrev pub expired : ℕ → ℕ → List FileInfo → List Bytes
expired now max_age [] = []
expired now max_age (log ∷ logs) =
    let rest = expired now max_age logs in
    if ltb (log.time + max_age) now then log.name ∷ rest else rest

abbrev pub too_old : FileWriter → ℕ → List FileInfo → List Bytes
too_old w now logs = if lt64 0 w.max_age then expired now w.max_age logs else []

abbrev pub too_many : FileWriter → List FileInfo → List Bytes
too_many w logs =
    if lt64 0 w.max_backups && lt64 w.max_backups (length logs)
    then names (take (length logs - w.max_backups) (sort_logs_by_time logs))
    else []

-- `stat` gives the time of a file, unless it fails.
module _ (stat : Bytes → Option ℕ) where
  abbrev pub with_info : Bytes → Option ℕ → List FileInfo → List FileInfo
  with_info file none logs = logs
  with_info file (some t) logs =
      record { name = file; time = t; compressed = bytes_eq (ext_from [] file) (codes ".gz") }
      ∷ logs

  abbrev pub collect_logs : List Bytes → List FileInfo
  collect_logs [] = []
  collect_logs (file ∷ files) = with_info file (stat file) (collect_logs files)

  -- `matches` is what Glob finds, or none for its error. The result is the names given to
  -- `os.Remove`, in order; its errors are ignored.
  unfoldable pub cleanup : FileWriter → ℕ → Option (List Bytes) → List Bytes
  unfolding sort_logs_by_time
  cleanup w now none = []
  cleanup w now (some files) =
      let logs = collect_logs files in too_old w now logs ++ too_many w logs

-- Before and after a cut of an ascending list.
split_ascending :
    (k : ℕ) (logs : List FileInfo)
    → IsAscending logs
    → All (λ v. All (λ x. v.time ≤ x.time) (drop k logs)) (take k logs)
split_ascending zero logs h = tt
split_ascending (suc k) [] h = tt
split_ascending (suc k) (x ∷ xs) (hx, h) = (All-drop k xs hx, split_ascending k xs h)
  where
    All-drop :
        (k : ℕ) (ys : List FileInfo)
        → All (λ y. x.time ≤ y.time) ys
        → All (λ y. x.time ≤ y.time) (drop k ys)
    All-drop zero ys h = h
    All-drop (suc k) [] h = tt
    All-drop (suc k) (y ∷ ys) (_, h) = All-drop k ys h

length-collect_logs :
    (stat : Bytes → Option ℕ) (files : List Bytes) → length (collect_logs stat files) ≤ length files
length-collect_logs stat [] = omega arith
length-collect_logs stat (file ∷ files) = by_time (stat file) (length-collect_logs stat files)
  where
    by_time :
        (o : Option ℕ)
        → length (collect_logs stat files) ≤ length files
        → length (with_info stat file o (collect_logs stat files)) ≤ suc (length files)
    by_time none h = omega arith
    by_time (some t) h = omega arith

-- The logs split into those removed for their number and those kept, of which there are `max`, or
-- all that there are.
abbrev pub Split : ℕ → List FileInfo → List FileInfo → List FileInfo → Type 0
Split max logs victims kept =
    Perm (victims ++ kept) logs
    × (length kept ≡ min max (length logs))
    × All (λ v. All (λ x. v.time ≤ x.time) kept) victims

-- The logs split into those over the age at a time and the others.
abbrev pub Aged : ℕ → ℕ → List FileInfo → List FileInfo → List FileInfo → Type 0
Aged now max_age logs old young =
    Perm (old ++ young) logs
    × All (λ v. v.time + max_age < now) old
    × All (λ v. now ≤ v.time + max_age) young

expired-Aged :
    (now max_age : ℕ) (logs : List FileInfo)
    → (old : List FileInfo) × (young : List FileInfo) × Aged now max_age logs old young
      × (expired now max_age logs ≡ names old)
expired-Aged now max_age [] = ([], [], (Perm.rfl, tt, tt), refl)
expired-Aged now max_age (log ∷ logs) =
    let (old, young, (same, over, under), removed) = expired-Aged now max_age logs in
    elim (Bool-cases (ltb (log.time + max_age) now)) [
      | inl e ↦ (
        log ∷ old,
        young,
        (Perm.cons log same, (ground arith, over), under),
        rw e (ap (λ ns. log.name ∷ ns) removed),
      )
      | inr e ↦ (
        old,
        log ∷ young,
        (Perm.trans (perm_middle old young) (Perm.cons log same), over, (ground arith, under)),
        rw e removed,
      )
    ]

-- The files that were found with their times: those that could be asked for it, in order.
abbrev pub HasTimes : (Bytes → Option ℕ) → List Bytes → List FileInfo → Type 0
HasTimes stat [] logs = logs ≡ []
HasTimes stat (file ∷ files) logs =
    ((stat file ≡ none) × HasTimes stat files logs)
    ⊎ ((log : FileInfo) × (rest : List FileInfo) × (logs ≡ log ∷ rest)
        × (log.name ≡ file)
        × (stat file ≡ some log.time)
        × HasTimes stat files rest)

module _ (stat : Bytes → Option ℕ) where
  with_info-HasTimes :
      (file : Bytes) (files : List Bytes) (logs : List FileInfo) (o : Option ℕ)
      → stat file ≡ o
      → HasTimes stat files logs
      → HasTimes stat (file ∷ files) (with_info stat file o logs)
  with_info-HasTimes file files logs none e h = inl (e, h)
  with_info-HasTimes file files logs (some t) e h = inr (_, logs, refl, refl, e, h)

  collect_logs-HasTimes : (files : List Bytes) → HasTimes stat files (collect_logs stat files)
  collect_logs-HasTimes [] = refl
  collect_logs-HasTimes (file ∷ files) =
      with_info-HasTimes file files (collect_logs stat files) (stat file) refl
        (collect_logs-HasTimes files)

module _ (stat : Bytes → Option ℕ) (w : FileWriter) (now : ℕ) (files : List Bytes) where
  -- What a clean-up removes: of the files found with their times, those over the age, and then
  -- those over the number.
  abbrev pub Cleaned : List Bytes → Type 0
  Cleaned removed =
      (found old young victims kept : List FileInfo) × HasTimes stat files found
      × Aged now w.max_age found old young
      × Split w.max_backups found victims kept
      × (removed ≡ names old ++ names victims)

  -- With limits above 0 and below 2 ^ 63, and fewer files than that, a clean-up takes the files
  -- whose time can be read, removes exactly those whose age is over the limit, and then, of all
  -- that it took, the oldest, none newer than one that it keeps, so that exactly the limit is
  -- kept, or all if there are fewer.
  pub cleanup_lem :
      0 < w.max_age
      → w.max_age < 2 ^ 63
      → 0 < w.max_backups
      → w.max_backups < 2 ^ 63
      → length files < 2 ^ 63
      → Cleaned (cleanup stat w now (some files))
  unfolding cleanup
  cleanup_lem age age_small count count_small few =
      let (old, young, aged, removed) = expired-Aged now w.max_age found in
      let (victims, kept, split, over) = too_many-Split in
      (
        found,
        old,
        young,
        victims,
        kept,
        collect_logs-HasTimes stat files,
        aged,
        split,
        ap₂ ◌++◌ (rw is_aged removed) over,
      )
    where
      found : List FileInfo
      found = collect_logs stat files

      sorted : List FileInfo
      sorted = sort_logs_by_time found

      excess : ℕ
      excess = length found - w.max_backups

      is_aged : lt64 0 w.max_age ≡ true
      is_aged = rw (lt64_exact 0 w.max_age (omega arith) age_small) (ground arith)

      counted :
          (lt64 0 w.max_backups && lt64 w.max_backups (length found))
          ≡ ltb w.max_backups (length found)
      counted =
          rw
            (
              lt64_exact 0 w.max_backups (omega arith) count_small,
              lt64_exact w.max_backups (length found) count_small
                  (omega (arith, length-collect_logs stat files)),
            )
            (ground arith)

      too_many-Split :
          (victims : List FileInfo) × (kept : List FileInfo) × Split w.max_backups found victims
            kept
          × (too_many w found ≡ names victims)
      too_many-Split = elim (Bool-cases (ltb w.max_backups (length found))) [
        | inl over ↦
            let (up, same) = sort_logs_by_time_lem found in
            (
              take excess sorted,
              drop excess sorted,
              (
                rw (take-append-drop excess sorted) same,
                rw (length-drop, length-sort_logs_by_time found) (ground arith),
                split_ascending excess sorted up,
              ),
              rw (counted, over) refl,
            )
        | inr under ↦ ([], found, (Perm.rfl, ground arith, tt), rw (counted, under) refl)
      ]
