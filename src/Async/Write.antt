-- ===== src/Async/Write.antt =====
-- async.go: `write` and `writeWithRetry` against a bounded queue of entries.
use onelog.Prelude.{
  ℕ, suc, ◌+◌, ◌^◌, ◌≤◌, ◌<◌, ◌≡◌, refl, Bool, true, false, Option, none, some, ◌||◌, ◌&&◌, All,
  List, [], ◌∷◌, ◌++◌, Bytes, arith, length, if◌then◌else◌, if_elim, le64, ltb, leb, add64, lt64,
}
use onelog.Errors.{Error, sentinel, buffer_full}
use onelog.Async.{
  Buffer, drop_mode, is_drop_mode, store, reject, usage, percent, Turn, Answer, done, waiting,
  write_with_retry, write,
}
use onelog.Async.Valid.{
  IsValid, contents, usage_exact, length-contents, store-IsValid, contents-store,
}

-- The test of `write` for room.
room_iff : {b : Buffer} → IsValid b → le64 (usage b) b.size ≡ ltb (length (contents b)) b.size
room_iff {b} v = ground (arith, length-contents v, usage_exact v)

full_iff : {b : Buffer} → IsValid b → lt64 b.size (usage b) ≡ leb b.size (length (contents b))
full_iff {b} v = ground (arith, length-contents v, usage_exact v)

usage-le_of_room : {b : Buffer} → IsValid b → length (contents b) < b.size → usage b ≤ b.size
usage-le_of_room v h = omega (arith, length-contents v, usage_exact v)

pub reject-IsValid : {b : Buffer} → IsValid b → IsValid (reject b)
unfolding reject
reject-IsValid v = record {
  exponent = v.exponent;
  size_eq = v.size_eq;
  mask_eq = v.mask_eq;
  small = v.small;
  slots = v.slots;
  in_order = v.in_order;
  fits = v.fits;
  index_small = v.index_small;
  percent_small = v.percent_small;
  threshold_small = v.threshold_small;
}

-- Where a valid ring with a write index below 2 ^ 62 has room and the CAS passes, `write` returns
-- nil, appends the entry and keeps the ring valid with its capacity and its drop count.
pub write_refines :
    {b : Buffer} (p : Bytes) (turns : List Turn)
    → IsValid b
    → b.write_index < 2 ^ 62
    → length (contents b) < b.size
    → (b' : Buffer) × (spawn : Bool) × (write b p false turns ≡ done b' none spawn)
      × (contents b' ≡ contents b ++ some p ∷ [])
      × IsValid b'
      × (b'.size ≡ b.size)
      × (b'.drop_count ≡ b.drop_count)
unfolding write
write_refines {b} p turns v small room =
    let fits = usage-le_of_room v room in
    (
      store b p,
      (b.dynamic_resize && lt64 b.resize_threshold (percent b)),
      rw (room_iff v) (ground arith),
      contents-store p v fits,
      store-IsValid p v fits small,
      unfold store in refl,
      unfold store in refl,
    )

-- Where a valid ring is full in drop mode, `write` returns ErrBufferFull, counts one more drop and
-- changes none of the entries; the ring stays valid.
pub write_full :
    {b : Buffer} (p : Bytes) (lost : Bool) (turns : List Turn)
    → IsValid b
    → length (contents b) ≡ b.size
    → b.mode ≡ drop_mode
    → (b' : Buffer) × (write b p lost turns ≡ done b' (some (sentinel buffer_full)) false)
      × (contents b' ≡ contents b)
      × IsValid b'
      × (b'.drop_count ≡ add64 b.drop_count 1)
unfolding write
write_full {b} p lost turns v full drops = (
  reject b,
  rw (room_iff v, drops) (ground arith),
  unfold reject in refl,
  reject-IsValid v,
  unfold reject in refl,
)

-- What a round's other goroutines keep.
abbrev pub IsSteady : Turn → Type 0
IsSteady t =
    (c : Buffer)
    → IsValid c × (c.write_index < 2 ^ 62)
    → IsValid (t.others c) × ((t.others c).write_index < 2 ^ 62)

-- What an answer of the slow path says of the ring `c` that its last round saw.
abbrev pub Outcome : Bytes → Answer → Type 0
Outcome p (done b' none spawn) =
    (c : Buffer) × IsValid c
    × (length (contents c) < c.size)
    × IsValid b'
    × (contents b' ≡ contents c ++ some p ∷ [])
    × (b'.drop_count ≡ c.drop_count)
Outcome p (done b' (some e) spawn) =
    (c : Buffer) × IsValid c
    × (length (contents c) ≡ c.size)
    × IsValid b'
    × (e ≡ sentinel buffer_full)
    × (contents b' ≡ contents c)
    × (b'.drop_count ≡ add64 c.drop_count 1)
Outcome p (waiting b') = IsValid b'

length-le : {b : Buffer} → IsValid b → length (contents b) ≤ b.size
length-le v = omega (arith, length-contents v)

refused_Outcome :
    {c : Buffer} (p : Bytes)
    → IsValid c
    → leb c.size (length (contents c)) ≡ true
    → Outcome p (done (reject c) (some (sentinel buffer_full)) false)
refused_Outcome {c} p v h = (
  c,
  v,
  ground (arith, length-le v),
  reject-IsValid v,
  refl,
  unfold reject in refl,
  unfold reject in refl,
)

stored_Outcome :
    {c : Buffer} (p : Bytes)
    → IsValid c
    → c.write_index < 2 ^ 62
    → leb c.size (length (contents c)) ≡ false
    → Outcome p (done (store c p) none false)
stored_Outcome {c} p v small h =
    let room : length (contents c) < c.size = ground arith in
    let fits = usage-le_of_room v room in
    (c, v, room, store-IsValid p v fits small, contents-store p v fits, unfold store in refl)

-- From a valid ring with a write index below 2 ^ 62, and as long as the other goroutines keep both,
-- the slow path appends the entry to a ring that has room, or returns ErrBufferFull for a ring that
-- is full, whose entries stay and whose drop count grows by one; before that it has changed
-- nothing.
pub write_with_retry-Outcome :
    (turns : List Turn) (retries : ℕ) {b : Buffer} (p : Bytes)
    → All IsSteady turns
    → IsValid b
    → b.write_index < 2 ^ 62
    → Outcome p (write_with_retry turns retries b p)
unfolding write_with_retry
write_with_retry-Outcome [] retries p s v small = v
write_with_retry-Outcome (t ∷ ts) retries {b} p (s, ss) v small =
    let (v', small') = s b (v, small) in
    let c = t.others b in
    let full = write_with_retry-Outcome ts (retries + 1) p ss v' small' in
    let again = write_with_retry-Outcome ts retries p ss v' small' in
    rw (full_iff v') (
      if_elim (Outcome p) (leb c.size (length (contents c))) _ _
        (λ e.
          let refused = refused_Outcome p v' e in
          if_elim (Outcome p) (is_drop_mode c.mode) _ _ (λ _. refused)
            (λ _.
              if_elim (Outcome p) (ltb 100 (retries + 1) || t.late) _ _ (λ _. refused) (λ _. full)))
        (λ e. if_elim (Outcome p) t.lost _ _ (λ _. again) (λ _. stored_Outcome p v' small' e)))

-- How many rounds do not lose their CAS.
abbrev pub held : List Turn → ℕ
held [] = 0
held (t ∷ ts) = if t.lost then held ts else suc (held ts)

abbrev pub IsDone : Answer → Type 0
IsDone a = (b : Buffer) × (e : Option Error) × (a ≡ done b e false)

-- In block mode too the slow path ends: from at most a hundred retries, and over as many rounds
-- whose CAS is not lost as are missing to 101, it returns, whatever the other goroutines do and
-- however often the CAS is lost.
pub write_with_retry_total :
    (turns : List Turn) (retries : ℕ) (b : Buffer) (p : Bytes)
    → retries ≤ 100
    → 101 ≤ retries + held turns
    → IsDone (write_with_retry turns retries b p)
unfolding write_with_retry
write_with_retry_total [] retries b p r h = absurd (omega arith)
write_with_retry_total (t ∷ ts) retries b p r h =
    let c = t.others b in
    let refused : IsDone (done (reject c) (some (sentinel buffer_full)) false) = (_, _, refl) in
    if_elim IsDone (lt64 c.size (usage c)) _ _
      (λ _.
        if_elim IsDone (is_drop_mode c.mode) _ _ (λ _. refused)
          (λ _.
            if_elim IsDone (ltb 100 (retries + 1) || t.late) _ _ (λ _. refused)
              (λ e. write_with_retry_total ts (retries + 1) c p (ground arith) (ground arith))))
      (λ _.
        if_elim IsDone t.lost _ _ (λ e. write_with_retry_total ts retries c p r (ground arith))
          (λ _. (_, _, refl)))
