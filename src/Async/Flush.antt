-- ===== src/Async/Flush.antt =====
-- async.go: `flush`, the worker and `close`, against the list of entries in the ring.
use onelog.Prelude.{
  ℕ, zero, suc, ◌+◌, ◌-◌, ◌*◌, ◌%◌, ◌≤◌, ◌≡◌, refl, sym, ap, ap₂, ◌∙◌, Bool, true, false, Option,
  none, some, Bool-cases, inl, inr, min, replicate, List, [], ◌∷◌, ◌++◌, Bytes, arith, get_or, take,
  drop, length, le64, take-add, nil_of_length, drop-drop, length-drop, ◌↔◌,
}
use onelog.Async.{flush_end, rounds, Buffer, drain, flush, Signal, tick, stop, worker, close}
use onelog.Async.Window.{window}
use onelog.Async.Loops.{deliver, window-drain, length-drain, drain-deliver}
use onelog.Async.Valid.{IsValid, contents, masked}

take-window :
    (buf : List (Option Bytes)) (s a i n : ℕ) → take a (window buf s i n) ≡ window buf s i (min a n)
take-window buf s zero i n = ap (window buf s i) {x = 0} (omega arith)
take-window buf s (suc a) i zero = ap (window buf s i) {x = 0} (omega arith)
take-window buf s (suc a) i (suc n) =
    ap (◌∷◌ (get_or buf (i % s) none)) (take-window buf s a (i + 1) n)
    ∙ ap (window buf s i) {x = suc (min a n)} (omega arith)

drop-window :
    (buf : List (Option Bytes)) (s a i n : ℕ)
    → drop a (window buf s i n) ≡ window buf s (i + min a n) (n - min a n)
drop-window buf s zero i n = ap₂ (window buf s) (omega arith) (omega arith)
drop-window buf s (suc a) i zero = ap (window buf s (i + min (suc a) 0)) {x = 0} (omega arith)
drop-window buf s (suc a) i (suc n) =
    drop-window buf s a (i + 1) n ∙ ap₂ (window buf s) (omega arith) (omega arith)

-- One batch: at most a hundred slots.
abbrev batch : Buffer → ℕ
batch b = min 100 (b.write_index - b.read_index)

flush_end_exact : {b : Buffer} → IsValid b → flush_end b ≡ b.read_index + batch b
flush_end_exact v = ground arith

rounds_exact : {b : Buffer} → IsValid b → rounds b.read_index (flush_end b) ≡ batch b
rounds_exact {b} v = rw (flush_end_exact v) (ground arith)

module _ {W : Type 0} (write_out : Bytes → W → W × Bool) where
  -- `n` rounds of the loop, and the read index moved to `to`.
  abbrev after : Buffer → W → ℕ → ℕ → Buffer × W
  after b w n to =
      let (buf, w') = drain write_out n b.read_index b.mask b.buffer w in
      (record b { buffer = buf; read_index = to }, w')

  flush_step :
      {b : Buffer} (w : W)
      → IsValid b
      → flush write_out b w ≡ after b w (batch b) (b.read_index + batch b)
  unfolding flush
  flush_step {b} w v = elim (Bool-cases (le64 b.write_index b.read_index)) [
    | inl e ↦ rw e (sym (ap₂ (after b w) (none_left e) (still e)))
    | inr e ↦ rw e (ap₂ (after b w) (rounds_exact v) (flush_end_exact v))
  ]
    where
      none_left : le64 b.write_index b.read_index ≡ true → batch b ≡ 0
      none_left e = ground arith

      still : le64 b.write_index b.read_index ≡ true → b.read_index + batch b ≡ b.read_index
      still e = ground arith

  -- One flush of a valid ring hands the writer the oldest hundred slots in order, up to its first
  -- error, and takes all hundred out of the ring whether or not they were written. The ring stays
  -- valid, with its capacity, its write index, its drop count and its mode.
  pub flush_refines :
      {b : Buffer} (w : W)
      → IsValid b
      → let (b', w') = flush write_out b w in
        (w' ≡ deliver write_out (take 100 (contents b)) w)
        × (contents b' ≡ drop 100 (contents b))
        × IsValid b'
        × (b'.size ≡ b.size)
        × (b'.write_index ≡ b.write_index)
        × (b'.drop_count ≡ b.drop_count)
        × (b'.mode ≡ b.mode)
  flush_refines {b} w v = rw (flush_step w v) (delivered, left, valid, refl, refl, refl, refl)
    where
      n : ℕ
      n = b.write_index - b.read_index

      delivered :
          (drain write_out (batch b) b.read_index b.mask b.buffer w).1
          ≡ deliver write_out (take 100 (contents b)) w
      delivered =
          drain-deliver write_out b.size b.mask (masked v) (batch b) b.read_index b.buffer w
            (omega arith) (omega arith)
          ∙ ap (λ es. deliver write_out es w) (sym (take-window b.buffer b.size 100 b.read_index n))

      left : contents (after b w (batch b) (b.read_index + batch b)).0 ≡ drop 100 (contents b)
      left =
          window-drain write_out b.size b.mask (masked v) (batch b) b.read_index
            (b.read_index + batch b) (b.write_index - (b.read_index + batch b)) b.buffer w
            (omega arith) (omega arith) (omega arith)
          ∙ ap (window b.buffer b.size (b.read_index + batch b)) (omega arith)
          ∙ sym (drop-window b.buffer b.size 100 b.read_index n)

      valid : IsValid (after b w (batch b) (b.read_index + batch b)).0
      valid = record {
        exponent = v.exponent;
        size_eq = v.size_eq;
        mask_eq = v.mask_eq;
        small = v.small;
        slots =
            length-drain write_out b.size b.mask (masked v) (batch b) b.read_index b.buffer w
            ∙ v.slots;
        in_order = omega arith;
        fits = omega arith;
        index_small = v.index_small;
        percent_small = v.percent_small;
        threshold_small = v.threshold_small;
      }

  -- `m` flushes, each up to the first error in its hundred slots.
  abbrev pub deliver_batches : ℕ → List (Option Bytes) → W → W
  deliver_batches zero es w = w
  deliver_batches (suc m) es w = deliver_batches m (drop 100 es) (deliver write_out (take 100 es) w)

  worker_ticks :
      (m : ℕ) (ss : List Signal) {b : Buffer} (w : W)
      → IsValid b
      → let (b', w') = worker write_out (replicate m tick ++ stop ∷ ss) b w in
        (w' ≡ deliver_batches (suc m) (contents b) w)
        × (contents b' ≡ drop (100 * suc m) (contents b))
        × IsValid b'
  unfolding worker
  worker_ticks zero ss {b} w v =
      let (out, left, valid, _, _, _, _) = flush_refines w v in (out, left, valid)
  worker_ticks (suc m) ss {b} w v =
      let (out, left, valid, _, _, _, _) = flush_refines w v in
      let (out', left', valid') = worker_ticks m ss (flush write_out b w).1 valid in
      (
        out' ∙ ap₂ (deliver_batches (suc m)) left out,
        left'
            ∙ ap (drop (100 * suc m)) left
            ∙ drop-drop 100 (100 * suc m) (contents b)
            ∙ ap (λ k. drop k (contents b)) (omega arith),
        valid',
      )

  -- The writer never returns an error.
  abbrev pub IsReliable : Type 0
  IsReliable = (e : Bytes) (w : W) → (write_out e w).1 ≡ false

  pub deliver-append :
      (es fs : List (Option Bytes)) (w : W)
      → IsReliable
      → deliver write_out (es ++ fs) w ≡ deliver write_out fs (deliver write_out es w)
  deliver-append [] fs w r = refl
  deliver-append (none ∷ es) fs w r = deliver-append es fs w r
  deliver-append (some e ∷ es) fs w r = rw (r e w) (deliver-append es fs (write_out e w).0 r)

  deliver_batches-take :
      (m : ℕ) (es : List (Option Bytes)) (w : W)
      → IsReliable
      → deliver_batches m es w ≡ deliver write_out (take (100 * m) es) w
  deliver_batches-take zero es w r = refl
  deliver_batches-take (suc m) es w r =
      deliver_batches-take m (drop 100 es) _ r
      ∙ sym (deliver-append (take 100 es) _ w r)
      ∙ ap (λ l. deliver write_out l w) (take-add 100 (100 * m) es)
      ∙ ap (λ k. deliver write_out (take k es) w) (omega arith)

  -- From a valid ring, the worker ends at the first stop signal. With a writer that never fails it
  -- has then written the oldest hundred entries for each tick and for the stop, in order, and has
  -- left the others in the ring, which is valid.
  pub worker_stops :
      (m : ℕ) (ss : List Signal) {b : Buffer} (w : W)
      → IsReliable
      → IsValid b
      → let (b', w') = worker write_out (replicate m tick ++ stop ∷ ss) b w in
        (w' ≡ deliver write_out (take (100 * suc m) (contents b)) w)
        × (contents b' ≡ drop (100 * suc m) (contents b))
        × IsValid b'
  worker_stops m ss {b} w r v =
      let (out, left, valid) = worker_ticks m ss w v in
      (out ∙ deliver_batches-take (suc m) (contents b) w r, left, valid)

  -- Closing a valid ring takes a hundred slots out of it at most: it leaves the ring empty exactly
  -- if it holds at most a hundred, and all the others are left behind, whatever the writer does.
  pub length-close :
      {b : Buffer} (w : W)
      → IsValid b
      → (length (contents (close write_out b w).0) ≡ length (contents b) - 100)
        × ((contents (close write_out b w).0 ≡ []) ↔ (length (contents b) ≤ 100))
  unfolding close worker
  length-close {b} w v =
      let left = (flush_refines w v).1 in
      let count = ap length left ∙ length-drop 100 (contents b) in
      (
        count,
        ((λ e. omega (arith, count, ap length e)), (λ h. nil_of_length _ (omega (arith, count)))),
      )
