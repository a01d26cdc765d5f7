-- ===== src/Logger/Delivery.antt =====
-- logger.go and async.go: log calls of a logger with a ring, its worker, and Close, in any order
-- of their steps.
mod Tests
use onelog.Prelude.{
  take_all, ℕ, zero, suc, arith, ◌^◌, ◌<◌, ◌≤◌, ◌≡◌, refl, sym, ap, ap₂, ◌∙◌, Bool, true, false,
  Option, none, some, List, [], ◌∷◌, ◌++◌, map, append-nil, append_assoc, Bytes, length, take, drop,
  take-append-drop, subst, set, length-set,
}
use onelog.Field.{Entry}
use onelog.Async.{Buffer, flush, close, worker}
use onelog.Async.Loops.{deliver}
use onelog.Async.Valid.{IsValid, contents}
use onelog.Async.Flush.{flush_refines, IsReliable, deliver-append}
use onelog.Heap.{Ring, Heap, ring_at}
use onelog.Logger.{Logger}
use onelog.Logger.Pipeline.{
  Client, Circumstances, Outcome, returned, running, panicked, store_ring, write_entry,
}
use onelog.Logger.Calls.{close_stopped, close_ring, close_logger}
use onelog.Logger.Queueing.{Reaches, ring_at-store, write_entry_queues}

abbrev pub heap_after {ℓ} : {S : Type ℓ} → Outcome S → Heap
heap_after (returned s h e) = h
heap_after (running s h) = h
heap_after (panicked s h) = h

-- A tick of the worker of the ring `a`.
unfoldable pub flush_ring : {W : Type 0} → (Bytes → W → W × Bool) → ℕ → Heap → W → Heap × W
unfolding flush ring_at store_ring
flush_ring write_out a h w =
    let (b, w') = flush write_out (ring_at h a).buffer w in (store_ring a b h, w')

module _ {ℓ} {S : Type ℓ} (client : Client S) (l : Logger) {W : Type 0}
    (write_out : Bytes → W → W × Bool) (a : ℕ) where
  -- A sequence of log calls that pass the CAS and find room in the ring `a`, and of ticks of its
  -- worker between them. The list has the lines of the calls in order; `w` is the writer's state.
  -- A resize that a call starts is no step here.
  pub data Run : S → Heap → W → List Bytes → S → Heap → W → Type ℓ where
    stays : {s : S} {h : Heap} {w : W} → Run s h w [] s h w
    logs :
        (x : Circumstances) {e e' : Entry} {s s₁ s' : S} {h h' : Heap} {w w' : W} {p : Bytes}
        {ps : List Bytes}
        → Reaches client x l e s h a e' p s₁
        → x.lost ≡ false
        → (ring_at h a).buffer.write_index < 2 ^ 62
        → length (contents (ring_at h a).buffer) < (ring_at h a).buffer.size
        → Run s₁ (heap_after (write_entry client x l e s h)) w ps s' h' w'
        → Run s h w (p ∷ ps) s' h' w'
    ticks :
        {s s' : S} {h h' : Heap} {w w' : W} {ps : List Bytes}
        → a < length h.rings
        → Run s (flush_ring write_out a h w).0 (flush_ring write_out a h w).1 ps s' h' w'
        → Run s h w ps s' h' w'

  abbrev pending : Heap → List (Option Bytes)
  pending h = contents (ring_at h a).buffer

  -- What the writer gets in the end, if all that is pending is written.
  abbrev final : Heap → W → List Bytes → W
  final h w ps = deliver write_out (pending h ++ map some ps) w

  final-flush :
      (h : Heap) (w : W) (ps : List Bytes)
      → IsReliable write_out
      → IsValid (ring_at h a).buffer
      → a < length h.rings
      → let (h₁, w₁) = flush_ring write_out a h w in
        (final h₁ w₁ ps ≡ final h w ps) × IsValid (ring_at h₁ a).buffer
  unfolding flush_ring
  final-flush h w ps reliable v placed =
      let (out, left, valid, _, _, _, _) = flush_refines write_out w v in
      let held = ap (λ r. r.buffer) (ring_at-store a after h placed) in
      (
        ap₂ (λ es u. deliver write_out (es ++ map some ps) u) (ap contents held ∙ left) out
            ∙ sym (
                deliver-append write_out (take 100 (pending h))
                  (drop 100 (pending h) ++ map some ps) w reliable)
            ∙ ap (λ es. deliver write_out es w)
                (sym (append_assoc (take 100 (pending h)) (drop 100 (pending h)) (map some ps))
                  ∙ ap (λ es. es ++ map some ps) (take-append-drop 100 (pending h))),
        subst IsValid (sym held) valid,
      )
    where
      after : Buffer
      after = (flush write_out (ring_at h a).buffer w).0

  -- In a run from a valid ring, where each log call reaches its ring below index 2 ^ 62, passes the
  -- CAS and finds room, and the ticks fall between the calls anyhow, no line is lost, doubled or
  -- moved: what a reliable writer has got at the end, followed by what is pending then, is what was
  -- pending at the start followed by the lines of all calls; and the ring stays valid.
  pub Run_lem :
      {s s' : S} {h h' : Heap} {w w' : W} {ps : List Bytes}
      → IsReliable write_out
      → IsValid (ring_at h a).buffer
      → Run s h w ps s' h' w'
      → (deliver write_out (contents (ring_at h' a).buffer) w'
          ≡ deliver write_out (contents (ring_at h a).buffer ++ map some ps) w)
        × IsValid (ring_at h' a).buffer
  Run_lem {h} {w} reliable v stays =
      (ap (λ es. deliver write_out es w) (sym (append-nil (pending h))), v)
  Run_lem {h} {w} reliable v (logs x {e} {s} {p} {ps} r passes small room rest) =
      let (h₁, ends, appended, valid, _) = write_entry_queues client x l r passes v small room in
      let stored = sym (ap heap_after ends) in
      let (same, valid') =
        Run_lem reliable (subst (λ k. IsValid (ring_at k a).buffer) stored valid) rest in
      (
        same
            ∙ ap (λ es. deliver write_out (es ++ map some ps) w)
                (subst (λ k. pending k ≡ pending h ++ some p ∷ []) stored appended)
            ∙ ap (λ es. deliver write_out es w)
                (append_assoc (pending h) (some p ∷ []) (map some ps)),
        valid',
      )
  Run_lem {h} {w} {ps} reliable v (ticks placed rest) =
      let (kept, valid) = final-flush h w ps reliable v placed in
      let (same, valid') = Run_lem reliable valid rest in (same ∙ kept, valid')

  -- For any run of log calls and ticks from a valid ring, where each call reaches its ring below
  -- index 2 ^ 62, passes the CAS and finds room, to a ring that is not stopped and holds at most a
  -- hundred lines: Close returns, and a reliable writer has got all lines then, those that were
  -- pending at the start and those of all calls, once and in order.
  pub close_logger-Run :
      {s s' : S} {h h' : Heap} {w w' : W} {ps : List Bytes}
      → IsReliable write_out
      → l.enable_async ≡ true
      → l.async_buffer ≡ some a
      → IsValid (ring_at h a).buffer
      → Run s h w ps s' h' w'
      → (ring_at h' a).stopped ≡ false
      → length (contents (ring_at h' a).buffer) ≤ 100
      → (last : Heap) × (close_logger write_out l h' w'
          ≡ some (last, deliver write_out (contents (ring_at h a).buffer ++ map some ps) w))
  unfolding close_logger close_ring close worker ring_at
  close_logger-Run {h} {h'} {w} {w'} {ps} reliable on ring v run going few =
      let (same, valid) = Run_lem reliable v run in
      let (out, _, _, _, _, _, _) = flush_refines write_out w' valid in
      (
        last,
        ap₂ (λ f o. close_ring write_out f o h' w') on ring
            ∙ ap (λ q. close_stopped write_out q a (ring_at h' a) h' w') going
            ∙ ap (λ u. some (last, u))
                (out ∙ ap (λ es. deliver write_out es w') (take_all 100 (pending h') few) ∙ same),
      )
    where
      r : Ring
      r = ring_at h' a

      last : Heap
      last = record h' {
        rings =
            set h'.rings a (record r { buffer = (close write_out r.buffer w').0; stopped = true });
      }
