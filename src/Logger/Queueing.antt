-- ===== src/Logger/Queueing.antt =====
-- entry.go and logger.go: log calls of a logger with a ring, on the queue of pending entries that
-- the ring is.
use onelog.Prelude.{
  ℕ, ◌^◌, ◌<◌, ◌≡◌, ◌≢◌, refl, sym, ap, ◌∙◌, true, false, Option, none, some, [], ◌∷◌, ◌++◌, Bytes,
  length, get_or-set_self, get_or-set_ne, if◌then◌else◌, subst, add64,
}
use onelog.Errors.{sentinel, buffer_full}
use onelog.Field.{Entry}
use onelog.Level.{enabled, fatal_level}
use onelog.Entry.{release}
use onelog.Async.{Buffer, drop_mode, write}
use onelog.Async.Valid.{IsValid, contents}
use onelog.Async.Write.{write_refines, write_full}
use onelog.Heap.{Heap, hooks_in, level_at, ring_at, no_ring}
use onelog.Logger.{Logger}
use onelog.Logger.Pipeline.{
  Client, Circumstances, returned, report, sampled, run_hooks, write_async, after_store, store_ring,
  after_format, format_entry, located, after_sample, write_entry, write_sync,
}
use onelog.Logger.Calls.{exits, goes_on, exit_after, fatal_entry}

pub ring_at-store :
    (a : ℕ) (b : Buffer) (h : Heap)
    → a < length h.rings
    → ring_at (store_ring a b h) a ≡ record (ring_at h a) { buffer = b }
unfolding ring_at store_ring
ring_at-store a b h placed =
    get_or-set_self h.rings a (record (ring_at h a) { buffer = b }) no_ring placed

ring_at-store_ne :
    (a : ℕ) (b : Buffer) (h : Heap) (c : ℕ) → c ≢ a → ring_at (store_ring a b h) c ≡ ring_at h c
unfolding ring_at store_ring
ring_at-store_ne a b h c apart =
    get_or-set_ne h.rings a c (record (ring_at h a) { buffer = b }) no_ring (λ e. apart (sym e))

module _ {ℓ} {S : Type ℓ} (client : Client S) (x : Circumstances) (l : Logger) where
  -- A call up to its ring: the logger has the ring `a`, the sampler keeps the entry, the hooks run,
  -- and the formatter makes the line `p` without an error.
  pub record Reaches (e : Entry) (s : S) (h : Heap) (a : ℕ) (e' : Entry) (p : Bytes) (s' : S)
      : Type ℓ where
    pub asynchronous : l.enable_async ≡ true
    pub ring : l.async_buffer ≡ some a
    pub placed : a < length h.rings
    pub formatter : ℕ
    pub has_formatter : l.formatter ≡ some formatter
    pub kept_state : S
    pub kept : sampled client l.sampler e s ≡ (kept_state, true)
    pub hooked_state : S
    pub hooked :
        run_hooks client (hooks_in h l.hooks) l.error_handler (located x l e) kept_state
        ≡ (hooked_state, e')
    pub formatted : client.format formatter e' hooked_state ≡ (s', p, none)

  -- Such a call hands the line to the ring.
  write_entry-ring :
      {e e' : Entry} {s s' : S} {h : Heap} {a : ℕ} {p : Bytes}
      → Reaches e s h a e' p s'
      → write_entry client x l e s h
        ≡ after_store client a l.error_handler e' s' h (write (ring_at h a).buffer p x.lost x.turns)
  unfolding write_entry after_sample format_entry after_format write_async
  write_entry-ring {e} {e'} {s} {s'} {h} {a} {p} r =
      ap (λ q. after_sample client q.1 x l e q.0 h) r.kept
      ∙ ap (λ q. format_entry client l.formatter x l q.1 q.0 h) r.hooked
      ∙ ap (λ f. format_entry client f x l e' r.hooked_state h) r.has_formatter
      ∙ ap (λ q. after_format client q.2 x l e' q.1 q.0 h) r.formatted
      ∙ ap
          (λ b.
            if b
            then write_async client l.async_buffer x l e' p s' h
            else write_sync client l.writer l.error_handler e' p s' h)
          r.asynchronous
      ∙ ap (λ o. write_async client o x l e' p s' h) r.ring

  report-none : (handler : Option ℕ) (s : S) → report client handler none s ≡ s
  report-none none s = refl
  report-none (some k) s = refl

  -- Where the ring is valid, below index 2 ^ 62, has room, and the CAS passes, a log call that
  -- reaches its ring returns without a report to the error handler and without a call of the
  -- writer, and the line is the last of the pending ones; the ring stays valid, and no other
  -- ring changes.
  pub write_entry_queues :
      {e e' : Entry} {s s' : S} {h : Heap} {a : ℕ} {p : Bytes}
      → Reaches e s h a e' p s'
      → x.lost ≡ false
      → IsValid (ring_at h a).buffer
      → (ring_at h a).buffer.write_index < 2 ^ 62
      → length (contents (ring_at h a).buffer) < (ring_at h a).buffer.size
      → (h' : Heap) × (write_entry client x l e s h ≡ returned s' h' (release e').0)
        × (contents (ring_at h' a).buffer ≡ contents (ring_at h a).buffer ++ some p ∷ [])
        × IsValid (ring_at h' a).buffer
        × ((b : ℕ) → b ≢ a → ring_at h' b ≡ ring_at h b)
  unfolding after_store
  write_entry_queues {e} {e'} {s} {s'} {h} {a} {p} r passes v small room =
      let (b, spawn, answer, appended, valid, _, _) = write_refines p x.turns v small room in
      let held = sym (ap (λ k. k.buffer) (ring_at-store a b h r.placed)) in
      (
        store_ring a b h,
        write_entry-ring r
            ∙ ap
                (λ c.
                  after_store client a l.error_handler e' s' h
                    (write (ring_at h a).buffer p c x.turns))
                passes
            ∙ ap (after_store client a l.error_handler e' s' h) answer
            ∙ ap (λ t. returned t (store_ring a b h) (release e').0)
                (report-none l.error_handler s'),
        subst (λ k. contents k ≡ contents (ring_at h a).buffer ++ some p ∷ []) held appended,
        subst IsValid held valid,
        (λ c apart. ring_at-store_ne a b h c apart),
      )

  -- Where the ring is valid and full in drop mode, it returns too, ErrBufferFull goes to the error
  -- handler if there is one, the pending lines stay as they are, and one more drop is counted.
  pub write_entry_drops :
      {e e' : Entry} {s s' : S} {h : Heap} {a : ℕ} {p : Bytes}
      → Reaches e s h a e' p s'
      → IsValid (ring_at h a).buffer
      → length (contents (ring_at h a).buffer) ≡ (ring_at h a).buffer.size
      → (ring_at h a).buffer.mode ≡ drop_mode
      → (h' : Heap) × (write_entry client x l e s h
          ≡ returned
              (report client l.error_handler (some (sentinel buffer_full)) s')
              h'
              (release e').0)
        × (contents (ring_at h' a).buffer ≡ contents (ring_at h a).buffer)
        × ((ring_at h' a).buffer.drop_count ≡ add64 (ring_at h a).buffer.drop_count 1)
  unfolding after_store
  write_entry_drops {e} {e'} {s} {s'} {h} {a} {p} r v full drops =
      let (b, answer, same, _, counted) = write_full p x.lost x.turns v full drops in
      let held = sym (ap (λ k. k.buffer) (ring_at-store a b h r.placed)) in
      (
        store_ring a b h,
        write_entry-ring r ∙ ap (after_store client a l.error_handler e' s' h) answer,
        subst (λ k. contents k ≡ contents (ring_at h a).buffer) held same,
        subst (λ k. k.drop_count ≡ add64 (ring_at h a).buffer.drop_count 1) held counted,
      )

  -- Where the level is enabled, the call reaches its ring, which is valid, below index 2 ^ 62 and
  -- has room, and the CAS passes, Fatal of an entry exits when the line is the last of the pending
  -- ones: the writer has not been called for it.
  pub fatal_entry_queues :
      (e : Entry) {e' : Entry} {s s' : S} {h : Heap} {a : ℕ} {p message : Bytes}
      → enabled (level_at h l.level) fatal_level ≡ true
      → Reaches (record e { level = fatal_level; message = message }) s h a e' p s'
      → x.lost ≡ false
      → IsValid (ring_at h a).buffer
      → (ring_at h a).buffer.write_index < 2 ^ 62
      → length (contents (ring_at h a).buffer) < (ring_at h a).buffer.size
      → (h' : Heap) × (fatal_entry client message x l e s h ≡ exits s' h')
        × (contents (ring_at h' a).buffer ≡ contents (ring_at h a).buffer ++ some p ∷ [])
  unfolding fatal_entry
  fatal_entry_queues e {e'} {s} {s'} {h} {a} {p} {message} on r passes v small room =
      let (h', ends, appended, _, _) = write_entry_queues r passes v small room in
      (
        h',
        ap
              (λ b.
                if b
                then exit_after (
                    write_entry client x l (record e { level = fatal_level; message = message }) s
                      h)
                else goes_on (returned s h (release e).0))
              on
            ∙ ap exit_after ends,
        appended,
      )
