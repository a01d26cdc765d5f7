-- ===== src/Logger/Faithful.antt =====
-- entry.go and logger.go: a log call without a ring loses no error and no line.
use onelog.Prelude.{
  ℕ, ◌≡◌, refl, sym, ap₂, ◌∙◌, Bool, true, false, Option, none, some, List, [], ◌∷◌, ◌++◌,
  append-nil, Bytes, if_elim, subst,
}
use onelog.Errors.{Error}
use onelog.Field.{Field, Entry}
use onelog.Level.{enabled}
use onelog.Heap.{Heap, hooks_in, level_at}
use onelog.Logger.{Logger}
use onelog.Logger.Pipeline.{
  Circumstances, Outcome, returned, running, panicked, sampled, run_hooks, write_sync, after_format,
  format_entry, located, after_sample, write_entry,
}
use onelog.Logger.Calls.{log_entry, log}
use onelog.Logger.Trace.{
  Event, Answers, recording, sampled_by, hooked_by, formatted_by, written_to, opt, written_of,
  IsFaithful, Balance, extend, report-Balance,
}

run_hooks-Balance :
    (a : Answers) (k : ℕ) (hooks : List ℕ) (e : Entry) (tr : List Event)
    → Balance [] tr
    → Balance [] (run_hooks (recording a) hooks (some k) e tr).0
run_hooks-Balance a k [] e tr b = b
run_hooks-Balance a k (j ∷ js) e tr b =
    let (e', error) = a.hook tr j e in
    run_hooks-Balance a k js e' _
      (report-Balance a k error (hooked_by j e error) tr [] [] b (append-nil (opt error)) refl refl)

abbrev pub OnReturn {ℓ κ} : {S : Type ℓ} → (S → Type κ) → Outcome S → Type κ
OnReturn P (returned s h e) = P s
OnReturn P (running s h) = Unit
OnReturn P (panicked s h) = Unit

module _ (a : Answers) (k : ℕ) (x : Circumstances) (l : Logger) (h : Heap) where
  -- The logger, with a handler and without a ring.
  abbrev sync : Logger
  sync = record l { error_handler = some k; enable_async = false }

  write_sync-Balance :
      (w : Option ℕ) (e : Entry) (p : Bytes) (tr : List Event)
      → Balance (p ∷ []) tr
      → OnReturn (Balance []) (write_sync (recording a) w (some k) e p tr h)
  unfolding write_sync
  write_sync-Balance none e p tr b = tt
  write_sync-Balance (some w) e p tr b =
      let error = (a.write_to tr w p).1 in
      report-Balance a k error (written_to w p error) tr (p ∷ []) [] b (append-nil (opt error)) refl
        refl

  format-Balance :
      (f : Option ℕ) (e : Entry) (tr : List Event)
      → Balance [] tr
      → OnReturn (Balance []) (format_entry (recording a) f x sync e tr h)
  unfolding format_entry after_format
  format-Balance none e tr b = tt
  format-Balance (some f) e tr b = by_error (a.format tr f e).0 (a.format tr f e).1
    where
      by_error :
          (p : Bytes) (error : Option Error)
          → OnReturn
              (Balance [])
              (after_format (recording a) error x sync e p (tr ++ formatted_by f e p error ∷ []) h)
      by_error p none =
          write_sync-Balance l.writer e p _
            (extend tr (formatted_by f e p none ∷ []) [] (p ∷ []) b refl refl)
      by_error p (some d) =
          report-Balance a k (some d) (formatted_by f e p (some d)) tr [] [] b refl refl refl

  write_entry-Balance :
      (e : Entry) (tr : List Event)
      → Balance [] tr
      → OnReturn (Balance []) (write_entry (recording a) x sync e tr h)
  unfolding write_entry after_sample
  write_entry-Balance e tr b = by_sampler l.sampler
    where
      hooked :
          (tr' : List Event)
          → Balance [] tr'
          → OnReturn (Balance []) (after_sample (recording a) true x sync e tr' h)
      hooked tr' b' =
          format-Balance l.formatter _ _
            (run_hooks-Balance a k (hooks_in h l.hooks) (located x sync e) tr' b')

      by_kept :
          (kept : Bool) (tr' : List Event)
          → Balance [] tr'
          → OnReturn (Balance []) (after_sample (recording a) kept x sync e tr' h)
      by_kept true tr' b' = hooked tr' b'
      by_kept false tr' b' = b'

      by_sampler :
          (s : Option ℕ)
          → let (tr', kept) = sampled (recording a) s e tr in
            OnReturn (Balance []) (after_sample (recording a) kept x sync e tr' h)
      by_sampler none = hooked tr b
      by_sampler (some j) =
          by_kept (a.sample tr j e) _
            (extend tr (sampled_by j e (a.sample tr j e) ∷ []) [] [] b refl refl)

  log-Balance :
      (level : ℕ) (message : Bytes) (fields : List Field) (tr : List Event)
      → Balance [] tr
      → OnReturn (Balance []) (log (recording a) level message fields x sync tr h)
  unfolding log log_entry
  log-Balance level message fields tr b =
      if_elim (OnReturn (Balance [])) (enabled (level_at h l.level) level) _ _
        (λ _.
          if_elim (OnReturn (Balance [])) (enabled (level_at h l.level) level) _ _
            (λ _. write_entry-Balance _ tr b) (λ _. b))
        (λ _. b)

OnReturn-map {ℓ κ κ'} :
    {S : Type ℓ} (P : S → Type κ) (Q : S → Type κ') (o : Outcome S)
    → ((s : S) → P s → Q s)
    → OnReturn P o
    → OnReturn Q o
OnReturn-map P Q (returned s h e) f p = f s p
OnReturn-map P Q (running s h) f p = tt
OnReturn-map P Q (panicked s h) f p = tt

-- For a logger with an error handler and without a ring, and a client that answers in any way: if
-- a log call returns, then every error that a hook, the formatter or the writer returned has
-- reached the handler, once and in order, and every line that was formatted without an error has
-- been given to the writer, once and in order, if both held before the call.
pub log-IsFaithful :
    (a : Answers) (k : ℕ) (x : Circumstances) (l : Logger) (h : Heap) (level : ℕ) (message : Bytes)
    (fields : List Field) (tr : List Event)
    → l.error_handler ≡ some k
    → l.enable_async ≡ false
    → IsFaithful tr
    → OnReturn IsFaithful (log (recording a) level message fields x l tr h)
log-IsFaithful a k x l h level message fields tr handler no_ring (same, left) =
    subst (λ m. OnReturn IsFaithful (log (recording a) level message fields x m tr h)) (sym shape)
      (OnReturn-map (Balance []) IsFaithful _ (λ s b. (b.0, b.1 ∙ append-nil (written_of s)))
        (log-Balance a k x l h level message fields tr
          (same, left ∙ sym (append-nil (written_of tr)))))
  where
    shape : l ≡ record l { error_handler = some k; enable_async = false }
    shape = ap₂ (λ f g. record l { error_handler = f; enable_async = g }) handler no_ring
