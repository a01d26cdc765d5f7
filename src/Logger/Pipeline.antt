-- ===== src/Logger/Pipeline.antt =====
-- entry.go, `write`: an entry passes the sampler, the hooks and the formatter to the writer or to
-- the ring, and is released.
use onelog.Prelude.{
  ℕ, Bool, true, false, Option, none, some, List, [], ◌∷◌, Bytes, codes, set, if◌then◌else◌,
}
use onelog.Errors.{Error}
use onelog.Field.{Entry, CallerInfo}
use onelog.Entry.{release}
use onelog.Async.{Buffer, Turn, Answer, done, waiting, write}
use onelog.Heap.{Heap, ring_at, hooks_in}
use onelog.Logger.{Logger}

-- What the client gives, by number, over a state that all of it shares: formatters, samplers,
-- writers, error handlers and hooks. A hook may change the entry.
pub record Client {ℓ} (S : Type ℓ) : Type ℓ where
  pub sample : ℕ → Entry → S → S × Bool
  pub hook : ℕ → Entry → S → S × Entry × Option Error
  pub format : ℕ → Entry → S → S × Bytes × Option Error
  pub write_to : ℕ → Bytes → S → S × ℕ × Option Error
  pub handle : ℕ → Error → S → S

-- What the runtime and the other goroutines do during a call: the entry of the pool, the time,
-- the caller's frame, and what `asyncBuffer.write` meets.
pub record Circumstances : Type 0 where
  pub recycled : Entry
  pub now : ℕ
  pub frame : Option (Bytes × ℕ × Option Bytes)
  pub lost : Bool
  pub turns : List Turn

-- How a call ends: it returns, and the entry is in the pool; the ring's `write` is still running;
-- or it panics, as a formatter or a writer is nil.
pub data Outcome {ℓ} (S : Type ℓ) : Type ℓ where
  returned : S → Heap → Entry → Outcome S
  running : S → Heap → Outcome S
  panicked : S → Heap → Outcome S

abbrev pub function_name : Option Bytes → Bytes
function_name none = codes "unknown"
function_name (some n) = n

unfoldable pub get_caller : Option (Bytes × ℕ × Option Bytes) → CallerInfo
get_caller none = record { file = codes "unknown"; line = 0; function = codes "unknown" }
get_caller (some (file, line, name)) = record {
  file = file;
  line = line;
  function = function_name name;
}

-- The entry with its caller, if that is enabled.
unfoldable pub located : Circumstances → Logger → Entry → Entry
unfolding get_caller
located x l e = if l.enable_caller then record e { caller_info = some (get_caller x.frame) } else e

unfoldable pub store_ring : ℕ → Buffer → Heap → Heap
unfolding ring_at
store_ring a b h = record h { rings = set h.rings a (record (ring_at h a) { buffer = b }) }

module _ {ℓ} {S : Type ℓ} (client : Client S) where
  -- An error goes to the handler, if there are both.
  abbrev pub report : Option ℕ → Option Error → S → S
  report none e s = s
  report (some k) none s = s
  report (some k) (some e) s = client.handle k e s

  abbrev pub sampled : Option ℕ → Entry → S → S × Bool
  sampled none e s = (s, true)
  sampled (some k) e s = client.sample k e s

  abbrev pub run_hooks : List ℕ → Option ℕ → Entry → S → S × Entry
  run_hooks [] handler e s = (s, e)
  run_hooks (k ∷ ks) handler e s =
      let (s', e', error) = client.hook k e s in run_hooks ks handler e' (report handler error s')

  unfoldable pub write_sync : Option ℕ → Option ℕ → Entry → Bytes → S → Heap → Outcome S
  unfolding release
  write_sync none handler e p s h = panicked s h
  write_sync (some w) handler e p s h =
      let (s', n, error) = client.write_to w p s in
      returned (report handler error s') h (release e).0

  -- What the ring's `write` answers. A resize that it starts is another goroutine's.
  unfoldable pub after_store : ℕ → Option ℕ → Entry → S → Heap → Answer → Outcome S
  unfolding store_ring release
  after_store a handler e s h (done b error resizing) =
      returned (report handler error s) (store_ring a b h) (release e).0
  after_store a handler e s h (waiting b) = running s (store_ring a b h)

  unfoldable pub write_async :
      Option ℕ → Circumstances → Logger → Entry → Bytes → S → Heap → Outcome S
  unfolding write_sync after_store write ring_at
  write_async none x l e p s h = write_sync l.writer l.error_handler e p s h
  write_async (some a) x l e p s h =
      after_store a l.error_handler e s h (write (ring_at h a).buffer p x.lost x.turns)

  -- After Format has returned: `p` is in the buffer.
  unfoldable pub after_format :
      Option Error → Circumstances → Logger → Entry → Bytes → S → Heap → Outcome S
  unfolding write_async write_sync release
  after_format (some d) x l e p s h = returned (report l.error_handler (some d) s) h (release e).0
  after_format none x l e p s h =
      if l.enable_async
      then write_async l.async_buffer x l e p s h
      else write_sync l.writer l.error_handler e p s h

  unfoldable pub format_entry : Option ℕ → Circumstances → Logger → Entry → S → Heap → Outcome S
  unfolding after_format
  format_entry none x l e s h = panicked s h
  format_entry (some f) x l e s h =
      let (s', p, error) = client.format f e s in after_format error x l e p s' h

  unfoldable pub after_sample : Bool → Circumstances → Logger → Entry → S → Heap → Outcome S
  unfolding format_entry located release
  after_sample false x l e s h = returned s h (release e).0
  after_sample true x l e s h =
      let (s', e') = run_hooks (hooks_in h l.hooks) l.error_handler (located x l e) s in
      format_entry l.formatter x l e' s' h

  unfoldable pub write_entry : Circumstances → Logger → Entry → S → Heap → Outcome S
  unfolding after_sample
  write_entry x l e s h = let (s', kept) = sampled l.sampler e s in after_sample kept x l e s' h
