-- ===== src/Logger/Closing.antt =====
-- logger.go: closing a logger.
use onelog.Prelude.{
  ℕ, ◌<◌, ◌≡◌, ap, ap₂, ◌∙◌, Bool, true, false, none, some, Bytes, length, set, get_or-set_self,
}
use onelog.Async.{Buffer, close}
use onelog.Heap.{Ring, Heap, ring_at, no_ring}
use onelog.Logger.{Logger}
use onelog.Logger.Calls.{close_stopped, close_ring, close_logger}

-- Closing a logger whose ring is running stops it, and closing that logger, or another one with
-- the same ring, again panics.
pub close_logger-twice :
    {W : Type 0} (write : Bytes → W → W × Bool) (l m : Logger) (h : Heap) (v : W) (a : ℕ)
    → l.enable_async ≡ true
    → l.async_buffer ≡ some a
    → m.enable_async ≡ true
    → m.async_buffer ≡ some a
    → a < length h.rings
    → (ring_at h a).stopped ≡ false
    → (h' : Heap) × (v' : W) × (close_logger write l h v ≡ some (h', v'))
      × (close_logger write m h' v' ≡ none)
unfolding close_logger close_ring ring_at
close_logger-twice {W = W} write l m h v a on ring on' ring' placed running =
    (stopped, after, once, twice)
  where
    r : Ring
    r = ring_at h a

    b : Buffer
    b = (close write r.buffer v).0

    after : W
    after = (close write r.buffer v).1

    stopped : Heap
    stopped = record h { rings = set h.rings a (record r { buffer = b; stopped = true }) }

    once : close_logger write l h v ≡ some (stopped, after)
    once =
        ap₂ (λ f o. close_ring write f o h v) on ring
        ∙ ap (λ q. close_stopped write q a r h v) running

    closed : (ring_at stopped a).stopped ≡ true
    closed =
        ap (λ q. q.stopped)
          (get_or-set_self h.rings a (record r { buffer = b; stopped = true }) no_ring placed)

    twice : close_logger write m stopped after ≡ none
    twice =
        ap₂ (λ f o. close_ring write f o stopped after) on' ring'
        ∙ ap (λ q. close_stopped write q a (ring_at stopped a) stopped after) closed
