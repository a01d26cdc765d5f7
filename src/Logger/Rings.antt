-- ===== src/Logger/Rings.antt =====
-- logger.go: the rings that New and WithWriter make.
use onelog.Prelude.{
  get_or-append, get_or-append_end, ℕ, ◌^◌, ◌<◌, ◌≤◌, ◌≡◌, ◌≢◌, refl, sym, ap, ap₂, ◌∙◌, true,
  false, Option, none, some, [], ◌∷◌, length, if◌then◌else◌, subst, some_ne,
}
use onelog.Async.{Buffer}
use onelog.Async.Valid.{IsValid, contents}
use onelog.Heap.{Ring, Heap, ring_at, no_ring, alloc_ring, alloc_level}
use onelog.Config.{Config}
use onelog.Logger.{
  Logger, when, or_default, configured_ring, new, copied_ring, rewired, with_writer,
}
use onelog.Logger.Settings.{IsTwin, configured_ring_lem, copied_ring_lem}

-- A ring of size `2 ^ k` for a configuration.
abbrev pub IsConfigured : ℕ → Config → Buffer → Type 0
IsConfigured k c b =
    IsValid b
    × (contents b ≡ [])
    × (b.size ≡ 2 ^ k)
    × (b.mode ≡ c.backpressure_mode)
    × (b.dynamic_resize ≡ true)

abbrev pub HasRing : ℕ → Config → Option ℕ → Heap → Type 0
HasRing k c ring h = (a : ℕ) × (ring ≡ some a) × IsConfigured k c (ring_at h a).buffer

ring_at-alloc :
    (r : Ring) (h : Heap) (a : ℕ) → a < length h.rings → ring_at (alloc_ring r h) a ≡ ring_at h a
unfolding ring_at
ring_at-alloc r h a placed = get_or-append h.rings (r ∷ []) a no_ring placed

ring_at-alloc_end : (r : Ring) (h : Heap) → ring_at (alloc_ring r h) (length h.rings) ≡ r
unfolding ring_at
ring_at-alloc_end r h = get_or-append_end h.rings r no_ring

or_default_ne : (d : ℕ) (o : Option ℕ) → or_default d o ≢ none
or_default_ne d none e = some_ne e
or_default_ne d (some x) e = some_ne e

module _ (cpus : ℕ) where
  rewired_lem :
      (w : Option ℕ) (a : ℕ) (l : Logger) (h : Heap)
      → rewired cpus true (some a) w l h ≡ (
        record l { async_buffer = some (length h.rings) },
        alloc_ring
            (record { buffer = copied_ring cpus (ring_at h a).buffer; out = w; stopped = false })
            h,
      )
  unfolding rewired
  rewired_lem w a l h = refl

  -- For a configuration with async logging and a buffer size that is a power of two up to 2 ^ 40,
  -- New makes a logger with a formatter and a writer, also where the configuration has none, and
  -- a ring of that size, valid and empty, in the backpressure mode of the configuration. Dynamic
  -- resizing is on in it, also where the configuration turns it off.
  pub new_ring_lem :
      (default_formatter stdout k : ℕ) (c : Config) (h : Heap)
      → k ≤ 40
      → c.enable_async ≡ true
      → c.async_buffer_size ≡ 2 ^ k
      → c.buffer_resize_threshold < 2 ^ 64
      → let (l, after) = new cpus default_formatter stdout c h in
        (l.formatter ≢ none) × (l.writer ≢ none) × HasRing k c l.async_buffer after
  unfolding new
  new_ring_lem default_formatter stdout k c h small on size t = (
    or_default_ne default_formatter c.formatter,
    or_default_ne stdout c.writer,
    subst
        (λ b.
          HasRing k c (if b then some (length h.rings) else none)
            (when b (alloc_ring made) (alloc_level c.level h)))
        (sym on)
        (
          length h.rings,
          refl,
          subst (λ r. IsConfigured k c r.buffer)
              (sym (ring_at-alloc_end made (alloc_level c.level h))) configured,
        ),
  )
    where
      made : Ring
      made = record {
        buffer = configured_ring cpus c;
        out = or_default stdout c.writer;
        stopped = false;
      }

      configured : IsConfigured k c (configured_ring cpus c)
      configured =
          let (ready, mode, on, _) = configured_ring_lem cpus k c small size t in
          (ready.0, ready.1, ready.2, mode, on)

  -- WithWriter of a logger with a valid ring makes one whose ring is new, of the same size and
  -- settings, valid and empty, and is written to the new writer; the old ring is as it was.
  pub with_writer_lem :
      (w : Option ℕ) (l : Logger) (h : Heap) (a : ℕ)
      → l.enable_async ≡ true
      → l.async_buffer ≡ some a
      → a < length h.rings
      → IsValid (ring_at h a).buffer
      → let (m, after) = with_writer cpus w l h in
        (m.writer ≡ w)
        × (ring_at after a ≡ ring_at h a)
        × ((c : ℕ) × (m.async_buffer ≡ some c)
            × ((ring_at after c).out ≡ w)
            × IsTwin (ring_at h a).buffer (ring_at after c).buffer)
  unfolding with_writer
  with_writer_lem w l h a on ring placed v = subst Claim (sym shape) (
    refl,
    ring_at-alloc made h a placed,
    (
      length h.rings,
      refl,
      ap (λ r. r.out) there,
      subst (λ r. IsTwin (ring_at h a).buffer r.buffer) (sym there)
          (copied_ring_lem cpus (ring_at h a).buffer v),
    ),
  )
    where
      made : Ring
      made = record { buffer = copied_ring cpus (ring_at h a).buffer; out = w; stopped = false }

      next : Logger
      next = record l { writer = w; async_buffer = some (length h.rings) }

      Claim : Logger × Heap → Type 0
      Claim (m, after) =
          (m.writer ≡ w)
          × (ring_at after a ≡ ring_at h a)
          × ((c : ℕ) × (m.async_buffer ≡ some c)
              × ((ring_at after c).out ≡ w)
              × IsTwin (ring_at h a).buffer (ring_at after c).buffer)

      there : ring_at (alloc_ring made h) (length h.rings) ≡ made
      there = ring_at-alloc_end made h

      shape : with_writer cpus w l h ≡ (next, alloc_ring made h)
      shape =
          ap₂ (λ f o. rewired cpus f o w (record l { writer = w }) h) on ring
          ∙ rewired_lem w a (record l { writer = w }) h
