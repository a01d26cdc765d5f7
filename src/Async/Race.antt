-- ===== src/Async/Race.antt =====
-- async.go: the goroutines that log, the worker and the resizer as interleaved steps. A step is
-- what the code does by an atomic operation or under its locks: a CAS on the write index with the
-- values that were loaded before it, the store to the slot and the metric, a batch of `flush`, and
-- each of the parts of `maybeResize`, between which the other goroutines go on. A store to a slot
-- reads the array and the mask at once. A batch holds the shard locks of its slots, so that a store
-- to one of them comes before or after it.
use onelog.Prelude.{
  ℕ, ◌^◌, ◌≤◌, ◌<◌, ◌≡◌, Bool, true, false, Option, none, All, List, [], ◌∷◌, ◌++◌, Bytes,
  replicate, mul64, sub64,
}
use onelog.Async.{
  Buffer, claim, fill, flush, reject, usage_from, has_room, is_full, percent_of, stays_at_size,
  copy_entries, rounds,
}
use onelog.Async.Laid.{Progress, idle, loaded, copied, buffer_set, size_set, IsLaid}

-- A slot that a goroutine has claimed and not yet filled, and what it had loaded before.
pub record Claim : Type 0 where
  pub index : ℕ
  pub entry : Bytes
  pub usage : ℕ
  pub size : ℕ

-- Every claim is of a slot below the write index `n`, by a goroutine that saw room in a ring of at
-- most the size now.
abbrev pub Claimed : ℕ → ℕ → List Claim → Type 0
Claimed n size = All (λ c. (c.usage ≤ c.size) × (c.size ≤ size) × (c.index < n))

-- No two goroutines have claimed the same index.
abbrev pub Distinct : List Claim → Type 0
Distinct [] = Unit
Distinct (c ∷ cs) = All (λ (d : Claim). ¬ (d.index ≡ c.index)) cs × Distinct cs

module _ {W : Type 0} (write_out : Bytes → W → W × Bool) where
  pub record Shared : Type 0 where
    pub ring : Buffer
    pub claims : List Claim
    pub progress : Progress
    pub out : W

  -- A CAS that passes after the indices and the size were loaded, the last two when they may have
  -- been smaller.
  abbrev pub with_claim : Bytes → ℕ → ℕ → Shared → Shared
  with_claim p read size s = record s {
    ring = claim s.ring;
    claims =
        record {
          index = s.ring.write_index;
          entry = p;
          usage = usage_from s.ring.write_index read;
          size = size;
        }
        ∷ s.claims;
  }

  pub data Step (s : Shared) (t : Shared) : Type 0 where
    -- in `write`, and in `writeWithRetry`, which holds the lock that a resize takes
    claims_slot :
        (p : Bytes) (read size : ℕ)
        → read ≤ s.ring.read_index
        → size ≤ s.ring.size
        → has_room s.ring.write_index read size ≡ true
        → s.ring.write_index < 2 ^ 62
        → t ≡ with_claim p read size s
        → Step s t
    claims_with_retry :
        (p : Bytes) (read : ℕ)
        → s.progress ≡ idle
        → read ≤ s.ring.read_index
        → is_full s.ring.write_index read s.ring.size ≡ false
        → s.ring.write_index < 2 ^ 62
        → t ≡ with_claim p read s.ring.size s
        → Step s t
    -- any claimed slot is filled; the metric is of a size between that of the claim and the last
    fills_slot :
        (before after : List Claim) (c : Claim) (size : ℕ)
        → s.claims ≡ before ++ c ∷ after
        → c.size ≤ size
        → size ≤ s.ring.size
        → t ≡ record s {
          ring = fill c.index c.entry (percent_of c.usage size) s.ring;
          claims = before ++ after;
        }
        → Step s t
    drops : t ≡ record s { ring = reject s.ring } → Step s t
    -- under the read lock
    flushes :
        s.progress ≡ idle
        → t ≡ record s {
          ring = (flush write_out s.ring s.out).0;
          out = (flush write_out s.ring s.out).1;
        }
        → Step s t
    -- the parts of `maybeResize` under its lock, up to the assignment of the mask
    loads :
        s.progress ≡ idle
        → stays_at_size s.ring ≡ false
        → t ≡ record s { progress = loaded s.ring.read_index s.ring.write_index }
        → Step s t
    copies :
        (read write : ℕ)
        → s.progress ≡ loaded read write
        → t ≡ record s {
          progress = copied (
              copy_entries
                (rounds read write)
                read
                s.ring.mask
                (sub64 (mul64 s.ring.size 2) 1)
                s.ring.buffer
                (replicate (mul64 s.ring.size 2) none));
        }
        → Step s t
    sets_buffer :
        (new : List (Option Bytes))
        → s.progress ≡ copied new
        → t ≡ record s { ring = record s.ring { buffer = new }; progress = buffer_set }
        → Step s t
    sets_size :
        s.progress ≡ buffer_set
        → t ≡ record s { ring = record s.ring { size = mul64 s.ring.size 2 }; progress = size_set }
        → Step s t
    sets_mask :
        s.progress ≡ size_set
        → t ≡ record s { ring = record s.ring { mask = sub64 s.ring.size 1 }; progress = idle }
        → Step s t

  pub data Reach (s : Shared) : Shared → Type 0 where
    here : Reach s s
    next : {t u : Shared} → Reach s t → Step t u → Reach s u

  pub record IsSafe (s : Shared) : Type 0 where
    pub laid : IsLaid s.progress s.ring
    pub claimed : Claimed s.ring.write_index s.ring.size s.claims
    pub distinct : Distinct s.claims
