-- ===== src/Utils/Buffers.antt =====
-- utils.go and logger.go: the pool of byte buffers, and the numbers that are appended to one.
use onelog.Prelude.{
  ℕ, zero, suc, ◌-◌, ◌+◌, Option, none, some, List, [], ◌∷◌, ◌++◌, Bytes, length, if◌then◌else◌,
  ltb, leb,
}
use onelog.Formatter.{Printers}

-- `bytes.Buffer`: the unread bytes, and the capacity of the slice behind them.
pub record ByteBuffer : Type 0 where
  pub bytes : Bytes
  pub capacity : ℕ

-- What `New` of the pool makes.
abbrev pub empty_buffer : ByteBuffer
empty_buffer = record { bytes = []; capacity = 0 }

abbrev pub emptied : ByteBuffer → ByteBuffer
emptied b = record b { bytes = [] }

-- `Grow` makes room for `n` more bytes, if there is none; `allocated` is the capacity then.
abbrev pub grow : (ℕ → ℕ → ℕ) → ℕ → ByteBuffer → ByteBuffer
grow allocated n b =
    if leb (length b.bytes + n) b.capacity
    then b
    else record b { capacity = allocated b.capacity (length b.bytes + n) }

-- `taken` is the buffer that the pool gives.
unfoldable pub get_buffer : (ℕ → ℕ → ℕ) → ℕ → ByteBuffer → ByteBuffer
get_buffer allocated capacity taken =
    let b = emptied taken in
    if ltb b.capacity capacity then grow allocated (capacity - b.capacity) b else b

-- The buffers that the pool holds.
unfoldable pub put_buffer : Option ByteBuffer → List ByteBuffer → List ByteBuffer
put_buffer none pool = pool
put_buffer (some b) pool = emptied b ∷ pool

-- The `init` of logger.go puts a buffer with a kilobyte into the pool for each processor.
unfoldable pub warm_pool : (ℕ → ℕ → ℕ) → ℕ → List ByteBuffer → List ByteBuffer
unfolding put_buffer
warm_pool allocated zero pool = pool
warm_pool allocated (suc n) pool =
    warm_pool allocated n (put_buffer (some (grow allocated 1024 empty_buffer)) pool)

unfoldable pub write_int64 : Printers → ByteBuffer → ℕ → Bytes
write_int64 p buf i = buf.bytes ++ p.append_int i

unfoldable pub write_uint64 : Printers → ByteBuffer → ℕ → Bytes
write_uint64 p buf i = buf.bytes ++ p.append_uint i

unfoldable pub write_float64 : Printers → ByteBuffer → ℕ → Bytes
write_float64 p buf f = buf.bytes ++ p.append_float f
