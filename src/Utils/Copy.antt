-- ===== src/Utils/Copy.antt =====
-- utils.go: `copyBuffer`. A reader is what its calls return, each at most a buffer's length of bytes
-- with an error or none; behind the last of them it returns io.EOF.
use onelog.Prelude.{
  ℕ, ◌+◌, ◌^◌, ◌<◌, ◌≡◌, refl, sym, ap, ap₂, ==_iff, ◌∙◌, Bool, true, false, not, Option, none,
  some, List, [], ◌∷◌, ◌++◌, append-nil, append_assoc, Bytes, if◌then◌else◌, ◌==◌, ltb, length,
  length-append, add64, arith,
}

pub data ReadError : Type 0 where
  eof failed : ReadError

pub data CopyError : Type 0 where
  write_error short_write read_error : CopyError

-- What follows a call of `Read` by the error that it returned: the next round or the end.
abbrev pub by_read {ℓ} : {A : Type ℓ} → Option ReadError → A → (Option CopyError → A) → A
by_read none next end = next
by_read (some eof) next end = end none
by_read (some failed) next end = end (some read_error)

-- `write_out` gives the count, whether there is an error, and the writer's next state; the count is
-- not negative. `written` is the running total.
module _ {W : Type 0} (write_out : Bytes → W → ℕ × Bool × W) where
  unfoldable pub copy_buffer : List (Bytes × Option ReadError) → ℕ → W → ℕ × Option CopyError × W
  copy_buffer [] written w = (written, none, w)
  copy_buffer ((chunk, er) ∷ rs) written w =
      let (nw, ew, w') = write_out chunk w in
      let written' = if ltb 0 nw then add64 written nw else written in
      let skip = copy_buffer rs written w in
      let more = copy_buffer rs written' w' in
      if 0 == length chunk
      then by_read er skip (λ e. (written, e, w))
      else if ew
      then (written', some write_error, w')
      else if not (length chunk == nw)
      then (written', some short_write, w')
      else by_read er more (λ e. (written', e, w'))

-- The bytes up to the first error of the reader, with those that come beside it.
abbrev pub bytes_read : List (Bytes × Option ReadError) → Bytes
bytes_read [] = []
bytes_read ((chunk, none) ∷ rs) = chunk ++ bytes_read rs
bytes_read ((chunk, some e) ∷ rs) = chunk

abbrev pub error_read : List (Bytes × Option ReadError) → Option CopyError
error_read [] = none
error_read ((chunk, none) ∷ rs) = error_read rs
error_read ((chunk, some eof) ∷ rs) = none
error_read ((chunk, some failed) ∷ rs) = some read_error

-- A writer that takes all it is given.
abbrev pub take_all_of : Bytes → Bytes → ℕ × Bool × Bytes
take_all_of chunk w = (length chunk, false, w ++ chunk)

-- One round with such a writer.
copy_round :
    (chunk w : Bytes) (er : Option ReadError) (rs : List (Bytes × Option ReadError)) (written : ℕ)
    → written + length chunk < 2 ^ 63
    → copy_buffer take_all_of ((chunk, er) ∷ rs) written w
      ≡ by_read er
          (copy_buffer take_all_of rs (written + length chunk) (w ++ chunk))
          (λ e. (written + length chunk, e, w ++ chunk))
unfolding copy_buffer
copy_round [] w er rs written h =
    ap₂ (λ (n : ℕ) (v : Bytes). by_read er (copy_buffer take_all_of rs n v) (λ e. (n, e, v)))
      {x = written} {y = written + 0} (omega arith) (sym (append-nil w))
copy_round (c ∷ chunk) w er rs written h =
    let n = length (c ∷ chunk) in
    let v = w ++ c ∷ chunk in
    let next =
      λ (total : ℕ). by_read er (copy_buffer take_all_of rs total v) (λ e. (total, e, v)) in
    let round = λ (empty some_ whole : Bool).
      let total = if some_ then add64 written n else written in
      if empty
      then by_read er (copy_buffer take_all_of rs written w) (λ e. (written, e, w))
      else if not whole
      then (total, some short_write, v)
      else next total in
    let empty_eq : (0 == n) ≡ false = ground arith in
    let some_eq : ltb 0 n ≡ true = ground arith in
    ap (λ (b : Bool). round b (ltb 0 n) (n == n)) empty_eq
    ∙ ap (λ (b : Bool). round false b (n == n)) some_eq
    ∙ ap (round false true) ((==_iff n n).1 refl)
    ∙ ap next {x = add64 written n} {y = written + n} (omega arith)

-- To a writer that takes all it is given, `copyBuffer` writes exactly the bytes that the reader
-- returns up to its first error, those beside the error included, counts them, and returns the
-- error unless it is io.EOF; the total must stay below 2 ^ 63.
pub copy_buffer_lem :
    (rs : List (Bytes × Option ReadError)) (written : ℕ) (w : Bytes)
    → written + length (bytes_read rs) < 2 ^ 63
    → copy_buffer take_all_of rs written w
      ≡ (written + length (bytes_read rs), error_read rs, w ++ bytes_read rs)
unfolding copy_buffer
copy_buffer_lem [] written w h =
    ap₂ (λ (n : ℕ) (v : Bytes). (n, none, v)) {x = written} {y = written + 0} (omega arith)
      (sym (append-nil w))
copy_buffer_lem ((chunk, none) ∷ rs) written w h =
    copy_round chunk w none rs written (omega (arith, length-append chunk (bytes_read rs)))
    ∙ copy_buffer_lem rs (written + length chunk) (w ++ chunk)
        (omega (arith, length-append chunk (bytes_read rs)))
    ∙ ap₂ (λ (n : ℕ) (v : Bytes). (n, error_read rs, v))
        {x = written + length chunk + length (bytes_read rs)}
        {y = written + length (chunk ++ bytes_read rs)}
        (omega (arith, length-append chunk (bytes_read rs))) (append_assoc w chunk (bytes_read rs))
copy_buffer_lem ((chunk, some eof) ∷ rs) written w h = copy_round chunk w (some eof) rs written h
copy_buffer_lem ((chunk, some failed) ∷ rs) written w h =
    copy_round chunk w (some failed) rs written h
