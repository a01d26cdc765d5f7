-- ===== src/Utils/Escape/Loop.antt =====
-- utils.go: the escaping loops write the text with each byte replaced on its own.
use onelog.Prelude.{
  ℕ, suc, ◌+◌, ◌-◌, ◌≡◌, refl, sym, ap, subst, ◌∙◌, Bool, true, false, Option, none, some, [], ◌∷◌,
  ◌++◌, append-nil, append_assoc, Bytes, bytes_eq, bytes_eq_iff, nil_of_length, if◌then◌else◌, ltb,
  leb, length, length-append, take, drop, All, arith, Bool-cases, inl, inr, if_elim,
}
use onelog.Utils.Escape.{
  must_escape, in_table, escape_code, table_code, escape_loop, finish,
  write_escaped_string_optimized, string_needs_escaping, Cache, load, needs_escape, store_answer,
  append_escaped_string,
}

-- Every byte on its own.
abbrev pub escaped : (ℕ → Bool) → (ℕ → Bytes) → Bytes → Bytes
escaped must code [] = []
escaped must code (c ∷ s) = (if must c then b'\\' ∷ code c else c ∷ []) ++ escaped must code s

drop-append : (xs ys : Bytes) → drop (length xs) (xs ++ ys) ≡ ys
drop-append [] ys = refl
drop-append (x ∷ xs) ys = drop-append xs ys

take-append : (xs ys : Bytes) → take (length xs) (xs ++ ys) ≡ xs
take-append [] ys = refl
take-append (x ∷ xs) ys = ap (◌∷◌ x) (take-append xs ys)

-- What is pending is written, also where the guard skips the write of nothing.
write_pending :
    (s rest written pending dst : Bytes) (i start : ℕ)
    → start ≡ length written
    → i ≡ length written + length pending
    → s ≡ written ++ (pending ++ rest)
    → (if ltb start i then dst ++ take (i - start) (drop start s) else dst) ≡ dst ++ pending
write_pending s rest written pending dst i start at_start at_i e =
    if_elim (λ out. out ≡ dst ++ pending) (ltb start i) _ _ (λ _. ap (◌++◌ dst) slice)
      (λ none_left.
        sym (append-nil dst) ∙ ap (◌++◌ dst) (sym (nil_of_length pending (ground arith))))
  where
    slice : take (i - start) (drop start s) ≡ pending
    slice =
        ap (λ k. take k (drop start s)) {y = length pending} (omega arith)
        ∙ ap (λ t. take (length pending) (drop start t)) e
        ∙ ap (λ k. take (length pending) (drop k (written ++ (pending ++ rest)))) at_start
        ∙ ap (take (length pending)) (drop-append written (pending ++ rest))
        ∙ take-append pending rest

write_last :
    (s written pending dst : Bytes) (start : ℕ)
    → start ≡ length written
    → s ≡ written ++ pending
    → finish s (dst, start) ≡ dst ++ pending
write_last s written pending dst start at_start e =
    if_elim (λ out. out ≡ dst ++ pending) (ltb start (length s)) _ _
      (λ _. ap (◌++◌ dst) (
        ap (λ t. drop start t) e
        ∙ ap (λ k. drop k (written ++ pending)) at_start
        ∙ drop-append written pending))
      (λ none_left.
        sym (append-nil dst)
        ∙ ap (◌++◌ dst) (
            sym
              (nil_of_length pending (ground (arith, ap length e, length-append written pending)))))

loop_from :
    (must : ℕ → Bool) (code : ℕ → Bytes) (s rest written pending dst : Bytes) (i start : ℕ)
    → start ≡ length written
    → i ≡ length written + length pending
    → s ≡ written ++ (pending ++ rest)
    → finish s (escape_loop must code s rest i start dst)
      ≡ dst ++ (pending ++ escaped must code rest)
unfolding escape_loop
loop_from must code s [] written pending dst i start at_start at_i e =
    write_last s written (pending ++ []) dst start at_start e
loop_from must code s (c ∷ rest) written pending dst i start at_start at_i e =
    let flushed = if ltb start i then dst ++ take (i - start) (drop start s) else dst in
    let Goal = λ (b : Bool).
      finish s (
        escape_loop must code s rest (suc i) (if b then suc i else start)
          (if b then flushed ++ b'\\' ∷ code c else dst))
      ≡ dst ++ (pending ++ ((if b then b'\\' ∷ code c else c ∷ []) ++ escaped must code rest)) in
    elim (Bool-cases (must c)) [
      | inl yes_ ↦ subst Goal (sym yes_) (
          loop_from must code s rest (written ++ (pending ++ c ∷ [])) [] _ (suc i) (suc i)
            (omega
              (arith, length-append written (pending ++ c ∷ []), length-append pending (c ∷ [])))
            (omega
              (arith, length-append written (pending ++ c ∷ []), length-append pending (c ∷ [])))
            (e
              ∙ ap (◌++◌ written) (sym (append_assoc pending (c ∷ []) rest))
              ∙ sym (append_assoc written (pending ++ c ∷ []) rest))
          ∙ ap (λ (out : Bytes). (out ++ b'\\' ∷ code c) ++ escaped must code rest)
              (write_pending s (c ∷ rest) written pending dst i start at_start at_i e)
          ∙ append_assoc (dst ++ pending) (b'\\' ∷ code c) (escaped must code rest)
          ∙ append_assoc dst pending ((b'\\' ∷ code c) ++ escaped must code rest))
      | inr no_ ↦ subst Goal (sym no_) (
          loop_from must code s rest written (pending ++ c ∷ []) dst (suc i) start at_start
            (omega (arith, length-append pending (c ∷ [])))
            (e ∙ ap (◌++◌ written) (sym (append_assoc pending (c ∷ []) rest)))
          ∙ ap (◌++◌ dst) (append_assoc pending (c ∷ []) (escaped must code rest)))
    ]

-- The loop from its start.
pub loop_lem :
    (must : ℕ → Bool) (code : ℕ → Bytes) (s dst : Bytes)
    → finish s (escape_loop must code s s 0 0 dst) ≡ dst ++ escaped must code s
loop_lem must code s dst = loop_from must code s s [] [] dst 0 0 refl refl refl

pub write_escaped_string_optimized_lem :
    (dst s : Bytes) → write_escaped_string_optimized dst s ≡ dst ++ escaped in_table table_code s
unfolding write_escaped_string_optimized
write_escaped_string_optimized_lem dst s = loop_lem in_table table_code s dst

-- A text that needs no escaping is its own escape.
pub escaped_clean :
    (s : Bytes) → string_needs_escaping s ≡ false → escaped must_escape escape_code s ≡ s
unfolding string_needs_escaping
escaped_clean [] e = refl
escaped_clean (c ∷ s) e = elim (Bool-cases (must_escape c)) [
  | inl yes_ ↦ absurd (false_true (sym e ∙ rw yes_ refl))
  | inr no_ ↦ rw no_ (ap (◌∷◌ c) (escaped_clean s (sym (rw no_ refl) ∙ e)))
]
  where
    false_true : ¬ (false ≡ true)
    false_true h = cc

-- Every answer in the cache is the one the check gives.
abbrev pub IsCorrect : Cache → Type 0
IsCorrect m = All (λ (e : Bytes × Bool). e.1 ≡ string_needs_escaping e.0) m

needs_escape_lem :
    (m : Cache) (s : Bytes) → IsCorrect m → needs_escape (load s m) s ≡ string_needs_escaping s
needs_escape_lem [] s h = refl
needs_escape_lem ((k, b) ∷ m) s (this, others) = elim (Bool-cases (bytes_eq s k)) [
  | inl same ↦ rw same (this ∙ ap string_needs_escaping (sym ((bytes_eq_iff s k).0 same)))
  | inr other ↦ rw other (needs_escape_lem m s others)
]

store_answer-IsCorrect :
    (m : Cache) (s : Bytes) (found : Option Bool) → IsCorrect m → IsCorrect (store_answer found s m)
store_answer-IsCorrect m s none h =
    if_elim IsCorrect (leb (length s) 64) _ _ (λ _. (refl, h)) (λ _. h)
store_answer-IsCorrect m s (some b) h = h

-- `appendEscapedString` adds the text with each byte escaped on its own, whether the answer to
-- its check is cached or not, and on the fast path as well; the cache stays right.
pub append_escaped_string_lem :
    (m : Cache) (dst s : Bytes)
    → IsCorrect m
    → let (m', out) = append_escaped_string m dst s in
      IsCorrect m' × (out ≡ dst ++ escaped must_escape escape_code s)
unfolding append_escaped_string
append_escaped_string_lem m dst [] h = (h, sym (append-nil dst))
append_escaped_string_lem m dst (c ∷ t) h =
    let s = c ∷ t in
    (
      store_answer-IsCorrect m s (load s m) h,
      if_elim (λ out. out ≡ dst ++ escaped must_escape escape_code s) (needs_escape (load s m) s) _
          _ (λ _. loop_lem must_escape escape_code s dst)
          (λ clean. ap (◌++◌ dst) (sym (escaped_clean s (sym (needs_escape_lem m s h) ∙ clean)))),
    )
