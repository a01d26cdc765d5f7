-- ===== src/Async/Lost.antt =====
-- async.go: an entry that is lost where a batch of `flush` comes between the claim of its slot and
-- the store to it.
use onelog.Prelude.{
  le64, true, refl, ℕ, ◌-◌, ◌%◌, ◌^◌, ◌≤◌, ◌<◌, ◌≡◌, sym, ap, ◌∙◌, Bool, none, min, [], ◌∷◌, ◌++◌,
  Bytes, arith, length, length-append, length-set, take_all, get_or, nil_of_length, length-drop,
}
use onelog.Async.{Buffer, claim, fill, percent, flush}
use onelog.Async.Window.{window}
use onelog.Async.Loops.{deliver}
use onelog.Async.Valid.{IsValid, contents, length-contents, percent-le, window-snoc}
use onelog.Async.Flush.{flush_refines, IsReliable, deliver-append}

claim-IsValid :
    {b : Buffer}
    → IsValid b
    → length (contents b) < b.size
    → b.write_index < 2 ^ 62
    → IsValid (claim b)
claim-IsValid {b} v room small = record {
  exponent = v.exponent;
  size_eq = v.size_eq;
  mask_eq = v.mask_eq;
  small = v.small;
  slots = v.slots;
  in_order = omega arith;
  fits = omega (arith, length-contents v);
  index_small = omega arith;
  percent_small = v.percent_small;
  threshold_small = v.threshold_small;
}

fill-IsValid :
    {b : Buffer} (i : ℕ) (p : Bytes) (metric : ℕ)
    → metric ≤ 100
    → IsValid b
    → IsValid (fill i p metric b)
fill-IsValid {b} i p metric h v = record {
  exponent = v.exponent;
  size_eq = v.size_eq;
  mask_eq = v.mask_eq;
  small = v.small;
  slots = length-set b.buffer _ _ ∙ v.slots;
  in_order = v.in_order;
  fits = v.fits;
  index_small = v.index_small;
  percent_small = h;
  threshold_small = v.threshold_small;
}

contents-claim :
    {b : Buffer}
    → IsValid b
    → contents (claim b) ≡ contents b ++ get_or b.buffer (b.write_index % b.size) none ∷ []
contents-claim {b} v =
    let n = b.write_index - b.read_index in
    ap (window b.buffer b.size b.read_index) (omega arith)
    ∙ window-snoc b.buffer b.size b.read_index n
    ∙ ap (λ t. contents b ++ get_or b.buffer (t % b.size) none ∷ []) (omega arith)

module _ {W : Type 0} (write_out : Bytes → W → W × Bool) where
  flush_none :
      (b : Buffer) (w : W) → IsValid b → length (contents b) ≡ 0 → flush write_out b w ≡ (b, w)
  unfolding flush
  flush_none b w v none_left =
      let done : le64 b.write_index b.read_index ≡ true =
        ground (arith, v.in_order, v.index_small, length-contents v, none_left) in
      rw done refl

  -- In a valid ring with a write index below 2 ^ 62 and a reliable writer, a batch that comes
  -- between the claim of a slot and its filling passes the slot over. Where the slot was nil, the
  -- ring had room and fewer than a hundred entries wait, the writer has then been handed the other
  -- entries alone, and once the slot is filled the ring is empty, the entry standing behind the read
  -- index: a flush then writes nothing and changes nothing.
  pub race_loses_entry :
      {b : Buffer} (p : Bytes) (w : W)
      → IsReliable write_out
      → IsValid b
      → b.write_index < 2 ^ 62
      → length (contents b) < min b.size 100
      → get_or b.buffer (b.write_index % b.size) none ≡ none
      → let (b', w') = flush write_out (claim b) w in
        (w' ≡ deliver write_out (contents b) w)
        × (contents (fill b.write_index p (percent b) b') ≡ [])
        × (flush write_out (fill b.write_index p (percent b) b') w'
            ≡ (fill b.write_index p (percent b) b', w'))
  race_loses_entry {b} p w r v small room nil =
      let v' = claim-IsValid v (omega arith) small in
      let (out, left, valid', _, _, _, _) = flush_refines write_out w v' in
      let all_of = contents-claim v ∙ ap (λ x. contents b ++ x ∷ []) nil in
      let count = length-append (contents b) (none ∷ []) in
      let few : length (contents (claim b)) ≤ 100 = omega (arith, ap length all_of, count) in
      let empty : length (contents (flush write_out (claim b) w).0) ≡ 0 =
        omega (arith, ap length left, length-drop 100 (contents (claim b))) in
      let filled_valid =
        fill-IsValid b.write_index p (percent b) (percent-le v (omega (arith, length-contents v)))
          valid' in
      let filled_empty = length-contents filled_valid ∙ sym (length-contents valid') ∙ empty in
      (
        out
            ∙ ap (λ es. deliver write_out es w) (take_all 100 (contents (claim b)) few ∙ all_of)
            ∙ deliver-append write_out (contents b) (none ∷ []) w r,
        nil_of_length _ filled_empty,
        flush_none _ _ filled_valid filled_empty,
      )
