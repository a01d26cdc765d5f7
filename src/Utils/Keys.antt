-- ===== src/Utils/Keys.antt =====
-- utils.go: which keys are sensitive, and lower case.
use onelog.Prelude.{
  ℕ, suc, ◌+◌, ◌%◌, ◌≡◌, ◌↔◌, refl, sym, ap, ap₂, ◌∙◌, Bool, true, false, ◌&&◌, List, [], ◌∷◌, ◌++◌,
  append_assoc, append-nil, map, Bytes, codes, if◌then◌else◌, ◌==◌, ==_iff, leb, length,
  length-append, length-replicate, set, replicate, nil_of_length, arith, Bool-cases, inl, inr, ◌⊎◌,
  if_elim, true_ne,
}

abbrev pub is_upper : ℕ → Bool
is_upper c = leb b'A' c && leb c b'Z'

-- `c + ('a' - 'A')` of a byte.
abbrev pub lower_byte : ℕ → ℕ
lower_byte c = if is_upper c then (c + 32) % 256 else c

-- The first loop: it stops at the first letter in upper case.
unfoldable pub all_lower : Bytes → Bool
all_lower [] = true
all_lower (c ∷ s) = let rest = all_lower s in if is_upper c then false else rest

-- The loop that fills the buffer of a short text.
unfoldable pub fill_lower : Bytes → ℕ → Bytes → Bytes
fill_lower [] i buf = buf
fill_lower (c ∷ s) i buf = fill_lower s (suc i) (set buf i (lower_byte c))

-- The loop over a long text with a builder.
unfoldable pub build_lower : Bytes → Bytes → Bytes
build_lower [] b = b
build_lower (c ∷ s) b = build_lower s (b ++ lower_byte c ∷ [])

unfoldable pub fast_lower_case : Bytes → Bytes
unfolding all_lower fill_lower build_lower
fast_lower_case s =
    if all_lower s
    then s
    else if leb (length s) 32
    then fill_lower s 0 (replicate (length s) 0)
    else build_lower s []

all_lower_lem : (s : Bytes) → all_lower s ≡ true → s ≡ map lower_byte s
unfolding all_lower
all_lower_lem [] e = refl
all_lower_lem (c ∷ s) e = elim (Bool-cases (is_upper c)) [
  | inl up ↦ absurd (true_ne (sym e ∙ rw up refl))
  | inr low ↦
      ap₂ (λ (d : ℕ) (t : Bytes). d ∷ t) (sym (rw low refl))
        (all_lower_lem s (sym (rw low refl) ∙ e))
]

set_behind : (xs ys : Bytes) (y v : ℕ) → set (xs ++ y ∷ ys) (length xs) v ≡ xs ++ v ∷ ys
set_behind [] ys y v = refl
set_behind (x ∷ xs) ys y v = ap (◌∷◌ x) (set_behind xs ys y v)

fill_lower_from :
    (s done rest : Bytes) (i : ℕ)
    → i ≡ length done
    → length rest ≡ length s
    → fill_lower s i (done ++ rest) ≡ done ++ map lower_byte s
unfolding fill_lower
fill_lower_from [] done rest i at e = ap (◌++◌ done) (nil_of_length rest e)
fill_lower_from (c ∷ s) done [] i at e = absurd (omega arith)
fill_lower_from (c ∷ s) done (r ∷ rest) i at e =
    ap (fill_lower s (suc i)) (
      ap (λ k. set (done ++ r ∷ rest) k (lower_byte c)) at
      ∙ set_behind done rest r (lower_byte c)
      ∙ sym (append_assoc done (lower_byte c ∷ []) rest))
    ∙ fill_lower_from s (done ++ lower_byte c ∷ []) rest (suc i)
        (omega (arith, length-append done (lower_byte c ∷ []))) (omega arith)
    ∙ append_assoc done (lower_byte c ∷ []) (map lower_byte s)

build_lower_from : (s b : Bytes) → build_lower s b ≡ b ++ map lower_byte s
unfolding build_lower
build_lower_from [] b = sym (append-nil b)
build_lower_from (c ∷ s) b =
    build_lower_from s (b ++ lower_byte c ∷ [])
    ∙ append_assoc b (lower_byte c ∷ []) (map lower_byte s)

-- On each of its three paths, `fastLowerCase` turns every ASCII letter in upper case into lower
-- case and leaves the other bytes.
pub fast_lower_case_lem : (s : Bytes) → fast_lower_case s ≡ map lower_byte s
unfolding fast_lower_case
fast_lower_case_lem s =
    if_elim (λ (t : Bytes). t ≡ map lower_byte s) (all_lower s) _ _ (λ e. all_lower_lem s e)
      (λ _.
        if_elim (λ (t : Bytes). t ≡ map lower_byte s) (leb (length s) 32) _ _
          (λ _.
            fill_lower_from s [] (replicate (length s) 0) 0 refl (length-replicate (length s) 0))
          (λ _. build_lower_from s []))

abbrev pub sensitive_keys : List Bytes
sensitive_keys =
    codes "password"
    ∷ codes "passwd"
    ∷ codes "secret"
    ∷ codes "token"
    ∷ codes "auth"
    ∷ codes "credential"
    ∷ codes "credentials"
    ∷ codes "api_key"
    ∷ codes "apikey"
    ∷ codes "access_token"
    ∷ codes "accesstoken"
    ∷ codes "refresh_token"
    ∷ codes "private_key"
    ∷ codes "privatekey"
    ∷ codes "authorization"
    ∷ codes "key"
    ∷ []

abbrev pub is_prefix : Bytes → Bytes → Bool
is_prefix [] s = true
is_prefix (c ∷ k) [] = false
is_prefix (c ∷ k) (d ∷ s) = let rest = is_prefix k s in if c == d then rest else false

-- `strings.Contains s k`.
unfoldable pub contains : Bytes → Bytes → Bool
contains [] k = is_prefix k []
contains (c ∷ s) k = let rest = contains s k in if is_prefix k (c ∷ s) then true else rest

unfoldable pub sensitive_loop : Bytes → List Bytes → Bool
unfolding contains
sensitive_loop s [] = false
sensitive_loop s (k ∷ ks) = let rest = sensitive_loop s ks in if contains s k then true else rest

-- `to_lower` is strings.ToLower.
unfoldable pub is_sensitive_key : (Bytes → Bytes) → Bytes → Bool
unfolding sensitive_loop
is_sensitive_key to_lower key = sensitive_loop (to_lower key) sensitive_keys

cons_injective : {x y : ℕ} {s t : Bytes} → x ∷ s ≡ y ∷ t → (x ≡ y) × (s ≡ t)
cons_injective e = (cc, cc)

is_prefix_iff : (k s : Bytes) → (is_prefix k s ≡ true) ↔ ((t : Bytes) × (s ≡ k ++ t))
is_prefix_iff [] s = ((λ _. (s, refl)), (λ _. refl))
is_prefix_iff (c ∷ k) [] = ((λ e. absurd (true_ne (sym e))), (λ (t, e). cc))
is_prefix_iff (c ∷ k) (d ∷ s) =
    let (to, from) = is_prefix_iff k s in
    (
      (λ e. elim (Bool-cases (c == d)) [
        | inl same ↦
            let (t, q) = to (sym (rw same refl) ∙ e) in
            (t, ap₂ (λ (x : ℕ) (y : Bytes). x ∷ y) (sym ((==_iff c d).0 same)) q)
        | inr other ↦ absurd (true_ne (sym e ∙ rw other refl))
      ]),
      (λ (t, q).
          let (head, tail) = cons_injective q in rw ((==_iff c d).1 (sym head)) (from (t, tail))),
    )

-- A text that stands somewhere in another.
abbrev pub Within : Bytes → Bytes → Type 0
Within s k = (a : Bytes) × (b : Bytes) × (s ≡ a ++ (k ++ b))

contains_iff : (s k : Bytes) → (contains s k ≡ true) ↔ Within s k
unfolding contains
contains_iff [] k =
    ((λ e. let (t, q) = (is_prefix_iff k []).0 e in ([], t, q)), (λ (a, b, q). at_end a b q))
  where
    at_end : (a b : Bytes) → [] ≡ a ++ (k ++ b) → is_prefix k [] ≡ true
    at_end [] b q = (is_prefix_iff k []).1 (b, q)
    at_end (x ∷ a) b q = cc
contains_iff (c ∷ s) k =
    let (to, from) = contains_iff s k in
    (
      (λ e. elim (Bool-cases (is_prefix k (c ∷ s))) [
        | inl here ↦ let (t, q) = (is_prefix_iff k (c ∷ s)).0 here in ([], t, q)
        | inr later ↦ let (a, b, q) = to (sym (rw later refl) ∙ e) in (c ∷ a, b, ap (◌∷◌ c) q)
      ]),
      (λ (a, b, q). at a b q from),
    )
  where
    at :
        (a b : Bytes)
        → c ∷ s ≡ a ++ (k ++ b)
        → (Within s k → contains s k ≡ true)
        → contains (c ∷ s) k ≡ true
    at [] b q from = rw ((is_prefix_iff k (c ∷ s)).1 (b, q)) refl
    at (x ∷ a) b q from =
        if_elim (λ (r : Bool). r ≡ true) (is_prefix k (c ∷ s)) _ _ (λ _. refl)
          (λ _. from (a, b, (cons_injective q).1))

abbrev pub Any : (Bytes → Type 0) → List Bytes → Type 0
Any P [] = ⊥
Any P (k ∷ ks) = P k ⊎ Any P ks

sensitive_loop_iff :
    (s : Bytes) (ks : List Bytes) → (sensitive_loop s ks ≡ true) ↔ Any (Within s) ks
unfolding sensitive_loop
sensitive_loop_iff s [] = ((λ e. absurd (true_ne (sym e))), (λ e. absurd e))
sensitive_loop_iff s (k ∷ ks) =
    let (to, from) = sensitive_loop_iff s ks in
    (
      (λ e. elim (Bool-cases (contains s k)) [
        | inl here ↦ inl ((contains_iff s k).0 here)
        | inr later ↦ inr (to (sym (rw later refl) ∙ e))
      ]),
      (λ h.
          if_elim (λ (r : Bool). r ≡ true) (contains s k) _ _ (λ _. refl)
            (λ no_. elim h [
              | inl here ↦ absurd (true_ne (sym ((contains_iff s k).1 here) ∙ no_))
              | inr later ↦ from later
            ])),
    )

-- A key is sensitive exactly if one of `SensitiveKeys` stands somewhere in its lower case.
pub is_sensitive_key_iff :
    (to_lower : Bytes → Bytes) (key : Bytes)
    → (is_sensitive_key to_lower key ≡ true) ↔ Any (Within (to_lower key)) sensitive_keys
unfolding is_sensitive_key
is_sensitive_key_iff to_lower key = sensitive_loop_iff (to_lower key) sensitive_keys
