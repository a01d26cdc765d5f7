-- ===== src/Level/Parse.antt =====
-- level.go: which texts a level is parsed from, and that its name is one of them.
use onelog.Prelude.{
  some_ne, ℕ, zero, suc, ◌≤◌, ◌≡◌, ◌↔◌, ◌⊎◌, refl, sym, ap, subst, ◌∙◌, Option, none, some, List,
  [], ◌∷◌, Bytes, bytes_eq, bytes_eq_iff, arith, All, Bool-cases, Option-cases, inl, inr,
}
use onelog.Level.{
  level_names, level_map, lookup, name_at, level_string, to_upper, parsed, unknown, of_lookup,
  parse_level, accepted, must_parse_level, info_level,
}

some_injective : {a b : ℕ} → some a ≡ some b → a ≡ b
some_injective e = cc

-- A found value stands at the key.
lookup-All :
    (P : Bytes → ℕ → Type 0) (m : List (Bytes × ℕ)) (k : Bytes) (v : ℕ)
    → All (λ (e : Bytes × ℕ). P e.0 e.1) m
    → lookup k m ≡ some v
    → P k v
lookup-All P [] k v all found = cc
lookup-All P ((j, w) ∷ m) k v (this, others) found = elim (Bool-cases (bytes_eq k j)) [
  | inl same ↦
      let w_eq : some w ≡ some v = sym (rw same refl) ∙ found in
      let k_eq = (bytes_eq_iff k j).0 same in
      subst (λ i. P i v) (sym k_eq) (subst (P j) (some_injective w_eq) this)
  | inr other ↦ lookup-All P m k v others (sym (rw other refl) ∙ found)
]

lookup-level_map :
    (k : Bytes) (l : ℕ) → lookup k level_map ≡ some l → (l ≤ 6) × (k ≡ name_at level_names l)
lookup-level_map k l =
    lookup-All (λ j v. (v ≤ 6) × (j ≡ name_at level_names v)) level_map k l
      (
        (omega arith, refl),
        (
          (omega arith, refl),
          (
            (omega arith, refl),
            (
              (omega arith, refl),
              ((omega arith, refl), ((omega arith, refl), ((omega arith, refl), tt))),
            ),
          ),
        ),
      )

lookup-name_at : (l : ℕ) → l ≤ 6 → lookup (name_at level_names l) level_map ≡ some l
lookup-name_at zero h = refl
lookup-name_at (suc zero) h = refl
lookup-name_at (suc (suc zero)) h = refl
lookup-name_at (suc (suc (suc zero))) h = refl
lookup-name_at (suc (suc (suc (suc zero)))) h = refl
lookup-name_at (suc (suc (suc (suc (suc zero))))) h = refl
lookup-name_at (suc (suc (suc (suc (suc (suc zero)))))) h = refl
lookup-name_at (suc (suc (suc (suc (suc (suc (suc l))))))) h = absurd (omega arith)

level_string_named :
    (decimal : ℕ → Bytes) (l : ℕ) → l ≤ 6 → level_string decimal l ≡ name_at level_names l
unfolding level_string
level_string_named decimal l h = ground arith

-- A text is parsed to a level exactly if the level is one of the seven named ones and the text in
-- upper case is the name that `String` prints for it.
pub parse_level_iff :
    (unicode_upper : Bytes → Bytes) (decimal : ℕ → Bytes) (s : Bytes) (l : ℕ)
    → (parse_level unicode_upper s ≡ parsed l)
      ↔ ((l ≤ 6) × (to_upper unicode_upper s ≡ level_string decimal l))
unfolding parse_level
parse_level_iff unicode_upper decimal s l =
    let found = lookup (to_upper unicode_upper s) level_map in
    (
      (λ e.
          let (small, name) =
            lookup-level_map (to_upper unicode_upper s) l (of_lookup_parsed s found l e) in
          (small, name ∙ sym (level_string_named decimal l small))),
      (λ (small, name).
          ap (λ k. of_lookup s (lookup k level_map)) (name ∙ level_string_named decimal l small)
          ∙ ap (of_lookup s) (lookup-name_at l small)),
    )
  where
    of_lookup_parsed : (t : Bytes) (o : Option ℕ) (v : ℕ) → of_lookup t o ≡ parsed v → o ≡ some v
    of_lookup_parsed t none v e = cc
    of_lookup_parsed t (some w) v e = cc

upper_name :
    (unicode_upper : Bytes → Bytes) (l : ℕ)
    → l ≤ 6
    → to_upper unicode_upper (name_at level_names l) ≡ name_at level_names l
upper_name unicode_upper zero h = refl
upper_name unicode_upper (suc zero) h = refl
upper_name unicode_upper (suc (suc zero)) h = refl
upper_name unicode_upper (suc (suc (suc zero))) h = refl
upper_name unicode_upper (suc (suc (suc (suc zero)))) h = refl
upper_name unicode_upper (suc (suc (suc (suc (suc zero))))) h = refl
upper_name unicode_upper (suc (suc (suc (suc (suc (suc zero)))))) h = refl
upper_name unicode_upper (suc (suc (suc (suc (suc (suc (suc l))))))) h = absurd (omega arith)

-- The printed name of a named level is parsed back to it, without a panic.
pub must_parse_level-level_string :
    (unicode_upper : Bytes → Bytes) (decimal : ℕ → Bytes) (l : ℕ)
    → l ≤ 6
    → must_parse_level unicode_upper (level_string decimal l) ≡ some l
unfolding must_parse_level
must_parse_level-level_string unicode_upper decimal l h = ap accepted (
    (parse_level_iff unicode_upper decimal (level_string decimal l) l).1
      (h, rw (level_string_named decimal l h) (upper_name unicode_upper l h)))

parse_level-cases :
    (unicode_upper : Bytes → Bytes) (s : Bytes)
    → (parse_level unicode_upper s ≡ unknown info_level s)
      ⊎ ((l : ℕ) × (parse_level unicode_upper s ≡ parsed l))
unfolding parse_level
parse_level-cases unicode_upper s =
    elim (Option-cases (lookup (to_upper unicode_upper s) level_map)) [
      | inl e ↦ inl (ap (of_lookup s) e)
      | inr (l, e) ↦ inr (l, ap (of_lookup s) e)
    ]

-- A text whose upper case is no level's name gives the info level beside the error that quotes the
-- text, and makes MustParseLevel panic; a text for which it panics is such a text.
pub must_parse_level_panics :
    (unicode_upper : Bytes → Bytes) (decimal : ℕ → Bytes) (s : Bytes)
    → ((must_parse_level unicode_upper s ≡ none)
        ↔ ((l : ℕ) → l ≤ 6 → ¬ (to_upper unicode_upper s ≡ level_string decimal l)))
      × ((must_parse_level unicode_upper s ≡ none)
          ↔ (parse_level unicode_upper s ≡ unknown info_level s))
unfolding must_parse_level
must_parse_level_panics unicode_upper decimal s = elim (parse_level-cases unicode_upper s) [
  | inl e ↦ (
    (
      (λ _ l small name. cc ((parse_level_iff unicode_upper decimal s l).1 (small, name), e)),
      (λ _. ap accepted e),
    ),
    ((λ _. e), (λ _. ap accepted e)),
  )
  | inr (l, e) ↦
      let (small, name) = (parse_level_iff unicode_upper decimal s l).0 e in
      (
        (
          (λ panic. absurd (some_ne (sym (ap accepted e) ∙ panic))),
          (λ no_name. absurd (no_name l small name)),
        ),
        ((λ panic. absurd (some_ne (sym (ap accepted e) ∙ panic))), (λ failed. ap accepted failed)),
      )
]
