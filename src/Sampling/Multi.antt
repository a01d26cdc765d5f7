-- ===== src/Sampling/Multi.antt =====
-- sampling.go: the MultiSampler, whatever its samplers are.
use onelog.Prelude.{
  ℕ, suc, ◌≡◌, refl, ap, Bool, true, false, ◌&&◌, ◌||◌, List, [], ◌∷◌, ◌++◌, take, drop, Bool-cases,
  inl, inr,
}
use onelog.Field.{Entry}
use onelog.Sampling.{MultiSamplerMode, and_mode, or_mode, sample_loop, multi_sample}

abbrev pub all_true : List Bool → Bool
all_true [] = true
all_true (b ∷ bs) = b && all_true bs

abbrev pub any_true : List Bool → Bool
any_true [] = false
any_true (b ∷ bs) = b || any_true bs

-- How many samplers are asked: those up to the first whose answer decides.
abbrev pub asked : MultiSamplerMode → List Bool → ℕ
asked mode [] = 0
asked and_mode (true ∷ bs) = suc (asked and_mode bs)
asked and_mode (false ∷ bs) = 1
asked or_mode (true ∷ bs) = 1
asked or_mode (false ∷ bs) = suc (asked or_mode bs)

abbrev pub combined : MultiSamplerMode → List Bool → Bool
combined mode [] = true
combined and_mode (b ∷ bs) = all_true (b ∷ bs)
combined or_mode (b ∷ bs) = any_true (b ∷ bs)

module _ {S : Type 0} (sample : Entry → S → S × Bool) where
  -- What each sampler answers on its own.
  abbrev pub answers : Entry → List S → List Bool
  answers e [] = []
  answers e (s ∷ ss) = (sample e s).1 ∷ answers e ss

  abbrev pub stepped : Entry → List S → List S
  stepped e [] = []
  stepped e (s ∷ ss) = (sample e s).0 ∷ stepped e ss

  abbrev LoopSpec : MultiSamplerMode → Entry → List S → Bool → Type 0
  LoopSpec mode e ss keep =
      let (ss', found) = sample_loop sample mode e ss in
      let n = asked mode (answers e ss) in
      (found ≡ keep) × (ss' ≡ stepped e (take n ss) ++ drop n ss)

  sample_loop-and : (e : Entry) (ss : List S) → LoopSpec and_mode e ss (all_true (answers e ss))
  unfolding sample_loop
  sample_loop-and e [] = (refl, refl)
  sample_loop-and e (s ∷ ss) =
      let (found, states) = sample_loop-and e ss in
      elim (Bool-cases (sample e s).1) [
        | inl yes_ ↦ rw yes_ (found, ap (◌∷◌ (sample e s).0) states)
        | inr no_ ↦ rw no_ (refl, refl)
      ]

  sample_loop-or : (e : Entry) (ss : List S) → LoopSpec or_mode e ss (any_true (answers e ss))
  unfolding sample_loop
  sample_loop-or e [] = (refl, refl)
  sample_loop-or e (s ∷ ss) =
      let (found, states) = sample_loop-or e ss in
      elim (Bool-cases (sample e s).1) [
        | inl yes_ ↦ rw yes_ (refl, refl)
        | inr no_ ↦ rw no_ (found, ap (◌∷◌ (sample e s).0) states)
      ]

  -- A MultiSampler keeps an entry, in and-mode, if all its samplers do, and in or-mode if one
  -- does; with no sampler it keeps every entry. It asks the samplers in order up to the first whose
  -- answer decides, and only those change their state.
  pub multi_sample_lem :
      (mode : MultiSamplerMode) (e : Entry) (ss : List S)
      → let (ss', keep) = multi_sample sample mode e ss in
        let n = asked mode (answers e ss) in
        (keep ≡ combined mode (answers e ss)) × (ss' ≡ stepped e (take n ss) ++ drop n ss)
  unfolding multi_sample
  multi_sample_lem and_mode e [] = (refl, refl)
  multi_sample_lem or_mode e [] = (refl, refl)
  multi_sample_lem and_mode e (s ∷ ss) = sample_loop-and e (s ∷ ss)
  multi_sample_lem or_mode e (s ∷ ss) = sample_loop-or e (s ∷ ss)
