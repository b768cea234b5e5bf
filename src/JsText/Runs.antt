-- ===== src/JsText/Runs.antt =====
-- What replacing runs of a class leaves.
use godel_design.Prelude.{
  ℕ, [], ◌∷◌, Bool, true, false, if◌then◌else◌, ◌≡◌, All, length, ◌≤◌, arith, Bool-cases, inl, inr,
}
use godel_design.JsText.{Text, is_space, replace_runs}
use godel_design.JsText.Trim.{StartsPlain, IsSpaced}

module _ {ℓ} (P : ℕ → Type ℓ) (p : ℕ → Bool) (r : ℕ) (replacement : P r) where
  within : (b : Bool) (s : Text) → All P s → All P (if b then s else r ∷ s)
  within true s h = h
  within false s h = (replacement, h)

  -- Every unit that is left is the replacement or lies outside the class.
  pub replace_runs-All :
      (b : Bool) (s : Text) → All (λ c. p c ≡ false → P c) s → All P (replace_runs p r b s)
  unfolding replace_runs
  replace_runs-All b [] h = tt
  replace_runs-All b (c ∷ s) (k, h) = elim (Bool-cases (p c)) [
    | inl e ↦ rw e (within b _ (replace_runs-All true s h))
    | inr e ↦ rw e (k e, replace_runs-All false s h)
  ]

-- Where runs of white space become one unit, what follows a run starts plain.
replace_runs-StartsPlain : (r : ℕ) (s : Text) → StartsPlain (replace_runs is_space r true s)
unfolding replace_runs
replace_runs-StartsPlain r [] = tt
replace_runs-StartsPlain r (c ∷ s) = ground (arith, replace_runs-StartsPlain r s)

pub replace_runs-IsSpaced : (r : ℕ) (b : Bool) (s : Text) → IsSpaced (replace_runs is_space r b s)
unfolding replace_runs
replace_runs-IsSpaced r b [] = tt
replace_runs-IsSpaced r b (c ∷ s) = ground (
  arith,
  replace_runs-IsSpaced r true s,
  replace_runs-IsSpaced r false s,
  replace_runs-StartsPlain r s,
)

pub length-replace_runs :
    (p : ℕ → Bool) (r : ℕ) (b : Bool) (s : Text) → length (replace_runs p r b s) ≤ length s
unfolding replace_runs
length-replace_runs p r b [] = omega arith
length-replace_runs p r b (c ∷ s) =
    ground (arith, length-replace_runs p r true s, length-replace_runs p r false s)
