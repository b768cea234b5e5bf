-- ===== src/JsText/Trim.antt =====
-- What `trim` leaves: a text that neither starts nor ends with white space.
use godel_design.Prelude.{
  ℕ, [], ◌∷◌, true, false, ◌&&◌, is_empty, length, ◌≤◌, ◌≡◌, refl, All, arith, Bool-cases, inl, inr,
}
use godel_design.JsText.{Text, is_space, trim_start, trim_end, trim}

abbrev pub StartsPlain : Text → Type 0
StartsPlain [] = Unit
StartsPlain (c ∷ s) = is_space c ≡ false

abbrev pub EndsPlain : Text → Type 0
EndsPlain [] = Unit
EndsPlain (c ∷ []) = is_space c ≡ false
EndsPlain (c ∷ d ∷ s) = EndsPlain (d ∷ s)

-- No two white-space units stand side by side.
abbrev pub IsSpaced : Text → Type 0
IsSpaced [] = Unit
IsSpaced (c ∷ s) = (is_space c ≡ true → StartsPlain s) × IsSpaced s

trim_start-StartsPlain : (s : Text) → StartsPlain (trim_start s)
unfolding trim_start
trim_start-StartsPlain [] = tt
trim_start-StartsPlain (c ∷ s) = ground (arith, trim_start-StartsPlain s)

EndsPlain-cons :
    (c : ℕ) (s : Text) → (is_empty s && is_space c) ≡ false → EndsPlain s → EndsPlain (c ∷ s)
EndsPlain-cons c [] h e = h
EndsPlain-cons c (d ∷ s) h e = e

trim_end-EndsPlain : (s : Text) → EndsPlain (trim_end s)
unfolding trim_end
trim_end-EndsPlain [] = tt
trim_end-EndsPlain (c ∷ s) = elim (Bool-cases (is_empty (trim_end s) && is_space c)) [
  | inl e ↦ rw e tt
  | inr e ↦ rw e (EndsPlain-cons c (trim_end s) e (trim_end-EndsPlain s))
]

trim_end-StartsPlain : (s : Text) → StartsPlain s → StartsPlain (trim_end s)
unfolding trim_end
trim_end-StartsPlain [] h = tt
trim_end-StartsPlain (c ∷ s) h = ground arith

pub trim-StartsPlain : (s : Text) → StartsPlain (trim s)
unfolding trim
trim-StartsPlain s = trim_end-StartsPlain (trim_start s) (trim_start-StartsPlain s)

pub trim-EndsPlain : (s : Text) → EndsPlain (trim s)
unfolding trim
trim-EndsPlain s = trim_end-EndsPlain (trim_start s)

trim_start_fixed : (s : Text) → StartsPlain s → trim_start s ≡ s
unfolding trim_start
trim_start_fixed [] h = refl
trim_start_fixed (c ∷ s) h = rw h

trim_end_fixed : (s : Text) → EndsPlain s → trim_end s ≡ s
unfolding trim_end
trim_end_fixed [] h = refl
trim_end_fixed (c ∷ []) h = rw h
trim_end_fixed (c ∷ d ∷ s) h = rw (trim_end_fixed (d ∷ s) h)

-- A text with plain ends is left as it is.
pub trim_fixed : (s : Text) → StartsPlain s → EndsPlain s → trim s ≡ s
unfolding trim
trim_fixed s a b = rw (trim_start_fixed s a) (trim_end_fixed s b)

pub trim_idempotent : (s : Text) → trim (trim s) ≡ trim s
trim_idempotent s = trim_fixed (trim s) (trim-StartsPlain s) (trim-EndsPlain s)

module _ {ℓ} (P : ℕ → Type ℓ) where
  trim_start-All : (s : Text) → All P s → All P (trim_start s)
  unfolding trim_start
  trim_start-All [] h = tt
  trim_start-All (c ∷ s) (p, h) = elim (Bool-cases (is_space c)) [
    | inl e ↦ rw e (trim_start-All s h)
    | inr e ↦ rw e (p, h)
  ]

  trim_end-All : (s : Text) → All P s → All P (trim_end s)
  unfolding trim_end
  trim_end-All [] h = tt
  trim_end-All (c ∷ s) (p, h) = elim (Bool-cases (is_empty (trim_end s) && is_space c)) [
    | inl e ↦ rw e tt
    | inr e ↦ rw e (p, trim_end-All s h)
  ]

  -- What holds of every unit of a text holds of every unit that is left.
  pub trim-All : (s : Text) → All P s → All P (trim s)
  unfolding trim
  trim-All s h = trim_end-All (trim_start s) (trim_start-All s h)

trim_start-IsSpaced : (s : Text) → IsSpaced s → IsSpaced (trim_start s)
unfolding trim_start
trim_start-IsSpaced [] h = tt
trim_start-IsSpaced (c ∷ s) (p, h) = elim (Bool-cases (is_space c)) [
  | inl e ↦ rw e (trim_start-IsSpaced s h)
  | inr e ↦ rw e (p, h)
]

trim_end-IsSpaced : (s : Text) → IsSpaced s → IsSpaced (trim_end s)
unfolding trim_end
trim_end-IsSpaced [] h = tt
trim_end-IsSpaced (c ∷ s) (p, h) = elim (Bool-cases (is_empty (trim_end s) && is_space c)) [
  | inl e ↦ rw e tt
  | inr e ↦ rw e (λ q. trim_end-StartsPlain s (p q), trim_end-IsSpaced s h)
]

pub trim-IsSpaced : (s : Text) → IsSpaced s → IsSpaced (trim s)
unfolding trim
trim-IsSpaced s h = trim_end-IsSpaced (trim_start s) (trim_start-IsSpaced s h)

trim_start-length : (s : Text) → length (trim_start s) ≤ length s
unfolding trim_start
trim_start-length [] = omega arith
trim_start-length (c ∷ s) = ground (arith, trim_start-length s)

trim_end-length : (s : Text) → length (trim_end s) ≤ length s
unfolding trim_end
trim_end-length [] = omega arith
trim_end-length (c ∷ s) = ground (arith, trim_end-length s)

pub length-trim : (s : Text) → length (trim s) ≤ length s
unfolding trim
length-trim s = omega (arith, trim_start-length s, trim_end-length (trim_start s))
