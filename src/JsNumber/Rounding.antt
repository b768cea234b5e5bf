-- ===== src/JsNumber/Rounding.antt =====
-- JsNumber.antt: rounding keeps a number of 53 bits and stays above them otherwise.
use godel_design.Prelude.{
  ℕ, zero, suc, ◌/◌, ◌≤◌, ◌<◌, Bool, false, ltb, ◌||◌, ◌≡◌, refl, inl, inr, Bool-cases, lt→ltb,
  ltb→lt, arith,
}
use godel_design.JsNumber.{round_bits, round_double, is_odd}

round_bits_large :
    (k v : ℕ) (half sticky : Bool)
    → 4503599627370496 ≤ v
    → 4503599627370496 ≤ round_bits k v half sticky
unfolding round_bits
round_bits_large zero v half sticky h = h
round_bits_large (suc k) v half sticky h = elim (Bool-cases (ltb v 9007199254740992)) [
  | inl small ↦ rw (round_bits, small) (ground arith)
  | inr large ↦
      rw (round_bits, large)
        (omega (arith, round_bits_large k (v / 2) (is_odd v) (sticky || half) (ground arith)))
]

round_bits_exact :
    (k v : ℕ) (sticky : Bool) → v < 9007199254740992 → round_bits (suc k) v false sticky ≡ v
unfolding round_bits
round_bits_exact k v sticky h = rw (round_bits, lt→ltb v 9007199254740992 h) refl

round_bits_doubled :
    (k v : ℕ) (half sticky : Bool)
    → 9007199254740992 ≤ v
    → 9007199254740992 ≤ round_bits (suc k) v half sticky
unfolding round_bits
round_bits_doubled k v half sticky h = elim (Bool-cases (ltb v 9007199254740992)) [
  | inl small ↦ absurd (omega (arith, ltb→lt v 9007199254740992 small))
  | inr large ↦
      rw (round_bits, large)
        (omega (arith, round_bits_large k (v / 2) (is_odd v) (sticky || half) (omega arith)))
]

pub round_double_exact : (n : ℕ) → n < 9007199254740992 → round_double n ≡ n
unfolding round_double
round_double_exact n h = round_bits_exact 1023 n false h

pub round_double_large : (n : ℕ) → 9007199254740992 ≤ n → 9007199254740992 ≤ round_double n
unfolding round_double
round_double_large n h = round_bits_doubled 1023 n false false h
