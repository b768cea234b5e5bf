-- ===== src/JsNumber.antt =====
-- The numbers of JavaScript as far as the program computes with them: what tells a whole number from
-- another, and the rounding of a whole number to a double.
pub mod Rounding
use godel_design.JsText.{Text, is_digit}
use godel_design.Prelude.{
  List, [], ◌∷◌, is_empty, all, ℕ, zero, suc, ◌+◌, ◌-◌, ◌*◌, ◌/◌, ◌%◌, ◌^◌, Bool, true, false, not,
  ◌&&◌, ◌||◌, ltb, leb, ◌==◌, if◌then◌else◌,
}

-- A finite number is its sign, the whole part of its absolute value, and whether a fraction is left.
pub data Number : Type 0 where
  nan : Number
  infinite : (negative : Bool) → Number
  finite : (negative : Bool) (whole : ℕ) (fraction : Bool) → Number

abbrev pub max_safe_integer : ℕ
max_safe_integer = 9007199254740991

-- `Number.isSafeInteger(value)`.
abbrev pub is_safe_integer : Number → Bool
is_safe_integer nan = false
is_safe_integer (infinite negative) = false
is_safe_integer (finite negative whole fraction) = not fraction && leb whole max_safe_integer

-- `Math.trunc(value)`.
abbrev pub trunc : Number → Number
trunc nan = nan
trunc (infinite negative) = infinite negative
trunc (finite negative whole fraction) = finite negative whole false

abbrev pub is_odd : ℕ → Bool
is_odd n = n % 2 == 1

-- The nearest number with a mantissa of 53 bits, ties to even: `half` is the bit dropped last and
-- `sticky` says whether a bit dropped before was set. The fuel is the number of bits dropped.
unfoldable pub round_bits : ℕ → ℕ → Bool → Bool → ℕ
round_bits zero v half sticky = v
round_bits (suc k) v half sticky = elim (ltb v 9007199254740992) [
  | true ↦ if half && (sticky || is_odd v) then v + 1 else v
  | false ↦ 2 * round_bits k (v / 2) (is_odd v) (sticky || half)
]

-- 971 bits are dropped of a number below 2 ^ 1024.
unfoldable pub round_double : ℕ → ℕ
unfolding round_bits
round_double n = round_bits 1024 n false false

-- The number that a text of decimal digits with the value `n` denotes.
unfoldable pub to_number : ℕ → Number
unfolding round_double
to_number n =
    if leb (2 ^ 1024 - 2 ^ 970) n then infinite false else finite false (round_double n) false

-- `\d+`.
unfoldable pub is_digits : Text → Bool
unfolding is_digit
is_digits s = not (is_empty s) && all is_digit s

-- The value of digits behind the value of those before them.
abbrev pub digits_value : ℕ → Text → ℕ
digits_value acc [] = acc
digits_value acc (c ∷ s) = digits_value (acc * 10 + (c - b'0')) s
