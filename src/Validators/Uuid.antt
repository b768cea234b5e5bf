-- ===== src/Validators/Uuid.antt =====
-- src/lib/validators/uuid.ts: the pattern as the list of its classes, one for each unit.
use godel_design.Prelude.{
  ℕ, List, [], ◌∷◌, ◌++◌, Bool, true, false, ◌&&◌, ◌||◌, ◌⊎◌, ◌≤◌, leb, ◌==◌, replicate, length,
  All, ◌≡◌, refl, arith,
}
use godel_design.JsText.{Text, is_digit, is_space, trim}
use godel_design.JsText.Trim.{StartsPlain, EndsPlain, trim_fixed}

pub data UnitClass : Type 0 where
  hex variant dash : UnitClass

-- The flag `i` lets either case through.
pub in_class : UnitClass → ℕ → Bool
unfolding is_digit
in_class hex c = is_digit c || (leb b'a' c && leb c b'f') || (leb b'A' c && leb c b'F')
in_class variant c = c == b'8' || c == b'9' || c == b'a' || c == b'b' || c == b'A' || c == b'B'
in_class dash c = c == b'-'

matches_classes : List UnitClass → Text → Bool
unfolding in_class
matches_classes [] [] = true
matches_classes (k ∷ ks) (c ∷ s) = in_class k c && matches_classes ks s
matches_classes [] (c ∷ s) = false
matches_classes (k ∷ ks) [] = false

abbrev uuid_regex : List UnitClass
uuid_regex =
    replicate 8 hex
    ++ dash ∷ replicate 4 hex
    ++ dash ∷ replicate 4 hex
    ++ dash ∷ variant ∷ replicate 3 hex
    ++ dash ∷ replicate 12 hex

unfoldable pub is_valid_uuid : Text → Bool
unfolding matches_classes
is_valid_uuid value = matches_classes uuid_regex value

-- A digit, a letter from a to f in either case, or a dash.
abbrev pub IsUuidUnit : ℕ → Type 0
IsUuidUnit c =
    ((b'0' ≤ c) × (c ≤ b'9')) ⊎ ((b'a' ≤ c) × (c ≤ b'f')) ⊎ ((b'A' ≤ c) × (c ≤ b'F')) ⊎ (c ≡ b'-')

in_class-IsUuidUnit : (k : UnitClass) (c : ℕ) → in_class k c ≡ true → IsUuidUnit c
unfolding in_class
in_class-IsUuidUnit hex c h = ground arith
in_class-IsUuidUnit variant c h = ground arith
in_class-IsUuidUnit dash c h = ground arith

matches_classes-shape :
    (ks : List UnitClass) (s : Text)
    → matches_classes ks s ≡ true
    → (length s ≡ length ks) × All IsUuidUnit s
unfolding matches_classes
matches_classes-shape [] [] h = (refl, tt)
matches_classes-shape (k ∷ ks) (c ∷ s) h =
    ground (arith, matches_classes-shape ks s, in_class-IsUuidUnit k c)
matches_classes-shape [] (c ∷ s) h = ground arith
matches_classes-shape (k ∷ ks) [] h = ground arith

IsUuidUnit-plain : (c : ℕ) → IsUuidUnit c → is_space c ≡ false
unfolding is_space
IsUuidUnit-plain c h = ground arith

plain_start : (s : Text) → All IsUuidUnit s → StartsPlain s
plain_start [] h = tt
plain_start (c ∷ s) (p, h) = IsUuidUnit-plain c p

plain_end : (s : Text) → All IsUuidUnit s → EndsPlain s
plain_end [] h = tt
plain_end (c ∷ []) (p, h) = IsUuidUnit-plain c p
plain_end (c ∷ d ∷ s) (p, h) = plain_end (d ∷ s) h

-- An accepted id has 36 units, each a hexadecimal digit or a dash, and is its own trimmed form.
is_valid_uuid_lem :
    (s : Text) → is_valid_uuid s ≡ true → (length s ≡ 36) × All IsUuidUnit s × (trim s ≡ s)
unfolding is_valid_uuid
is_valid_uuid_lem s h =
    let (len, units) = matches_classes-shape uuid_regex s h in
    (len, units, trim_fixed s (plain_start s units) (plain_end s units))
