-- ===== src/JsUnicode.antt =====
-- What the code needs of the tables of Unicode: `toLowerCase` and `normalize("NFD")` are a parameter,
-- and the one rule that is asked of it is what `toLowerCase` does to a text of ASCII.
use godel_design.Prelude.{ℕ, ◌+◌, ◌<◌, map, Bool, ◌&&◌, leb, if◌then◌else◌, All, ◌≡◌}
use godel_design.JsText.{Text}

abbrev pub is_lower : ℕ → Bool
is_lower c = leb b'a' c && leb c b'z'

abbrev pub is_upper : ℕ → Bool
is_upper c = leb b'A' c && leb c b'Z'

abbrev pub ascii_lower : ℕ → ℕ
ascii_lower c = if is_upper c then c + 32 else c

pub record Unicode : Type 0 where
  pub to_lower_case : Text → Text
  pub normalize_nfd : Text → Text
  pub to_lower_case_ascii : (s : Text) → All (λ c. c < 128) s → to_lower_case s ≡ map ascii_lower s
