-- ===== src/JsText.antt =====
-- The operations of JavaScript strings that the code calls, over a text as its list of UTF-16 code
-- units, so that `.length` is the length of the list. A regular expression that the code uses with
-- the flag `g` over one class of characters is a function over the class's test: replacing single
-- characters is a `map` or `keep`, replacing runs is `replace_runs`.
pub mod Trim
pub mod Runs
pub mod Parts
use Prim.Native.Char.{code}
use godel_design.Prelude.{
  ℕ, suc, ◌≤◌, List, [], ◌∷◌, ◌++◌, Bool, true, false, ◌&&◌, ◌||◌, ltb, leb, ◌==◌, if◌then◌else◌,
  is_empty, String, ◌≡◌, refl, inl, inr, ◌↔◌, arith, Bool-cases,
}

abbrev pub Text : Type 0
Text = List ℕ

-- The units of a literal of the source; every literal modelled lies in the basic plane.
abbrev pub codes : String → Text
codes String.[] = []
codes (String.◌∷◌ c s) = code c ∷ codes s

-- `\s` of regular expressions and what `trim` cuts: white space and line terminators.
unfoldable pub is_space : ℕ → Bool
is_space c =
    (leb 0x9 c && leb c 0xd)
    || c == 0x20
    || c == 0xa0
    || c == 0x1680
    || (leb 0x2000 c && leb c 0x200a)
    || c == 0x2028
    || c == 0x2029
    || c == 0x202f
    || c == 0x205f
    || c == 0x3000
    || c == 0xfeff

unfoldable pub is_digit : ℕ → Bool
is_digit c = leb b'0' c && leb c b'9'

pub trim_start : Text → Text
trim_start [] = []
trim_start (c ∷ s) = let rest = trim_start s in if is_space c then rest else c ∷ s

pub trim_end : Text → Text
trim_end [] = []
trim_end (c ∷ s) = let rest = trim_end s in if is_empty rest && is_space c then [] else c ∷ rest

unfoldable pub trim : Text → Text
unfolding trim_start trim_end is_space
trim s = trim_end (trim_start s)

-- `s.replace(/[p]+/g, r)`; the flag says that the unit before belongs to a run.
unfoldable pub replace_runs : (ℕ → Bool) → ℕ → Bool → Text → Text
replace_runs p r in_run [] = []
replace_runs p r in_run (c ∷ s) =
    let within = replace_runs p r true s in
    let after = replace_runs p r false s in
    if p c then (if in_run then within else r ∷ within) else c ∷ after

-- `s.replace(/\r\n?/g, "\n")`; the flag says that the unit before was `\r`.
unfoldable pub unify_newlines : Bool → Text → Text
unify_newlines after_cr [] = []
unify_newlines after_cr (c ∷ s) =
    let swallow = unify_newlines false s in
    let wait = unify_newlines true s in
    if after_cr && c == 0xa then swallow else if c == 0xd then 0xa ∷ wait else c ∷ swallow

abbrev pub push_head : ℕ → List Text → List Text
push_head c [] = (c ∷ []) ∷ []
push_head c (p ∷ ps) = (c ∷ p) ∷ ps

-- `s.split(sep)` at a separator of one unit.
unfoldable pub split : ℕ → Text → List Text
split sep [] = [] ∷ []
split sep (c ∷ s) = let rest = split sep s in if c == sep then [] ∷ rest else push_head c rest

unfoldable pub join : ℕ → List Text → Text
join sep [] = []
join sep (p ∷ []) = p
join sep (p ∷ q ∷ ps) = p ++ (sep ∷ join sep (q ∷ ps))

unfoldable pub text_eq : Text → Text → Bool
text_eq [] [] = true
text_eq (c ∷ s) (d ∷ t) = c == d && text_eq s t
text_eq _ _ = false

-- `s.startsWith(prefix)`, with the prefix first.
unfoldable pub starts_with : Text → Text → Bool
starts_with [] s = true
starts_with (p ∷ ps) [] = false
starts_with (p ∷ ps) (c ∷ s) = p == c && starts_with ps s

-- `s.includes(part)`, with the part first.
unfoldable pub includes : Text → Text → Bool
unfolding starts_with
includes part [] = is_empty part
includes part (c ∷ s) = starts_with part (c ∷ s) || includes part s

pub text_eq_sound : (s t : Text) → text_eq s t ≡ true → s ≡ t
unfolding text_eq
text_eq_sound [] [] h = refl
text_eq_sound (c ∷ s) (d ∷ t) h = ground (arith, text_eq_sound s t)
text_eq_sound [] (d ∷ t) h = ground arith
text_eq_sound (c ∷ s) [] h = ground arith

pub text_eq_refl : (s : Text) → text_eq s s ≡ true
unfolding text_eq
text_eq_refl [] = refl
text_eq_refl (c ∷ s) = ground (arith, text_eq_refl s)

pub text_eq_iff : (s t : Text) → (text_eq s t ≡ true) ↔ (s ≡ t)
text_eq_iff s t = (text_eq_sound s t, λ e. rw e (text_eq_refl t))
