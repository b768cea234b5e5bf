-- ===== src/JsText/Parts.antt =====
-- Splitting at a unit and joining again.
use godel_design.Prelude.{ℕ, List, [], ◌∷◌, ◌≡◌, ◌≢◌, refl, arith}
use godel_design.JsText.{Text, push_head, split, join}

join-push_head : (sep c : ℕ) (ps : List Text) → join sep (push_head c ps) ≡ c ∷ join sep ps
unfolding join
join-push_head sep c [] = refl
join-push_head sep c (p ∷ []) = refl
join-push_head sep c (p ∷ q ∷ ps) = refl

split-ne-nil : (sep : ℕ) (s : Text) → split sep s ≢ []
unfolding split
split-ne-nil sep [] h = cc
split-ne-nil sep (c ∷ s) h = ground arith

join-nil-cons : (sep : ℕ) (ps : List Text) → ps ≢ [] → join sep ([] ∷ ps) ≡ sep ∷ join sep ps
unfolding join
join-nil-cons sep [] h = absurd (h refl)
join-nil-cons sep (p ∷ ps) h = refl

-- Joining the parts of a split gives the text back.
pub join-split : (sep : ℕ) (s : Text) → join sep (split sep s) ≡ s
unfolding split
join-split sep [] = unfold join in refl
join-split sep (c ∷ s) = grind (
  arith,
  join-split sep s,
  join-push_head sep c (split sep s),
  join-nil-cons sep (split sep s) (split-ne-nil sep s),
)
