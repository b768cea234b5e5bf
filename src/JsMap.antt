-- ===== src/JsMap.antt =====
-- JavaScript's `Map` with texts as keys, as the list of its entries in the order of insertion:
-- setting a key that is there keeps its place.
use godel_design.Prelude.{
  List, [], ◌∷◌, if◌then◌else◌, Option, some, none, ◌≡◌, refl, map, any, arith,
}
use godel_design.JsText.{Text, text_eq, text_eq_iff}

module _ {ℓ} {V : Type ℓ} where
  unfoldable pub get : Text → List (Text × V) → Option V
  get k [] = none
  get k ((j, v) ∷ m) = let rest = get k m in if text_eq j k then some v else rest

  unfoldable pub set : Text → V → List (Text × V) → List (Text × V)
  set k v [] = (k, v) ∷ []
  set k v ((j, w) ∷ m) = let rest = set k v m in if text_eq j k then (j, v) ∷ m else (j, w) ∷ rest

  -- `new Map(entries)`.
  unfoldable pub from_entries : List (Text × V) → List (Text × V) → List (Text × V)
  unfolding set
  from_entries m [] = m
  from_entries m ((k, v) ∷ rest) = from_entries (set k v m) rest

  pub get-set :
      (k j : Text) (v : V) (m : List (Text × V))
      → get j (set k v m) ≡ (if text_eq k j then some v else get j m)
  unfolding get set
  get-set k j v [] = refl
  get-set k j v ((i, w) ∷ m) =
      ground (arith, text_eq_iff i k, text_eq_iff k j, text_eq_iff i j, get-set k j v m)

  -- A map built from entries gives for a key what the last entry of the key holds.
  pub get-from_entries_const :
      (f : Text → V) (k : Text) (ks : List Text) (m : List (Text × V))
      → get k (from_entries m (map (λ id. (id, f id)) ks))
        ≡ (if any (text_eq k) ks then some (f k) else get k m)
  unfolding from_entries
  get-from_entries_const f k [] m = refl
  get-from_entries_const f k (j ∷ ks) m = ground (
    arith,
    get-from_entries_const f k ks (set j (f j) m),
    get-set j k (f j) m,
    text_eq_iff j k,
    text_eq_iff k j,
  )
