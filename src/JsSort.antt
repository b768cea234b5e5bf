-- ===== src/JsSort.antt =====
-- `sort` of JavaScript arrays, which is stable: equal elements keep their order. A comparing
-- function's result is known by its sign.
use Prim.Native.Nat.{ℕ, suc, ◌≤◌}
use mathlib.Core.List.Perm
use mathlib.Core.List.{Perm}
use godel_design.Prelude.{
  zero, List, [], ◌∷◌, Bool, true, false, if◌then◌else◌, ◌≡◌, refl, length, take, drop, All,
  All-imp, All-take, inl, inr, arith, Bool-cases,
}

pub data Sign : Type 0 where
  negative null positive : Sign

abbrev pub is_positive : Sign → Bool
is_positive positive = true
is_positive _ = false

module _ {A : Type 0} (compare : A → A → Sign) where
  -- An element goes before the first one that it does not follow.
  unfoldable pub place : A → List A → List A
  place x [] = x ∷ []
  place x (y ∷ ys) =
      let rest = place x ys in if is_positive (compare x y) then y ∷ rest else x ∷ y ∷ ys

  unfoldable pub sort : List A → List A
  unfolding place
  sort [] = []
  sort (x ∷ xs) = place x (sort xs)

  place-perm : (x : A) (ys : List A) → Perm (place x ys) (x ∷ ys)
  unfolding place
  place-perm x [] = Perm.rfl
  place-perm x (y ∷ ys) = elim (Bool-cases (is_positive (compare x y))) [
    | inl h ↦ rw h (Perm.trans (Perm.cons y (place-perm x ys)) (Perm.swap x y ys))
    | inr h ↦ rw h Perm.rfl
  ]

  pub sort-perm : (xs : List A) → Perm (sort xs) xs
  unfolding sort
  sort-perm [] = Perm.rfl
  sort-perm (x ∷ xs) = Perm.trans (place-perm x (sort xs)) (Perm.cons x (sort-perm xs))

  length-place : (x : A) (ys : List A) → length (place x ys) ≡ suc (length ys)
  unfolding place
  length-place x [] = refl
  length-place x (y ∷ ys) = ground (arith, length-place x ys)

  pub length-sort : (xs : List A) → length (sort xs) ≡ length xs
  unfolding sort
  length-sort [] = refl
  length-sort (x ∷ xs) = omega (arith, length-place x (sort xs), length-sort xs)

module _ {A : Type 0} (rank : A → ℕ) where
  -- Every element ranks at most as high as those behind it.
  abbrev pub IsAscending : List A → Type 0
  IsAscending [] = Unit
  IsAscending (x ∷ xs) = All (λ y. rank x ≤ rank y) xs × IsAscending xs

  -- The comparison looks at the rank first.
  abbrev pub RanksFirst : (A → A → Sign) → Type 0
  RanksFirst compare =
      (x y : A)
      → ((is_positive (compare x y) ≡ true → rank y ≤ rank x)
          × (is_positive (compare x y) ≡ false → rank x ≤ rank y))

  All-place :
      (compare : A → A → Sign) (P : A → Type 0) (x : A) (ys : List A)
      → P x
      → All P ys
      → All P (place compare x ys)
  unfolding place
  All-place compare P x [] p h = (p, tt)
  All-place compare P x (y ∷ ys) p (q, h) = elim (Bool-cases (is_positive (compare x y))) [
    | inl e ↦ rw e (q, All-place compare P x ys p h)
    | inr e ↦ rw e (p, (q, h))
  ]

  place-IsAscending :
      (compare : A → A → Sign) (x : A) (ys : List A)
      → RanksFirst compare
      → IsAscending ys
      → IsAscending (place compare x ys)
  unfolding place
  place-IsAscending compare x [] h a = (tt, tt)
  place-IsAscending compare x (y ∷ ys) h (below, a) =
      elim (Bool-cases (is_positive (compare x y))) [
        | inl e ↦ rw e (
          All-place compare (λ z. rank y ≤ rank z) x ys ((h x y).0 e) below,
          place-IsAscending compare x ys h a,
        )
        | inr e ↦
            let le = (h x y).1 e in
            rw e ((le, All-imp (λ z m. omega (arith, le, m)) ys below), (below, a))
      ]

  pub sort-IsAscending :
      (compare : A → A → Sign) (xs : List A) → RanksFirst compare → IsAscending (sort compare xs)
  unfolding sort
  sort-IsAscending compare [] h = tt
  sort-IsAscending compare (x ∷ xs) h =
      place-IsAscending compare x (sort compare xs) h (sort-IsAscending compare xs h)

  All-drop : (P : A → Type 0) (n : ℕ) (xs : List A) → All P xs → All P (drop n xs)
  All-drop P zero xs h = h
  All-drop P (suc n) [] h = tt
  All-drop P (suc n) (x ∷ xs) (p, h) = All-drop P n xs h

  Nothing-drop : (n : ℕ) (x : A) → All (λ y. rank x ≤ rank y) (drop n [])
  Nothing-drop zero x = tt
  Nothing-drop (suc n) x = tt

  -- What is cut off an ascending list ranks at least as high as what is left.
  pub take-le-drop :
      (n : ℕ) (xs : List A)
      → IsAscending xs
      → All (λ x. All (λ y. rank x ≤ rank y) (drop n xs)) (take n xs)
  take-le-drop zero xs a = tt
  take-le-drop (suc n) [] a = tt
  take-le-drop (suc n) (x ∷ xs) (below, a) =
      (All-drop (λ y. rank x ≤ rank y) n xs below, take-le-drop n xs a)

  pub IsAscending-take : (n : ℕ) (xs : List A) → IsAscending xs → IsAscending (take n xs)
  IsAscending-take zero xs a = tt
  IsAscending-take (suc n) [] a = tt
  IsAscending-take (suc n) (x ∷ xs) (below, a) =
      (All-take (λ y. rank x ≤ rank y) n xs below, IsAscending-take n xs a)
