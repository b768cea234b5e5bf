-- ===== src/Solicitudes/PublicCreation/References.antt =====
-- public-reference.ts: what is drawn is a reference as create-public-solicitud-without-upload.ts
-- reads it.
use godel_design.Prelude.{
  ℕ, zero, suc, ◌<◌, [], ◌∷◌, ◌++◌, Bool, true, all, length, take, drop, ◌≡◌, refl, arith,
  length-append, ◌==◌, ◌&&◌, ◌≤◌, ◌⊎◌, ◌↔◌,
}
use godel_design.JsText.{Text, codes, text_eq, starts_with}
use godel_design.JsUnicode.{Unicode}
use godel_design.Solicitudes.PublicCreation.{
  PublicClient, char_at, public_reference_alphabet, is_reference_unit, is_public_reference,
  draw_token, generate_public_reference,
}

-- A capital letter or a digit.
abbrev pub IsUnit : ℕ → Type 0
IsUnit c = ((b'A' ≤ c) × (c ≤ b'Z')) ⊎ ((b'0' ≤ c) × (c ≤ b'9'))

-- `GD`, four units and four more, with dashes between.
abbrev pub IsReference : Text → Type 0
IsReference (a ∷ b ∷ c ∷ d ∷ e ∷ f ∷ g ∷ h ∷ i ∷ j ∷ k ∷ l ∷ []) =
    ((a ≡ b'G') × (b ≡ b'D') × (c ≡ b'-'))
    × (IsUnit d × IsUnit e × IsUnit f × IsUnit g)
    × (h ≡ b'-')
    × (IsUnit i × IsUnit j × IsUnit k × IsUnit l)
IsReference _ = ⊥

not_twelve : (n : ℕ) → 12 < n → (n == 12) ≡ true → ⊥
not_twelve n k h = ground arith

all_true_iff :
    (p q r s t : Bool)
    → ((p && q && r && s && t) ≡ true)
      ↔ ((p ≡ true) × (q ≡ true) × (r ≡ true) × (s ≡ true) × (t ≡ true))
all_true_iff p q r s t = ground arith

and_iff : (p q : Bool) → ((p && q) ≡ true) ↔ ((p ≡ true) × (q ≡ true))
and_iff p q = ground arith

IsUnit-iff : (c : ℕ) → (is_reference_unit c ≡ true) ↔ IsUnit c
IsUnit-iff c = ground arith

units_iff :
    (a b c d : ℕ)
    → (all is_reference_unit (a ∷ b ∷ c ∷ d ∷ []) ≡ true)
      ↔ (IsUnit a × IsUnit b × IsUnit c × IsUnit d)
units_iff a b c d =
    let p = is_reference_unit in
    let parts = and_iff (p a) (p b && (p c && (p d && true))) in
    let last = and_iff (p c) (p d && true) in
    (
      λ h.
          let (ha, hb) = parts.0 h in
          let (hb, hc) = (and_iff (p b) (p c && (p d && true))).0 hb in
          let (hc, hd) = last.0 hc in
          (
            (IsUnit-iff a).0 ha,
            (IsUnit-iff b).0 hb,
            (IsUnit-iff c).0 hc,
            (IsUnit-iff d).0 ((and_iff (p d) true).0 hd).0,
          ),
      λ (ha, hb, hc, hd). parts.1 (
        (IsUnit-iff a).1 ha,
        (and_iff (p b) (p c && (p d && true))).1 (
          (IsUnit-iff b).1 hb,
          last.1 ((IsUnit-iff c).1 hc, (and_iff (p d) true).1 ((IsUnit-iff d).1 hd, refl)),
        ),
      ),
    )

prefix_iff :
    (a b c : ℕ) (s : Text)
    → (starts_with (codes "GD-") (a ∷ b ∷ c ∷ s) ≡ true) ↔ ((a ≡ b'G') × (b ≡ b'D') × (c ≡ b'-'))
unfolding starts_with
prefix_iff a b c s = ground arith

dash_iff : (c : ℕ) → (text_eq (c ∷ []) (codes "-") ≡ true) ↔ (c ≡ b'-')
unfolding text_eq
dash_iff c = ground arith

pub is_public_reference_iff : (s : Text) → (is_public_reference s ≡ true) ↔ IsReference s
unfolding is_public_reference starts_with text_eq
is_public_reference_iff [] = ground arith
is_public_reference_iff (a ∷ []) = ground arith
is_public_reference_iff (a ∷ b ∷ []) = ground arith
is_public_reference_iff (a ∷ b ∷ c ∷ []) = ground arith
is_public_reference_iff (a ∷ b ∷ c ∷ d ∷ []) = ground arith
is_public_reference_iff (a ∷ b ∷ c ∷ d ∷ e ∷ []) = ground arith
is_public_reference_iff (a ∷ b ∷ c ∷ d ∷ e ∷ f ∷ []) = ground arith
is_public_reference_iff (a ∷ b ∷ c ∷ d ∷ e ∷ f ∷ g ∷ []) = ground arith
is_public_reference_iff (a ∷ b ∷ c ∷ d ∷ e ∷ f ∷ g ∷ h ∷ []) = ground arith
is_public_reference_iff (a ∷ b ∷ c ∷ d ∷ e ∷ f ∷ g ∷ h ∷ i ∷ []) = ground arith
is_public_reference_iff (a ∷ b ∷ c ∷ d ∷ e ∷ f ∷ g ∷ h ∷ i ∷ j ∷ []) = ground arith
is_public_reference_iff (a ∷ b ∷ c ∷ d ∷ e ∷ f ∷ g ∷ h ∷ i ∷ j ∷ k ∷ []) = ground arith
is_public_reference_iff (a ∷ b ∷ c ∷ d ∷ e ∷ f ∷ g ∷ h ∷ i ∷ j ∷ k ∷ l ∷ []) =
    let rest = d ∷ e ∷ f ∷ g ∷ h ∷ i ∷ j ∷ k ∷ l ∷ [] in
    let parts =
      all_true_iff (starts_with (codes "GD-") (a ∷ b ∷ c ∷ rest)) true
        (all is_reference_unit (d ∷ e ∷ f ∷ g ∷ [])) (text_eq (h ∷ []) (codes "-"))
        (all is_reference_unit (i ∷ j ∷ k ∷ l ∷ [])) in
    (
      λ t.
          let (start, _, four, middle, last) = parts.0 t in
          (
            (prefix_iff a b c rest).0 start,
            (units_iff d e f g).0 four,
            (dash_iff h).0 middle,
            (units_iff i j k l).0 last,
          ),
      λ (start, four, middle, last). parts.1 (
        (prefix_iff a b c rest).1 start,
        refl,
        (units_iff d e f g).1 four,
        (dash_iff h).1 middle,
        (units_iff i j k l).1 last,
      ),
    )
is_public_reference_iff (a ∷ b ∷ c ∷ d ∷ e ∷ f ∷ g ∷ h ∷ i ∷ j ∷ k ∷ l ∷ m ∷ s) =
    let long = a ∷ b ∷ c ∷ d ∷ e ∷ f ∷ g ∷ h ∷ i ∷ j ∷ k ∷ l ∷ m ∷ s in
    let parts =
      all_true_iff (starts_with (codes "GD-") long) (length long == 12)
        (all is_reference_unit (take 4 (drop 3 long))) (text_eq (char_at 7 long) (codes "-"))
        (all is_reference_unit (drop 8 long)) in
    (λ t. absurd (not_twelve (length long) (omega arith) (parts.0 t).1), λ h. absurd h)

-- One unit of a text, all of whose units pass a test.
char_at-all :
    (p : ℕ → Bool) (s : Text) (n : ℕ)
    → all p s ≡ true
    → n < length s
    → (length (char_at n s) ≡ 1) × (all p (char_at n s) ≡ true)
char_at-all p [] n h k = absurd (omega (arith, k))
char_at-all p (c ∷ s) zero h k = (refl, ground arith)
char_at-all p (c ∷ s) (suc n) h k =
    let rest : all p s ≡ true = ground arith in char_at-all p s n rest (omega (arith, k))

all-append : (p : ℕ → Bool) (s t : Text) → all p s ≡ true → all p t ≡ true → all p (s ++ t) ≡ true
all-append p [] t h k = k
all-append p (c ∷ s) t h k =
    let rest : all p s ≡ true = ground arith in ground (arith, all-append p s t rest k)

all_alphabet : all is_reference_unit public_reference_alphabet ≡ true
all_alphabet = refl

-- Eight units make a reference.
joined-is_public_reference :
    (t : Text)
    → length t ≡ 8
    → all is_reference_unit t ≡ true
    → is_public_reference (codes "GD-" ++ take 4 t ++ codes "-" ++ take 4 (drop 4 t)) ≡ true
unfolding is_public_reference starts_with text_eq
joined-is_public_reference (a ∷ b ∷ c ∷ d ∷ e ∷ f ∷ g ∷ h ∷ []) l k = ground arith
joined-is_public_reference [] l k = absurd (omega (arith, l))
joined-is_public_reference (a ∷ []) l k = absurd (omega (arith, l))
joined-is_public_reference (a ∷ b ∷ []) l k = absurd (omega (arith, l))
joined-is_public_reference (a ∷ b ∷ c ∷ []) l k = absurd (omega (arith, l))
joined-is_public_reference (a ∷ b ∷ c ∷ d ∷ []) l k = absurd (omega (arith, l))
joined-is_public_reference (a ∷ b ∷ c ∷ d ∷ e ∷ []) l k = absurd (omega (arith, l))
joined-is_public_reference (a ∷ b ∷ c ∷ d ∷ e ∷ f ∷ []) l k = absurd (omega (arith, l))
joined-is_public_reference (a ∷ b ∷ c ∷ d ∷ e ∷ f ∷ g ∷ []) l k = absurd (omega (arith, l))
joined-is_public_reference (a ∷ b ∷ c ∷ d ∷ e ∷ f ∷ g ∷ h ∷ i ∷ r) l k = absurd (omega (arith, l))

module _ (u : Unicode) {World : Type 0} (client : PublicClient World)
    (bounded : (w : World) → (client.random_int w).1 < 36) where
  draw_token-units :
      (n : ℕ) (w : World)
      → (length (draw_token u client n w).1 ≡ n)
        × (all is_reference_unit (draw_token u client n w).1 ≡ true)
  unfolding draw_token
  draw_token-units zero w = (refl, refl)
  draw_token-units (suc n) w =
      let index = (client.random_int w).1 in
      let w1 = (client.random_int w).0 in
      let (one, unit) =
        char_at-all is_reference_unit public_reference_alphabet index all_alphabet (bounded w) in
      let (rest, units) = draw_token-units n w1 in
      let token = (draw_token u client n w1).1 in
      (
        omega (arith, length-append (char_at index public_reference_alphabet) token, one, rest),
        all-append is_reference_unit (char_at index public_reference_alphabet) token unit units,
      )

  -- What is drawn, of random numbers below 36, is read back as a reference.
  pub generate_public_reference-is_public_reference :
      (w : World) → is_public_reference (generate_public_reference u client w).1 ≡ true
  unfolding generate_public_reference
  generate_public_reference-is_public_reference w =
      let (eight, units) = draw_token-units 8 w in
      joined-is_public_reference (draw_token u client 8 w).1 eight units
