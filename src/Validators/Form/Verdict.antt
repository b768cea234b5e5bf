-- ===== src/Validators/Form/Verdict.antt =====
-- Lemmas on lists of errors: when they are empty, and what the result of a validation tells.
use godel_design.Prelude.{List, [], ◌∷◌, ◌++◌, if◌then◌else◌, ◌≡◌, ◌↔◌, refl, ap, arith}
use godel_design.Validators.Form.{success, failure, has_field_errors}

module _ {ℓ} {E : Type ℓ} where
  pub append_nil_iff : (xs ys : List E) → ((xs ++ ys) ≡ []) ↔ ((xs ≡ []) × (ys ≡ []))
  append_nil_iff [] ys = (λ h. (refl, h), λ h. h.1)
  append_nil_iff (x ∷ xs) ys = ground arith

  -- A validation accepts `d` where there are no errors and `d` is what was built.
  pub verdict_iff {κ} :
      {D : Type κ} (errors : List E) (t d : D)
      → ((if has_field_errors errors then failure errors else success t) ≡ success d)
        ↔ ((errors ≡ []) × (t ≡ d))
  verdict_iff [] t d = (λ h. (refl, ground arith), λ h. ap success h.1)
  verdict_iff (x ∷ xs) t d = ground arith

  pub append_iff :
      {P Q : Type 0} (xs ys : List E)
      → ((xs ≡ []) ↔ P)
      → ((ys ≡ []) ↔ Q)
      → ((xs ++ ys) ≡ []) ↔ (P × Q)
  append_iff xs ys p q =
      let both = append_nil_iff xs ys in
      (λ h. (p.0 (both.0 h).0, q.0 (both.0 h).1), λ h. both.1 (p.1 h.0, q.1 h.1))

  -- Four parts of a list of errors.
  pub four_iff :
      {P Q R S : Type 0} (a b c d : List E)
      → ((a ≡ []) ↔ P)
      → ((b ≡ []) ↔ Q)
      → ((c ≡ []) ↔ R)
      → ((d ≡ []) ↔ S)
      → ((a ++ b ++ c ++ d) ≡ []) ↔ (P × Q × R × S)
  four_iff a b c d p q r s =
      let all = append_iff (a ++ b ++ c) d (append_iff (a ++ b) c (append_iff a b p q) r) s in
      (λ h. let (((x, y), z), w) = all.0 h in (x, y, z, w), λ (x, y, z, w). all.1 (((x, y), z), w))
