-- ===== src/Solicitudes/PublicCreation/Tries.antt =====
-- create-public-solicitud-without-upload.ts: the tries of the creation, over any client.
use godel_design.Prelude.{
  if◌then◌else◌, Bool, not, ◌&&◌, ◌||◌, sym, subst, ℕ, zero, suc, ◌<◌, true, false, ◌==◌, Option,
  ◌≡◌, ◌∙◌, ap, refl, arith, some, none, ◌↔◌, inl, inr, Bool-cases,
}
use godel_design.JsText.{Text}
use godel_design.JsUnicode.{Unicode}
use godel_design.Solicitudes.PublicRequest.{PublicData}
use godel_design.Solicitudes.PublicCreation.{
  DatabaseError, CreateAnswer, row, rejected, PublicClient, CreateResult, generic_create_error,
  is_public_reference_conflict, create_arguments, generate_public_reference, next_try, create_loop,
  created, failure, parse_created_solicitud, is_public_reference, success, failed,
}
use godel_design.Validators.Uuid.{is_valid_uuid}
use godel_design.Solicitudes.PublicCreation.References.{IsReference, is_public_reference_iff}

abbrev row_of : Text → Text → Option (Text × Text)
row_of id reference = some (id, reference)

pair_eq : (x y id reference : Text) → row_of x y ≡ row_of id reference → (x ≡ id) × (y ≡ reference)
pair_eq x y id reference e = ground arith

guard_iff :
    (p q : Bool) (x y id reference : Text)
    → ((if not p || not q then none else row_of x y) ≡ row_of id reference)
      ↔ ((x ≡ id) × (y ≡ reference) × (p ≡ true) × (q ≡ true))
guard_iff true true x y id reference = ground arith
guard_iff true false x y id reference = ground arith
guard_iff false q x y id reference = ground arith

-- The row that is read is the request, with an id and a reference that are well formed.
parse_iff :
    (r : Option (Text × Text)) (id reference : Text)
    → (parse_created_solicitud r ≡ some (id, reference))
      ↔ ((r ≡ some (id, reference)) × (is_valid_uuid id ≡ true) × IsReference reference)
unfolding parse_created_solicitud
parse_iff none id reference = ground arith
parse_iff (some (x, y)) id reference =
    let guarded = guard_iff (is_valid_uuid x) (is_public_reference y) x y id reference in
    (
      λ h.
          let (ex, ey, uuid, spelt) = guarded.0 h in
          (
            ground arith,
            subst (λ s. is_valid_uuid s ≡ true) ex uuid,
            subst IsReference ey ((is_public_reference_iff y).0 spelt),
          ),
      λ (e, uuid, spelt).
          let (ex, ey) = pair_eq x y id reference e in
          guarded.1 (
            ex,
            ey,
            subst (λ s. is_valid_uuid s ≡ true) (sym ex) uuid,
            (is_public_reference_iff y).1 (subst IsReference (sym ey) spelt),
          ),
    )

module _ (u : Unicode) {World : Type 0} (client : PublicClient World) (d : PublicData) where
  -- One try: a reference is drawn, and the request is sent.
  abbrev pub try_once : World → World × CreateAnswer
  try_once w =
      let (w1, reference) = generate_public_reference u client w in
      client.create_solicitud w1 (create_arguments d reference)

  abbrev pub after_tries : ℕ → World → World
  after_tries zero w = w
  after_tries (suc n) w = after_tries n (try_once w).0

  -- The answers to so many tries are conflicts of the reference.
  abbrev pub Conflicting : ℕ → World → Type 0
  Conflicting zero w = Unit
  Conflicting (suc n) w =
      ((e : DatabaseError) × ((try_once w).1 ≡ rejected e)
        × (is_public_reference_conflict u e ≡ true))
      × Conflicting n (try_once w).0

  loop_step :
      (left : ℕ) (w : World) (a : CreateAnswer)
      → (try_once w).1 ≡ a
      → create_loop u client (suc left) w d
        ≡ next_try u client left (try_once w).0 (create_loop u client left (try_once w).0 d) a
  unfolding create_loop
  loop_step left w a h =
      ap (next_try u client left (try_once w).0 (create_loop u client left (try_once w).0 d)) h

  conflict_retries :
      (left : ℕ) (w : World) (retry : World × CreateResult) (e : DatabaseError)
      → is_public_reference_conflict u e ≡ true
      → 0 < left
      → next_try u client left w retry (rejected e) ≡ retry
  unfolding next_try
  conflict_retries left w retry e c k =
      let some_left : (left == 0) ≡ false = ground arith in rw (some_left, c) refl

  loop_conflict :
      (left : ℕ) (w : World) (e : DatabaseError)
      → (try_once w).1 ≡ rejected e
      → is_public_reference_conflict u e ≡ true
      → 0 < left
      → create_loop u client (suc left) w d ≡ create_loop u client left (try_once w).0 d
  loop_conflict left w e h c k =
      loop_step left w (rejected e) h ∙ conflict_retries left (try_once w).0 _ e c k

  -- Behind conflicts, an answer with a row ends the tries.
  create_loop-row :
      (n tries : ℕ) (w : World) (r : Option (Text × Text))
      → n < tries
      → Conflicting n w
      → (try_once (after_tries n w)).1 ≡ row r
      → create_loop u client tries w d
        ≡ ((try_once (after_tries n w)).0, created u client (parse_created_solicitud r))
  unfolding next_try
  create_loop-row zero zero w r h c e = absurd (omega (arith, h))
  create_loop-row (suc n) zero w r h c e = absurd (omega (arith, h))
  create_loop-row zero (suc left) w r h c e = loop_step left w (row r) e
  create_loop-row (suc n) (suc left) w r h ((x, p, q), c) e =
      loop_conflict left w x p q (omega (arith, h))
      ∙ create_loop-row n left (try_once w).0 r (omega (arith, h)) c e

  -- A try that is answered with a well-formed request, after conflicts alone.
  abbrev pub IsRegistered : ℕ → World → World → (id reference : Text) → Type 0
  IsRegistered tries w end id reference =
      (n : ℕ) × (n < tries)
      × Conflicting n w
      × ((try_once (after_tries n w)).0 ≡ end)
      × ((try_once (after_tries n w)).1 ≡ row (some (id, reference)))
      × (is_valid_uuid id ≡ true)
      × IsReference reference

  registered :
      (tries : ℕ) (w end : World) (id reference : Text)
      → IsRegistered tries w end id reference
      → create_loop u client tries w d ≡ (end, success id reference)
  registered tries w end id reference (n, h, c, e, a, uuid, spelt) =
      create_loop-row n tries w (some (id, reference)) h c a
      ∙ rw (e, (parse_iff (some (id, reference)) id reference).1 (refl, uuid, spelt)) refl

  created_success :
      (r : Option (Text × Text)) (id reference : Text)
      → created u client r ≡ success id reference
      → r ≡ some (id, reference)
  created_success none id reference h = ground arith
  created_success (some (x, y)) id reference h = ground arith

  general_failure :
      (w end : World) (id reference : Text)
      → ◌≡◌ {A = World × CreateResult} (w, generic_create_error) (end, success id reference)
      → ⊥
  general_failure w end id reference h = ground arith

  -- What the answer to a try leads to.
  answered :
      (left : ℕ) (w end : World) (id reference : Text) (a : CreateAnswer)
      → (create_loop u client left (try_once w).0 d ≡ (end, success id reference)
          → IsRegistered left (try_once w).0 end id reference)
      → (try_once w).1 ≡ a
      → next_try u client left (try_once w).0 (create_loop u client left (try_once w).0 d) a
        ≡ (end, success id reference)
      → IsRegistered (suc left) w end id reference
  unfolding next_try
  answered left w end id reference (row r) later e h =
      let (same, uuid, spelt) =
        (parse_iff r id reference).0
          (created_success (parse_created_solicitud r) id reference (ap (λ p. p.1) h)) in
      (0, omega arith, tt, ap (λ p. p.0) h, e ∙ ap row same, uuid, spelt)
  answered left w end id reference (rejected x) later e h =
      elim (Bool-cases (not (left == 0) && is_public_reference_conflict u x)) [
        | inl again ↦
            let (n, less, c, ends, answers, uuid, spelt) = later (rw again at h) in
            (suc n, omega (arith, less), ((x, e, ground arith), c), ends, answers, uuid, spelt)
        | inr stops ↦ absurd (general_failure (try_once w).0 end id reference (rw stops at h))
      ]
  answered left w end id reference failed later e h = absurd (ground arith)

  succeeded :
      (tries : ℕ) (w end : World) (id reference : Text)
      → create_loop u client tries w d ≡ (end, success id reference)
      → IsRegistered tries w end id reference
  unfolding create_loop
  succeeded zero w end id reference h = absurd (ground arith)
  succeeded (suc left) w end id reference h =
      answered left w end id reference (try_once w).1
        (succeeded left (try_once w).0 end id reference) refl h

  -- A result that is not the general failure is a success.
  abbrev pub IsOutcome : CreateResult → Type 0
  IsOutcome (success id reference) = Unit
  IsOutcome (failure validation message errors) =
      failure validation message errors ≡ generic_create_error

  created-IsOutcome : (r : Option (Text × Text)) → IsOutcome (created u client r)
  created-IsOutcome none = refl
  created-IsOutcome (some (id, reference)) = tt

  next_try-IsOutcome :
      (left : ℕ) (w : World) (retry : World × CreateResult) (a : CreateAnswer)
      → IsOutcome retry.1
      → IsOutcome (next_try u client left w retry a).1
  unfolding next_try
  next_try-IsOutcome left w retry (row r) h = created-IsOutcome (parse_created_solicitud r)
  next_try-IsOutcome left w retry (rejected e) h =
      elim (Bool-cases (not (left == 0) && is_public_reference_conflict u e)) [
        | inl again ↦ rw again h
        | inr stops ↦ rw stops refl
      ]
  next_try-IsOutcome left w retry failed h = refl

  create_loop-IsOutcome : (tries : ℕ) (w : World) → IsOutcome (create_loop u client tries w d).1
  unfolding create_loop
  create_loop-IsOutcome zero w = refl
  create_loop-IsOutcome (suc left) w =
      next_try-IsOutcome left (try_once w).0 (create_loop u client left (try_once w).0 d)
        (try_once w).1 (create_loop-IsOutcome left (try_once w).0)

  -- The creation succeeds exactly where, within the allowed tries, a try whose reference is not taken
  -- comes after tries whose references are, and is answered with a row whose id passes the test of
  -- UUIDs and whose reference is `GD`, four capital letters or digits and four more, with dashes
  -- between; the result is that id and reference, and no try is made after. Every other result is
  -- the general failure.
  pub create_loop-success_iff :
      (tries : ℕ) (w end : World) (id reference : Text)
      → ((create_loop u client tries w d ≡ (end, success id reference))
          ↔ IsRegistered tries w end id reference)
        × IsOutcome (create_loop u client tries w d).1
  create_loop-success_iff tries w end id reference = (
    (succeeded tries w end id reference, registered tries w end id reference),
    create_loop-IsOutcome tries w,
  )

  -- Where the references of all the tries are taken, the creation makes all of them and fails.
  pub create_loop-exhausted :
      (left : ℕ) (w : World)
      → Conflicting (suc left) w
      → create_loop u client (suc left) w d ≡ (after_tries (suc left) w, generic_create_error)
  unfolding next_try
  create_loop-exhausted zero w ((x, p, q), c) = loop_step zero w (rejected x) p
  create_loop-exhausted (suc left) w ((x, p, q), c) =
      loop_conflict (suc left) w x p q (omega arith) ∙ create_loop-exhausted left (try_once w).0 c
