-- ===== src/Storage/Descriptors/Sound.antt =====
-- descriptors.ts: an upload is described whole or refused.
use godel_design.Prelude.{
  ℕ, ◌≤◌, List, [], ◌∷◌, true, false, any, length, some, All, ◌≡◌, ◌≢◌, ◌↔◌, refl, sym, arith, inl,
  inr, ap, Option-cases,
}
use godel_design.JsNumber.{Number, finite, infinite, nan}
use godel_design.JsText.{Text, trim}
use godel_design.JsUnicode.{Unicode}
use godel_design.Storage.FileName.{get_file_extension, sanitize_file_name}
use godel_design.Storage.FileName.Shape.{IsSafeName, sanitize_file_name-IsSafeName}
use godel_design.Storage.Descriptors.{
  UploadCandidate, Descriptor, Mime, is_original_name_valid, is_size_valid, mime_of_extension,
  describe, describe_as, describe_all, build_upload_reservation_descriptors, is_forbidden,
}
use godel_design.Storage.Descriptors.Media.{IsMimeOf, mime_of_extension_iff}

-- No control character, and neither of the slashes.
abbrev pub IsNameUnit : ℕ → Type 0
IsNameUnit c = (0x20 ≤ c) × (c ≢ 0x7f) × (c ≢ b'/') × (c ≢ b'\\')

-- A name of at most 255 units that is not blank.
abbrev pub IsOriginalName : Text → Type 0
IsOriginalName name = (1 ≤ length (trim name)) × (length name ≤ 255) × All IsNameUnit name

IsNameUnit-iff : (c : ℕ) → (is_forbidden c ≡ false) ↔ IsNameUnit c
IsNameUnit-iff c = ground arith

units_iff : (s : Text) → (any is_forbidden s ≡ false) ↔ All IsNameUnit s
units_iff [] = ground arith
units_iff (c ∷ s) = ground (arith, IsNameUnit-iff c, units_iff s)

IsOriginalName-iff : (name : Text) → (is_original_name_valid name ≡ true) ↔ IsOriginalName name
unfolding is_original_name_valid
IsOriginalName-iff name = ground (arith, units_iff name)

-- A whole number of bytes from 1 to 20 MB.
abbrev pub IsSize : Number → Type 0
IsSize (finite false n false) = (1 ≤ n) × (n ≤ 20971520)
IsSize _ = ⊥

IsSize-iff : (size : Number) → (is_size_valid size ≡ true) ↔ IsSize size
unfolding is_size_valid
IsSize-iff nan = ground arith
IsSize-iff (infinite negative) = ground arith
IsSize-iff (finite false n false) = ground arith
IsSize-iff (finite true n fraction) = ground arith
IsSize-iff (finite false n true) = ground arith

from_parts :
    (d : Descriptor) (name safe : Text) (size : Number)
    → d.original_name ≡ name
    → d.safe_name ≡ safe
    → d.expected_size ≡ size
    → ◌≡◌ {A = Descriptor}
        (record {
          original_name = name;
          safe_name = safe;
          normalized_mime = d.normalized_mime;
          expected_size = size;
        })
        d
from_parts d name safe size n s z = rw (sym n, sym s, sym z) refl

module _ (u : Unicode) where
  -- What is accepted of a candidate, and what its descriptor is.
  pub record Describes (c : UploadCandidate) (d : Descriptor) : Type 0 where
    pub name_valid : IsOriginalName c.name
    pub size_valid : IsSize c.size
    pub media : IsMimeOf (get_file_extension u c.name) d.normalized_mime
    pub same_name : d.original_name ≡ c.name
    pub same_size : d.expected_size ≡ c.size
    pub safe_name : d.safe_name ≡ sanitize_file_name u c.name
    pub safe : IsSafeName d.safe_name

  abbrev pub DescribesAll : List UploadCandidate → List Descriptor → Type 0
  DescribesAll [] [] = Unit
  DescribesAll (c ∷ cs) (d ∷ ds) = Describes c d × DescribesAll cs ds
  DescribesAll _ _ = ⊥

  describe_guards :
      (c : UploadCandidate) (d : Descriptor)
      → describe u c ≡ some d
      → (is_original_name_valid c.name ≡ true)
        × (is_size_valid c.size ≡ true)
        × ((m : Mime) × (mime_of_extension (get_file_extension u c.name) ≡ some m)
            × (d ≡ describe_as u c m))
  unfolding describe
  describe_guards c d h = elim (Option-cases (mime_of_extension (get_file_extension u c.name))) [
    | inl e ↦ absurd (ground arith)
    | inr (m, e) ↦ (ground arith, ground arith, (m, e, ground arith))
  ]

  describe-Describes :
      (c : UploadCandidate) (d : Descriptor) → describe u c ≡ some d → Describes c d
  unfolding describe_as
  describe-Describes c d h =
      let (name, size, (m, e, same)) = describe_guards c d h in
      record {
        name_valid = (IsOriginalName-iff c.name).0 name;
        size_valid = (IsSize-iff c.size).0 size;
        media =
            (mime_of_extension_iff (get_file_extension u c.name) d.normalized_mime).0 (rw same e);
        same_name = rw same refl;
        same_size = rw same refl;
        safe_name = rw same refl;
        safe = rw same (sanitize_file_name-IsSafeName u c.name);
      }

  Describes-describe :
      (c : UploadCandidate) (d : Descriptor) → Describes c d → describe u c ≡ some d
  unfolding describe describe_as
  Describes-describe c d h =
      let same : describe_as u c d.normalized_mime ≡ d =
        from_parts d c.name (sanitize_file_name u c.name) c.size h.same_name h.safe_name
          h.same_size in
      rw
        (
          (IsOriginalName-iff c.name).1 h.name_valid,
          (IsSize-iff c.size).1 h.size_valid,
          (mime_of_extension_iff (get_file_extension u c.name) d.normalized_mime).1 h.media,
        )
        (ap some same)

  describe_all-DescribesAll :
      (cs : List UploadCandidate) (ds : List Descriptor)
      → describe_all u cs ≡ some ds
      → DescribesAll cs ds
  unfolding describe_all
  describe_all-DescribesAll [] [] h = tt
  describe_all-DescribesAll [] (d ∷ ds) h = absurd (ground arith)
  describe_all-DescribesAll (c ∷ cs) ds h = elim (Option-cases (describe u c)) [
    | inl e ↦ absurd (ground arith)
    | inr (d, e) ↦ elim (Option-cases (describe_all u cs)) [
      | inl f ↦ absurd (ground arith)
      | inr (rest, f) ↦
          let same : ds ≡ d ∷ rest = ground arith in
          rw same (describe-Describes c d e, describe_all-DescribesAll cs rest f)
    ]
  ]

  DescribesAll-describe_all :
      (cs : List UploadCandidate) (ds : List Descriptor)
      → DescribesAll cs ds
      → describe_all u cs ≡ some ds
  unfolding describe_all
  DescribesAll-describe_all [] [] h = refl
  DescribesAll-describe_all [] (d ∷ ds) h = absurd h
  DescribesAll-describe_all (c ∷ cs) [] h = absurd h
  DescribesAll-describe_all (c ∷ cs) (d ∷ ds) (h, k) =
      rw (describe_all, Describes-describe c d h, DescribesAll-describe_all cs ds k) refl

  -- A list is described exactly where it has one to ten candidates, each with a name of at most 255
  -- units that is not blank and has neither slash nor control character, a whole size of 1 to
  -- 20971520 bytes, and an extension of the list of kinds, or a name that every object inherits.
  -- Then each has its descriptor in its place: its name and size, the media type of its extension or
  -- what is inherited, and its name made safe, of the shape that is stored.
  pub build-DescribesAll_iff :
      (cs : List UploadCandidate) (ds : List Descriptor)
      → (build_upload_reservation_descriptors u cs ≡ some ds)
        ↔ ((1 ≤ length cs) × (length cs ≤ 10) × DescribesAll cs ds)
  unfolding build_upload_reservation_descriptors
  build-DescribesAll_iff cs ds = (
    λ h. (ground arith, ground arith, describe_all-DescribesAll cs ds (ground arith)),
    λ (some_file, few, h). let e = DescribesAll-describe_all cs ds h in ground arith,
  )
