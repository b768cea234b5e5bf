-- ===== src/Tests/Files.antt =====
-- Safe names and the descriptors of uploads.
use godel_design.Prelude.{◌↔◌, ◌≤◌, [], ◌∷◌, map, false, length, some, none, ◌≡◌, refl}
use godel_design.JsNumber.{finite}
use godel_design.JsText.{codes, is_digit, text_eq}
use godel_design.JsUnicode.{Unicode, ascii_lower}
use godel_design.Storage.FileName.{sanitize_file_name, get_file_extension}
use godel_design.Storage.FileName.Shape.{IsSafeName, sanitize_file_name-IsSafeName}
use godel_design.Storage.Descriptors.{
  UploadCandidate, Descriptor, mime, inherited, mime_of_extension, describe_as,
  build_upload_reservation_descriptors,
}
use godel_design.Storage.Descriptors.Sound.{DescribesAll, build-DescribesAll_iff}

-- Case mapping and normalisation that only know ASCII.
abbrev pub ascii : Unicode
ascii = record {
  to_lower_case = λ s. map ascii_lower s;
  normalize_nfd = λ s. s;
  to_lower_case_ascii = λ s h. refl;
}

sanitized :
    sanitize_file_name ascii (codes " Mi Plano FINAL (v2).PDF") ≡ codes "mi-plano-final-v2.pdf"
unfolding sanitize_file_name is_digit
sanitized = refl

sanitized_empty : sanitize_file_name ascii (codes "...") ≡ codes "archivo"
unfolding sanitize_file_name is_digit
sanitized_empty = refl

sanitize_file_name-IsSafeName_example :
    IsSafeName (sanitize_file_name ascii (codes " Mi Plano FINAL (v2).PDF"))
sanitize_file_name-IsSafeName_example =
    sanitize_file_name-IsSafeName ascii (codes " Mi Plano FINAL (v2).PDF")

abbrev plan : UploadCandidate
plan = record { name = codes "plano.pdf"; size = finite false 1024 false }

abbrev plan_descriptor : Descriptor
plan_descriptor = record {
  original_name = codes "plano.pdf";
  safe_name = codes "plano.pdf";
  normalized_mime = mime (codes "application/pdf");
  expected_size = finite false 1024 false;
}

plan_described :
    build_upload_reservation_descriptors ascii (plan ∷ []) ≡ some (plan_descriptor ∷ [])
unfolding build_upload_reservation_descriptors sanitize_file_name describe_as text_eq
plan_described = refl

build-DescribesAll_iff_example :
    (build_upload_reservation_descriptors ascii (plan ∷ []) ≡ some (plan_descriptor ∷ [])) ↔ (
      (1 ≤ length (plan ∷ []))
      × (length (plan ∷ []) ≤ 10)
      × DescribesAll ascii (plan ∷ []) (plan_descriptor ∷ []))
build-DescribesAll_iff_example = build-DescribesAll_iff ascii (plan ∷ []) (plan_descriptor ∷ [])

-- The table inherits `constructor`, so that this extension has what stands for a media type.
inherited_extension :
    mime_of_extension (get_file_extension ascii (codes "a.constructor"))
    ≡ some (inherited (codes "constructor"))
unfolding mime_of_extension get_file_extension text_eq
inherited_extension = refl

empty_refused : build_upload_reservation_descriptors ascii [] ≡ none
unfolding build_upload_reservation_descriptors
empty_refused = refl
