-- ===== src/Storage/Descriptors.antt =====
-- src/lib/storage/upload-control/descriptors.ts and the constants of src/lib/storage/constants.ts:
-- what the browser says of the files of an upload, turned into the descriptors that are reserved.
pub mod Media
pub mod Sound
use godel_design.Prelude.{
  ℕ, zero, suc, ◌+◌, ◌*◌, ◌≤◌, ◌<◌, List, [], ◌∷◌, Bool, true, false, not, ◌&&◌, ◌||◌, ltb, leb,
  ◌==◌, if◌then◌else◌, is_empty, any, length, Option, some, none,
}
use godel_design.JsText.{Text, codes, trim, text_eq}
use godel_design.JsNumber.{Number, finite, infinite, nan}
use godel_design.JsUnicode.{Unicode}
use godel_design.Storage.FileName.{get_file_extension, sanitize_file_name}

abbrev pub max_storage_file_size_bytes : ℕ
max_storage_file_size_bytes = 20 * 1024 * 1024

abbrev pub max_upload_session_items : ℕ
max_upload_session_items = 10

abbrev pub ppo03_mime_by_extension : List (Text × Text)
ppo03_mime_by_extension =
    (codes "pdf", codes "application/pdf")
    ∷ (codes "jpg", codes "image/jpeg")
    ∷ (codes "jpeg", codes "image/jpeg")
    ∷ (codes "png", codes "image/png")
    ∷ (codes "webp", codes "image/webp")
    ∷ (codes "doc", codes "application/msword")
    ∷ (
      codes "docx",
      codes "application/vnd.openxmlformats-officedocument.wordprocessingml.document",
    )
    ∷ (codes "zip", codes "application/zip")
    ∷ (codes "rar", codes "application/vnd.rar")
    ∷ (codes "cdr", codes "application/vnd.corel-draw")
    ∷ []

-- The names that every plain object inherits from `Object.prototype`.
abbrev object_prototype_names : List Text
object_prototype_names =
    codes "constructor"
    ∷ codes "__proto__"
    ∷ codes "__defineGetter__"
    ∷ codes "__defineSetter__"
    ∷ codes "__lookupGetter__"
    ∷ codes "__lookupSetter__"
    ∷ codes "hasOwnProperty"
    ∷ codes "isPrototypeOf"
    ∷ codes "propertyIsEnumerable"
    ∷ codes "toLocaleString"
    ∷ codes "toString"
    ∷ codes "valueOf"
    ∷ []

-- What `PPO03_MIME_BY_EXTENSION[extension]` can be where it is truthy: a text of the table, or the
-- function or object that the table inherits under that name.
pub data Mime : Type 0 where
  mime : Text → Mime
  inherited : Text → Mime

own_mime : Text → List (Text × Text) → Option Text
own_mime extension [] = none
own_mime extension ((e, m) ∷ rest) =
    let later = own_mime extension rest in if text_eq extension e then some m else later

unfoldable pub mime_of_extension : Text → Option Mime
unfolding own_mime
mime_of_extension extension = elim (own_mime extension ppo03_mime_by_extension) [
  | some m ↦ some (mime m)
  | none ↦
      if any (text_eq extension) object_prototype_names then some (inherited extension) else none
]

pub record UploadCandidate : Type 0 where
  pub name : Text
  pub size : Number

pub record Descriptor : Type 0 where
  pub original_name : Text
  pub safe_name : Text
  pub normalized_mime : Mime
  pub expected_size : Number

abbrev pub is_forbidden : ℕ → Bool
is_forbidden c = c == b'\\' || c == b'/' || leb c 0x1f || c == 0x7f

unfoldable pub is_original_name_valid : Text → Bool
unfolding trim
is_original_name_valid name =
    ltb 0 (length (trim name)) && leb (length name) 255 && not (any is_forbidden name)

-- `Number.isInteger(size) && size > 0 && size <= MAX_STORAGE_FILE_SIZE_BYTES`.
unfoldable pub is_size_valid : Number → Bool
is_size_valid nan = false
is_size_valid (infinite negative) = false
is_size_valid (finite negative whole fraction) =
    not fraction && not negative && ltb 0 whole && leb whole max_storage_file_size_bytes

module _ (u : Unicode) where
  unfoldable pub describe_as : UploadCandidate → Mime → Descriptor
  unfolding sanitize_file_name
  describe_as candidate m = record {
    original_name = candidate.name;
    safe_name = sanitize_file_name u candidate.name;
    normalized_mime = m;
    expected_size = candidate.size;
  }

  -- One round of the loop; `none` is the failure "invalid_candidates".
  unfoldable pub describe : UploadCandidate → Option Descriptor
  unfolding is_original_name_valid is_size_valid get_file_extension mime_of_extension
  describe candidate =
      if not (is_original_name_valid candidate.name) || not (is_size_valid candidate.size)
      then none
      else elim (mime_of_extension (get_file_extension u candidate.name)) [
        | none ↦ none
        | some m ↦ some (describe_as candidate m)
      ]

  unfoldable pub describe_all : List UploadCandidate → Option (List Descriptor)
  unfolding describe
  describe_all [] = some []
  describe_all (candidate ∷ rest) = elim (describe candidate) [
    | none ↦ none
    | some d ↦ elim (describe_all rest) [ none ↦ none | some ds ↦ some (d ∷ ds) ]
  ]

  unfoldable pub build_upload_reservation_descriptors :
      List UploadCandidate → Option (List Descriptor)
  unfolding describe_all
  build_upload_reservation_descriptors candidates =
      if ltb (length candidates) 1 || ltb max_upload_session_items (length candidates)
      then none
      else describe_all candidates
