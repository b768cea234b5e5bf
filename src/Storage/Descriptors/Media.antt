-- ===== src/Storage/Descriptors/Media.antt =====
-- descriptors.ts and constants.ts: the table of media types against a list of the kinds of file.
use godel_design.Prelude.{
  List, [], ◌∷◌, any, some, All, true, ◌≡◌, ◌↔◌, refl, sym, subst, ◌∙◌, ap, inl, inr, arith,
  Bool-cases, Option-cases,
}
use godel_design.JsText.{Text, codes, text_eq, text_eq_sound}
use godel_design.Storage.Descriptors.{
  Mime, mime, inherited, mime_of_extension, own_mime, ppo03_mime_by_extension,
  object_prototype_names,
}

-- The kinds of file that are meant to be taken, each extension with its media type.
pub data IsMedia : (extension media : Text) → Type 0 where
  pdf : IsMedia (codes "pdf") (codes "application/pdf")
  jpg : IsMedia (codes "jpg") (codes "image/jpeg")
  jpeg : IsMedia (codes "jpeg") (codes "image/jpeg")
  png : IsMedia (codes "png") (codes "image/png")
  webp : IsMedia (codes "webp") (codes "image/webp")
  doc : IsMedia (codes "doc") (codes "application/msword")
  docx :
      IsMedia
        (codes "docx")
        (codes "application/vnd.openxmlformats-officedocument.wordprocessingml.document")
  zip : IsMedia (codes "zip") (codes "application/zip")
  rar : IsMedia (codes "rar") (codes "application/vnd.rar")
  cdr : IsMedia (codes "cdr") (codes "application/vnd.corel-draw")

-- The names that every object of JavaScript has from `Object.prototype`.
pub data IsInherited : Text → Type 0 where
  constructor_name : IsInherited (codes "constructor")
  proto : IsInherited (codes "__proto__")
  define_getter : IsInherited (codes "__defineGetter__")
  define_setter : IsInherited (codes "__defineSetter__")
  lookup_getter : IsInherited (codes "__lookupGetter__")
  lookup_setter : IsInherited (codes "__lookupSetter__")
  has_own_property : IsInherited (codes "hasOwnProperty")
  is_prototype_of : IsInherited (codes "isPrototypeOf")
  property_is_enumerable : IsInherited (codes "propertyIsEnumerable")
  to_locale_string : IsInherited (codes "toLocaleString")
  to_string : IsInherited (codes "toString")
  value_of : IsInherited (codes "valueOf")

-- What stands for the media type of an extension: the media type, or, under an inherited name, what
-- the table inherits.
abbrev pub IsMimeOf : Text → Mime → Type 0
IsMimeOf extension (mime media) = IsMedia extension media
IsMimeOf extension (inherited name) = (name ≡ extension) × IsInherited extension

IsMedia-found :
    (extension media : Text)
    → IsMedia extension media
    → mime_of_extension extension ≡ some (mime media)
unfolding mime_of_extension text_eq
IsMedia-found _ _ pdf = refl
IsMedia-found _ _ _ = refl

IsInherited-found :
    (name : Text) → IsInherited name → mime_of_extension name ≡ some (inherited name)
unfolding mime_of_extension text_eq
IsInherited-found _ constructor_name = refl
IsInherited-found _ _ = refl

own_mime-sound :
    (P : Text → Text → Type 0) (table : List (Text × Text)) (extension media : Text)
    → All (λ row. P row.0 row.1) table
    → own_mime extension table ≡ some media
    → P extension media
unfolding own_mime
own_mime-sound P [] extension media h e = absurd (ground arith)
own_mime-sound P ((x, m) ∷ table) extension media (p, h) e =
    elim (Bool-cases (text_eq extension x)) [
      | inl found ↦
          let same : m ≡ media = ground arith in
          subst (P extension) same (subst (λ y. P y m) (sym (text_eq_sound extension x found)) p)
      | inr other ↦ own_mime-sound P table extension media h (rw other at e)
    ]

any_name :
    (P : Text → Type 0) (names : List Text) (name : Text)
    → All P names
    → any (text_eq name) names ≡ true
    → P name
any_name P [] name h e = absurd (ground arith)
any_name P (x ∷ names) name (p, h) e = elim (Bool-cases (text_eq name x)) [
  | inl found ↦ subst P (sym (text_eq_sound name x found)) p
  | inr other ↦ any_name P names name h (rw other at e)
]

table-IsMedia : All (λ row. IsMedia row.0 row.1) ppo03_mime_by_extension
table-IsMedia = (pdf, (jpg, (jpeg, (png, (webp, (doc, (docx, (zip, (rar, (cdr, tt))))))))))

names-IsInherited : All IsInherited object_prototype_names
names-IsInherited = (
  constructor_name,
  (
    proto,
    (
      define_getter,
      (
        define_setter,
        (
          lookup_getter,
          (
            lookup_setter,
            (
              has_own_property,
              (
                is_prototype_of,
                (property_is_enumerable, (to_locale_string, (to_string, (value_of, tt)))),
              ),
            ),
          ),
        ),
      ),
    ),
  ),
)

found-IsMimeOf :
    (extension : Text) (m : Mime) → mime_of_extension extension ≡ some m → IsMimeOf extension m
unfolding mime_of_extension
found-IsMimeOf extension m h = elim (Option-cases (own_mime extension ppo03_mime_by_extension)) [
  | inr (media, e) ↦
      let same : mime media ≡ m = ground arith in
      subst (IsMimeOf extension) same
        (own_mime-sound IsMedia ppo03_mime_by_extension extension media table-IsMedia e)
  | inl e ↦ elim (Bool-cases (any (text_eq extension) object_prototype_names)) [
    | inl known ↦
        let same : inherited extension ≡ m = ground arith in
        subst (IsMimeOf extension) same
          (refl, any_name IsInherited object_prototype_names extension names-IsInherited known)
    | inr unknown ↦ absurd (ground arith)
  ]
]

IsMimeOf-found :
    (extension : Text) (m : Mime) → IsMimeOf extension m → mime_of_extension extension ≡ some m
IsMimeOf-found extension (mime media) h = IsMedia-found extension media h
IsMimeOf-found extension (inherited name) (same, h) =
    IsInherited-found extension h ∙ ap (λ n. some (inherited n)) (sym same)

-- An extension is taken exactly where it is one of the list, with its media type, or an inherited
-- name.
pub mime_of_extension_iff :
    (extension : Text) (m : Mime) → (mime_of_extension extension ≡ some m) ↔ IsMimeOf extension m
mime_of_extension_iff extension m = (found-IsMimeOf extension m, IsMimeOf-found extension m)
