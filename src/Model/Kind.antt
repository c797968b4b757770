-- ===== src/Model/Kind.antt =====
-- `FileKind` of model.rs, with its names.
pub mod Parse
use macevery.Prelude.{
  Bool, true, false, Option, none, some, List, [], ◌∷◌, if◌then◌else◌, ◌≡◌, refl, arith, Bool-cases,
  inl, inr,
}
use macevery.Model.Text.{Text, codes, text_eq, one_of}
use macevery.Search.Text.{bytes_eq}

pub data FileKind : Type 0 where
  file directory symlink app other : FileKind

unfoldable pub as_str : FileKind → Text
as_str file = codes "file"
as_str directory = codes "dir"
as_str symlink = codes "symlink"
as_str app = codes "app"
as_str other = codes "other"

abbrev pub directory_names : List Text
directory_names =
    codes "dir"
    ∷ codes "dirs"
    ∷ codes "directory"
    ∷ codes "directories"
    ∷ codes "folder"
    ∷ codes "folders"
    ∷ []

-- The `match` on the lower-case value.
unfoldable pub parse_lowered : Text → Option FileKind
parse_lowered value =
    if text_eq value (codes "file")
    then some file
    else if one_of value directory_names
    then some directory
    else if one_of value (codes "symlink" ∷ codes "link" ∷ [])
    then some symlink
    else if text_eq value (codes "app")
    then some app
    else if text_eq value (codes "other")
    then some other
    else none

-- The `match` on the value as it is, with what follows it.
unfoldable pub parse : (Text → Text) → Text → Option FileKind
parse to_lowercase value =
    if text_eq value (codes "file")
    then some file
    else if text_eq value (codes "dir")
    then some directory
    else if text_eq value (codes "symlink")
    then some symlink
    else if text_eq value (codes "app")
    then some app
    else if text_eq value (codes "other")
    then some other
    else parse_lowered (to_lowercase value)

abbrev pub kinds : List FileKind
kinds = file ∷ directory ∷ symlink ∷ app ∷ other ∷ []
