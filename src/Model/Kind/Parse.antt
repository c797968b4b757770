-- ===== src/Model/Kind/Parse.antt =====
-- `FileKind::parse` of model.rs against its slow path and against `as_str`.
use macevery.Prelude.{
  true, Option, some, if◌then◌else◌, ◌≡◌, refl, Bool-cases, inl, inr, ap, sym, ◌∙◌,
}
use macevery.Search.Text.{bytes_eq}
use macevery.Paths.Ancestors.{bytes_eq_iff}
use macevery.Model.Text.{Text, text_eq}
use macevery.Model.Kind.{
  FileKind, file, directory, symlink, app, other, as_str, parse_lowered, parse,
}

pub parse_lowered-as_str : (k : FileKind) → parse_lowered (as_str k) ≡ some k
unfolding parse_lowered as_str bytes_eq
parse_lowered-as_str file = refl
parse_lowered-as_str directory = refl
parse_lowered-as_str symlink = refl
parse_lowered-as_str app = refl
parse_lowered-as_str other = refl

-- A value that is spelled as a name has the name's kind on the slow way, too.
named :
    (to_lowercase : Text → Text) (k : FileKind) (value : Text)
    → to_lowercase (as_str k) ≡ as_str k
    → text_eq value (as_str k) ≡ true
    → some k ≡ parse_lowered (to_lowercase value)
named to_lowercase k value f e = sym (
    ap (λ v. parse_lowered (to_lowercase v)) ((bytes_eq_iff value (as_str k)).0 e)
    ∙ ap parse_lowered f
    ∙ parse_lowered-as_str k)

named_or :
    (to_lowercase : Text → Text) (k : FileKind) (value : Text) (rest : Option FileKind)
    → to_lowercase (as_str k) ≡ as_str k
    → rest ≡ parse_lowered (to_lowercase value)
    → (if text_eq value (as_str k) then some k else rest) ≡ parse_lowered (to_lowercase value)
named_or to_lowercase k value rest f h = elim (Bool-cases (text_eq value (as_str k))) [
  | inl e ↦ rw e (named to_lowercase k value f e)
  | inr e ↦ rw e h
]

-- If lower-casing leaves the five names as they are, the test for them before it changes nothing.
pub parse_lem :
    (to_lowercase : Text → Text)
    → ((k : FileKind) → to_lowercase (as_str k) ≡ as_str k)
    → (value : Text) → parse to_lowercase value ≡ parse_lowered (to_lowercase value)
unfolding parse as_str
parse_lem l f value = named_or l file value _ (f file) (
    named_or l directory value _ (f directory) (
      named_or l symlink value _ (f symlink)
        (named_or l app value _ (f app) (named_or l other value _ (f other) refl))))

-- Every kind is read from its own name, in whatever way lower-casing treats other texts.
pub parse-as_str :
    (to_lowercase : Text → Text) (k : FileKind) → parse to_lowercase (as_str k) ≡ some k
unfolding parse as_str bytes_eq
parse-as_str l file = refl
parse-as_str l directory = refl
parse-as_str l symlink = refl
parse-as_str l app = refl
parse-as_str l other = refl
