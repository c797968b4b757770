-- ===== src/Server/Json/Read.antt =====
-- What a reader gets back from `search_results_json` of server.rs.
use Prim.Native.Nat.{zero, suc}
use macevery.Prelude.{
  ℕ, ◌+◌, ◌*◌, ◌/◌, ◌%◌, ◌<◌, true, false, Option, none, some, [], ◌∷◌, ◌++◌, ltb, ◌≡◌, refl, subst,
  arith, tests, ap, sym, ◌∙◌, Bool-cases, inl, inr, append_assoc, if_true,
}
use macevery.Prelude.Int.{ℤ, pos, negsuc}
use macevery.Model.Text.{Text, codes}
use macevery.Model.Kind.{FileKind, as_str, file, directory, symlink, app, other}
use macevery.Model.Kind.Parse.{parse_lowered-as_str}
use macevery.Server.Json.{SearchResult, digits, to_string, json_i64, result_json, json_escape}
use macevery.Server.Json.Unescape.{read-json_escape}
use macevery.Server.Json.Reader.{
  is_digit, read_digits, positive, negative, read_int, is_null, read_optional, read_kind,
  known_kind, read_numbers, read_result,
}

abbrev pub ten_to : ℕ → ℕ
ten_to zero = 1
ten_to (suc n) = 10 * ten_to n

-- A number that fits the digits written, at its place.
abbrev pub Fits : ℤ → Type 0
Fits (pos n) = n < ten_to 20
Fits (negsuc n) = n + 1 < ten_to 20

abbrev pub FitsOption : Option ℤ → Type 0
FitsOption none = Unit
FitsOption (some z) = Fits z

is_digit_lem : (n : ℕ) → n < 10 → is_digit (b'0' + n) ≡ true
is_digit_lem n h = ground arith

read_digits-cons :
    (acc n : ℕ) (t : Text)
    → n < 10
    → read_digits acc ((b'0' + n) ∷ t) ≡ read_digits (acc * 10 + n) t
read_digits-cons acc n t h =
    if_true (is_digit (b'0' + n)) _ _ (is_digit_lem n h)
    ∙ ap (λ k. read_digits (acc * 10 + k) t) (omega arith)

read_digits-digits :
    (fuel n : ℕ) (t : Text) → n < ten_to fuel → read_digits 0 (digits fuel n t) ≡ read_digits n t
unfolding digits
read_digits-digits zero n t h = ap (λ k. read_digits k t) (omega arith)
read_digits-digits (suc fuel) n t h = elim (Bool-cases (ltb n 10)) [
  | inl e ↦ rw e (read_digits-cons 0 n t (omega tests) ∙ ap (λ k. read_digits k t) (omega arith))
  | inr e ↦ rw e (
      read_digits-digits fuel (n / 10) ((b'0' + n % 10) ∷ t) (omega arith)
      ∙ read_digits-cons (n / 10) (n % 10) t (omega arith)
      ∙ ap (λ k. read_digits k t) (omega arith))
]

-- What stands after a number: no digit.
abbrev pub IsEnd : Text → Type 0
IsEnd [] = Unit
IsEnd (c ∷ t) = is_digit c ≡ false

read_digits_end : (n : ℕ) (t : Text) → IsEnd t → read_digits n t ≡ (n, t)
read_digits_end n [] h = refl
read_digits_end n (c ∷ t) h = rw h refl

digits-append : (fuel n : ℕ) (t u : Text) → digits fuel n t ++ u ≡ digits fuel n (t ++ u)
unfolding digits
digits-append zero n t u = refl
digits-append (suc fuel) n t u = elim (Bool-cases (ltb n 10)) [
  | inl e ↦ rw e refl
  | inr e ↦ rw e (digits-append fuel (n / 10) ((b'0' + n % 10) ∷ t) u)
]

-- The first of the digits written is one.
abbrev pub IsDigits : Text → Type 0
IsDigits [] = ⊥
IsDigits (c ∷ t) = is_digit c ≡ true

digits-IsDigits :
    (fuel n : ℕ) (t : Text) → n < ten_to fuel → IsDigits t → IsDigits (digits fuel n t)
unfolding digits
digits-IsDigits zero n t h k = k
digits-IsDigits (suc fuel) n t h k = elim (Bool-cases (ltb n 10)) [
  | inl e ↦ rw e (is_digit_lem n (omega tests))
  | inr e ↦ rw e (
      digits-IsDigits fuel (n / 10) ((b'0' + n % 10) ∷ t) (omega arith)
        (is_digit_lem (n % 10) (omega arith)))
]

digits-starts_with_digit :
    (fuel n : ℕ) (t : Text) → n < ten_to (suc fuel) → IsDigits (digits (suc fuel) n t)
unfolding digits
digits-starts_with_digit fuel n t h = elim (Bool-cases (ltb n 10)) [
  | inl e ↦ rw e (is_digit_lem n (omega tests))
  | inr e ↦ rw e (
      digits-IsDigits fuel (n / 10) ((b'0' + n % 10) ∷ t) (omega arith)
        (is_digit_lem (n % 10) (omega arith)))
]

read_int-digits : (t : Text) → IsDigits t → read_int t ≡ positive (read_digits 0 t)
read_int-digits [] h = absurd h
read_int-digits (c ∷ t) h = ground (arith, h)

read_digits-written :
    (n : ℕ) (t : Text) → n < ten_to 20 → IsEnd t → read_digits 0 (digits 20 n [] ++ t) ≡ (n, t)
read_digits-written n t h k =
    ap (read_digits 0) (digits-append 20 n [] t)
    ∙ read_digits-digits 20 n t h
    ∙ read_digits_end n t k

written-IsDigits : (n : ℕ) (t : Text) → n < ten_to 20 → IsDigits (digits 20 n [] ++ t)
written-IsDigits n t h =
    subst IsDigits (sym (digits-append 20 n [] t)) (digits-starts_with_digit 19 n t h)

read_int-to_string :
    (z : ℤ) (t : Text) → Fits z → IsEnd t → read_int (to_string z ++ t) ≡ some (z, t)
unfolding to_string
read_int-to_string (pos n) t h k =
    read_int-digits (digits 20 n [] ++ t) (written-IsDigits n t h)
    ∙ ap positive (read_digits-written n t h k)
read_int-to_string (negsuc n) t h k = ap negative (read_digits-written (n + 1) t h k) ∙ ground arith

digit_is_not_null : (t : Text) → IsDigits t → is_null t ≡ false
digit_is_not_null [] h = absurd h
digit_is_not_null (c ∷ t) h = ground (arith, h)

json_i64-append_first : (z : ℤ) (t : Text) → Fits z → is_null (to_string z ++ t) ≡ false
unfolding to_string
json_i64-append_first (pos n) t h = digit_is_not_null (digits 20 n [] ++ t) (written-IsDigits n t h)
json_i64-append_first (negsuc n) t h = refl

read_optional-json_i64 :
    (o : Option ℤ) (t : Text)
    → FitsOption o
    → IsEnd t
    → read_optional (json_i64 o ++ t) ≡ some (o, t)
unfolding json_i64
read_optional-json_i64 none t h k = refl
read_optional-json_i64 (some z) t h k =
    rw (json_i64-append_first z t h, read_int-to_string z t h k) refl

read_kind-as_str : (k : FileKind) (t : Text) → read_kind (as_str k ++ b'"' ∷ t) ≡ some (k, t)
unfolding as_str
read_kind-as_str file t = ap (λ o. known_kind o t) (parse_lowered-as_str file)
read_kind-as_str directory t = ap (λ o. known_kind o t) (parse_lowered-as_str directory)
read_kind-as_str symlink t = ap (λ o. known_kind o t) (parse_lowered-as_str symlink)
read_kind-as_str app t = ap (λ o. known_kind o t) (parse_lowered-as_str app)
read_kind-as_str other t = ap (λ o. known_kind o t) (parse_lowered-as_str other)

-- The numbers of a result that an `i64` holds.
abbrev pub IsResult : SearchResult → Type 0
IsResult r = FitsOption r.size × FitsOption r.mtime × Fits r.score

module _ (r : SearchResult) (t : Text) where
  -- What is written from each of a result's fields on, with the text after the result.
  abbrev pub from_score : Text
  from_score = to_string r.score ++ (codes "}" ++ t)

  abbrev pub from_mtime : Text
  from_mtime = json_i64 r.mtime ++ (codes ",\"score\":" ++ from_score)

  abbrev pub from_size : Text
  from_size = json_i64 r.size ++ (codes ",\"mtime\":" ++ from_mtime)

  abbrev pub from_kind : Text
  from_kind = as_str r.kind ++ (codes "\",\"size\":" ++ from_size)

  abbrev pub from_basename : Text
  from_basename = json_escape r.basename ++ (codes "\",\"kind\":\"" ++ from_kind)

  abbrev pub from_path : Text
  from_path = json_escape r.path ++ (codes "\",\"basename\":\"" ++ from_basename)

  pub result_json-append : result_json r ++ t ≡ codes "{\"path\":\"" ++ from_path
  unfolding result_json
  result_json-append = simp append_assoc

  read_numbers_lem :
      (p b : Text) (k : FileKind)
      → IsResult r
      → read_numbers p b k (codes ",\"size\":" ++ from_size)
        ≡ some (
          record {
            path = p;
            basename = b;
            kind = k;
            size = r.size;
            mtime = r.mtime;
            score = r.score;
          },
          t,
        )
  read_numbers_lem p b k (h, i, l) =
      rw
        (
          read_optional-json_i64 r.size (codes ",\"mtime\":" ++ from_mtime) h refl,
          read_optional-json_i64 r.mtime (codes ",\"score\":" ++ from_score) i refl,
          read_int-to_string r.score (codes "}" ++ t) l refl,
        )
        refl

  pub read_result-result_json : IsResult r → read_result (result_json r ++ t) ≡ some (r, t)
  read_result-result_json h =
      ap read_result result_json-append
      ∙ rw
          (
            read-json_escape r.path (codes ",\"basename\":\"" ++ from_basename),
            read-json_escape r.basename (codes ",\"kind\":\"" ++ from_kind),
            read_kind-as_str r.kind (codes ",\"size\":" ++ from_size),
          )
          (read_numbers_lem r.path r.basename r.kind h)
