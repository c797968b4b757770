-- ===== src/Scanner/Exclude/Infix.antt =====
-- What `ExcludeMatcher` of scanner.rs excludes, with no grouping of the patterns.
use macevery.Prelude.{
  ◌≡◌, refl, sym, ap, ◌∙◌, subst, Bool, true, false, ◌&&◌, ◌||◌, List, [], ◌∷◌, ◌++◌, Bool-cases,
  inl, inr, if_cases,
}
use macevery.Paths.Ancestors.{bytes_eq_iff, bytes_eq_refl}
use macevery.Model.Text.{Text, text_eq}
use macevery.Scanner.Exclude.{
  Suffix, Patterns, suffix_eq, has_suffix, push_choice, add, add_parts, parts_of, add_all,
  exclude_new, choices_of, goes_on, any_goes_on, is_excluded,
}

-- The parts stand one after the other somewhere among the components; no parts stand nowhere.
abbrev pub stands_in : List Text → List Text → Bool
stands_in [] components = false
stands_in (first ∷ suffix) [] = false
stands_in (first ∷ suffix) (c ∷ components) =
    (text_eq first c && goes_on suffix components) || stands_in (first ∷ suffix) components

abbrev pub any_stands_in : List Text → List Text → Bool
any_stands_in [] components = false
any_stands_in (pattern ∷ excludes) components =
    stands_in (parts_of pattern) components || any_stands_in excludes components

or_assoc : (a b c : Bool) → (a || (b || c)) ≡ ((a || b) || c)
or_assoc true b c = refl
or_assoc false b c = refl

or_comm : (a b : Bool) → (a || b) ≡ (b || a)
or_comm true true = refl
or_comm true false = refl
or_comm false true = refl
or_comm false false = refl

or_same : (a : Bool) → (a || a) ≡ a
or_same true = refl
or_same false = refl

swap : (a b c : Bool) → (a || (b || c)) ≡ (b || (a || c))
swap true true c = refl
swap true false c = refl
swap false true c = refl
swap false false c = refl

twice : (a c : Bool) → (a || c) ≡ (a || (a || c))
twice true c = refl
twice false c = refl

and_true : (a b : Bool) → (a && b) ≡ true → (a ≡ true) × (b ≡ true)
and_true true b h = (refl, h)
and_true false b h = cc

suffix_of_eq : (a b : Suffix) → suffix_eq a b ≡ true → a ≡ b
suffix_of_eq [] [] h = refl
suffix_of_eq [] (y ∷ b) h = cc
suffix_of_eq (x ∷ a) [] h = cc
suffix_of_eq (x ∷ a) (y ∷ b) h =
    let (p, q) = and_true (text_eq x y) (suffix_eq a b) h in
    ap (λ t. t ∷ a) ((bytes_eq_iff x y).0 p) ∙ ap (λ l. y ∷ l) (suffix_of_eq a b q)

any_goes_on-append :
    (choices : List Suffix) (suffix : Suffix) (tail : List Text)
    → any_goes_on (choices ++ suffix ∷ []) tail ≡ (goes_on suffix tail || any_goes_on choices tail)
any_goes_on-append [] suffix tail = refl
any_goes_on-append (s ∷ choices) suffix tail =
    ap (λ b. goes_on s tail || b) (any_goes_on-append choices suffix tail)
    ∙ swap (goes_on s tail) (goes_on suffix tail) (any_goes_on choices tail)

-- A suffix that is there already adds nothing.
any_goes_on_has :
    (choices : List Suffix) (suffix : Suffix) (tail : List Text)
    → has_suffix choices suffix ≡ true
    → any_goes_on choices tail ≡ (goes_on suffix tail || any_goes_on choices tail)
any_goes_on_has [] suffix tail h = cc
any_goes_on_has (s ∷ choices) suffix tail h = elim (Bool-cases (suffix_eq s suffix)) [
  | inl e ↦
      subst
        (λ t.
          (goes_on s tail || any_goes_on choices tail)
          ≡ (goes_on t tail || (goes_on s tail || any_goes_on choices tail)))
        (suffix_of_eq s suffix e) (twice (goes_on s tail) (any_goes_on choices tail))
  | inr e ↦
      ap (λ b. goes_on s tail || b) (any_goes_on_has choices suffix tail (rw e at h))
      ∙ swap (goes_on s tail) (goes_on suffix tail) (any_goes_on choices tail)
]

push_choice-goes_on :
    (choices : List Suffix) (suffix : Suffix) (tail : List Text)
    → any_goes_on (push_choice choices suffix) tail
      ≡ (goes_on suffix tail || any_goes_on choices tail)
push_choice-goes_on choices suffix tail =
    if_cases (λ l. any_goes_on l tail ≡ (goes_on suffix tail || any_goes_on choices tail))
      (has_suffix choices suffix) choices (choices ++ suffix ∷ [])
      (any_goes_on_has choices suffix tail) (λ e. any_goes_on-append choices suffix tail)

true_is_not_false : true ≡ false → ⊥
true_is_not_false h = cc

-- Two different texts are not both the third one.
other_text : (f g c : Text) → text_eq g f ≡ false → text_eq g c ≡ true → text_eq f c ≡ false
other_text f g c e h = elim (Bool-cases (text_eq f c)) [
  | inl k ↦
      let same = (bytes_eq_iff g c).0 h ∙ sym ((bytes_eq_iff f c).0 k) in
      absurd (true_is_not_false (sym (ap (λ t. text_eq g t) (sym same) ∙ bytes_eq_refl g) ∙ e))
  | inr k ↦ k
]

add-goes_on :
    (f : Text) (suffix : Suffix) (patterns : Patterns) (c : Text) (tail : List Text)
    → any_goes_on (choices_of c (add f suffix patterns)) tail
      ≡ ((text_eq f c && goes_on suffix tail) || any_goes_on (choices_of c patterns) tail)
unfolding add choices_of
add-goes_on f suffix [] c tail = elim (Bool-cases (text_eq f c)) [
  | inl e ↦ rw e refl
  | inr e ↦ rw e refl
]
add-goes_on f suffix ((g, choices) ∷ patterns) c tail = elim (Bool-cases (text_eq g f)) [
  | inl e ↦
      let same = ap (λ t. text_eq t c) ((bytes_eq_iff g f).0 e) in
      elim (Bool-cases (text_eq f c)) [
        | inl h ↦ let k = same ∙ h in rw (e, h, k) (push_choice-goes_on choices suffix tail)
        | inr h ↦ let k = same ∙ h in rw (e, h, k) refl
      ]
  | inr e ↦ elim (Bool-cases (text_eq g c)) [
    | inl h ↦ let k = other_text f g c e h in rw (e, h, k) refl
    | inr h ↦ rw (e, h) (add-goes_on f suffix patterns c tail)
  ]
]

and_or : (a b c d : Bool) → ((a || b) || (c || d)) ≡ ((a || c) || (b || d))
and_or true b c d = refl
and_or false true true d = refl
and_or false true false d = refl
and_or false false c d = refl

is_excluded-add :
    (f : Text) (suffix : Suffix) (patterns : Patterns) (components : List Text)
    → is_excluded (add f suffix patterns) components
      ≡ (stands_in (f ∷ suffix) components || is_excluded patterns components)
unfolding is_excluded
is_excluded-add f suffix patterns [] = refl
is_excluded-add f suffix patterns (c ∷ components) =
    rw (add-goes_on f suffix patterns c components, is_excluded-add f suffix patterns components)
      (and_or (text_eq f c && goes_on suffix components)
        (any_goes_on (choices_of c patterns) components) (stands_in (f ∷ suffix) components)
        (is_excluded patterns components))

is_excluded-add_parts :
    (parts : List Text) (patterns : Patterns) (components : List Text)
    → is_excluded (add_parts parts patterns) components
      ≡ (stands_in parts components || is_excluded patterns components)
is_excluded-add_parts [] patterns components = refl
is_excluded-add_parts (f ∷ suffix) patterns components =
    is_excluded-add f suffix patterns components

is_excluded-add_all :
    (excludes : List Text) (patterns : Patterns) (components : List Text)
    → is_excluded (add_all excludes patterns) components
      ≡ (any_stands_in excludes components || is_excluded patterns components)
unfolding add_all
is_excluded-add_all [] patterns components = refl
is_excluded-add_all (p ∷ excludes) patterns components =
    is_excluded-add_all excludes (add_parts (parts_of p) patterns) components
    ∙ ap (λ b. any_stands_in excludes components || b)
        (is_excluded-add_parts (parts_of p) patterns components)
    ∙ swap (any_stands_in excludes components) (stands_in (parts_of p) components)
        (is_excluded patterns components)
    ∙ or_assoc (stands_in (parts_of p) components) (any_stands_in excludes components)
        (is_excluded patterns components)

is_excluded_nothing : (components : List Text) → is_excluded [] components ≡ false
unfolding is_excluded choices_of
is_excluded_nothing [] = refl
is_excluded_nothing (c ∷ components) = is_excluded_nothing components

or_false : (a : Bool) → (a || false) ≡ a
or_false true = refl
or_false false = refl

-- A path is excluded exactly if the components of some pattern stand one after the other among its own,
-- however the patterns are grouped, ordered and repeated; a pattern without components excludes nothing.
pub is_excluded-exclude_new :
    (excludes components : List Text)
    → is_excluded (exclude_new excludes) components ≡ any_stands_in excludes components
unfolding exclude_new
is_excluded-exclude_new excludes components =
    is_excluded-add_all excludes [] components
    ∙ ap (λ b. any_stands_in excludes components || b) (is_excluded_nothing components)
    ∙ or_false (any_stands_in excludes components)
