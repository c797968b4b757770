-- ===== src/Search/Glob/Decides.antt =====
-- `glob_match` of search.rs against the matching relation, by an invariant of its loop.
use macevery.Prelude.{
  ℕ, zero, suc, ◌+◌, ◌-◌, ◌*◌, ◌≤◌, ◌<◌, ◌≡◌, refl, ◌≢◌, ◌↔◌, ◌⊎◌, inl, inr, Bool, true, false,
  Option, none, some, [], ◌∷◌, ltb, length, drop, arith, drop-get_or, drop_all, ltb→lt, Bool-cases,
  ℕ_discrete, dec_lt,
}
use mathlib.Core.Path.{subst}
use macevery.Search.Text.{Bytes, at, contains_byte}
use macevery.Search.Glob.{
  star, question, only_stars, takes_byte, takes_star, Next, retry, round, loop, glob_match,
}
use macevery.Search.Glob.Matches.{
  Matches, byte, leave, cover, byte_inv, star_at_end, must_cover, two_stars, drop_byte,
  only_stars_iff,
}

pow_step : (n m k : ℕ) → m < n → (n - m) * k ≡ (n - (m + 1)) * k + k
pow_step n m k h = let e : n - m ≡ n - (m + 1) + 1 = omega arith in rw e (omega arith)

mul_sub_mono : (n m h k : ℕ) → m ≤ h → (n - h) * k ≤ (n - m) * k
mul_sub_mono n m h k q = grind arith

start_fuel : (n m : ℕ) → (n - 0) * (m + 1) + (m - 0) < (n + 1) * (m + 1)
start_fuel n m =
    let e : n - 0 ≡ n = omega arith in let d : m - 0 ≡ m = omega arith in rw (e, d) (omega arith)

module _ (H P : Bytes) where
  abbrev G : Type 0
  G = Matches P H

  abbrev NoStar : Type 0
  NoStar = (i : ℕ) → i < length H → at H i ≢ star

  -- The pattern and the text that are left.
  abbrev pat : ℕ → Bytes
  pat p = drop p P

  abbrev txt : ℕ → Bytes
  txt h = drop h H

  abbrev Saved : ℕ → ℕ → Option ℕ → ℕ → Type 0
  Saved h p none m = NoStar → G → Matches (pat p) (txt h)
  Saved h p (some i) m =
      (Matches (star ∷ pat (i + 1)) (txt m) → G)
      × (NoStar → G → Matches (star ∷ pat (i + 1)) (txt m))
      × (NoStar → Matches (pat (i + 1)) (txt m) → Matches (pat p) (txt h))
      × (i < length P)

  record Inv (f h p : ℕ) (st : Option ℕ) (m : ℕ) : Type 0 where
    now : Matches (pat p) (txt h) → G
    later : NoStar → G → Matches (star ∷ pat p) (txt h)
    saved : Saved h p st m
    h_le : h ≤ length H
    p_le : p ≤ length P
    m_le : m ≤ h
    fuel : (length H - m) * (length P + 1) + (length P - p) < f

  abbrev Answers : Option Bool → Type 0
  Answers none = ⊥
  Answers (some true) = G
  Answers (some false) = NoStar → ¬ G

  pat-cons : (p : ℕ) → p < length P → pat p ≡ at P p ∷ pat (p + 1)
  pat-cons p h = drop-get_or p P 0 h

  txt-cons : (h : ℕ) → h < length H → txt h ≡ at H h ∷ txt (h + 1)
  txt-cons h k = drop-get_or h H 0 k

  not-Matches-cons : {c : ℕ} {s : Bytes} → ¬ Matches [] (c ∷ s)
  not-Matches-cons d = elim d [ ]

  answer : (b : Bool) → (b ≡ true → G) → (NoStar → G → b ≡ true) → Answers (some b)
  answer true s c = s refl
  answer false s c = λ ns g. cc (c ns g)

  -- The test of the first branch: what the two bytes are.
  abbrev Fits : ℕ → ℕ → Type 0
  Fits a c = (a ≡ question) ⊎ (a ≡ c)

  not_star : (a c : ℕ) → Fits a c → c ≢ star → a ≢ star
  not_star a c (inl e) n = λ d. omega arith
  not_star a c (inr e) n = λ d. n (omega arith)

  -- A byte that fits is matched, also a `*` of the text by a star.
  Matches-Fits : (a c : ℕ) (p s : Bytes) → Fits a c → Matches p s → Matches (a ∷ p) (c ∷ s)
  Matches-Fits a c p s fits d = elim (ℕ_discrete a star) [
    | yes e ↦ cover e (leave e d)
    | no n ↦ byte (n, fits) d
  ]

  Saved-byte :
      (h p m : ℕ) (st : Option ℕ)
      → h < length H
      → p < length P
      → Fits (at P p) (at H h)
      → Saved h p st m
      → Saved (h + 1) (p + 1) st m
  Saved-byte h p m none k q fits sv = λ ns g.
      (byte_inv (not_star _ _ fits (ns h k)) (
        subst (λ x. Matches x (at H h ∷ txt (h + 1))) (pat-cons p q)
          (subst (Matches (pat p)) (txt-cons h k) (sv ns g)))).1
  Saved-byte h p m (some i) k q fits (a, b, down, d) = (
    a,
    b,
    λ ns g.
        (byte_inv (not_star _ _ fits (ns h k)) (
          subst (λ x. Matches x (at H h ∷ txt (h + 1))) (pat-cons p q)
            (subst (Matches (pat p)) (txt-cons h k) (down ns g)))).1,
    d,
  )

  Inv-byte :
      (f h p m : ℕ) (st : Option ℕ)
      → h < length H
      → p < length P
      → Fits (at P p) (at H h)
      → Inv (suc f) h p st m
      → Inv f (h + 1) (p + 1) st m
  Inv-byte f h p m st k q fits i = record {
    now = λ d. i.now (rw (pat-cons p q, txt-cons h k) (Matches-Fits _ _ _ _ fits d));
    later = λ ns g.
        drop_byte (txt (h + 1)) refl (not_star _ _ fits (ns h k))
          (rw (pat-cons p q, txt-cons h k) at (i.later ns g));
    saved = Saved-byte h p m st k q fits i.saved;
    h_le = omega arith;
    p_le = omega arith;
    m_le = omega arith;
    fuel = omega arith;
  }

  -- A start right behind a star at pattern position `j`, with the text at `h`.
  Inv-restart :
      (f h j : ℕ)
      → (Matches (star ∷ pat (j + 1)) (txt h) → G)
      → (NoStar → G → Matches (star ∷ pat (j + 1)) (txt h))
      → h ≤ length H
      → j < length P
      → (length H - h) * (length P + 1) + (length P - (j + 1)) < f
      → Inv f h (j + 1) (some j) h
  Inv-restart f h j sound complete k q fuel = record {
    now = λ d. sound (leave refl d);
    later = complete;
    saved = (sound, complete, λ _ d. d, q);
    h_le = k;
    p_le = omega arith;
    m_le = omega arith;
    fuel = fuel;
  }

  Inv-mark :
      (f h p m : ℕ) (st : Option ℕ)
      → h < length H
      → p < length P
      → at P p ≡ star
      → Inv (suc f) h p st m
      → Inv f h (p + 1) (some p) h
  Inv-mark f h p m st k q e i =
      Inv-restart f h p (λ d. i.now (rw (pat-cons p q, e) d))
        (λ ns g. two_stars refl refl (rw (pat-cons p q, e) at (i.later ns g))) i.h_le q
        (omega (arith, i.fuel, i.m_le, mul_sub_mono (length H) m h (length P + 1) i.m_le))

  takes_byte-Fits : (h p : ℕ) → takes_byte H P h p ≡ true → (p < length P) × Fits (at P p) (at H h)
  takes_byte-Fits h p e = grind arith

  takes_star-eq : (p : ℕ) → takes_star P p ≡ true → (p < length P) × (at P p ≡ star)
  takes_star-eq p e = ground arith

  refused :
      (h p : ℕ)
      → p < length P
      → takes_byte H P h p ≡ false
      → takes_star P p ≡ false
      → (at P p ≢ star) × ¬ Fits (at P p) (at H h)
  refused h p l e d = (λ x. ground arith, λ x. grind arith)

  -- Neither branch applies: the pattern does not match the text from here on.
  stuck :
      (h p : ℕ)
      → h < length H
      → takes_byte H P h p ≡ false
      → takes_star P p ≡ false
      → ¬ Matches (pat p) (txt h)
  stuck h p k e d m = elim (dec_lt p (length P)) [
    | no n ↦ not-Matches-cons (rw (drop_all p P (omega arith), txt-cons h k) at m)
    | yes l ↦
        let (a, b) = refused h p l e d in b (byte_inv a (rw (pat-cons p l, txt-cons h k) at m)).0.1
  ]

  module _ (f : ℕ) (next : Next)
      (ih : (h p m : ℕ) (st : Option ℕ) → Inv f h p st m → Answers (next h p st m)) where
    retry-Answers :
        (h p m : ℕ) (st : Option ℕ)
        → h < length H
        → ¬ Matches (pat p) (txt h)
        → Inv (suc f) h p st m
        → Answers (retry next st m)
    retry-Answers h p m none k n i = λ ns g. n (i.saved ns g)
    retry-Answers h p m (some j) k n i =
        let (sound, complete, down, q) = i.saved in
        let l : m < length H = omega (arith, i.m_le) in
        ih (m + 1) (j + 1) (m + 1) (some j) (
          Inv-restart f (m + 1) j (λ d. sound (rw (txt-cons m l) (cover refl d)))
            (λ ns g.
              must_cover refl (rw (txt-cons m l) at (complete ns g))
                (λ d. n (down ns (rw (txt-cons m l) d))))
            (omega arith) q (omega (arith, i.fuel, pow_step (length H) m (length P + 1) l)))

    at_end :
        (h p m : ℕ) (st : Option ℕ)
        → length H ≤ h
        → Inv (suc f) h p st m
        → Answers (some (only_stars (drop p P)))
    at_end h p m st k i =
        let e = drop_all h H k in
        let (sound, complete) = only_stars_iff (pat p) in
        answer (only_stars (pat p)) (λ d. i.now (rw e (sound d)))
          (λ ns g. complete (star_at_end refl (rw e at (i.later ns g))))

    round-Answers :
        (h p m : ℕ) (st : Option ℕ) → Inv (suc f) h p st m → Answers (round next H P h p st m)
    unfolding round
    round-Answers h p m st i = elim (Bool-cases (ltb h (length H))) [
      | inr e ↦ rw e (at_end h p m st (ground arith) i)
      | inl e ↦
          let k : h < length H = ltb→lt _ _ e in
          rw e (elim (Bool-cases (takes_byte H P h p)) [
            | inl a ↦
                let (q, fits) = takes_byte-Fits h p a in
                rw a (ih _ _ _ _ (Inv-byte f h p m st k q fits i))
            | inr a ↦ rw a (elim (Bool-cases (takes_star P p)) [
              | inl b ↦
                  let (q, s) = takes_star-eq p b in rw b (ih _ _ _ _ (Inv-mark f h p m st k q s i))
              | inr b ↦ rw b (retry-Answers h p m st k (stuck h p k a b) i)
            ])
          ])
    ]

  loop-Answers : (f h p m : ℕ) (st : Option ℕ) → Inv f h p st m → Answers (loop f H P h p st m)
  unfolding loop
  loop-Answers zero h p m st i = omega (arith, i.fuel)
  loop-Answers (suc f) h p m st i = round-Answers f (loop f H P) (loop-Answers f) h p m st i

  match-Answers : Answers (glob_match H P)
  unfolding glob_match
  match-Answers = loop-Answers ((length H + 1) * (length P + 1)) 0 0 0 none (record {
    now = λ d. d;
    later = λ _ d. leave refl d;
    saved = λ _ d. d;
    h_le = omega arith;
    p_le = omega arith;
    m_le = omega arith;
    fuel = start_fuel (length H) (length P);
  })

  answered : (r : Option Bool) → Answers r → (b : Bool) × (r ≡ some b) × (b ≡ true → G)
  answered none a = elim a [ ]
  answered (some true) a = (true, refl, λ _. a)
  answered (some false) a = (false, refl, λ e. cc)

  decided : (r : Option Bool) → Answers r → NoStar → G → r ≡ some true
  decided none a ns g = elim a [ ]
  decided (some true) a ns g = refl
  decided (some false) a ns g = absurd (a ns g)

no_star : (H : Bytes) → contains_byte H star ≡ false → (i : ℕ) → i < length H → at H i ≢ star
unfolding contains_byte
no_star [] h i k = absurd (omega arith)
no_star (c ∷ H) h zero k = ground (arith, h)
no_star (c ∷ H) h (suc i) k = no_star H (ground (arith, h)) i (omega arith)

-- The matcher always ends with an answer, and where it accepts, the text matches the pattern.
pub glob_match_sound :
    (haystack pattern : Bytes)
    → (b : Bool) × (glob_match haystack pattern ≡ some b) × (b ≡ true → Matches pattern haystack)
glob_match_sound H P = answered H P (glob_match H P) (match-Answers H P)

-- On a text without a `*` the matcher accepts exactly the texts that match the pattern.
pub glob_match_iff :
    (haystack pattern : Bytes)
    → contains_byte haystack star ≡ false
    → (glob_match haystack pattern ≡ some true) ↔ Matches pattern haystack
glob_match_iff H P h =
    let (b, e, sound) = glob_match_sound H P in
    (
      λ d. sound (ground (arith, e, d)),
      decided H P (glob_match H P) (match-Answers H P) (no_star H h),
    )
