-- ===== src/Server/Percent/Written.antt =====
-- What `parse_query` of server.rs reads from parameters that are written with escapes.
use macevery.Prelude.{
  ℕ, ◌+◌, ◌-◌, ◌*◌, ◌/◌, ◌%◌, ◌<◌, ◌≢◌, Bool, true, some, [], ◌∷◌, if◌then◌else◌, ltb, ◌≡◌, refl,
  arith, All, ap, ◌∙◌, Bool-cases, inl, inr,
}
use macevery.Search.Text.{Bytes}
use macevery.Server.Percent.{percent, plus, equals, ampersand, hex, decode_bytes}

abbrev pub hex_digit : ℕ → ℕ
hex_digit n = if ltb n 10 then n + b'0' else n - 10 + b'A'

abbrev pub IsBytes : Bytes → Type 0
IsBytes bs = All (λ b. b < 256) bs

-- Which bytes a writer may send as they are: ASCII ones that mean nothing else.
abbrev pub MayBeRaw : (ℕ → Bool) → Type 0
MayBeRaw raw =
    (c : ℕ) → raw c ≡ true → (c < 128) × (c ≢ percent) × (c ≢ plus) × (c ≢ equals) × (c ≢ ampersand)

module _ (raw : ℕ → Bool) where
  -- A byte as a writer sends it, in front of the rest.
  abbrev pub write_byte : ℕ → Bytes → Bytes
  write_byte b rest =
      if raw b then b ∷ rest else percent ∷ hex_digit (b / 16) ∷ hex_digit (b % 16) ∷ rest

  abbrev pub write : Bytes → Bytes
  write [] = []
  write (b ∷ bs) = write_byte b (write bs)

  hex-hex_digit : (n : ℕ) → n < 16 → hex (hex_digit n) ≡ some n
  unfolding hex
  hex-hex_digit n h = ground arith

  decode_escape :
      (a b : ℕ) (r : Bytes) (hi lo : ℕ)
      → hex a ≡ some hi
      → hex b ≡ some lo
      → decode_bytes (percent ∷ a ∷ b ∷ r) ≡ (hi * 16 + lo) ∷ decode_bytes r
  unfolding decode_bytes
  decode_escape a b r hi lo h k = rw (h, k) refl

  decode_plain :
      (c : ℕ) (r : Bytes) → c ≢ percent → c ≢ plus → decode_bytes (c ∷ r) ≡ c ∷ decode_bytes r
  unfolding decode_bytes
  decode_plain c [] n m = ground (arith, n, m)
  decode_plain c (a ∷ []) n m = ground (arith, n, m)
  decode_plain c (a ∷ b ∷ r) n m = ground (arith, n, m)

  -- Percent-encoded bytes are decoded to what they were, if what is sent as it is are ASCII characters
  -- other than the four that mean something else.
  pub decode_bytes-write : MayBeRaw raw → (bs : Bytes) → IsBytes bs → decode_bytes (write bs) ≡ bs
  unfolding decode_bytes
  decode_bytes-write may [] h = refl
  decode_bytes-write may (b ∷ bs) h = elim (Bool-cases (raw b)) [
    | inl r ↦
        let (ascii, p, q, s, t) = may b r in
        rw r (decode_plain b (write bs) p q ∙ ap (λ l. b ∷ l) (decode_bytes-write may bs h.1))
    | inr r ↦ rw r (
        decode_escape (hex_digit (b / 16)) (hex_digit (b % 16)) (write bs) (b / 16) (b % 16)
          (hex-hex_digit (b / 16) (omega arith)) (hex-hex_digit (b % 16) (omega arith))
        ∙ ap (λ l. (b / 16 * 16 + b % 16) ∷ l) (decode_bytes-write may bs h.1)
        ∙ ap (λ n. n ∷ bs) (omega arith))
  ]
