-- ===== src/Server/Request/Limit.antt =====
-- How much of a request `read_request` of server.rs keeps, and the causes of its errors.
use macevery.Prelude.{
  ℕ, ◌+◌, ◌≤◌, ◌<◌, arith, List, [], ◌∷◌, ◌++◌, leb, length, All, if_cases, length-append, ◌≡◌,
  refl, ap, sym, subst, true, ◌⊎◌, inl, inr,
}
use macevery.Search.Text.{Bytes}
use macevery.Model.Text.{Text, codes}
use macevery.Server.Outcome.{Outcome, ok, err}
use macevery.Server.Request.{
  Read, chunk, would_block, failed, Turn, request_header_limit, has_header_end, take_chunk,
  take_read, read_data,
}

-- The buffer that `read` fills.
abbrev pub buffer_size : ℕ
buffer_size = 8192

abbrev pub FitsBuffer : Read → Type 0
FitsBuffer (chunk bytes) = length bytes ≤ buffer_size
FitsBuffer would_block = Unit
FitsBuffer (failed e) = Unit

abbrev pub most : ℕ
most = request_header_limit + buffer_size

abbrev pub size_of : Read → ℕ
size_of (chunk bytes) = length bytes
size_of would_block = 0
size_of (failed e) = 0

-- How much comes in.
abbrev pub received : List Turn → ℕ
received [] = 0
received (turn ∷ turns) = size_of turn.read + received turns

abbrev pub Occurs : (Turn → Type 0) → List Turn → Type 0
Occurs P [] = ⊥
Occurs P (turn ∷ turns) = P turn ⊎ Occurs P turns

abbrev pub FailsWith : Text → Read → Type 0
FailsWith e (chunk bytes) = ⊥
FailsWith e would_block = ⊥
FailsWith e (failed f) = e ≡ f

-- What is kept, and why an error is given.
abbrev pub IsWithin : List Turn → Bytes → Outcome Bytes → Type 0
IsWithin turns collected (ok kept) =
    (length kept < request_header_limit) ⊎ ((has_header_end kept ≡ true) × (length kept < most))
IsWithin turns collected (err e) =
    ((e ≡ codes "request header timed out") × Occurs (λ turn. turn.timed_out ≡ true) turns)
    ⊎ ((e ≡ codes "request header is too large")
        × (request_header_limit ≤ length collected + received turns))
    ⊎ Occurs (λ turn. FailsWith e turn.read) turns

fails_with : (turn : Turn) (e : Text) → turn.read ≡ failed e → FailsWith e turn.read
fails_with turn e h = subst (FailsWith e) (sym h) refl

module _ (turn : Turn) (turns : List Turn)
    (h : (data_ : Bytes)
      → length data_ < request_header_limit
      → IsWithin turns data_ (read_data turns data_)) where
  -- A cause among the later turns is one among all.
  IsWithin-later :
      (data_ collected : Bytes) (r : Outcome Bytes)
      → length data_ + received turns ≤ length collected + received (turn ∷ turns)
      → IsWithin turns data_ r
      → IsWithin (turn ∷ turns) collected r
  IsWithin-later data_ collected (ok kept) l k = k
  IsWithin-later data_ collected (err e) l (inl (p, o)) = inl (p, inr o)
  IsWithin-later data_ collected (err e) l (inr (inl (p, m))) = inr (inl (p, omega (arith, l, m)))
  IsWithin-later data_ collected (err e) l (inr (inr o)) = inr (inr (inr o))

  take_chunk-IsWithin :
      (data_ collected : Bytes)
      → length data_ < most
      → length data_ ≤ length collected + size_of turn.read
      → IsWithin (turn ∷ turns) collected (take_chunk data_ (read_data turns))
  unfolding take_chunk
  take_chunk-IsWithin data_ collected k l =
      if_cases (IsWithin (turn ∷ turns) collected) (has_header_end data_) (ok data_) _
        (λ e. inr (e, k))
        (λ e.
          if_cases (IsWithin (turn ∷ turns) collected) (leb request_header_limit (length data_)) _ _
            (λ f. inr (inl (refl, ground (arith, f, l))))
            (λ f.
              IsWithin-later data_ collected (read_data turns data_) (omega (arith, l))
                (h data_ (ground (arith, f)))))

  take_read-IsWithin :
      (read : Read) (collected : Bytes)
      → turn.read ≡ read
      → FitsBuffer read
      → length collected < request_header_limit
      → IsWithin (turn ∷ turns) collected (take_read read collected (read_data turns))
  unfolding take_read
  take_read-IsWithin (chunk []) collected r f k = inl k
  take_read-IsWithin (chunk (b ∷ bs)) collected r f k =
      let long = length-append collected (b ∷ bs) in
      let size = ap size_of r in
      take_chunk-IsWithin (collected ++ b ∷ bs) collected (omega (arith, long, f, k))
        (omega (arith, long, size))
  take_read-IsWithin would_block collected r f k =
      IsWithin-later collected collected (read_data turns collected) (omega arith) (h collected k)
  take_read-IsWithin (failed e) collected r f k = inr (inr (inl (fails_with turn e r)))

-- Let less than the limit be kept before, and no chunk be larger than the buffer of 8192 bytes. Then,
-- in whatever chunks and after whatever waits a request comes, what is kept when it is read is less than
-- the limit, or ends the header and is less than the limit and one buffer. And an error has its cause:
-- the time was up at some turn; or what was kept and what comes reach the limit; or a read failed with
-- that error.
pub read_data-IsWithin :
    (turns : List Turn) (collected : Bytes)
    → All (λ turn. FitsBuffer turn.read) turns
    → length collected < request_header_limit
    → IsWithin turns collected (read_data turns collected)
unfolding read_data
read_data-IsWithin [] collected a h = inl h
read_data-IsWithin (turn ∷ turns) collected (f, a) h =
    if_cases (IsWithin (turn ∷ turns) collected) turn.timed_out
      (err (codes "request header timed out")) _ (λ e. inl (refl, inl e))
      (λ e.
        take_read-IsWithin turn turns (λ data_ k. read_data-IsWithin turns data_ a k) turn.read
          collected refl f h)
