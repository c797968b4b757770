-- ===== src/Server/Handle/Guard.antt =====
-- What `handle_stream` of server.rs does for a request that does not carry the token.
use macevery.Prelude.{
  ◌≡◌, refl, ◌⊎◌, inl, inr, true, false, not, ◌&&◌, some, List, [], ◌∷◌, Bool-cases, if_cases,
}
use macevery.Model.Text.{Text, codes, text_eq}
use macevery.Server.Outcome.{ok, err}
use macevery.Server.Request.{lines, split_whitespace, request_has_valid_token, split_target}
use macevery.Server.Request.Token.{Carries, refused}
use macevery.Server.State.{PackedIndex, ServiceState}
use macevery.Server.Handle.{
  bad_request, method_not_allowed, unauthorized, healthy, Surroundings, Handled, word, rest_of,
  route, may_pass, handle_line, handle_first, handle_stream,
}

module _ (I : PackedIndex) (w : Surroundings I) (s : ServiceState I.Index) where
  -- Nothing is done, and what is said is said to everyone.
  abbrev pub IsPublic : Handled I → Type 0
  IsPublic (t, ok r) =
      (t ≡ s) × ((r ≡ bad_request) ⊎ (r ≡ method_not_allowed) ⊎ (r ≡ unauthorized) ⊎ (r ≡ healthy))
  IsPublic (t, err e) = ⊥

  route_health :
      (path query : Text)
      → text_eq path (codes "/health") ≡ true
      → IsPublic (route I w path query s)
  unfolding route
  route_health path query h = rw h (refl, inr (inr (inr refl)))

  handle_line-IsPublic :
      (expected request first_line : Text)
      → request_has_valid_token request expected ≡ false
      → IsPublic (handle_line I w (some expected) request first_line s)
  unfolding handle_line may_pass
  handle_line-IsPublic expected request first_line h =
      let parts = split_whitespace first_line in
      let target = split_target (word I w (rest_of I w parts)) in
      if_cases IsPublic
        (not (text_eq (word I w parts) (codes "GET"))
          && not (text_eq (word I w parts) (codes "POST")))
        _ _ (λ e. (refl, inr (inl refl)))
        (λ e. elim (Bool-cases (text_eq target.0 (codes "/health"))) [
          | inl health ↦ rw health (route_health target.0 target.1 health)
          | inr other ↦ rw (other, h) (refl, inr (inr (inl refl)))
        ])

  handle_first-IsPublic :
      (expected request : Text) (ls : List Text)
      → request_has_valid_token request expected ≡ false
      → IsPublic (handle_first I w (some expected) request ls s)
  handle_first-IsPublic expected request [] h = (refl, inl refl)
  handle_first-IsPublic expected request (first_line ∷ ls) h =
      handle_line-IsPublic expected request first_line h

  -- If the service has a token, take a request no header line of which, after its first line and before
  -- an empty one, is named authorization and has as its value that token, or the word bearer and that
  -- token. Then the state is left as it is, and the response is one of the constant ones for a bad line,
  -- for another method, for a missing token, or for the path that only says that the service is there.
  pub handle_stream-IsPublic :
      (expected request : Text)
      → ¬ Carries request expected
      → IsPublic (handle_stream I w (some expected) (ok request) s)
  unfolding handle_stream
  handle_stream-IsPublic expected request h =
      handle_first-IsPublic expected request (lines request) (refused request expected h)
