-- ===== src/Server/Json/RoundTrip.antt =====
-- The results that a reader gets back from the whole text of `search_results_json` of server.rs.
use Prim.Native.Nat.{zero, suc}
use macevery.Prelude.{
  ℕ, ◌+◌, ◌<◌, ◌≤◌, some, List, [], ◌∷◌, ◌++◌, ltb, length, ◌≡◌, refl, arith, lt→ltb, All, ap, sym,
  ◌∙◌, if_true, if_cases, append-nil, append_assoc, length-append,
}
use macevery.Model.Text.{Text, codes}
use macevery.Server.Json.{SearchResult, result_json, results_json, search_results_json}
use macevery.Server.Json.Reader.{read_result, read_more, read_list, read_results}
use macevery.Server.Json.Read.{IsResult, from_path, result_json-append, read_result-result_json}

results_json-cons :
    (index : ℕ) (r : SearchResult) (rs : List SearchResult) (u : Text)
    → 0 < index
    → results_json index (r ∷ rs) ++ u
      ≡ b',' ∷ (result_json r ++ (results_json (index + 1) rs ++ u))
unfolding results_json
results_json-cons index r rs u h =
    ap (λ x. x ++ u)
      (if_true (ltb 0 index) (b',' ∷ (result_json r ++ results_json (index + 1) rs)) _
        (lt→ltb 0 index h))
    ∙ ap (λ x. b',' ∷ x) (append_assoc (result_json r) (results_json (index + 1) rs) u)

read_more-results_json :
    (fuel index : ℕ) (rs : List SearchResult) (t : Text)
    → 0 < index
    → length rs < fuel
    → All IsResult rs
    → read_more fuel (results_json index rs ++ (b']' ∷ t)) ≡ some (rs, t)
unfolding results_json
read_more-results_json zero index rs t h k a = absurd (omega arith)
read_more-results_json (suc fuel) index [] t h k a = refl
read_more-results_json (suc fuel) index (r ∷ rs) t h k (a, b) =
    ap (read_more (suc fuel)) (results_json-cons index r rs (b']' ∷ t) h)
    ∙ rw
        (
          read_result-result_json r (results_json (index + 1) rs ++ (b']' ∷ t)) a,
          read_more-results_json fuel (index + 1) rs t (omega arith) (omega arith) b,
        )
        refl

length-result_json : (r : SearchResult) → 0 < length (result_json r)
length-result_json r =
    let h = ap length (sym (append-nil (result_json r)) ∙ result_json-append r []) in
    omega (arith, h)

length-results_json :
    (index : ℕ) (rs : List SearchResult) → length rs ≤ length (results_json index rs)
unfolding results_json
length-results_json index [] = omega arith
length-results_json index (r ∷ rs) =
    let long = length-results_json (index + 1) rs in
    let sum = length-append (result_json r) (results_json (index + 1) rs) in
    let one = length-result_json r in
    if_cases (λ x. suc (length rs) ≤ length x) (ltb 0 index)
      (b',' ∷ (result_json r ++ results_json (index + 1) rs))
      (result_json r ++ results_json (index + 1) rs) (λ e. omega (arith, long, sum, one))
      (λ e. omega (arith, long, sum, one))

-- A text that starts with a result.
read_list_first :
    (r : SearchResult) (rs : List SearchResult) (u rest t : Text)
    → read_result (b'{' ∷ u) ≡ some (r, rest)
    → read_more (length u) rest ≡ some (rs, t)
    → read_list (b'{' ∷ u) ≡ some (r ∷ rs, t)
read_list_first r rs u rest t h k = rw (h, k) refl

read_list-results_json :
    (rs : List SearchResult) (t : Text)
    → All IsResult rs
    → read_list (results_json 0 rs ++ (b']' ∷ t)) ≡ some (rs, t)
unfolding results_json
read_list-results_json [] t a = refl
read_list-results_json (r ∷ rs) t (a, b) =
    let rest : Text = results_json 1 rs ++ (b']' ∷ t) in
    let u : Text = codes "\"path\":\"" ++ from_path r rest in
    let text =
      append_assoc (result_json r) (results_json 1 rs) (b']' ∷ t) ∙ result_json-append r rest in
    let long = ap length (sym (result_json-append r rest)) ∙ length-append (result_json r) rest in
    let tail = length-append (results_json 1 rs) (b']' ∷ t) in
    let one = length-result_json r in
    let more = length-results_json 1 rs in
    ap read_list text
    ∙ read_list_first r rs u rest t
        (ap read_result (sym (result_json-append r rest)) ∙ read_result-result_json r rest a)
        (read_more-results_json (length u) 1 rs t (omega arith)
          (omega (arith, long, tail, one, more)) b)

-- A reader gets the results back, in their order, from the whole text that is written for them, with
-- any characters in their paths, if their numbers have at most 20 digits.
pub read_results-search_results_json :
    (rs : List SearchResult)
    → All IsResult rs
    → read_results (search_results_json rs) ≡ some (rs, [])
unfolding search_results_json
read_results-search_results_json rs a = rw (read_list-results_json rs (codes "\n") a) refl
