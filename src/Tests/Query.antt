-- ===== src/Tests/Query.antt =====
-- `GetQueryString` of src/piconaut/http/request.cc at fixed inputs, with a search that goes from place
-- to place.
use piconaut.Prelude.{
  ℕ, zero, suc, ◌+◌, Str, bytes, false, Option, none, some, [], ◌∷◌, ◌++◌, length, take, ◌≡◌, ◌≢◌,
  refl, ap, ◌∙◌, arith, nat_eq, list_eq, list_beq, str_iff, ◌==◌, if◌then◌else◌,
}
use piconaut.Http.Query.{get_query_string}
use piconaut.Http.Query.Values.{FindsFirst, NotBefore, IsValue, query_value}

abbrev search : ℕ → Str → Str → Option ℕ
search pos [] name = if take (length name) [] == name then some pos else none
search pos (c ∷ s) name =
    let rest = search (suc pos) s name in
    if take (length name) (c ∷ s) == name then some pos else rest

take_append : (s t : Str) → take (length s) (s ++ t) ≡ s
take_append [] t = refl
take_append (c ∷ s) t = ap (λ (r : Str). c ∷ r) (take_append s t)

search_here : (pos : ℕ) (s name : Str) → take (length name) s ≡ name → search pos s name ≡ some pos
search_here pos [] name e = rw ((str_iff _ name).1 e) refl
search_here pos (c ∷ s) name e = rw ((str_iff _ name).1 e) refl

differ : (s t : Str) → s ≢ t → (s == t) ≡ false
differ s t ne = ground (arith, str_iff s t)

apart : (s t : Str) → (s == t) ≡ false → s ≢ t
apart s t f = ground (arith, str_iff s t)

search_first :
    (pos : ℕ) (pre name post : Str)
    → NotBefore (length pre) name (pre ++ (name ++ post))
    → search pos (pre ++ (name ++ post)) name ≡ some (pos + length pre)
search_first pos [] name post h =
    search_here pos (name ++ post) name (take_append name post) ∙ ap (λ n. some n) (omega arith)
search_first pos (c ∷ pre) name post h = rw (differ _ name (h 0 (omega arith))) (
    search_first (suc pos) pre name post (λ i less. h (suc i) (omega arith))
    ∙ ap (λ n. some n) (omega arith))

strstr-FindsFirst : FindsFirst (search 0)
strstr-FindsFirst pre name post h = search_first 0 pre name post h ∙ ap (λ n. some n) (omega arith)

query_value_example :
    get_query_string (search 0) (bytes "/p?a=1&id=42&b=2") (some 2) (bytes "id") ≡ some (bytes "42")
unfolding list_beq
query_value_example =
    query_value (search 0) (bytes "/p?a=1&id=42&b=2") 2 (bytes "a=1&") (bytes "id") (bytes "42")
      (bytes "&b=2") strstr-FindsFirst refl not_before not_ends refl
  where
    not_ends : IsValue (bytes "42")
    not_ends = (omega arith, (omega arith, tt))

    not_before : NotBefore 4 (bytes "id") (bytes "a=1&id=42&b=2")
    not_before zero less = apart _ _ refl
    not_before (suc zero) less = apart _ _ refl
    not_before (suc (suc zero)) less = apart _ _ refl
    not_before (suc (suc (suc zero))) less = apart _ _ refl
    not_before (suc (suc (suc (suc i)))) less = absurd (omega arith)

-- The name is found inside another: the value of "uid" comes out for "id".
name_in_another :
    get_query_string (search 0) (bytes "/p?uid=7&id=42") (some 2) (bytes "id") ≡ some (bytes "7")
unfolding get_query_string list_beq
name_in_another = refl

-- A name that ends the query is followed by the byte behind the path.
name_at_end : get_query_string (search 0) (bytes "/p?id") (some 2) (bytes "id") ≡ none
unfolding get_query_string list_beq
name_at_end = refl
