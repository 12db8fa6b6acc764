-- ===== src/Routers/Router/Captures.antt =====
-- What `MatchRoute` of src/piconaut/routers/router.cc writes to `params`.
use piconaut.Prelude.{
  Str, true, List, [], ◌∷◌, Map, insert, ◌≡◌, inl, inr, arith, All, Bool-cases, Option-cases,
  list_eq, nat_eq,
}
use piconaut.Routers.Node.{ParamRegex, unset, param_pattern, RouterNode, param_regex, param_name}
use piconaut.Routers.Router.{
  Router, regex_match, static_child, param_child, match_parts, match_route,
}
use piconaut.Utils.Strings.{split_string}

-- Every value of the map is a value that a parameter takes.
abbrev pub AreValues : Map Str Str → Type 0
AreValues = All (λ e. regex_match e.1 param_pattern ≡ true)

insert-AreValues :
    (name q : Str) (params : Map Str Str)
    → regex_match q param_pattern ≡ true
    → AreValues params
    → AreValues (insert name q params)
insert-AreValues name q [] v h = (v, tt)
insert-AreValues name q ((other, w) ∷ params) v (p, h) =
    ground (arith, insert-AreValues name q params v h)

-- Only the pattern matches anything.
pub pattern_of_match :
    (q : Str) (r : ParamRegex) → regex_match q r ≡ true → regex_match q param_pattern ≡ true
pattern_of_match q unset h = absurd (unfold regex_match in ground arith)
pattern_of_match q param_pattern h = h

module _ {H : Type 0} where
  pub match_parts-AreValues :
      (parts : List Str) (params : Map Str Str) (n : RouterNode H)
      → AreValues params
      → AreValues (match_parts parts params n).1
  unfolding match_parts
  match_parts-AreValues [] params n h = h
  match_parts-AreValues (part ∷ parts) params n h = elim (Option-cases (static_child part n)) [
    | inr (m, e) ↦ rw (e, match_parts) (match_parts-AreValues parts params m h)
    | inl e ↦ elim (Option-cases (param_child n)) [
      | inl e' ↦ rw (e, e', match_parts) h
      | inr (m, e') ↦ elim (Bool-cases (regex_match part (param_regex m))) [
        | inl v ↦
            rw (e, e', v, match_parts)
              (match_parts-AreValues parts (insert (param_name m) part params) m (
                insert-AreValues (param_name m) part params
                  (pattern_of_match part (param_regex m) v) h))
        | inr v ↦ rw (e, e', v, match_parts) h
      ]
    ]
  ]

  -- For any router and any path: if every value in params consists of at least one character, each
  -- a letter, a digit, "_" or "-", then so does every value after match_route, whether a route is
  -- found or not.
  pub match_route-AreValues :
      (path : Str) (params : Map Str Str) (router : Router H)
      → AreValues params
      → AreValues (match_route path params router).1
  unfolding match_route
  match_route-AreValues path params router h =
      match_parts-AreValues (split_string path b'/') params router.root h
