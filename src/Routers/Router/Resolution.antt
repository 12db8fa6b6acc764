-- ===== src/Routers/Router/Resolution.antt =====
-- `MatchRoute` of src/piconaut/routers/router.cc against the route tree as a map: what it finds
-- stands at the names of the request's parts, or at the common name of the parameters.
use piconaut.Prelude.{
  Str, true, false, Option, none, some, List, [], ◌∷◌, Map, insert, ◌≡◌, refl, ◌⊎◌, inl, inr, arith,
  Bool-cases, Option-cases, ◌∙◌, ap, list_eq, nat_eq,
}
use piconaut.Routers.Node.{param_pattern, RouterNode, param_regex, param_name, children, find_child}
use piconaut.Routers.Router.{
  regex_match, braces, static_child, if_static, if_parameter, param_child, RouterMatchResult,
  no_match, match_parts, matched, is_empty,
}
use piconaut.Routers.Router.Walk.{walk}
use piconaut.Routers.Router.Matching.{
  match-static_child, match-param_child, match-no_child, match-mismatch,
}
use piconaut.Routers.Router.Captures.{pattern_of_match}

-- The names at which a request's parts may be served.
abbrev pub Serves : List Str → List Str → Type 0
Serves [] [] = Unit
Serves (name ∷ names) (q ∷ qs) =
    ((name ≡ q) ⊎ ((name ≡ braces) × (regex_match q param_pattern ≡ true))) × Serves names qs
Serves _ _ = ⊥

module _ {H : Type 0} where
  -- A result that is not empty is the node at names that serve the request.
  pub record Resolved (qs : List Str) (params : Map Str Str) (n : RouterNode H) : Type 0 where
    pub names : List Str
    pub found : RouterNode H
    pub serves : Serves names qs
    pub there : walk names n ≡ some found
    pub result : (match_parts qs params n).0 ≡ matched found

  pub child_of_static :
      (o : Option (RouterNode H)) (m : RouterNode H) → if_static o ≡ some m → o ≡ some m
  child_of_static none m e = e
  child_of_static (some n) m e = ground arith

  pub child_of_parameter :
      (o : Option (RouterNode H)) (m : RouterNode H) → if_parameter o ≡ some m → o ≡ some m
  child_of_parameter none m e = e
  child_of_parameter (some n) m e = ground arith

  pub walk_step :
      (name : Str) (names : List Str) (n m : RouterNode H)
      → find_child name (children n) ≡ some m
      → walk (name ∷ names) n ≡ walk names m
  unfolding walk
  walk_step name names n m e = rw (e, walk) refl

  Resolved-static :
      (q : Str) (qs : List Str) (params : Map Str Str) (n m : RouterNode H)
      → static_child q n ≡ some m
      → Resolved qs params m
      → Resolved (q ∷ qs) params n
  Resolved-static q qs params n m e r = record {
    names = q ∷ r.names;
    found = r.found;
    serves = (inl refl, r.serves);
    there = walk_step q r.names n m (child_of_static _ m e) ∙ r.there;
    result =
        ap (λ (x : RouterMatchResult H × Map Str Str). x.0) (match-static_child q qs params n m e)
        ∙ r.result;
  }

  Resolved-param :
      (q : Str) (qs : List Str) (params : Map Str Str) (n m : RouterNode H)
      → static_child q n ≡ none
      → param_child n ≡ some m
      → regex_match q (param_regex m) ≡ true
      → Resolved qs (insert (param_name m) q params) m
      → Resolved (q ∷ qs) params n
  Resolved-param q qs params n m e p v r = record {
    names = braces ∷ r.names;
    found = r.found;
    serves = (inr (refl, pattern_of_match q (param_regex m) v), r.serves);
    there = walk_step braces r.names n m (child_of_parameter _ m p) ∙ r.there;
    result =
        ap (λ (x : RouterMatchResult H × Map Str Str). x.0)
          (match-param_child q qs params n m e p v)
        ∙ r.result;
  }

  pub not_empty :
      {params : Map Str Str} {r : RouterMatchResult H × Map Str Str}
      → r ≡ (no_match, params)
      → is_empty r.0 ≡ false
      → ⊥
  unfolding is_empty
  not_empty e h = cc (rw e at h)

  -- When match_parts returns a result that is not empty, the result is the key and the handler of a
  -- node that stands in the tree at names that serve the request: for each part of the request its
  -- own text, or the name "{}" where the part consists of letters, digits, "_" and "-".
  pub resolve :
      (qs : List Str) (params : Map Str Str) (n : RouterNode H)
      → is_empty (match_parts qs params n).0 ≡ false
      → Resolved qs params n
  resolve [] params n h = record {
    names = [];
    found = n;
    serves = tt;
    there = unfold walk in refl;
    result = unfold match_parts in refl;
  }
  resolve (q ∷ qs) params n h = elim (Option-cases (static_child q n)) [
    | inr (m, e) ↦
        Resolved-static q qs params n m e
          (resolve qs params m (rw (match-static_child q qs params n m e) at h))
    | inl e ↦ elim (Option-cases (param_child n)) [
      | inl e' ↦ absurd (not_empty (match-no_child q qs params n e e') h)
      | inr (m, e') ↦ elim (Bool-cases (regex_match q (param_regex m))) [
        | inl v ↦ Resolved-param q qs params n m e e' v (
            resolve qs (insert (param_name m) q params) m
              (rw (match-param_child q qs params n m e e' v) at h))
        | inr v ↦ absurd (not_empty (match-mismatch q qs params n m e e' v) h)
      ]
    ]
  ]
