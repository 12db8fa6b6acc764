-- ===== src/Routers/Router/Matching.antt =====
-- `MatchRoute` of src/piconaut/routers/router.cc after `AddRoute`: the request that a new route
-- is chosen for, and what it captures.
use piconaut.Prelude.{
  ℕ, Str, true, false, ◌-◌, length, none, some, List, [], ◌∷◌, ◌++◌, Map, insert, ◌≡◌, refl, ◌∙◌,
  sym, ap, nat_eq, list_eq, if◌then◌else◌, append-nil,
}
use piconaut.Utils.Strings.{substr}
use piconaut.Routers.Node.{param_pattern, RouterNode, node, param_name, param_regex}
use piconaut.Routers.Router.{
  is_param, normalized_part, regex_match, mark, add_parts, static_child, param_child, no_match,
  matched, match_parts,
}
use piconaut.Routers.Router.Walk.{child_or_new}
use piconaut.Routers.Router.Added.{
  children-mark, grown, grown-IsParam, static_child-add_literal, static_child-add_param,
  param_child-add_param,
}

-- The name between the braces.
abbrev pub name_of : Str → Str
name_of part = substr part 1 (length part - 2)

-- What a route captures from a request, part by part.
abbrev pub capture : Str → Str → Map Str Str → Map Str Str
capture part q params = if is_param part then insert (name_of part) q params else params

abbrev pub captured : List Str → List Str → Map Str Str → Map Str Str
captured (part ∷ parts) (q ∷ qs) params = captured parts qs (capture part q params)
captured _ _ params = params

module _ {H : Type 0} where
  -- A part of a route takes a part of a request at a node: a literal takes itself, and a parameter
  -- takes a value that matches the pattern, unless a static child has that name.
  pub data Takes (part q : Str) (n : RouterNode H) : Type 0 where
    literally : is_param part ≡ false → q ≡ part → Takes part q n
    as_param :
        is_param part ≡ true
        → regex_match q param_pattern ≡ true
        → static_child q n ≡ none
        → Takes part q n

  -- The route's parts take the request's parts, below the node.
  abbrev pub Chosen : List Str → List Str → RouterNode H → Type 0
  Chosen [] [] n = Unit
  Chosen (part ∷ parts) (q ∷ qs) n =
      Takes part q n × Chosen parts qs (child_or_new (normalized_part part) n)
  Chosen _ _ n = ⊥

  -- The node that the route's parts lead to, marked on the way.
  abbrev pub descend : List Str → RouterNode H → RouterNode H
  descend [] n = n
  descend (part ∷ parts) n = descend parts (mark part (child_or_new (normalized_part part) n))

  Takes-mark :
      (other part q : Str) (n : RouterNode H) → Takes part q n → Takes part q (mark other n)
  Takes-mark other part q n (literally e s) = literally e s
  Takes-mark other part q n (as_param e v s) = as_param e v (rw children-mark s)

  Chosen-mark :
      (other : Str) (parts qs : List Str) (n : RouterNode H)
      → Chosen parts qs n
      → Chosen parts qs (mark other n)
  Chosen-mark other [] [] n c = c
  Chosen-mark other [] (q ∷ qs) n c = c
  Chosen-mark other (part ∷ parts) [] n c = c
  Chosen-mark other (part ∷ parts) (q ∷ qs) n (t, c) =
      (Takes-mark other part q n t, rw children-mark c)

  module _ (q : Str) (qs : List Str) (params : Map Str Str) (n m : RouterNode H) where
    pub match-static_child :
        static_child q n ≡ some m → match_parts (q ∷ qs) params n ≡ match_parts qs params m
    unfolding match_parts
    match-static_child e = rw (e, match_parts) refl

    pub match-param_child :
        static_child q n ≡ none
        → param_child n ≡ some m
        → regex_match q (param_regex m) ≡ true
        → match_parts (q ∷ qs) params n ≡ match_parts qs (insert (param_name m) q params) m
    unfolding match_parts
    match-param_child e p v = rw (e, p, v, match_parts) refl

    pub match-mismatch :
        static_child q n ≡ none
        → param_child n ≡ some m
        → regex_match q (param_regex m) ≡ false
        → match_parts (q ∷ qs) params n ≡ (no_match, params)
    unfolding match_parts
    match-mismatch e p v = rw (e, p, v, match_parts) refl

  pub match-no_child :
      (q : Str) (qs : List Str) (params : Map Str Str) (n : RouterNode H)
      → static_child q n ≡ none
      → param_child n ≡ none
      → match_parts (q ∷ qs) params n ≡ (no_match, params)
  unfolding match_parts
  match-no_child q qs params n e p = rw (e, p, match_parts) refl

  module _ (k : ℕ) (h : H) where
    -- One part of the request goes to the child that the route has grown.
    match_step :
        (part q : Str) (parts qs : List Str) (params : Map Str Str) (n : RouterNode H)
        → Takes part q n
        → match_parts (q ∷ qs) params (add_parts (part ∷ parts) k h n)
          ≡ match_parts qs (capture part q params) (grown k h part parts n)
    match_step part q parts qs params n (literally e s) =
        rw (s, e)
          (match-static_child part qs params (add_parts (part ∷ parts) k h n)
            (grown k h part parts n) (static_child-add_literal k h part parts n e))
    match_step part q parts qs params n (as_param e v s) =
        let i = grown-IsParam k h part parts n e in
        match-param_child q qs params (add_parts (part ∷ parts) k h n) (grown k h part parts n)
          (static_child-add_param k h part parts n q e v ∙ s)
          (param_child-add_param k h part parts n e) (ap (regex_match q) i.patterned ∙ v)
        ∙ rw (e, i.named) refl

    match-descend :
        (parts rest qs more : List Str) (params : Map Str Str) (n : RouterNode H)
        → Chosen parts qs n
        → match_parts (qs ++ more) params (add_parts (parts ++ rest) k h n)
          ≡ match_parts more (captured parts qs params) (add_parts rest k h (descend parts n))
    match-descend [] rest [] more params n c = refl
    match-descend [] rest (q ∷ qs) more params n c = absurd c
    match-descend (part ∷ parts) rest [] more params n c = absurd c
    match-descend (part ∷ parts) rest (q ∷ qs) more params n (t, c) =
        match_step part q (parts ++ rest) (qs ++ more) params n t
        ∙ match-descend parts rest qs more (capture part q params)
            (mark part (child_or_new (normalized_part part) n))
            (Chosen-mark part parts qs (child_or_new (normalized_part part) n) c)

    matched-set_endpoint :
        (n : RouterNode H)
        → matched (add_parts [] k h n) ≡ record { executor = some (some h); key = some k }
    matched-set_endpoint (node c h' t p r k') = unfold add_parts in refl

    pub match-add_parts :
        (parts qs : List Str) (params : Map Str Str) (n : RouterNode H)
        → Chosen parts qs n
        → match_parts qs params (add_parts parts k h n)
          ≡ (record { executor = some (some h); key = some k }, captured parts qs params)
    match-add_parts parts qs params n c =
        ap (λ p. match_parts qs params (add_parts p k h n)) (sym (append-nil parts))
        ∙ ap (λ q. match_parts q params (add_parts (parts ++ []) k h n)) (sym (append-nil qs))
        ∙ match-descend parts [] qs [] params n c
        ∙ unfold match_parts in
          ap (λ r. (r, captured parts qs params)) (matched-set_endpoint (descend parts n))

    -- Before the last part of the route the request is at a node that the route does not serve.
    pub match_short :
        (parts : List Str) (part : Str) (rest qs : List Str) (params : Map Str Str)
        (n : RouterNode H)
        → Chosen parts qs n
        → match_parts qs params (add_parts (parts ++ part ∷ rest) k h n)
          ≡ (matched (add_parts (part ∷ rest) k h (descend parts n)), captured parts qs params)
    match_short parts part rest qs params n c =
        ap (λ q. match_parts q params (add_parts (parts ++ part ∷ rest) k h n))
          (sym (append-nil qs))
        ∙ match-descend parts (part ∷ rest) qs [] params n c
        ∙ unfold match_parts in refl
