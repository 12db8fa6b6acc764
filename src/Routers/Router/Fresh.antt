-- ===== src/Routers/Router/Fresh.antt =====
-- Small route trees of src/piconaut/routers/router.cc: one or two routes added to a fresh router.
use piconaut.Prelude.{
  ℕ, Str, true, false, Bool-cases, inl, inr, none, some, List, [], ◌∷◌, ◌++◌, Map, ◌≡◌, refl, ◌∙◌,
  ap, nat_eq, list_eq, ◌==◌,
}
use piconaut.Routers.Node.{
  param_pattern, nil, RouterNode, node, children, handler, key, new_node, find_child,
}
use piconaut.Routers.Router.{
  is_param, normalized_part, braces, regex_match, mark, add_parts, match_parts, matched,
}
use piconaut.Routers.Router.Walk.{child_or_new}
use piconaut.Routers.Router.Matching.{
  captured, Takes, literally, as_param, Chosen, descend, match_short,
}

-- A part of a route fits a part of a request.
pub data Fits (part q : Str) : Type 0 where
  same : is_param part ≡ false → q ≡ part → Fits part q
  value : is_param part ≡ true → regex_match q param_pattern ≡ true → Fits part q

abbrev pub AllFit : List Str → List Str → Type 0
AllFit [] [] = Unit
AllFit (part ∷ parts) (q ∷ qs) = Fits part q × AllFit parts qs
AllFit _ _ = ⊥

module _ (H : Type 0) where
  Takes-Fits : (part q : Str) → Fits part q → Takes part q (new_node {H = H})
  Takes-Fits part q (same e s) = literally e s
  Takes-Fits part q (value e v) = as_param e v (unfold find_child in refl)

  child_or_new_of_new : (name : Str) → child_or_new name (new_node {H = H}) ≡ new_node
  child_or_new_of_new name = unfold find_child in refl

  pub Chosen-Fits : (parts qs : List Str) → AllFit parts qs → Chosen parts qs (new_node {H = H})
  Chosen-Fits [] [] f = f
  Chosen-Fits [] (q ∷ qs) f = f
  Chosen-Fits (part ∷ parts) [] f = f
  Chosen-Fits (part ∷ parts) (q ∷ qs) (f, fs) =
      (Takes-Fits part q f, rw child_of (Chosen-Fits parts qs fs))
    where
      child_of : child_or_new (normalized_part part) (new_node {H = H}) ≡ new_node
      child_of = child_or_new_of_new (normalized_part part)

-- A node as `make_unique<RouterNode>()` leaves it, but for its type, name and pattern.
record IsBare {H : Type 0} (n : RouterNode H) : Type 0 where
  pub no_handler : handler n ≡ none
  pub zero_key : key n ≡ 0
  pub no_child : children n ≡ nil

module _ {H : Type 0} where
  mark-IsBare : (part : Str) (n : RouterNode H) → IsBare n → IsBare (mark part n)
  unfolding mark
  mark-IsBare part (node c h t p r k) b = elim (Bool-cases (normalized_part part == braces)) [
    | inl e ↦
        rw e (record { no_handler = b.no_handler; zero_key = b.zero_key; no_child = b.no_child })
    | inr e ↦
        rw e (record { no_handler = b.no_handler; zero_key = b.zero_key; no_child = b.no_child })
  ]

  child_of_bare : (name : Str) (n : RouterNode H) → IsBare n → child_or_new name n ≡ new_node
  child_of_bare name n b = rw b.no_child (unfold find_child in refl)

  descend-IsBare : (parts : List Str) (n : RouterNode H) → IsBare n → IsBare (descend parts n)
  descend-IsBare [] n b = b
  descend-IsBare (part ∷ parts) n b =
      descend-IsBare parts (mark part (child_or_new (normalized_part part) n)) (
        mark-IsBare part _ (
          rw (child_of_bare (normalized_part part) n b)
            (record { no_handler = refl; zero_key = refl; no_child = refl })))

  matched-add_cons :
      (part : Str) (parts : List Str) (k : ℕ) (h : H) (n : RouterNode H)
      → IsBare n
      → matched (add_parts (part ∷ parts) k h n) ≡ record { executor = some none; key = some 0 }
  unfolding add_parts
  matched-add_cons part parts k h (node c h' t p r k') b = rw (b.no_handler, b.zero_key) refl

  module _ (k : ℕ) (h : H) where
    -- A request for the first parts of a route, where the router has no other: the result is not
    -- empty, though it points to an empty function and to the key 0.
    pub match_prefix :
        (parts : List Str) (part : Str) (rest qs : List Str) (params : Map Str Str)
        → AllFit parts qs
        → match_parts qs params (add_parts (parts ++ part ∷ rest) k h new_node)
          ≡ (record { executor = some none; key = some 0 }, captured parts qs params)
    match_prefix parts part rest qs params fit =
        match_short k h parts part rest qs params new_node (Chosen-Fits H parts qs fit)
        ∙ ap (λ r. (r, captured parts qs params))
            (matched-add_cons part rest k h (descend parts new_node) (
              descend-IsBare parts new_node
                (record { no_handler = refl; zero_key = refl; no_child = refl })))
