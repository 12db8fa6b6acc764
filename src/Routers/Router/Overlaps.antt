-- ===== src/Routers/Router/Overlaps.antt =====
-- Two routes that share a node of the tree of src/piconaut/routers/router.cc.
use piconaut.Prelude.{
  ℕ, Str, true, false, none, some, [], ◌∷◌, Map, insert, ◌≡◌, refl, ◌≢◌, ◌∙◌, ap, arith, nat_eq,
  list_eq, str_iff, ◌==◌,
}
use piconaut.Routers.Node.{param_pattern, RouterNode, node, children, handler, new_node, find_child}
use piconaut.Routers.Router.{
  is_param, braces, normalized_part, regex_match, mark, add_parts, if_static, if_parameter,
  static_child, no_match, match_parts,
}
use piconaut.Routers.Router.Walk.{child_or_new}
use piconaut.Routers.Router.Added.{
  children-mark, handler-mark, handler-add_cons, grown, grown-IsParam, find_child-add_parts,
  static_child-add_literal, static_child-add_param, param_child-add_param,
  normalized_part_of_literal, normalized_part_of_param, literal-ne-braces,
}
use piconaut.Routers.Router.Matching.{
  name_of, match-static_child, match-param_child, match-no_child, match-add_parts,
}
use piconaut.Routers.Router.Fresh.{same, value, Chosen-Fits}

module _ {H : Type 0} (k₁ k₂ : ℕ) (h₁ h₂ : H) where
  -- The routes a/b and {x}/c, in this order.
  module _ (a b c x : Str) (la : is_param a ≡ false) (lb : is_param b ≡ false)
      (lc : is_param c ≡ false) (px : is_param x ≡ true) (va : regex_match a param_pattern ≡ true)
      (ne : b ≢ c) where
    abbrev literal_route : RouterNode H
    literal_route = add_parts (a ∷ b ∷ []) k₁ h₁ new_node

    abbrev both_routes : RouterNode H
    both_routes = add_parts (x ∷ c ∷ []) k₂ h₂ literal_route

    below_a : find_child c (children (grown k₁ h₁ a (b ∷ []) new_node)) ≡ none
    below_a =
        find_child-add_parts k₁ h₁ b [] (mark a (child_or_new (normalized_part a) new_node)) c
        ∙ rw (normalized_part_of_literal b lb, other)
            (ap (find_child c) (children-mark a _) ∙ unfold find_child in refl)
      where
        other : (b == c) ≡ false
        other = ground (arith, str_iff b c)

    no_param_below_a : find_child braces (children (grown k₁ h₁ a (b ∷ []) new_node)) ≡ none
    no_param_below_a =
        find_child-add_parts k₁ h₁ b [] (mark a (child_or_new (normalized_part a) new_node)) braces
        ∙ rw (normalized_part_of_literal b lb, literal-ne-braces b lb)
            (ap (find_child braces) (children-mark a _) ∙ unfold find_child in refl)

    static_a : static_child a both_routes ≡ some (grown k₁ h₁ a (b ∷ []) new_node)
    static_a =
        static_child-add_param k₂ h₂ x (c ∷ []) literal_route a px va
        ∙ static_child-add_literal k₁ h₁ a (b ∷ []) new_node la

    -- With the routes a/b and {x}/c added in this order to an empty tree, where a, b and c are
    -- literals, a is a value that a parameter takes, and b differs from c: the request a/c finds
    -- nothing and captures nothing, while in a tree with {x}/c alone it finds that route and
    -- captures a.
    pub no_backtracking :
        (params : Map Str Str)
        → (match_parts (a ∷ c ∷ []) params both_routes ≡ (no_match, params))
          × (match_parts (a ∷ c ∷ []) params (add_parts (x ∷ c ∷ []) k₂ h₂ new_node)
              ≡ (record { executor = some (some h₂); key = some k₂ }, insert (name_of x) a params))
    no_backtracking params = (
      match-static_child a (c ∷ []) params both_routes (grown k₁ h₁ a (b ∷ []) new_node) static_a
          ∙ match-no_child c [] params (grown k₁ h₁ a (b ∷ []) new_node) (ap if_static below_a)
              (ap if_parameter no_param_below_a),
      match-add_parts k₂ h₂ (x ∷ c ∷ []) (a ∷ c ∷ []) params new_node
            (Chosen-Fits H (x ∷ c ∷ []) (a ∷ c ∷ []) (value px va, (same lc refl, tt)))
          ∙ rw (px, lc) refl,
    )

  -- The routes {x} and {y}/c, in this order.
  module _ (x y c v : Str) (px : is_param x ≡ true) (py : is_param y ≡ true)
      (vv : regex_match v param_pattern ≡ true) where
    abbrev one_route : RouterNode H
    one_route = add_parts (x ∷ []) k₁ h₁ new_node

    abbrev shared : RouterNode H
    shared = add_parts (y ∷ c ∷ []) k₂ h₂ one_route

    first_endpoint : (n : RouterNode H) → handler (add_parts [] k₁ h₁ n) ≡ some h₁
    first_endpoint (node d h t p r k) = unfold add_parts in refl

    still_served : handler (grown k₂ h₂ y (c ∷ []) one_route) ≡ some h₁
    still_served =
        handler-add_cons k₂ h₂ c [] (mark y (child_or_new (normalized_part y) one_route))
        ∙ handler-mark y (child_or_new (normalized_part y) one_route)
        ∙ rw
            (
              find_child-add_parts,
              normalized_part_of_param x px,
              normalized_part_of_param y py,
              (str_iff braces braces).1 refl,
            )
            (first_endpoint _)

    -- With the routes {x} and {y}/c added in this order to an empty tree, a request with one part
    -- that a parameter takes runs the handler of {x}, but its value is stored under the name y.
    pub renamed :
        (params : Map Str Str)
        → ((match_parts (v ∷ []) params shared).0.executor ≡ some (some h₁))
          × ((match_parts (v ∷ []) params shared).1 ≡ insert (name_of y) v params)
    renamed params =
        let i = grown-IsParam k₂ h₂ y (c ∷ []) one_route py in
        let e =
          match-param_child v [] params shared (grown k₂ h₂ y (c ∷ []) one_route)
            (static_child-add_param k₂ h₂ y (c ∷ []) one_route v py vv
              ∙ static_child-add_param k₁ h₁ x [] new_node v px vv
              ∙ unfold find_child in refl)
            (param_child-add_param k₂ h₂ y (c ∷ []) one_route py)
            (ap (regex_match v) i.patterned ∙ vv) in
        rw e
          (unfold match_parts in (ap some still_served, ap (λ name. insert name v params) i.named))
