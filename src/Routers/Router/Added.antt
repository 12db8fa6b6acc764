-- ===== src/Routers/Router/Added.antt =====
-- The node that the loop of `AddRoute` in src/piconaut/routers/router.cc leaves behind.
use piconaut.Prelude.{
  ℕ, Str, true, false, ◌-◌, length, some, List, [], ◌∷◌, ◌≡◌, refl, arith, nat_eq, list_eq, str_iff,
  list_beq, ◌==◌, if◌then◌else◌,
}
use piconaut.Utils.Strings.{substr}
use piconaut.Routers.Node.{
  static, parameter, param_pattern, RouterNode, node, children, type, param_name, param_regex,
  handler, find_child,
}
use piconaut.Routers.Node.Lookup.{find_child-put_child}
use piconaut.Routers.Router.{
  is_param, braces, normalized_part, regex_match, mark, add_parts, static_child, param_child,
}
use piconaut.Routers.Router.Walk.{child_or_new}

braces_IsParam : is_param braces ≡ true
braces_IsParam = refl

module _ (part : Str) where
  pub normalized_part_of_literal : is_param part ≡ false → normalized_part part ≡ part
  unfolding normalized_part
  normalized_part_of_literal h = rw h

  pub normalized_part_of_param : is_param part ≡ true → normalized_part part ≡ braces
  unfolding normalized_part
  normalized_part_of_param h = rw h

  pub literal-ne-braces : is_param part ≡ false → (part == braces) ≡ false
  literal-ne-braces h = ground (arith, str_iff part braces, braces_IsParam)

-- A value that a parameter takes is no brace pair.
pub value-ne-braces : (q : Str) → regex_match q param_pattern ≡ true → (braces == q) ≡ false
value-ne-braces q h = ground (arith, str_iff braces q, braces_fail)
  where
    braces_fail : regex_match braces param_pattern ≡ false
    braces_fail = unfold regex_match in refl

module _ {H : Type 0} where
  pub children-mark : (part : Str) (n : RouterNode H) → children (mark part n) ≡ children n
  unfolding mark
  children-mark part (node c h t p r k) = ground arith

  pub handler-mark : (part : Str) (n : RouterNode H) → handler (mark part n) ≡ handler n
  unfolding mark
  handler-mark part (node c h t p r k) = ground arith

  type-mark_literal :
      (part : Str) (n : RouterNode H) → is_param part ≡ false → type (mark part n) ≡ static
  unfolding mark
  type-mark_literal part (node c h t p r k) e =
      ground (arith, normalized_part_of_literal part e, literal-ne-braces part e)

  -- What marks a node as a parameter.
  pub record IsParam (name : Str) (n : RouterNode H) : Type 0 where
    pub is_parameter : type n ≡ parameter
    pub named : param_name n ≡ name
    pub patterned : param_regex n ≡ param_pattern

  mark-IsParam :
      (part : Str) (n : RouterNode H)
      → is_param part ≡ true
      → IsParam (substr part 1 (length part - 2)) (mark part n)
  unfolding mark list_beq
  mark-IsParam part (node c h t p r k) e =
      rw (normalized_part_of_param part e)
        (record { is_parameter = refl; named = refl; patterned = refl })

  module _ (k : ℕ) (h : H) where
    type-add_parts : (parts : List Str) (n : RouterNode H) → type (add_parts parts k h n) ≡ type n
    unfolding add_parts
    type-add_parts [] (node c h' t p r k') = refl
    type-add_parts (part ∷ parts) (node c h' t p r k') = refl

    add_parts-IsParam :
        (parts : List Str) (name : Str) (n : RouterNode H)
        → IsParam name n
        → IsParam name (add_parts parts k h n)
    unfolding add_parts
    add_parts-IsParam [] name (node c h' t p r k') i = record {
      is_parameter = i.is_parameter;
      named = i.named;
      patterned = i.patterned;
    }
    add_parts-IsParam (part ∷ parts) name (node c h' t p r k') i = record {
      is_parameter = i.is_parameter;
      named = i.named;
      patterned = i.patterned;
    }

    pub handler-add_cons :
        (part : Str) (parts : List Str) (n : RouterNode H)
        → handler (add_parts (part ∷ parts) k h n) ≡ handler n
    unfolding add_parts
    handler-add_cons part parts (node c h' t p r k') = refl

    -- The child on the way of the new route, when the rest of the route has been added to it.
    abbrev pub grown : Str → List Str → RouterNode H → RouterNode H
    grown part parts n = add_parts parts k h (mark part (child_or_new (normalized_part part) n))

    pub find_child-add_parts :
        (part : Str) (parts : List Str) (n : RouterNode H) (name : Str)
        → find_child name (children (add_parts (part ∷ parts) k h n)) ≡ (
            if normalized_part part == name
            then some (grown part parts n)
            else find_child name (children n))
    unfolding add_parts
    find_child-add_parts part parts (node c h' t p r k') name =
        find_child-put_child (normalized_part part) name (grown part parts (node c h' t p r k')) c

    module _ (part : Str) (parts : List Str) (n : RouterNode H) where
      pub static_child-add_literal :
          is_param part ≡ false
          → static_child part (add_parts (part ∷ parts) k h n) ≡ some (grown part parts n)
      static_child-add_literal e =
          rw (find_child-add_parts, normalized_part_of_literal part e, (str_iff part part).1 refl)
            (rw
              (
                type-add_parts parts (mark part (child_or_new part n)),
                type-mark_literal part (child_or_new part n) e,
              )
              refl)

      pub static_child-add_param :
          (q : Str)
          → is_param part ≡ true
          → regex_match q param_pattern ≡ true
          → static_child q (add_parts (part ∷ parts) k h n) ≡ static_child q n
      static_child-add_param q e v =
          rw (find_child-add_parts, normalized_part_of_param part e, value-ne-braces q v)

      pub param_child-add_param :
          is_param part ≡ true
          → param_child (add_parts (part ∷ parts) k h n) ≡ some (grown part parts n)
      param_child-add_param e =
          rw (find_child-add_parts, normalized_part_of_param part e, (str_iff braces braces).1 refl)
            (rw
              (add_parts-IsParam parts _ (mark part (child_or_new braces n))
                (mark-IsParam part (child_or_new braces n) e)).is_parameter
              refl)

      pub grown-IsParam :
          is_param part ≡ true → IsParam (substr part 1 (length part - 2)) (grown part parts n)
      grown-IsParam e =
          add_parts-IsParam parts _ _ (mark-IsParam part (child_or_new (normalized_part part) n) e)
