-- ===== src/Routers/Router/Shape.antt =====
-- The well-formed trees of src/piconaut/routers/router.cc: the type of a node goes by its name among
-- the children of its parent.
use piconaut.Prelude.{
  ℕ, Str, true, false, Bool-cases, inl, inr, Option, none, some, or_old, List, [], ◌∷◌, ◌≡◌, refl,
  arith, nat_eq, list_eq, str_iff, ◌==◌,
}
use piconaut.Routers.Node.{
  static, parameter, param_pattern, RouterNode, node, Children, nil, child, children, type,
  param_regex, new_node, find_child, put_child,
}
use piconaut.Routers.Router.{braces, normalized_part, mark, add_parts}
use piconaut.Routers.Router.Walk.{child_or_new}

module _ {H : Type 0} where
  -- A node under the common name of the parameters is a parameter with the pattern, any other is
  -- static.
  pub record IsNamed (name : Str) (n : RouterNode H) : Type 0 where
    pub as_parameter :
        (name == braces) ≡ true → (type n ≡ parameter) × (param_regex n ≡ param_pattern)
    pub as_static : (name == braces) ≡ false → type n ≡ static

mutual
  pub IsShaped : {H : Type 0} → RouterNode H → Type 0
  IsShaped (node c h t p r k) = AreShaped c

  pub AreShaped : {H : Type 0} → Children H → Type 0
  AreShaped nil = Unit
  AreShaped (child name n c) = IsNamed name n × IsShaped n × AreShaped c

pub new_node-IsShaped : (H : Type 0) → IsShaped (new_node {H = H})
unfolding IsShaped
new_node-IsShaped H = tt

module _ {H : Type 0} where
  -- What `children.find(name)` gives, of children that are well-formed.
  abbrev pub IsShapedAt : Str → Option (RouterNode H) → Type 0
  IsShapedAt name none = Unit
  IsShapedAt name (some m) = IsNamed name m × IsShaped m

  find_child-IsShapedAt :
      (name : Str) (c : Children H) → AreShaped c → IsShapedAt name (find_child name c)
  unfolding find_child IsShaped
  find_child-IsShapedAt name nil s = tt
  find_child-IsShapedAt name (child other n c) s = elim (Bool-cases (other == name)) [
    | inl same ↦ rw same (rw (← (str_iff other name).0 same) (s.0, s.1))
    | inr differs ↦ rw differs (find_child-IsShapedAt name c s.2)
  ]

  put_child-AreShaped :
      (name : Str) (n : RouterNode H) (c : Children H)
      → IsNamed name n
      → IsShaped n
      → AreShaped c
      → AreShaped (put_child name n c)
  unfolding put_child IsShaped
  put_child-AreShaped name n nil i s t = (i, s, tt)
  put_child-AreShaped name n (child other m c) i s t = elim (Bool-cases (other == name)) [
    | inl same ↦ rw same (rw ((str_iff other name).0 same) i, s, t.2)
    | inr differs ↦ rw differs (t.0, t.1, put_child-AreShaped name n c i s t.2)
  ]

  mark-IsNamed : (part : Str) (n : RouterNode H) → IsNamed (normalized_part part) (mark part n)
  unfolding mark
  mark-IsNamed part (node c h t p r k) = elim (Bool-cases (normalized_part part == braces)) [
    | inl e ↦ rw e (record { as_parameter = λ _. (refl, refl); as_static = λ f. ground arith })
    | inr e ↦ rw e (record { as_parameter = λ f. ground arith; as_static = λ _. refl })
  ]

  mark-IsShaped : (part : Str) (n : RouterNode H) → IsShaped n → IsShaped (mark part n)
  unfolding mark IsShaped
  mark-IsShaped part (node c h t p r k) s = elim (Bool-cases (normalized_part part == braces)) [
    | inl e ↦ rw e s
    | inr e ↦ rw e s
  ]

  children-AreShaped : (n : RouterNode H) → IsShaped n → AreShaped (children n)
  unfolding IsShaped
  children-AreShaped (node c h t p r k) s = s

  pub child-IsShapedAt :
      (name : Str) (n : RouterNode H) → IsShaped n → IsShapedAt name (find_child name (children n))
  child-IsShapedAt name n s = find_child-IsShapedAt name (children n) (children-AreShaped n s)

  child_or_new-IsShaped :
      (name : Str) (n : RouterNode H) → IsShaped n → IsShaped (child_or_new name n)
  child_or_new-IsShaped name n s = given (find_child name (children n)) (child-IsShapedAt name n s)
    where
      given : (o : Option (RouterNode H)) → IsShapedAt name o → IsShaped (or_old o new_node)
      given none i = new_node-IsShaped H
      given (some m) i = i.1

  module _ (k : ℕ) (h : H) where
    add_parts-IsNamed :
        (name : Str) (parts : List Str) (n : RouterNode H)
        → IsNamed name n
        → IsNamed name (add_parts parts k h n)
    unfolding add_parts
    add_parts-IsNamed name [] (node c h' t p r k') i = record {
      as_parameter = i.as_parameter;
      as_static = i.as_static;
    }
    add_parts-IsNamed name (part ∷ parts) (node c h' t p r k') i = record {
      as_parameter = i.as_parameter;
      as_static = i.as_static;
    }

    -- Adding a route keeps a tree well-formed.
    pub add_parts-IsShaped :
        (parts : List Str) (n : RouterNode H) → IsShaped n → IsShaped (add_parts parts k h n)
    unfolding add_parts IsShaped
    add_parts-IsShaped [] (node c h' t p r k') s = s
    add_parts-IsShaped (part ∷ parts) (node c h' t p r k') s =
        let n : RouterNode H = node c h' t p r k' in
        let name = normalized_part part in
        let next = child_or_new name n in
        put_child-AreShaped name (add_parts parts k h (mark part next)) c
          (add_parts-IsNamed name parts (mark part next) (mark-IsNamed part next))
          (add_parts-IsShaped parts (mark part next)
            (mark-IsShaped part next (child_or_new-IsShaped name n s)))
          s
