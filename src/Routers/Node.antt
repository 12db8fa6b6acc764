-- ===== src/Routers/Node.antt =====
-- src/piconaut/routers/declare.h and router_node.h: the nodes of the route tree. `H` is the type of
-- the handlers behind `Route::HandlerFn`.
pub mod Lookup
use piconaut.Prelude.{ℕ, Str, [], Option, none, some, nat_eq, list_eq, ◌==◌, if◌then◌else◌}

pub data NodeType : Type 0 where
  static parameter : NodeType

-- A default-constructed `std::regex`, or the pattern ^[a-zA-Z0-9_-]+$.
pub data ParamRegex : Type 0 where
  unset param_pattern : ParamRegex

-- The fields of `RouterNode` in their order; `none` is a null handler.
mutual
  pub data RouterNode (H : Type 0) : Type 0 where
    node : Children H → Option H → NodeType → Str → ParamRegex → ℕ → RouterNode H

  pub data Children (H : Type 0) : Type 0 where
    nil : Children H
    child : Str → RouterNode H → Children H → Children H

module _ {H : Type 0} where
  abbrev pub children : RouterNode H → Children H
  children (node c h t p r k) = c

  abbrev pub handler : RouterNode H → Option H
  handler (node c h t p r k) = h

  abbrev pub type : RouterNode H → NodeType
  type (node c h t p r k) = t

  abbrev pub param_name : RouterNode H → Str
  param_name (node c h t p r k) = p

  abbrev pub param_regex : RouterNode H → ParamRegex
  param_regex (node c h t p r k) = r

  abbrev pub key : RouterNode H → ℕ
  key (node c h t p r k) = k

  abbrev pub with_children : Children H → RouterNode H → RouterNode H
  with_children c' (node c h t p r k) = node c' h t p r k

  -- `children.find(name)`
  unfoldable pub find_child : Str → Children H → Option (RouterNode H)
  find_child name nil = none
  find_child name (child other n c) = if other == name then some n else find_child name c

  -- `children[name] = n`
  unfoldable pub put_child : Str → RouterNode H → Children H → Children H
  put_child name n nil = child name n nil
  put_child name n (child other m c) =
      if other == name then child other n c else child other m (put_child name n c)

-- `std::make_unique<RouterNode>()`, which value-initialises the node: a class without a constructor of
-- its own is filled with zeros before the initialisers of its members run, so that its key is 0.
abbrev pub new_node : {H : Type 0} → RouterNode H
new_node = node nil none static [] unset 0
