-- ===== src/Routers/Router/Walk.antt =====
-- The route tree of src/piconaut/routers/router.cc as a map: from the names of the nodes on the way
-- to the key and the handler there.
use piconaut.Prelude.{
  ℕ, Str, Bool-cases, false, Option, none, some, or_old, List, [], ◌∷◌, map, ◌≡◌, refl, ap, ◌∙◌,
  inl, inr, arith, nat_eq, list_eq, list_beq, str_iff, ◌==◌, if◌then◌else◌,
}
use piconaut.Routers.Node.{
  RouterNode, node, children, handler, key, with_children, new_node, find_child, put_child,
}
use piconaut.Routers.Node.Lookup.{find_child-put_child}
use piconaut.Routers.Router.{normalized_part, mark, add_parts}

pub names_cons :
    (name other : Str) (names others : List Str)
    → list_beq (name ∷ names) (other ∷ others)
      ≡ (if other == name then list_beq names others else false)
unfolding list_beq
names_cons name other names others = ground (arith, str_iff name other, str_iff other name)

module _ {H : Type 0} where
  -- The node that the names lead to.
  unfoldable pub walk : List Str → RouterNode H → Option (RouterNode H)
  walk [] n = some n
  walk (name ∷ names) n = elim (find_child name (children n)) [
    | none ↦ none
    | some next ↦ walk names next
  ]

  -- The key and the handler of a node, and of one that is not there.
  abbrev pub route_of : Option (RouterNode H) → ℕ × Option H
  route_of none = (0, none)
  route_of (some n) = (key n, handler n)

  unfoldable pub route_at : List Str → RouterNode H → ℕ × Option H
  route_at names n = route_of (walk names n)

  route_at-mark :
      (names : List Str) (part : Str) (n : RouterNode H)
      → route_at names (mark part n) ≡ route_at names n
  unfolding route_at walk mark
  route_at-mark [] part (node c h t p r k) = ground arith
  route_at-mark (name ∷ names) part (node c h t p r k) = ground arith

  route_at-cons :
      (name : Str) (names : List Str) (n : RouterNode H)
      → route_at (name ∷ names) n ≡ route_at names (or_old (find_child name (children n)) new_node)
  unfolding route_at walk
  route_at-cons name names n =
      elim (find_child name (children n))
        as (λ o.
          route_of (elim o [ none ↦ none | some next ↦ walk names next ])
          ≡ route_of (walk names (or_old o new_node))) [
            | none ↦ new_has_no_route names
            | some next ↦ refl
          ]
    where
      new_has_no_route : (names : List Str) → (0, none) ≡ route_of (walk names (new_node {H = H}))
      new_has_no_route [] = refl
      new_has_no_route (name ∷ names) = unfold find_child in refl

  child_of_put :
      (name other : Str) (m n : RouterNode H)
      → find_child other (children (with_children (put_child name m (children n)) n))
        ≡ (if name == other then some m else find_child other (children n))
  child_of_put name other m (node c h t p r k) = find_child-put_child name other m c

  -- The node below a node, as `AddRoute` finds or makes it.
  abbrev pub child_or_new : Str → RouterNode H → RouterNode H
  child_or_new name n = or_old (find_child name (children n)) new_node

  pub child_or_new-add_parts :
      (name part : Str) (parts : List Str) (k : ℕ) (h : H) (n : RouterNode H)
      → child_or_new name (add_parts (part ∷ parts) k h n) ≡ (
          if normalized_part part == name
          then add_parts parts k h (mark part (child_or_new (normalized_part part) n))
          else child_or_new name n)
  child_or_new-add_parts name part parts k h n =
      unfold_add ∙ elim (Bool-cases (normalized_part part == name)) [
        | inl e ↦ rw (child_of_put, e)
        | inr e ↦ rw (child_of_put, e)
      ]
    where
      unfold_add :
          child_or_new name (add_parts (part ∷ parts) k h n)
          ≡ child_or_new name (
              with_children
                (put_child
                  (normalized_part part)
                  (add_parts parts k h (mark part (child_or_new (normalized_part part) n)))
                  (children n))
                n)
      unfold_add = unfold add_parts in refl

  add_parts_step :
      (name part : Str) (names parts : List Str) (k : ℕ) (h : H) (n : RouterNode H)
      → ((m : RouterNode H)
          → route_at names (add_parts parts k h m)
            ≡ (if names == map normalized_part parts then (k, some h) else route_at names m))
      → route_at (name ∷ names) (add_parts (part ∷ parts) k h n) ≡ (
          if name ∷ names == map normalized_part (part ∷ parts)
          then (k, some h)
          else route_at (name ∷ names) n)
  add_parts_step name part names parts k h n ih =
      route_at-cons name names (add_parts (part ∷ parts) k h n)
      ∙ ap (route_at names) (child_or_new-add_parts name part parts k h n)
      ∙ elim (Bool-cases (normalized_part part == name)) [
        | inl e ↦
            rw (names_cons, e, route_at-cons, ← (str_iff _ _).0 e)
              (ih (mark part (child_or_new (normalized_part part) n)) ∙ rw route_at-mark refl)
        | inr e ↦ rw (names_cons, e, route_at-cons) refl
      ]

  -- The route tree is a map from the names on the way down to the key and the handler there: adding
  -- the parts of a route changes this map at the normalized names of the parts, where it puts the
  -- route's key and handler, and nowhere else.
  pub route_at-add_parts :
      (names parts : List Str) (k : ℕ) (h : H) (n : RouterNode H)
      → route_at names (add_parts parts k h n)
        ≡ (if names == map normalized_part parts then (k, some h) else route_at names n)
  route_at-add_parts [] [] k h (node c h' t p r k') =
      unfold route_at walk add_parts list_beq in refl
  route_at-add_parts (name ∷ names) [] k h (node c h' t p r k') =
      unfold route_at walk add_parts list_beq in refl
  route_at-add_parts [] (part ∷ parts) k h (node c h' t p r k') =
      unfold route_at walk add_parts list_beq in refl
  route_at-add_parts (name ∷ names) (part ∷ parts) k h n =
      add_parts_step name part names parts k h n (route_at-add_parts names parts k h)
