-- ===== src/Routers/Router/Table/Adding.antt =====
-- `AddRoute` of src/piconaut/routers/router.cc on the view of the tree.
use piconaut.Prelude.{
  ℕ, Str, Bool-cases, inl, inr, Option, none, some, or_old, List, [], ◌∷◌, map, ◌≡◌, refl, sym, ◌∙◌,
  arith, nat_eq, list_eq, list_beq, str_iff, ◌==◌, if◌then◌else◌,
}
use piconaut.Routers.Node.{RouterNode, node, children, new_node, find_child}
use piconaut.Routers.Router.{normalized_part, mark, add_parts}
use piconaut.Routers.Router.Walk.{walk, names_cons}
use piconaut.Routers.Router.Added.{find_child-add_parts, grown}
use piconaut.Routers.Router.Table.{
  View, Row, is_present, view, with_row, bare, view_below, view-cons,
}

module _ {H : Type 0} where
  pub view_of_new : (names : List Str) → view (new_node {H = H}) names ≡ bare names
  unfolding view walk find_child
  view_of_new [] = refl
  view_of_new (name ∷ names) = refl

  view-mark :
      (names : List Str) (part : Str) (n : RouterNode H) → view (mark part n) names ≡ view n names
  unfolding view walk mark
  view-mark [] part (node c h t p r k) = ground arith
  view-mark (name ∷ names) part (node c h t p r k) = ground arith

  view-child_or_new :
      (o : Option (RouterNode H)) (names : List Str)
      → view (or_old o new_node) names ≡ (if is_present o then view_below names o else bare names)
  view-child_or_new none names = view_of_new names
  view-child_or_new (some m) names = refl

  -- A route below a child that is not there makes the way that it makes below a bare node.
  row_below :
      (row : Row H) (o : Option (RouterNode H)) (names : List Str)
      → with_row row (λ others. if is_present o then view_below others o else bare others) names
        ≡ with_row row (λ others. view_below others o) names
  row_below row (some m) names = refl
  row_below row none (name ∷ names) = refl
  row_below ([], k, h) none [] = unfold list_beq in refl
  row_below (name ∷ shape, k, h) none [] = refl

  -- A way of which a child is the first step.
  view-grown :
      (part name : Str) (parts names : List Str) (k : ℕ) (h : H) (n : RouterNode H)
      → view (add_parts (part ∷ parts) k h n) (name ∷ names) ≡ (
          if normalized_part part == name
          then view (grown k h part parts n) names
          else view n (name ∷ names))
  view-grown part name parts names k h n =
      rw
        (
          view-cons name names (add_parts (part ∷ parts) k h n),
          view-cons name names n,
          find_child-add_parts,
        )
        (elim (Bool-cases (normalized_part part == name)) [ inl e ↦ rw e refl | inr e ↦ rw e refl ])

  -- The views of equal entries give equal views with a route.
  pub with_row_at :
      (row : Row H) (v w : View H) (names : List Str)
      → v names ≡ w names
      → with_row row v names ≡ with_row row w names
  with_row_at row v w names e = rw e refl

  with_row_cons :
      (part : Str) (shape : List Str) (k : ℕ) (h : H) (v : View H) (name : Str) (names : List Str)
      → with_row (part ∷ shape, k, h) v (name ∷ names) ≡ (
          if part == name
          then with_row (shape, k, h) (λ others. v (part ∷ others)) names
          else v (name ∷ names))
  with_row_cons part shape k h v name names = rw names_cons (elim (Bool-cases (part == name)) [
    | inl e ↦ rw e (rw ((str_iff part name).0 e) refl)
    | inr e ↦ rw e refl
  ])

  -- The child on the way of the new route, from the view of its parent.
  view_below-grown :
      (part : Str) (parts : List Str) (k : ℕ) (h : H) (n : RouterNode H) (names : List Str)
      → ((m : RouterNode H)
          → view (add_parts parts k h m) names
            ≡ with_row (map normalized_part parts, k, h) (view m) names)
      → view (grown k h part parts n) names
        ≡ with_row
            (map normalized_part parts, k, h)
            (λ others. view n (normalized_part part ∷ others))
            names
  view_below-grown part parts k h n names ih =
      let row : Row H = (map normalized_part parts, k, h) in
      let name = normalized_part part in
      let found = find_child name (children n) in
      ih (mark part (or_old found new_node))
      ∙ with_row_at row (view (mark part (or_old found new_node)))
          (λ others. if is_present found then view_below others found else bare others) names
          (view-mark names part (or_old found new_node) ∙ view-child_or_new found names)
      ∙ row_below row found names
      ∙ with_row_at row (λ others. view_below others found) (λ others. view n (name ∷ others)) names
          (sym (view-cons name names n))

  -- The view of the tree with a route is the view of the tree, with the route's row.
  pub view-add_parts :
      (parts : List Str) (k : ℕ) (h : H) (n : RouterNode H) (names : List Str)
      → view (add_parts parts k h n) names
        ≡ with_row (map normalized_part parts, k, h) (view n) names
  view-add_parts [] k h (node c h' t p r k') [] = unfold view walk add_parts list_beq in refl
  view-add_parts [] k h (node c h' t p r k') (name ∷ names) =
      unfold view walk add_parts list_beq in refl
  view-add_parts (part ∷ parts) k h (node c h' t p r k') [] =
      unfold view walk add_parts list_beq in refl
  view-add_parts (part ∷ parts) k h n (name ∷ names) =
      view-grown part name parts names k h n
      ∙ elim (Bool-cases (normalized_part part == name)) [
        | inl e ↦
            rw e (view_below-grown part parts k h n names (λ m. view-add_parts parts k h m names))
        | inr e ↦ rw e refl
      ]
      ∙ sym
          (with_row_cons (normalized_part part) (map normalized_part parts) k h (view n) name names)
