-- ===== src/Routers/Router/Table/Naming.antt =====
-- The names of the parameters in the tree of src/piconaut/routers/router.cc, by the way to them, and
-- what `MatchRoute` captures under them.
use piconaut.Prelude.{
  ℕ, Str, Bool-cases, not, ◌&&◌, inl, inr, Option, none, some, or_old, List, [], ◌∷◌, Map, insert,
  map, ◌≡◌, refl, sym, ap, ◌∙◌, arith, nat_eq, list_eq, str_iff, ◌==◌, if◌then◌else◌,
}
use piconaut.Routers.Node.{
  RouterNode, node, param_pattern, param_name, children, new_node, find_child,
}
use piconaut.Routers.Router.{braces, normalized_part, regex_match, mark, add_parts}
use piconaut.Routers.Router.Walk.{walk, child_or_new, child_or_new-add_parts}
use piconaut.Routers.Router.Matching.{name_of}
use piconaut.Routers.Router.Table.{View, begins, is_present}

-- A name for each way down.
abbrev pub Naming : Type 0
Naming = List Str → Str

-- The last of the names is a part's; a parameter names it anew.
abbrev pub renamed_by : List Str → List Str → Str → Str
renamed_by [] parts old = old
renamed_by (name ∷ names) [] old = old
renamed_by (name ∷ []) (part ∷ parts) old =
    if normalized_part part == braces then name_of part else old
renamed_by (name ∷ other ∷ names) (part ∷ parts) old = renamed_by (other ∷ names) parts old

-- A route names the parameters on its way.
abbrev pub with_names : List Str → Naming → Naming
with_names parts w names =
    if begins names (map normalized_part parts) then renamed_by names parts (w names) else w names

pub with_names_at :
    (parts : List Str) (v w : Naming) (names : List Str)
    → v names ≡ w names
    → with_names parts v names ≡ with_names parts w names
with_names_at parts v w names e = rw e refl

-- The parts of the routes, the last one first.
abbrev pub naming_of : List (List Str) → Naming
naming_of [] names = []
naming_of (parts ∷ rest) names = with_names parts (naming_of rest) names

abbrev name_at : {H : Type 0} → Option (RouterNode H) → Str
name_at none = []
name_at (some n) = param_name n

unfoldable pub naming : {H : Type 0} → RouterNode H → Naming
naming n names = name_at (walk names n)

pub naming_of_new : (H : Type 0) (names : List Str) → naming (new_node {H = H}) names ≡ []
unfolding naming walk find_child
naming_of_new H [] = refl
naming_of_new H (name ∷ names) = refl

module _ {H : Type 0} where
  -- Where `match_view` goes below the parameters, the part is stored under their name.
  unfoldable pub captured_view : List Str → View H → Naming → Map Str Str → Map Str Str
  captured_view [] v w params = params
  captured_view (q ∷ qs) v w params =
      if is_present (v (q ∷ [])) && not (q == braces)
      then captured_view qs (λ names. v (q ∷ names)) (λ names. w (q ∷ names)) params
      else if is_present (v (braces ∷ [])) && regex_match q param_pattern
      then captured_view qs (λ names. v (braces ∷ names)) (λ names. w (braces ∷ names))
          (insert (w (braces ∷ [])) q params)
      else params

  naming-cons :
      (name : Str) (names : List Str) (n : RouterNode H)
      → naming n (name ∷ names) ≡ naming (child_or_new name n) names
  unfolding naming walk
  naming-cons name names n =
      elim (find_child name (children n))
        as (λ o.
          name_at (elim o [ none ↦ none | some next ↦ walk names next ])
          ≡ name_at (walk names (or_old o new_node))) [
            | none ↦ sym (naming_of_new H names)
            | some next ↦ refl
          ]

  -- Below a child, if it is there.
  abbrev pub naming_below : List Str → Option (RouterNode H) → Str
  naming_below names none = []
  naming_below names (some n) = naming n names

  pub naming-child :
      (name : Str) (names : List Str) (n : RouterNode H)
      → naming n (name ∷ names) ≡ naming_below names (find_child name (children n))
  unfolding naming walk
  naming-child name names n =
      elim (find_child name (children n))
        as (λ o.
          name_at (elim o [ none ↦ none | some next ↦ walk names next ]) ≡ naming_below names o) [
            | none ↦ refl
            | some next ↦ refl
          ]

  pub naming_here : (n : RouterNode H) → naming n [] ≡ param_name n
  unfolding naming walk
  naming_here n = refl

  naming-mark :
      (name : Str) (names : List Str) (part : Str) (n : RouterNode H)
      → naming (mark part n) (name ∷ names) ≡ naming n (name ∷ names)
  unfolding naming walk mark
  naming-mark name names part (node c h t p r k) = ground arith

  naming-mark_here :
      (part : Str) (n : RouterNode H)
      → naming (mark part n) []
        ≡ (if normalized_part part == braces then name_of part else naming n [])
  unfolding naming walk mark
  naming-mark_here part (node c h t p r k) = ground arith

  with_names-mark :
      (part : Str) (parts names : List Str) (name : Str) (n : RouterNode H)
      → with_names parts (naming (mark part n)) names ≡ (
          if begins names (map normalized_part parts)
          then renamed_by (name ∷ names) (part ∷ parts) (naming n names)
          else naming n names)
  with_names-mark part parts [] name n = rw naming-mark_here refl
  with_names-mark part parts (other ∷ names) name n = rw naming-mark refl

  pub naming-add_parts :
      (parts : List Str) (k : ℕ) (h : H) (n : RouterNode H) (names : List Str)
      → naming (add_parts parts k h n) names ≡ with_names parts (naming n) names
  naming-add_parts [] k h (node c h' t p r k') [] = unfold naming walk add_parts in refl
  naming-add_parts [] k h (node c h' t p r k') (name ∷ names) = unfold naming walk add_parts in refl
  naming-add_parts (part ∷ parts) k h (node c h' t p r k') [] = unfold naming walk add_parts in refl
  naming-add_parts (part ∷ parts) k h n (name ∷ names) =
      naming-cons name names (add_parts (part ∷ parts) k h n)
      ∙ ap (λ m. naming m names) (child_or_new-add_parts name part parts k h n)
      ∙ elim (Bool-cases (normalized_part part == name)) [
        | inl e ↦ rw e (
            naming-add_parts parts k h (mark part (child_or_new (normalized_part part) n)) names
            ∙ with_names-mark part parts names name (child_or_new (normalized_part part) n)
            ∙ rw (naming-cons, ← (str_iff _ _).0 e) refl)
        | inr e ↦ rw (e, naming-cons) refl
      ]
