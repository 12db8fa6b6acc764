-- ===== src/Routers/Router/Table.antt =====
-- The router of src/piconaut/routers/router.cc as the flat table of its routes: what is at the end
-- of a way down the tree, and the loop of `MatchRoute` read on the table.
pub mod Adding
pub mod Naming
pub mod Searching
pub mod Registered
pub mod Reordered
pub mod Unordered
use piconaut.Prelude.{
  ℕ, Str, Bool, true, false, not, ◌&&◌, Option, none, some, or_old, List, [], ◌∷◌, ◌≡◌, refl,
  nat_eq, list_eq, ◌==◌, if◌then◌else◌,
}
use piconaut.Routers.Node.{param_pattern, RouterNode, children, handler, key, find_child}
use piconaut.Routers.Router.{RouterMatchResult, braces, regex_match, no_match}
use piconaut.Routers.Router.Walk.{walk}

-- The names begin the other names.
abbrev pub begins : List Str → List Str → Bool
begins [] others = true
begins (name ∷ names) [] = false
begins (name ∷ names) (other ∷ others) = other == name && begins names others

abbrev pub is_present {ℓ} : {A : Type ℓ} → Option A → Bool
is_present none = false
is_present (some a) = true

-- What a node holds for a request that ends there.
abbrev pub Entry : Type 0 → Type 0
Entry H = ℕ × Option H

-- What is at the end of each way down.
abbrev pub View : Type 0 → Type 0
View H = List Str → Option (Entry H)

-- A route that has been added: the names of its nodes, its key and its handler.
abbrev pub Row : Type 0 → Type 0
Row H = List Str × ℕ × H

module _ {H : Type 0} where
  abbrev pub entry : RouterNode H → Entry H
  entry n = (key n, handler n)

  abbrev pub entry_at : Option (RouterNode H) → Option (Entry H)
  entry_at none = none
  entry_at (some n) = some (entry n)

  -- Where the names lead to, in the tree.
  unfoldable pub view : RouterNode H → View H
  view n names = entry_at (walk names n)

  -- A route changes a view at its names, and makes the way to them.
  abbrev pub with_row : Row H → View H → View H
  with_row (shape, k, h) v names =
      if names == shape
      then some (k, some h)
      else if begins names shape
      then some (or_old (v names) (0, none))
      else v names

  -- The root is there without a route.
  abbrev pub bare : View H
  bare [] = some (0, none)
  bare (name ∷ names) = none

  -- The routes, the last one first.
  abbrev pub table : List (Row H) → View H
  table [] = bare
  table (row ∷ rows) = with_row row (table rows)

  -- The request's parts are read from the left: a part goes below its own name where that is there
  -- and is not the parameters', else below the parameters' name where that is there and the part is
  -- a value.
  unfoldable pub match_view : List Str → View H → RouterMatchResult H
  match_view [] v = elim (v []) [
    | none ↦ no_match
    | some (k, h) ↦ record { executor = some h; key = some k }
  ]
  match_view (q ∷ qs) v =
      if is_present (v (q ∷ [])) && not (q == braces)
      then match_view qs (λ names. v (q ∷ names))
      else if is_present (v (braces ∷ [])) && regex_match q param_pattern
      then match_view qs (λ names. v (braces ∷ names))
      else no_match

  -- Below a child, if it is there.
  abbrev pub view_below : List Str → Option (RouterNode H) → Option (Entry H)
  view_below names none = none
  view_below names (some n) = view n names

  pub view-cons :
      (name : Str) (names : List Str) (n : RouterNode H)
      → view n (name ∷ names) ≡ view_below names (find_child name (children n))
  unfolding view walk
  view-cons name names n =
      elim (find_child name (children n))
        as (λ o.
          entry_at (elim o [ none ↦ none | some next ↦ walk names next ]) ≡ view_below names o) [
            | none ↦ refl
            | some m ↦ refl
          ]
