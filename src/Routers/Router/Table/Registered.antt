-- ===== src/Routers/Router/Table/Registered.antt =====
-- The routes that `AddRoute` of src/piconaut/routers/router.cc has added to a fresh router, and what
-- `MatchRoute` makes of them.
use mathlib.Core.Path.{fun_ext}
use piconaut.Prelude.{
  ℕ, ◌≤◌, Str, length, Bool-cases, inl, inr, Option, List, [], ◌∷◌, Map, map, ◌≡◌, ◌∙◌, sym, All,
  nat_eq, list_eq, if◌then◌else◌,
}
use mathlib.Core.Path.{subst}
use piconaut.Errors.{Error}
use piconaut.Utils.Strings.{npos}
use piconaut.Utils.Strings.Split.{split}
use piconaut.Routers.Pattern.{is_valid_route}
use piconaut.Routers.Node.{RouterNode}
use piconaut.Routers.Router.{Router, new_router, normalized_part, add_parts, add_route, match_route}
use piconaut.Routers.Router.Paths.{add_route_valid, add_route_invalid, match_route_lem}
use piconaut.Routers.Router.Shape.{IsShaped, new_node-IsShaped, add_parts-IsShaped}
use piconaut.Routers.Router.Table.{View, Row, view, with_row, table, match_view}
use piconaut.Routers.Router.Table.Adding.{view_of_new, with_row_at, view-add_parts}
use piconaut.Routers.Router.Table.Naming.{
  Naming, with_names, with_names_at, naming_of, naming, naming_of_new, naming-add_parts,
  captured_view,
}
use piconaut.Routers.Router.Table.Searching.{match_parts-eq-match_view}

-- The names of the nodes of a path.
abbrev pub shape_of : Str → List Str
shape_of path = map normalized_part (split b'/' path)

-- A call of `AddRoute`: key, path, handler.
abbrev pub Added : Type 0 → Type 0
Added H = ℕ × Str × H

module _ {H : Type 0} where
  -- The router after the calls, the last one first.
  abbrev pub add_routes : List (Added H) → Router H
  add_routes [] = new_router
  add_routes ((k, path, h) ∷ routes) = (add_route k path h (add_routes routes)).0

  -- The rows of the routes whose paths are valid.
  abbrev pub rows : List (Added H) → List (Row H)
  rows [] = []
  rows ((k, path, h) ∷ routes) =
      if is_valid_route path then (shape_of path, k, h) ∷ rows routes else rows routes

  -- Their parts.
  abbrev pub ways : List (Added H) → List (List Str)
  ways [] = []
  ways ((k, path, h) ∷ routes) =
      if is_valid_route path then split b'/' path ∷ ways routes else ways routes

  abbrev pub FitsIn : Added H → Type 0
  FitsIn (k, path, h) = length path ≤ npos

  -- A well-formed tree, its view and its naming.
  pub record Holds (v : View H) (w : Naming) (n : RouterNode H) : Type 0 where
    pub shaped : IsShaped n
    pub viewed : (names : List Str) → view n names ≡ v names
    pub named : (names : List Str) → naming n names ≡ w names

  add_parts-Holds :
      (parts : List Str) (k : ℕ) (h : H) (v : View H) (w : Naming) (n : RouterNode H)
      → Holds v w n
      → Holds
          (with_row (map normalized_part parts, k, h) v)
          (with_names parts w)
          (add_parts parts k h n)
  add_parts-Holds parts k h v w n before = record {
    shaped = add_parts-IsShaped k h parts n before.shaped;
    viewed = λ names.
        view-add_parts parts k h n names
        ∙ with_row_at (map normalized_part parts, k, h) (view n) v names (before.viewed names);
    named = λ names.
        naming-add_parts parts k h n names
        ∙ with_names_at parts (naming n) w names (before.named names);
  }

  pub add_routes-Holds :
      (routes : List (Added H))
      → All FitsIn routes
      → Holds (table (rows routes)) (naming_of (ways routes)) (add_routes routes).root
  add_routes-Holds [] f = record {
    shaped = new_node-IsShaped H;
    viewed = view_of_new;
    named = naming_of_new H;
  }
  add_routes-Holds ((k, path, h) ∷ routes) (f, fs) =
      let before = add_routes-Holds routes fs in
      elim (Bool-cases (is_valid_route path)) [
        | inl e ↦ rw e (
            subst
              (λ (r : Router H × Option Error).
                Holds (with_row (shape_of path, k, h) (table (rows routes)))
                  (with_names (split b'/' path) (naming_of (ways routes))) r.0.root)
              (sym (add_route_valid path f e k h (add_routes routes)))
              (add_parts-Holds (split b'/' path) k h _ _ (add_routes routes).root before))
        | inr e ↦ rw e (
            subst
              (λ (r : Router H × Option Error).
                Holds (table (rows routes)) (naming_of (ways routes)) r.0.root)
              (sym (add_route_invalid k path h (add_routes routes) e)) before)
      ]

  -- The router is a flat table of its routes: after any calls of add_route on a fresh router, with
  -- paths no longer than npos, valid or not, match_route finds for a request no longer than npos
  -- what match_view finds in the table of the valid paths: at each row of names the key and the
  -- handler of the last route with these names, and an empty entry on the way to a route; and
  -- params gains what captured_view captures, each part under the name that the last route on that
  -- way has given the parameter.
  pub match_route-add_routes :
      (routes : List (Added H)) (request : Str) (params : Map Str Str)
      → All FitsIn routes
      → length request ≤ npos
      → match_route request params (add_routes routes) ≡ (
        match_view (split b'/' request) (table (rows routes)),
        captured_view (split b'/' request) (table (rows routes)) (naming_of (ways routes)) params,
      )
  match_route-add_routes routes request params f fits =
      let held = add_routes-Holds routes f in
      let seen = fun_ext held.viewed in
      let called = fun_ext held.named in
      match_route_lem request params (add_routes routes) fits
      ∙ match_parts-eq-match_view (split b'/' request) params (add_routes routes).root held.shaped
      ∙ λ i. (
        match_view (split b'/' request) (seen i),
        captured_view (split b'/' request) (seen i) (called i) params,
      )
