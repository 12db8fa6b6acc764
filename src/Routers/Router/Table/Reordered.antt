-- ===== src/Routers/Router/Table/Reordered.antt =====
-- Routes that `AddRoute` of src/piconaut/routers/router.cc adds in another order.
use mathlib.Core.Path.{fun_ext}
use piconaut.Prelude.{
  ◌≤◌, Str, length, Bool-cases, inl, inr, List, ◌∷◌, Map, ◌≡◌, ◌≢◌, refl, ap, ◌∙◌, sym, arith, All,
  nat_eq, list_eq, list_beq_iff,
}
use piconaut.Utils.Strings.{npos}
use piconaut.Utils.Strings.Split.{split}
use piconaut.Routers.Pattern.{is_valid_route}
use piconaut.Routers.Router.{RouterMatchResult, match_route}
use piconaut.Routers.Router.Table.{View, Row, with_row, table, match_view}
use piconaut.Routers.Router.Table.Adding.{with_row_at}
use piconaut.Routers.Router.Table.Registered.{
  shape_of, Added, add_routes, rows, FitsIn, match_route-add_routes,
}

module _ {H : Type 0} where
  with_row_swap :
      (a b : Row H) (v : View H) (names : List Str)
      → a.0 ≢ b.0
      → with_row a (with_row b v) names ≡ with_row b (with_row a v) names
  with_row_swap (s, k, h) (t, k', h') v names differ =
      ground (arith, list_beq_iff names s, list_beq_iff names t)

  -- Calls of `AddRoute` in another order: two that follow each other change places if their paths
  -- lead to different nodes.
  pub data Reordered : List (Added H) → List (Added H) → Type 0 where
    same : (routes : List (Added H)) → Reordered routes routes
    after :
        (route : Added H) {r s : List (Added H)} → Reordered r s → Reordered (route ∷ r) (route ∷ s)
    swap :
        (a b : Added H) (routes : List (Added H))
        → shape_of a.1 ≢ shape_of b.1
        → Reordered (a ∷ b ∷ routes) (b ∷ a ∷ routes)
    also : {r s t : List (Added H)} → Reordered r s → Reordered s t → Reordered r t

  pub table-Reordered :
      (r s : List (Added H)) (names : List Str)
      → Reordered r s
      → table (rows r) names ≡ table (rows s) names
  table-Reordered r s names (same routes) = refl
  table-Reordered r s names (after route {r = r'} {s = s'} e) =
      elim (Bool-cases (is_valid_route route.1)) [
        | inl v ↦ rw v (
            with_row_at (shape_of route.1, route.0, route.2) (table (rows r')) (table (rows s'))
              names (table-Reordered r' s' names e))
        | inr v ↦ rw v (table-Reordered _ _ names e)
      ]
  table-Reordered r s names (swap a b routes differ) = elim (Bool-cases (is_valid_route a.1)) [
    | inl v ↦ elim (Bool-cases (is_valid_route b.1)) [
      | inl w ↦
          rw (v, w)
            (with_row_swap (shape_of a.1, a.0, a.2) (shape_of b.1, b.0, b.2) (table (rows routes))
              names differ)
      | inr w ↦ rw (v, w) refl
    ]
    | inr v ↦ rw v refl
  ]
  table-Reordered r s names (also d e) = table-Reordered _ _ names d ∙ table-Reordered _ _ names e

  FitsIn-Reordered : (r s : List (Added H)) → Reordered r s → All FitsIn r → All FitsIn s
  FitsIn-Reordered r s (same routes) f = f
  FitsIn-Reordered r s (after route e) (f, fs) = (f, FitsIn-Reordered _ _ e fs)
  FitsIn-Reordered r s (swap a b routes differ) (f, (g, fs)) = (g, (f, fs))
  FitsIn-Reordered r s (also d e) f = FitsIn-Reordered _ _ e (FitsIn-Reordered _ _ d f)

  -- Where two routes that are added one after the other lead to different nodes, the order of their
  -- two calls of add_route does not matter, nor does it for any rearrangement by such exchanges:
  -- with paths and request no longer than npos, match_route finds the same key and handler,
  -- whatever params holds.
  pub match_route-Reordered :
      (r s : List (Added H)) (request : Str) (params others : Map Str Str)
      → All FitsIn r
      → length request ≤ npos
      → Reordered r s
      → (match_route request params (add_routes r)).0
        ≡ (match_route request others (add_routes s)).0
  match_route-Reordered r s request params others f fits e =
      ap (λ (x : RouterMatchResult H × Map Str Str). x.0)
        (match_route-add_routes r request params f fits)
      ∙ ap (match_view (split b'/' request)) (fun_ext (λ names. table-Reordered r s names e))
      ∙ sym (
          ap (λ (x : RouterMatchResult H × Map Str Str). x.0)
            (match_route-add_routes s request others (FitsIn-Reordered r s e f) fits))
