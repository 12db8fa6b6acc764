-- ===== src/Routers/Router/Table/Unordered.antt =====
-- The routes of src/piconaut/routers/router.cc with the order of their registration forgotten, where it
-- does not matter.
use mathlib.Core.Path.{fun_ext}
use mathlib.Core.Quot
use mathlib.Core.Quot.{Quot, Quot-set}
use piconaut.Prelude.{◌≤◌, Str, length, List, ◌∷◌, Map, All, ◌≡◌, ◌≢◌, ap, nat_eq, list_eq}
use piconaut.Utils.Strings.{npos}
use piconaut.Utils.Strings.Split.{split}
use piconaut.Routers.Router.{RouterMatchResult, match_route}
use piconaut.Routers.Router.Table.{table, match_view}
use piconaut.Routers.Router.Table.Registered.{
  shape_of, Added, add_routes, rows, FitsIn, match_route-add_routes,
}
use piconaut.Routers.Router.Table.Reordered.{Reordered, after, swap, table-Reordered}

-- The calls of `AddRoute`, up to the exchanges that `Reordered` allows.
abbrev pub Unordered : Type 0 → Type 0
Unordered H = Quot (Reordered {H = H})

module _ {H : Type 0} (set : IsSet (RouterMatchResult H)) where
  -- What is found for the parts of a request.
  unfoldable pub search : List Str → Unordered H → RouterMatchResult H
  search qs =
      Quot.lift set (λ routes. match_view qs (table (rows routes)))
        (λ r s e. ap (match_view qs) (fun_ext (λ names. table-Reordered r s names e)))

  -- What the router finds depends on the unordered calls only.
  pub search-add_routes :
      (routes : List (Added H)) (request : Str) (params : Map Str Str)
      → All FitsIn routes
      → length request ≤ npos
      → (match_route request params (add_routes routes)).0
        ≡ search (split b'/' request) (Quot.mk routes)
  unfolding search
  search-add_routes routes request params f fits =
      ap (λ (x : RouterMatchResult H × Map Str Str). x.0)
        (match_route-add_routes routes request params f fits)

module _ {H : Type 0} where
  -- One more call.
  unfoldable pub add : Added H → Unordered H → Unordered H
  add route =
      Quot.lift Quot-set (λ routes. Quot.mk (route ∷ routes)) (λ r s e. Quot.sound (after route e))

  -- The calls for two routes that lead to different nodes commute.
  pub add_comm :
      (a b : Added H) (u : Unordered H)
      → shape_of a.1 ≢ shape_of b.1
      → add a (add b u) ≡ add b (add a u)
  unfolding add
  add_comm a b u differ =
      Quot.ind (λ x. Quot-set (add a (add b x)) (add b (add a x)))
        (λ routes. Quot.sound (swap a b routes differ)) u
