-- ===== src/Main/Requests.antt =====
-- The handlers that main.cc runs for its requests.
use piconaut.Prelude.{
  ℕ, ◌≤◌, Str, bytes, true, some, [], ◌∷◌, List, Map, map, insert, lookup, emplace, length, ◌≡◌,
  ◌≢◌, refl, ◌∙◌, ap, arith, nat_eq, list_eq,
}
use piconaut.Utils.Strings.{npos}
use piconaut.Utils.Strings.Split.{split}
use piconaut.Routers.Node.{param_pattern}
use piconaut.Routers.Router.{regex_match, match_parts}
use piconaut.Routers.Router.Paths.{match_route_lem}
use piconaut.Http.Request.{H2oReq, get_path}
use piconaut.Http.Response.{Exchange, InlineFault}
use piconaut.Http.SingleServer.{new_h2o_server}
use piconaut.Handlers.Dispatcher.{
  Route, Outcome, make_route, dispatcher_fn, dispatcher, handle_impl,
}
use piconaut.Handlers.Dispatcher.Dispatching.{handle_found}
use piconaut.Main.{
  post_path, id_path, slug_path, month_path, archive_path, register_each, route_table,
}
use piconaut.Main.Tree.{main_routes}
use piconaut.Main.Routing.{match_post, match_id, match_slug, match_month, match_archive}
use piconaut.Main.Dispatch.{AreDistinct, main_paths, main_dispatcher, register_each_main}

abbrev pub IsValue : Str → Type 0
IsValue value = regex_match value param_pattern ≡ true

-- The parts of a request, with the handler and the parameters that the table of routes gives them.
pub data MainRequest {Hd : Type 0} (h1 h2 h3 : Hd) : List Str → Hd → Map Str Str → Type 0 where
  as_post : MainRequest h1 h2 h3 ([] ∷ bytes "post" ∷ []) h1 []
  as_id :
      (id : Str)
      → IsValue id
      → MainRequest h1 h2 h3 ([] ∷ bytes "post" ∷ id ∷ []) h2 (insert (bytes "id") id [])
  as_slug :
      (id slug : Str)
      → IsValue id
      → IsValue slug
      → MainRequest h1 h2 h3
          ([] ∷ bytes "post" ∷ id ∷ slug ∷ [])
          h3
          (insert (bytes "slug") slug (insert (bytes "id") id []))
  as_month :
      (year month : Str)
      → bytes "post" ≢ year
      → IsValue year
      → IsValue month
      → MainRequest h1 h2 h3
          ([] ∷ year ∷ month ∷ [])
          h3
          (insert (bytes "month") month (insert (bytes "year") year []))
  as_archive :
      (year month id slug : Str)
      → bytes "post" ≢ year
      → IsValue year
      → IsValue month
      → IsValue id
      → IsValue slug
      → MainRequest h1 h2 h3 ([] ∷ year ∷ month ∷ bytes "post" ∷ id ∷ slug ∷ []) h3 (
          insert
            (bytes "slug")
            slug
            (insert (bytes "id") id (insert (bytes "month") month (insert (bytes "year") year []))))

emplace-distinct :
    {V : Type 0} (k₁ k₂ k₃ k₄ k₅ : ℕ) (v₁ v₂ v₃ v₄ v₅ : V)
    → AreDistinct (k₁ ∷ k₂ ∷ k₃ ∷ k₄ ∷ k₅ ∷ [])
    → emplace k₅ v₅ (emplace k₄ v₄ (emplace k₃ v₃ (emplace k₂ v₂ (emplace k₁ v₁ []))))
      ≡ (k₁, v₁) ∷ (k₂, v₂) ∷ (k₃, v₃) ∷ (k₄, v₄) ∷ (k₅, v₅) ∷ []
emplace-distinct k₁ k₂ k₃ k₄ k₅ v₁ v₂ v₃ v₄ v₅
      ((a, (b, (c, (d, _)))), ((e, (f, (g, _))), ((h, (i, _)), ((j, _), _)))) =
    ground arith

lookup-distinct :
    {V : Type 0} (k₁ k₂ k₃ k₄ k₅ : ℕ) (v₁ v₂ v₃ v₄ v₅ : V)
    → AreDistinct (k₁ ∷ k₂ ∷ k₃ ∷ k₄ ∷ k₅ ∷ [])
    → let m : Map ℕ V = (k₁, v₁) ∷ (k₂, v₂) ∷ (k₃, v₃) ∷ (k₄, v₄) ∷ (k₅, v₅) ∷ [] in
      (lookup k₁ m ≡ some v₁)
      × (lookup k₂ m ≡ some v₂)
      × (lookup k₃ m ≡ some v₃)
      × (lookup k₄ m ≡ some v₄)
      × (lookup k₅ m ≡ some v₅)
lookup-distinct k₁ k₂ k₃ k₄ k₅ v₁ v₂ v₃ v₄ v₅
      ((a, (b, (c, (d, _)))), ((e, (f, (g, _))), ((h, (i, _)), ((j, _), _)))) =
    (ground arith, ground arith, ground arith, ground arith, ground arith)

module _ {Hd : Type 0} (hasher : Str → ℕ) (h1 h2 h3 : Hd)
    (distinct : AreDistinct (map hasher main_paths)) where
  -- The table of the dispatcher.
  abbrev entry : Str → Hd → ℕ × Route Hd
  entry path h = (hasher path, make_route (hasher path) path (some h))

  abbrev table : Map ℕ (Route Hd)
  table =
      entry post_path h1
      ∷ entry id_path h2
      ∷ entry slug_path h3
      ∷ entry month_path h3
      ∷ entry archive_path h3
      ∷ []

  routes-main_dispatcher : (main_dispatcher hasher h1 h2 h3).routes ≡ table
  routes-main_dispatcher = emplace-distinct _ _ _ _ _ _ _ _ _ _ distinct

  stored-entries :
      (lookup (hasher post_path) table ≡ some (entry post_path h1).1)
      × (lookup (hasher id_path) table ≡ some (entry id_path h2).1)
      × (lookup (hasher slug_path) table ≡ some (entry slug_path h3).1)
      × (lookup (hasher month_path) table ≡ some (entry month_path h3).1)
      × (lookup (hasher archive_path) table ≡ some (entry archive_path h3).1)
  stored-entries = lookup-distinct _ _ _ _ _ _ _ _ _ _ distinct

  -- The key that the router finds for a request, with the entry of the table.
  record Destination (parts : List Str) (h : Hd) (params : Map Str Str) : Type 0 where
    path : Str
    routed :
        match_parts parts [] (
          main_routes dispatcher_fn
            (hasher post_path)
            (hasher id_path)
            (hasher slug_path)
            (hasher month_path)
            (hasher archive_path))
        ≡ (record { executor = some (some dispatcher_fn); key = some (hasher path) }, params)
    stored : lookup (hasher path) table ≡ some (make_route (hasher path) path (some h))

  destination :
      {parts : List Str} {h : Hd} {params : Map Str Str}
      → MainRequest h1 h2 h3 parts h params
      → Destination parts h params
  destination as_post = record {
    path = post_path;
    routed = match_post _ _ _ _ _ _;
    stored = stored-entries.0;
  }
  destination (as_id id v) = record {
    path = id_path;
    routed = match_id _ _ _ _ _ _ id v;
    stored = stored-entries.1;
  }
  destination (as_slug id slug v w) = record {
    path = slug_path;
    routed = match_slug _ _ _ _ _ _ id slug v w;
    stored = stored-entries.2;
  }
  destination (as_month year month ne v w) = record {
    path = month_path;
    routed = match_month _ _ _ _ _ _ year month ne v w;
    stored = stored-entries.3;
  }
  destination (as_archive year month id slug ne v w x y) = record {
    path = archive_path;
    routed = match_archive _ _ _ _ _ _ year month id slug ne v w x y;
    stored = stored-entries.4;
  }

  -- With the five paths of main registered at a server that was made with success, and five hashes
  -- that are all distinct: a request whose path is no longer than npos and whose parts have one of
  -- the five forms (MainRequest: every parameter a value of the parameter pattern, and a year that
  -- is not "post") is handled by HandleRequest of the handler given for that path, with exactly the
  -- path's parameters, and the outcome is what HandleRequest leaves.
  pub main_requests :
      (handle_request : Hd → H2oReq → Map Str Str → Exchange → Outcome) (fault : InlineFault)
      {h : Hd} {params : Map Str Str} (req : H2oReq) (r : Exchange)
      → length (get_path req) ≤ npos
      → MainRequest h1 h2 h3 (split b'/' (get_path req)) h params
      → handle_impl handle_request fault
          (register_each hasher (route_table h1 h2 h3) (new_h2o_server true).0).0.routers
          req
          r
        ≡ handle_request h req params r
  unfolding new_h2o_server dispatcher make_route
  main_requests handle_request fault {h} {params} req r fits asked =
      let to = destination asked in
      rw (register_each_main hasher h1 h2 h3 (new_h2o_server true).0 refl) (
        handle_found handle_request fault (main_dispatcher hasher h1 h2 h3) req r (hasher to.path)
          params (make_route (hasher to.path) to.path (some h))
          (match_route_lem (get_path req) [] _ fits ∙ to.routed)
          (ap (lookup (hasher to.path)) routes-main_dispatcher ∙ to.stored))
