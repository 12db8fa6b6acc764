-- ===== src/Handlers/Dispatcher/Registered.antt =====
-- The invariant between the two tables of src/piconaut/handlers/global_dispatcher_handler.h: every
-- node with a handler has a key of `routes_`.
use piconaut.Prelude.{
  ℕ, ◌≤◌, Str, length, Bool-cases, true, Option, none, some, or_old, List, [], ◌∷◌, Map, map,
  lookup, emplace, lookup-emplace, ◌≡◌, Option-cases, ◌⊎◌, refl, ◌∙◌, ap, nat_eq, list_eq,
  nat_beq_iff, ◌==◌, inl, inr,
}
use piconaut.Utils.Strings.{npos}
use piconaut.Utils.Strings.Split.{split}
use piconaut.Routers.Pattern.{is_valid_route}
use piconaut.Routers.Node.{RouterNode, new_node, key, handler, find_child}
use piconaut.Routers.Router.{RouterMatchResult, normalized_part, is_empty, match_route, match_parts}
use piconaut.Routers.Router.Walk.{walk, route_of, route_at, route_at-add_parts}
use piconaut.Routers.Router.Resolution.{resolve}
use piconaut.Routers.Router.Paths.{match_route_lem}
use piconaut.Http.Request.{H2oReq, get_path}
use piconaut.Http.Response.{Exchange, InlineFault, send}
use piconaut.Handlers.Dispatcher.{
  Route, make_route, Executor, dispatcher_fn, GlobalDispatcherHandler, Outcome, thrown,
  new_dispatcher, done, dispatcher, not_found, register_route_handler, handle_impl,
}
use piconaut.Handlers.Dispatcher.Dispatching.{
  no_function, handle_found, handle_inner, handle_not_found, register_valid, register_invalid,
}

module _ {Hd : Type 0} where
  -- What a node holds: a handler with a key that stands in the table, or no handler and the key 0.
  abbrev pub Backed : Map ℕ (Route Hd) → ℕ × Option Executor → Type 0
  Backed routes (k, none) = k ≡ 0
  Backed routes (k, some h) = (route : Route Hd) × (lookup k routes ≡ some route)

  pub record IsRegistered (d : GlobalDispatcherHandler Hd) : Type 0 where
    pub backed : (names : List Str) → Backed d.routes (route_at names d.router.root)

  pub IsRegistered-new : IsRegistered new_dispatcher
  IsRegistered-new = record { backed = λ names. nothing names }
    where
      nothing : (names : List Str) → Backed [] (route_at names (new_node {H = Executor}))
      nothing [] = unfold route_at walk in refl
      nothing (name ∷ names) = unfold route_at walk find_child in refl

  emplaced :
      (k j : ℕ) (route : Route Hd) (routes : Map ℕ (Route Hd))
      → (old : Route Hd) × (lookup j routes ≡ some old)
      → (now : Route Hd) × (lookup j (emplace k route routes) ≡ some now)
  emplaced k j route routes (old, e) = elim (Bool-cases (k == j)) [
    | inl same ↦ (or_old (lookup k routes) route, lookup-emplace k j route routes ∙ rw same refl)
    | inr other ↦ (old, lookup-emplace k j route routes ∙ rw other e)
  ]

  pub Backed-emplace :
      (k : ℕ) (route : Route Hd) (routes : Map ℕ (Route Hd)) (r : ℕ × Option Executor)
      → Backed routes r
      → Backed (emplace k route routes) r
  Backed-emplace k route routes (j, none) b = b
  Backed-emplace k route routes (j, some h) b = emplaced k j route routes b

  Backed-new :
      (k : ℕ) (route : Route Hd) (routes : Map ℕ (Route Hd))
      → Backed (emplace k route routes) (k, some dispatcher_fn)
  Backed-new k route routes = (
    or_old (lookup k routes) route,
    lookup-emplace k k route routes ∙ rw ((nat_beq_iff k k).1 refl) refl,
  )

  module _ (hasher : Str → ℕ) (path : Str) (handler : Option Hd)
      (d : GlobalDispatcherHandler Hd) where
    register_valid-IsRegistered :
        is_valid_route path ≡ true
        → length path ≤ npos
        → IsRegistered d
        → IsRegistered (register_route_handler hasher path handler d).0
    register_valid-IsRegistered valid fits i = record {
      backed = λ names.
          rw (register_valid hasher path handler d valid fits, route_at-add_parts)
            (elim (Bool-cases (names == map normalized_part (split b'/' path))) [
              | inl e ↦
                  rw e (Backed-new (hasher path) (make_route (hasher path) path handler) d.routes)
              | inr e ↦ rw e (
                  Backed-emplace (hasher path) (make_route (hasher path) path handler) d.routes
                    (route_at names d.router.root) (i.backed names))
            ]);
    }

    -- register_route_handler keeps IsRegistered (every node of the router with a handler has a key
    -- of routes_, and every other node has the key 0) for every path no longer than npos, valid or
    -- refused.
    pub register-IsRegistered :
        length path ≤ npos
        → IsRegistered d
        → IsRegistered (register_route_handler hasher path handler d).0
    register-IsRegistered fits i = elim (Bool-cases (is_valid_route path)) [
      | inl valid ↦ register_valid-IsRegistered valid fits i
      | inr invalid ↦ rw (register_invalid hasher path handler d invalid) i
    ]

pub no_executor :
    (result : RouterMatchResult Executor) → is_empty result ≡ true → result.executor ≡ none
unfolding is_empty
no_executor result e = elim (Option-cases result.executor) [
  | inl n ↦ n
  | inr (fn, s) ↦ cc (rw s at e)
]

module _ {Hd : Type 0} (handle_request : Hd → H2oReq → Map Str Str → Exchange → Outcome)
    (fault : InlineFault) (req : H2oReq) (r : Exchange) where
  -- The three ways in which a request is handled, by what the router has found: nothing, a node
  -- without a handler, or a node of a route, of which the handler is called.
  abbrev pub IsHandled :
      Map ℕ (Route Hd) → RouterMatchResult Executor × Map Str Str → Outcome → Type 0
  IsHandled routes (result, params) outcome =
      ((result.executor ≡ none) × (outcome ≡ done (send fault not_found 404 r)))
      ⊎ (((result.executor ≡ some none) × (outcome ≡ thrown (no_function (lookup 0 routes))))
          ⊎ ((k : ℕ) × (route : Route Hd) × (result.executor ≡ some (some dispatcher_fn))
              × (result.key ≡ some k)
              × (lookup k routes ≡ some route)
              × (outcome ≡ dispatcher handle_request fault req route.req_handler params r)))

module _ {Hd : Type 0} (handle_request : Hd → H2oReq → Map Str Str → Exchange → Outcome)
    (fault : InlineFault) (d : GlobalDispatcherHandler Hd) (req : H2oReq) (r : Exchange) where
  abbrev Handled : Type 0
  Handled =
      IsHandled handle_request fault req r d.routes (match_route (get_path req) [] d.router)
        (handle_impl handle_request fault d req r)

  found_node :
      (k : ℕ) (h : Option Executor) (params : Map Str Str)
      → Backed d.routes (k, h)
      → match_route (get_path req) [] d.router
        ≡ (record { executor = some h; key = some k }, params)
      → Handled
  found_node k none params b e = rw e (
      inr (
        inl (
          refl,
          handle_inner handle_request fault d req r k params e
              ∙ ap (λ j. thrown (no_function (lookup j d.routes))) b,
        )))
  found_node k (some dispatcher_fn) params (route, at) e = rw e (
      inr (
        inr (
          k,
          route,
          refl,
          refl,
          at,
          handle_found handle_request fault d req r k params route e at,
        )))

  routes_at :
      (names : List Str) (found : RouterNode Executor)
      → walk names d.router.root ≡ some found
      → route_at names d.router.root ≡ (key found, handler found)
  routes_at names found e = unfold route_at in ap route_of e

  -- While every node with a handler has a key of routes_ and every other node has the key 0
  -- (IsRegistered), and the request path is no longer than npos, handle_impl does one of three
  -- things (IsHandled): it answers 404 where the router finds nothing; it throws where the router
  -- finds a node without a handler, std::bad_function_call if 0 is a key of routes_ and
  -- std::out_of_range if not; and else it calls the handler that routes_ has under the key found,
  -- with what the router has captured.
  pub handle-cases :
      IsRegistered d
      → length (get_path req) ≤ npos
      → IsHandled handle_request fault req r d.routes
          (match_route (get_path req) [] d.router)
          (handle_impl handle_request fault d req r)
  handle-cases i fits = elim (Bool-cases (is_empty (match_route (get_path req) [] d.router).0)) [
    | inl empty ↦ inl (no_executor _ empty, handle_not_found handle_request fault d req r empty)
    | inr full ↦
        let lem = match_route_lem (get_path req) [] d.router fits in
        let found = resolve (split b'/' (get_path req)) [] d.router.root (rw lem at full) in
        found_node (key found.found) (handler found.found) _
          (rw (routes_at found.names found.found found.there) at (i.backed found.names))
          (lem
            ∙ ap (λ x. (x, (match_parts (split b'/' (get_path req)) [] d.router.root).1))
                found.result)
  ]
