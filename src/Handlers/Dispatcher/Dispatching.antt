-- ===== src/Handlers/Dispatcher/Dispatching.antt =====
-- How a request reaches the handler of a route, in
-- src/piconaut/handlers/global_dispatcher_handler.h.
use piconaut.Prelude.{
  ℕ, ◌≤◌, Str, bytes, length, true, false, Option, none, some, or_old, List, [], ◌∷◌, ◌++◌, Map,
  lookup, emplace, lookup-emplace, ◌≡◌, refl, ◌∙◌, ap, nat_eq, list_eq, nat_beq_iff, Bool-cases,
  inl, inr, ◌==◌, if◌then◌else◌,
}
use piconaut.Errors.{Error, invalid_argument, out_of_range, bad_function_call}
use piconaut.Utils.Strings.{npos}
use piconaut.Utils.Strings.Split.{split}
use piconaut.Routers.Pattern.{is_valid_route}
use piconaut.Routers.Router.{is_empty, match_route, add_parts}
use piconaut.Routers.Router.Matching.{Chosen, captured, match-add_parts}
use piconaut.Routers.Router.Fresh.{AllFit, match_prefix}
use piconaut.Routers.Router.Paths.{add_route_valid, add_route_invalid, match_route_lem}
use piconaut.Http.Request.{H2oReq, get_path}
use piconaut.Http.Response.{Exchange, InlineFault, send}
use piconaut.Handlers.Dispatcher.{
  Route, make_route, request_handler, dispatcher_fn, GlobalDispatcherHandler, done, Outcome, thrown,
  new_dispatcher, finish_register, with_route, register_route_handler, dispatcher, handle_impl,
  not_found,
}

-- What a request throws at a node without a handler, by what `routes_` has under the node's key: the
-- lookup throws, or the call of the empty function.
abbrev pub no_function {ℓ} : {A : Type ℓ} → Option A → Error
no_function none = out_of_range
no_function (some route) = bad_function_call

module _ {Hd : Type 0} (hasher : Str → ℕ) (path : Str) (handler : Option Hd)
    (d : GlobalDispatcherHandler Hd) where
  pub register_valid :
      is_valid_route path ≡ true
      → length path ≤ npos
      → register_route_handler hasher path handler d ≡ (
        record {
          router = record {
            root = add_parts (split b'/' path) (hasher path) dispatcher_fn d.router.root;
          };
          routes = emplace (hasher path) (make_route (hasher path) path handler) d.routes;
        },
        none,
      )
  unfolding register_route_handler
  register_valid valid fits =
      ap (finish_register (hasher path) path handler d)
        (add_route_valid path fits valid (hasher path) dispatcher_fn d.router)

  -- Registering a path that is no valid route throws std::invalid_argument with the path in its
  -- message, and leaves the dispatcher unchanged.
  pub register_invalid :
      is_valid_route path ≡ false
      → register_route_handler hasher path handler d
        ≡ (d, some (invalid_argument (bytes "Invalid route pattern: " ++ path)))
  unfolding register_route_handler
  register_invalid invalid =
      ap (finish_register (hasher path) path handler d)
        (add_route_invalid (hasher path) path dispatcher_fn d.router invalid)

-- The lookup for a node without a handler.
pub with_route-no_function :
    {Hd : Type 0} (handle_request : Hd → H2oReq → Map Str Str → Exchange → Outcome)
    (fault : InlineFault) (o : Option (Route Hd))
    → with_route handle_request fault o (λ h. thrown bad_function_call) ≡ thrown (no_function o)
with_route-no_function handle_request fault none = refl
with_route-no_function handle_request fault (some route) = refl

module _ {Hd : Type 0} (handle_request : Hd → H2oReq → Map Str Str → Exchange → Outcome)
    (fault : InlineFault) (d : GlobalDispatcherHandler Hd) (req : H2oReq) (r : Exchange) where
  pub handle_found :
      (k : ℕ) (params : Map Str Str) (route : Route Hd)
      → match_route (get_path req) [] d.router
        ≡ (record { executor = some (some dispatcher_fn); key = some k }, params)
      → lookup k d.routes ≡ some route
      → handle_impl handle_request fault d req r
        ≡ dispatcher handle_request fault req route.req_handler params r
  unfolding handle_impl is_empty request_handler
  handle_found k params route e at =
      rw (e, handle_impl)
        (ap
          (λ o.
            with_route handle_request fault o (λ h. dispatcher handle_request fault req h params r))
          at)

  -- At a node without a handler.
  pub handle_inner :
      (k : ℕ) (params : Map Str Str)
      → match_route (get_path req) [] d.router
        ≡ (record { executor = some none; key = some k }, params)
      → handle_impl handle_request fault d req r ≡ thrown (no_function (lookup k d.routes))
  unfolding handle_impl is_empty
  handle_inner k params e =
      rw (e, handle_impl) (with_route-no_function handle_request fault (lookup k d.routes))

  -- A request that the router finds nothing for is answered with 404.
  pub handle_not_found :
      is_empty (match_route (get_path req) [] d.router).0 ≡ true
      → handle_impl handle_request fault d req r ≡ done (send fault not_found 404 r)
  unfolding handle_impl
  handle_not_found e = rw e refl

module _ {Hd : Type 0} (handle_request : Hd → H2oReq → Map Str Str → Exchange → Outcome)
    (fault : InlineFault) (hasher : Str → ℕ) (path : Str) (handler : Option Hd) where
  -- The route that a path's key stands for, once the path is registered: the entry that has been
  -- there before stays.
  abbrev pub route_for : GlobalDispatcherHandler Hd → Route Hd
  route_for d = or_old (lookup (hasher path) d.routes) (make_route (hasher path) path handler)

  route_of_key :
      (d : GlobalDispatcherHandler Hd)
      → lookup
          (hasher path)
          (emplace (hasher path) (make_route (hasher path) path handler) d.routes)
        ≡ some (route_for d)
  route_of_key d =
      lookup-emplace (hasher path) (hasher path) (make_route (hasher path) path handler) d.routes
      ∙ rw ((nat_beq_iff (hasher path) (hasher path)).1 refl) refl

  -- After a valid path is registered on any dispatcher, path and request path no longer than npos,
  -- a request whose parts the path's parts take (Chosen) is handed by handle_impl to the dispatcher
  -- with the captured parameters, and with the handler of the entry that the path's hash has in
  -- routes_: the new one, or the entry that was there before under the same hash.
  pub handle_registered :
      (d : GlobalDispatcherHandler Hd) (req : H2oReq) (r : Exchange)
      → is_valid_route path ≡ true
      → length path ≤ npos
      → length (get_path req) ≤ npos
      → Chosen (split b'/' path) (split b'/' (get_path req)) d.router.root
      → handle_impl handle_request fault (register_route_handler hasher path handler d).0 req r
        ≡ dispatcher handle_request fault req
            (route_for d).req_handler
            (captured (split b'/' path) (split b'/' (get_path req)) [])
            r
  handle_registered d req r valid fits fits' chosen =
      rw (register_valid hasher path handler d valid fits) (
        handle_found handle_request fault _ req r (hasher path)
          (captured (split b'/' path) (split b'/' (get_path req)) []) (route_for d)
          (match_route_lem (get_path req) [] _ fits'
            ∙ match-add_parts (hasher path) dispatcher_fn (split b'/' path)
                (split b'/' (get_path req)) [] d.router.root chosen)
          (route_of_key d))

  -- On a fresh dispatcher on which one valid path has been registered, path and request path no
  -- longer than npos, handle_impl on a request that takes only the first parts of the path, and not
  -- all, looks the key 0 up and throws: std::out_of_range, or std::bad_function_call where the
  -- path's hash is 0.
  pub handle_prefix :
      (parts : List Str) (part : Str) (rest : List Str) (req : H2oReq) (r : Exchange)
      → is_valid_route path ≡ true
      → length path ≤ npos
      → length (get_path req) ≤ npos
      → split b'/' path ≡ parts ++ part ∷ rest
      → AllFit parts (split b'/' (get_path req))
      → handle_impl handle_request fault
          (register_route_handler hasher path handler new_dispatcher).0
          req
          r
        ≡ thrown (if hasher path == 0 then bad_function_call else out_of_range)
  handle_prefix parts part rest req r valid fits fits' same fit =
      rw (register_valid hasher path handler new_dispatcher valid fits) (
        handle_inner handle_request fault _ req r 0 (captured parts (split b'/' (get_path req)) [])
          (match_route_lem (get_path req) [] _ fits'
            ∙ rw same (
                match_prefix (hasher path) dispatcher_fn parts part rest (split b'/' (get_path req))
                  [] fit))
        ∙ elim (Bool-cases (hasher path == 0)) [ inl e ↦ rw e refl | inr e ↦ rw e refl ])
