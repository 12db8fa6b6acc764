-- ===== src/Handlers/Dispatcher.antt =====
-- src/piconaut/handlers/global_dispatcher_handler.h, and `Route` of src/piconaut/routers/route.cc.
-- `Hd` is the type of the handlers behind `std::shared_ptr<HandlerBase>`, `none` a null pointer, and
-- what `HandleRequest` does, an exception included, is a parameter. The mutex is left out, since a call is one step.
pub mod Registered
pub mod Interleaving
pub mod Dispatching
pub mod Flat
use piconaut.Prelude.{
  ℕ, Str, bytes, Option, none, some, List, [], ◌∷◌, Map, lookup, emplace, nat_eq, list_eq,
  if◌then◌else◌,
}
use piconaut.Errors.{Error, out_of_range, bad_function_call}
use piconaut.Routers.Router.{
  Router, RouterMatchResult, new_router, is_empty, add_route, match_route,
}
use piconaut.Http.Request.{H2oReq, get_path}
use piconaut.Http.Response.{Exchange, InlineFault, send}

pub record Route (Hd : Type 0) : Type 0 where
  pub key : ℕ
  pub path : Str
  pub req_handler : Option Hd

unfoldable pub make_route : {Hd : Type 0} → ℕ → Str → Option Hd → Route Hd
make_route key path req_handler = record { key = key; path = path; req_handler = req_handler }

unfoldable pub route_key : {Hd : Type 0} → Route Hd → ℕ
route_key r = r.key

unfoldable pub route_path : {Hd : Type 0} → Route Hd → Str
route_path r = r.path

unfoldable pub request_handler : {Hd : Type 0} → Route Hd → Option Hd
request_handler r = r.req_handler

-- The functions that the router is given: there is one, `GlobalDispatcherHandler::Dispatcher`.
pub data Executor : Type 0 where
  dispatcher_fn : Executor

pub record GlobalDispatcherHandler (Hd : Type 0) : Type 0 where
  pub router : Router Executor
  pub routes : Map ℕ (Route Hd)

-- A request is answered, or its handling throws, or its behaviour is undefined.
pub data Outcome : Type 0 where
  done : Exchange → Outcome
  thrown : Error → Outcome
  undefined : Outcome

abbrev pub not_found : Str
not_found = bytes "Eror 404: Not found"

module _ {Hd : Type 0} where
  abbrev pub new_dispatcher : GlobalDispatcherHandler Hd
  new_dispatcher = record { router = new_router; routes = [] }

  -- `Router()`
  unfoldable pub router_of : GlobalDispatcherHandler Hd → Router Executor
  router_of d = d.router

  -- `HandleRequest(req, res, params)` of the dispatcher, which does nothing
  unfoldable pub handle_nothing :
      GlobalDispatcherHandler Hd → H2oReq → Map Str Str → Exchange → Exchange
  handle_nothing d req params r = r

  -- What follows `AddRoute`, unless it throws.
  abbrev pub finish_register :
      ℕ
      → Str
      → Option Hd
      → GlobalDispatcherHandler Hd
      → Router Executor × Option Error
      → GlobalDispatcherHandler Hd × Option Error
  finish_register key path handler d (router', some e) = (record d { router = router' }, some e)
  finish_register key path handler d (router', none) = (
    record { router = router'; routes = emplace key (make_route key path handler) d.routes },
    none,
  )

  -- `RegisterRouteHandler(path, handler)`, with `std::hash<std::string>` as a parameter
  unfoldable pub register_route_handler :
      (Str → ℕ)
      → Str
      → Option Hd
      → GlobalDispatcherHandler Hd
      → GlobalDispatcherHandler Hd × Option Error
  register_route_handler hasher path handler d =
      finish_register (hasher path) path handler d
        (add_route (hasher path) path dispatcher_fn d.router)

  module _ (handle_request : Hd → H2oReq → Map Str Str → Exchange → Outcome)
      (fault : InlineFault) where
    -- `Dispatcher(request, response, handler, params)`
    unfoldable pub dispatcher : H2oReq → Option Hd → Map Str Str → Exchange → Outcome
    dispatcher req none params r = done r
    dispatcher req (some h) params r = handle_request h req params r

    -- `(*fn)(req, res, req_handler, params)`
    abbrev pub call :
        Option (Option Executor) → H2oReq → Option Hd → Map Str Str → Exchange → Outcome
    call none req h params r = undefined
    call (some none) req h params r = thrown bad_function_call
    call (some (some dispatcher_fn)) req h params r = dispatcher req h params r

    abbrev pub with_route : Option (Route Hd) → (Option Hd → Outcome) → Outcome
    with_route none run = thrown out_of_range
    with_route (some route) run = run (request_handler route)

    -- `routes_.at(*route_result.key)->RequestHandler()`, and the call
    abbrev pub at_key : Map ℕ (Route Hd) → Option ℕ → (Option Hd → Outcome) → Outcome
    at_key routes none run = undefined
    at_key routes (some key) run = with_route (lookup key routes) run

    -- `__HandleImpl(req, res)`
    unfoldable pub handle_impl : GlobalDispatcherHandler Hd → H2oReq → Exchange → Outcome
    handle_impl d req r =
        let (result, params) = match_route (get_path req) [] d.router in
        if is_empty result
        then done (send fault not_found 404 r)
        else at_key d.routes result.key (λ h. call result.executor req h params r)
