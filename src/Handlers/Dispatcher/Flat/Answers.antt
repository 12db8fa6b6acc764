-- ===== src/Handlers/Dispatcher/Flat/Answers.antt =====
-- What `__HandleImpl` of src/piconaut/handlers/global_dispatcher_handler.h comes to, after any calls of
-- `RegisterRouteHandler`.
use piconaut.Prelude.{
  ℕ, ◌≤◌, Str, length, Bool-cases, ◌&&◌, not, Option, none, some, or_old, List, [], ◌∷◌, Map,
  lookup, inl, inr, All, ◌≡◌, refl, ◌∙◌, sym, ap, arith, nat_eq, list_eq, ◌==◌,
}
use piconaut.Utils.Strings.{npos}
use piconaut.Utils.Strings.Split.{split}
use piconaut.Routers.Node.{RouterNode, param_pattern}
use piconaut.Routers.Router.{
  Router, RouterMatchResult, no_match, braces, regex_match, match_route, is_empty,
}
use piconaut.Routers.Router.Walk.{walk, route_of, route_at}
use piconaut.Routers.Router.Table.{Entry, View, view, entry_at, match_view, is_present}
use piconaut.Routers.Router.Table.Naming.{captured_view}
use piconaut.Routers.Router.Table.Registered.{add_routes, add_routes-Holds, match_route-add_routes}
use piconaut.Http.Request.{H2oReq, get_path}
use piconaut.Http.Response.{Exchange, InlineFault, send}
use piconaut.Handlers.Dispatcher.{
  Executor, Route, dispatcher_fn, GlobalDispatcherHandler, Outcome, done, thrown, undefined,
  dispatcher, handle_impl, not_found,
}
use piconaut.Handlers.Dispatcher.Dispatching.{
  no_function, handle_found, handle_inner, handle_not_found,
}
use piconaut.Handlers.Dispatcher.Registered.{Backed}
use piconaut.Handlers.Dispatcher.Flat.{
  Registration, FitsPath, register_all, added, flat_view, flat_naming, first_with, added-FitsIn,
  register_all-IsRegistered, held, register_all-Mirrors,
}

-- What a search on a view finds: nothing, or an entry of the view.
data Found (v : View Executor) : RouterMatchResult Executor → Type 0 where
  nothing : Found v no_match
  at_entry :
      (names : List Str) (k : ℕ) (h : Option Executor)
      → v names ≡ some (k, h)
      → Found v (record { executor = some h; key = some k })

Found-below :
    (name : Str) (v : View Executor) {r : RouterMatchResult Executor}
    → Found (λ names. v (name ∷ names)) r
    → Found v r
Found-below name v nothing = nothing
Found-below name v (at_entry names k h e) = at_entry (name ∷ names) k h e

match_view-Found : (qs : List Str) (v : View Executor) → Found v (match_view qs v)
unfolding match_view
match_view-Found [] v = here (v []) refl
  where
    here :
        (o : Option (Entry Executor))
        → v [] ≡ o
        → Found v (elim o as (λ _. RouterMatchResult Executor) [
          | none ↦ no_match
          | some (k, h) ↦ record { executor = some h; key = some k }
        ])
    here none e = nothing
    here (some (k, h)) e = at_entry [] k h e
match_view-Found (q ∷ qs) v = elim (Bool-cases (is_present (v (q ∷ [])) && not (q == braces))) [
  | inl e ↦ rw e (Found-below q v (match_view-Found qs (λ names. v (q ∷ names))))
  | inr e ↦ rw e (elim (Bool-cases (is_present (v (braces ∷ [])) && regex_match q param_pattern)) [
    | inl e' ↦ rw e' (Found-below braces v (match_view-Found qs (λ names. v (braces ∷ names))))
    | inr e' ↦ rw e' nothing
  ])
]

route_of_entry :
    (o : Option (RouterNode Executor)) (e : Entry Executor) → entry_at o ≡ some e → route_of o ≡ e
route_of_entry none e at = cc at
route_of_entry (some n) e at = ground (arith, at)

route_at-view :
    (names : List Str) (n : RouterNode Executor) (e : Entry Executor)
    → view n names ≡ some e
    → route_at names n ≡ e
unfolding route_at view
route_at-view names n e at = route_of_entry (walk names n) e at

module _ {Hd : Type 0} (hasher : Str → ℕ)
    (handle_request : Hd → H2oReq → Map Str Str → Exchange → Outcome) (fault : InlineFault)
    (registrations : List (Registration Hd)) (req : H2oReq) (r : Exchange) where
  -- What a request comes to, from what is found for it: nothing, a way to a route without a
  -- handler, or a route with its key.
  abbrev pub outcome_of : Option (Option Executor) → Option ℕ → Map Str Str → Outcome
  outcome_of none k params = done (send fault not_found 404 r)
  outcome_of (some none) k params = thrown (no_function (first_with hasher 0 registrations))
  outcome_of (some (some fn)) none params = undefined
  outcome_of (some (some fn)) (some k) params =
      dispatcher handle_request fault req (or_old (first_with hasher k registrations) none) params r

  module _ (f : All FitsPath registrations) where
    abbrev d : GlobalDispatcherHandler Hd
    d = register_all hasher registrations

    entry-Backed :
        (names : List Str) (k : ℕ) (h : Option Executor)
        → flat_view hasher registrations names ≡ some (k, h)
        → Backed d.routes (k, h)
    entry-Backed names k h at =
        let held =
          add_routes-Holds (added hasher registrations) (added-FitsIn hasher registrations f) in
        let routed = (register_all-Mirrors hasher registrations f).routed in
        let same : route_at names d.router.root ≡ (k, h) =
          ap (λ (router : Router Executor). route_at names router.root) routed
          ∙ route_at-view names (add_routes (added hasher registrations)).root (k, h)
              (held.viewed names ∙ at) in
        rw same at ((register_all-IsRegistered hasher registrations f).backed names)

    no_function-held : (o : Option (Route Hd)) → no_function o ≡ no_function (held hasher o)
    no_function-held none = refl
    no_function-held (some route) = refl

    at_node :
        (k : ℕ) (h : Option Executor) (params : Map Str Str)
        → Backed d.routes (k, h)
        → match_route (get_path req) [] d.router
          ≡ (record { executor = some h; key = some k }, params)
        → handle_impl handle_request fault d req r ≡ outcome_of (some h) (some k) params
    at_node k none params b e =
        handle_inner handle_request fault d req r k params e
        ∙ ap (λ j. thrown (no_function (lookup j d.routes))) b
        ∙ ap thrown (
            no_function-held (lookup 0 d.routes)
            ∙ ap no_function ((register_all-Mirrors hasher registrations f).kept 0))
    at_node k (some dispatcher_fn) params (route, at) e =
        handle_found handle_request fault d req r k params route e at
        ∙ ap (λ o. dispatcher handle_request fault req (or_old o none) params r)
            (sym (ap (held hasher) at) ∙ (register_all-Mirrors hasher registrations f).kept k)

    outcome-Found :
        (x : RouterMatchResult Executor) (params : Map Str Str)
        → Found (flat_view hasher registrations) x
        → match_route (get_path req) [] d.router ≡ (x, params)
        → handle_impl handle_request fault d req r ≡ outcome_of x.executor x.key params
    outcome-Found x params nothing e =
        handle_not_found handle_request fault d req r (unfold is_empty in rw e refl)
    outcome-Found x params (at_entry names k h at) e =
        at_node k h params (entry-Backed names k h at) e

    -- The dispatcher is a flat list of its registrations: after any calls of register_route_handler
    -- on a new dispatcher, with paths no longer than npos, valid or not, handle_impl on a request
    -- path no longer than npos comes to what the search in the table of the valid paths says: the
    -- 404 answer where it finds nothing; where it finds only the way to a longer route, an
    -- exception, std::bad_function_call if a valid path has been registered under the hash 0 and
    -- std::out_of_range if not; and else what the first handler registered under the hash of the
    -- last route with the names found does with the parts captured under the names that the last
    -- route on that way has given them.
    pub handle_impl-register_all :
        length (get_path req) ≤ npos
        → handle_impl handle_request fault (register_all hasher registrations) req r
          ≡ outcome_of
              (match_view (split b'/' (get_path req)) (flat_view hasher registrations)).executor
              (match_view (split b'/' (get_path req)) (flat_view hasher registrations)).key
              (captured_view
                (split b'/' (get_path req))
                (flat_view hasher registrations)
                (flat_naming hasher registrations)
                [])
    handle_impl-register_all fits =
        outcome-Found _ _
          (match_view-Found (split b'/' (get_path req)) (flat_view hasher registrations))
          (ap (match_route (get_path req) []) (register_all-Mirrors hasher registrations f).routed
            ∙ match_route-add_routes (added hasher registrations) (get_path req) []
                (added-FitsIn hasher registrations f) fits)
