-- ===== src/Tests/Dispatch.antt =====
-- src/piconaut/handlers/global_dispatcher_handler.h.
use piconaut.Prelude.{
  ℕ, ◌≤◌, Str, bytes, length, true, none, some, List, [], ◌∷◌, ◌++◌, Map, ◌≡◌, ◌≢◌, refl, arith,
  nat_eq, list_eq, list_beq,
}
use piconaut.Errors.{out_of_range}
use piconaut.Utils.Strings.{npos}
use piconaut.Utils.Strings.Split.{split}
use piconaut.Routers.Pattern.{route_char, is_valid_route}
use piconaut.Routers.Node.{find_child}
use piconaut.Routers.Router.{normalized_part, regex_match}
use piconaut.Routers.Router.Matching.{Chosen, literally, as_param, captured}
use piconaut.Routers.Router.Fresh.{AllFit, same}
use piconaut.Http.Request.{H2oReq, get_path}
use piconaut.Http.Response.{Exchange, InlineFault}
use piconaut.Handlers.Dispatcher.{
  GlobalDispatcherHandler, Outcome, done, thrown, new_dispatcher, register_route_handler,
  dispatcher, handle_impl,
}
use piconaut.Routers.Router.{match_route}
use piconaut.Handlers.Dispatcher.Dispatching.{route_for, handle_registered, handle_prefix}
use piconaut.Http.SingleServer.{H2oServer, new_h2o_server, register_handler, start_server}
use piconaut.Http.SingleServer.Serving.{Reach}
use piconaut.Handlers.Dispatcher.Interleaving.{
  Shared, begin_register, end_register, handle_between, begins, ends, here, and_then, made, stepped,
  Reach as SharedReach, read_later, pending-end_register, register-two_steps, interleaved-cases,
  begin_register-thrown,
}
use piconaut.Routers.Router.Table.{match_view}
use piconaut.Routers.Router.Table.Naming.{captured_view}
use piconaut.Handlers.Dispatcher.Flat.{Registration, register_all, flat_view, flat_naming, added}
use piconaut.Handlers.Dispatcher.Flat.Closed.{IsClosed, handle_impl-ne-thrown}
use piconaut.Routers.Router.Table.Registered.{rows}
use piconaut.Handlers.Dispatcher.Flat.Answers.{outcome_of, handle_impl-register_all}
use piconaut.Handlers.Dispatcher.Registered.{
  IsRegistered, IsRegistered-new, register-IsRegistered, handle-cases, IsHandled,
}

abbrev path : Str
path = bytes "/post/{id}"

abbrev ask : Str → H2oReq
ask p = record { method = bytes "GET"; path_normalized = p; headers = []; entity = [] }

abbrev blank : Exchange
blank = record { status = 0; reason = []; calls = [] }

-- A handler that answers with its own number as the status.
abbrev answer : ℕ → H2oReq → Map Str Str → Exchange → Outcome
answer h req params r = done (record r { status = h })

abbrev sound : InlineFault
sound body = none

abbrev fresh : GlobalDispatcherHandler ℕ
fresh = new_dispatcher

path_is_valid : is_valid_route path ≡ true
unfolding is_valid_route route_char
path_is_valid = refl

chosen : Chosen (split b'/' path) (split b'/' (get_path (ask (bytes "/post/7")))) fresh.router.root
unfolding split regex_match find_child normalized_part list_beq get_path
chosen = (literally refl refl, (literally refl refl, (as_param refl refl refl, tt)))

fits : length (get_path (ask (bytes "/post/7"))) ≤ npos
unfolding get_path
fits = omega arith

handle_registered_example :
    handle_impl answer sound
      (register_route_handler length path (some 3) fresh).0
      (ask (bytes "/post/7"))
      blank
    ≡ dispatcher answer sound
        (ask (bytes "/post/7"))
        (route_for answer sound length path (some 3) fresh).req_handler
        (captured (split b'/' path) (split b'/' (get_path (ask (bytes "/post/7")))) [])
        blank
handle_registered_example =
    handle_registered answer sound length path (some 3) fresh (ask (bytes "/post/7")) blank
      path_is_valid (omega arith) fits chosen

prefix_fits : AllFit ([] ∷ bytes "post" ∷ []) (split b'/' (get_path (ask (bytes "/post"))))
unfolding split get_path
prefix_fits = (same refl refl, (same refl refl, tt))

prefix_path : split b'/' path ≡ ([] ∷ bytes "post" ∷ []) ++ bytes "{id}" ∷ []
unfolding split
prefix_path = refl

short_fits : length (get_path (ask (bytes "/post"))) ≤ npos
unfolding get_path
short_fits = omega arith

register-IsRegistered_example : IsRegistered (register_route_handler length path (some 3) fresh).0
register-IsRegistered_example =
    register-IsRegistered length path (some 3) fresh (omega arith) IsRegistered-new

served : IsRegistered (register_route_handler length path (some 3) fresh).0
served = register-IsRegistered length path (some 3) fresh (omega arith) IsRegistered-new

-- The request for a way to a route.
handle-cases_example :
    IsHandled answer sound
      (ask (bytes "/post"))
      blank
      (register_route_handler length path (some 3) fresh).0.routes
      (match_route
        (get_path (ask (bytes "/post")))
        []
        (register_route_handler length path (some 3) fresh).0.router)
      (handle_impl answer sound
        (register_route_handler length path (some 3) fresh).0
        (ask (bytes "/post"))
        blank)
handle-cases_example =
    handle-cases answer sound (register_route_handler length path (some 3) fresh).0
      (ask (bytes "/post")) blank served short_fits

-- It throws, since no path has the hash 0.
prefix_throws :
    handle_impl answer sound
      (register_route_handler length path (some 3) fresh).0
      (ask (bytes "/post"))
      blank
    ≡ thrown out_of_range
prefix_throws =
    handle_prefix answer sound length path (some 3) ([] ∷ bytes "post" ∷ []) (bytes "{id}") []
      (ask (bytes "/post")) blank path_is_valid (omega arith) short_fits prefix_path prefix_fits

-- A server with one route, which has been started.
abbrev running : H2oServer ℕ
running =
    (start_server true true true true true 0
      (register_handler length path (some 3) (new_h2o_server true).0).0).0

abbrev sharing : Shared ℕ
sharing = record { tables = fresh; pending = none }

-- The tables with one route.
abbrev with_post : Shared ℕ
with_post = record {
  tables = (register_route_handler length path (some 3) fresh).0;
  pending = none;
}

with_post-Reach : SharedReach length with_post
with_post-Reach =
    rw (← register-two_steps length path (some 3) fresh)
      (stepped (stepped made (begins path (some 3) refl (omega arith))) ends)

-- Between the match of a request and its lookup, its node is registered under another path.
interleaved-cases_example :
    IsHandled answer sound
      (ask (bytes "/post/7"))
      blank
      (end_register (begin_register length (bytes "/post/{x}") (some 4) with_post)).tables.routes
      (read_later answer sound with_post.tables
        (end_register (begin_register length (bytes "/post/{x}") (some 4) with_post)).tables
        (ask (bytes "/post/7")))
      (handle_between answer sound with_post.tables
        (end_register (begin_register length (bytes "/post/{x}") (some 4) with_post)).tables
        (ask (bytes "/post/7"))
        blank)
interleaved-cases_example =
    interleaved-cases answer sound length (ask (bytes "/post/7")) blank with_post-Reach
      (and_then (and_then here (begins (bytes "/post/{x}") (some 4) refl (omega arith))) ends)
      (pending-end_register length _)

begin_register-thrown_example :
    handle_impl answer sound
      (begin_register length path (some 3) (record { tables = fresh; pending = none })).tables
      (ask (bytes "/post/7"))
      blank
    ≡ thrown out_of_range
begin_register-thrown_example =
    begin_register-thrown answer sound length path (some 3) fresh (ask (bytes "/post/7")) blank
      path_is_valid (omega arith) fits refl chosen

abbrev registrations : List (Registration ℕ)
registrations = (bytes "/post/new", some 4) ∷ (path, some 3) ∷ []

handle_impl-register_all_example :
    handle_impl answer sound (register_all length registrations) (ask (bytes "/post/7")) blank
    ≡ outcome_of length answer sound registrations
        (ask (bytes "/post/7"))
        blank
        (match_view
          (split b'/' (get_path (ask (bytes "/post/7"))))
          (flat_view length registrations)).executor
        (match_view
          (split b'/' (get_path (ask (bytes "/post/7"))))
          (flat_view length registrations)).key
        (captured_view
          (split b'/' (get_path (ask (bytes "/post/7"))))
          (flat_view length registrations)
          (flat_naming length registrations)
          [])
handle_impl-register_all_example =
    handle_impl-register_all length answer sound registrations (ask (bytes "/post/7")) blank
      (omega arith, (omega arith, tt)) fits

-- A route for each way to a route.
abbrev closed_registrations : List (Registration ℕ)
closed_registrations = (path, some 3) ∷ (bytes "/post", some 2) ∷ []

closed : IsClosed (rows (added length closed_registrations))
unfolding is_valid_route route_char split normalized_part list_beq
closed = (
  (λ h. absurd (omega (arith, h)), (λ h. refl, (λ h. refl, tt))),
  ((λ h. absurd (omega (arith, h)), (λ h. refl, tt)), tt),
)

answer-ne-thrown :
    (h : ℕ) (params : Map Str Str)
    → answer h (ask (bytes "/post")) params blank ≢ thrown out_of_range
answer-ne-thrown h params e = cc e

handle_impl-ne-thrown_example :
    handle_impl answer sound (register_all length closed_registrations) (ask (bytes "/post")) blank
    ≢ thrown out_of_range
handle_impl-ne-thrown_example =
    handle_impl-ne-thrown length answer sound closed_registrations (ask (bytes "/post")) blank
      (bytes "post") out_of_range (omega arith, (omega arith, tt)) closed (unfold get_path in refl)
      (unfold get_path in omega arith) answer-ne-thrown
