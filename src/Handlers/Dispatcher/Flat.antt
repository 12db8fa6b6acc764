-- ===== src/Handlers/Dispatcher/Flat.antt =====
-- The dispatcher of src/piconaut/handlers/global_dispatcher_handler.h as a flat list of what has been
-- registered.
pub mod Answers
pub mod Closed
use piconaut.Prelude.{
  ℕ, ◌≤◌, Str, length, Bool-cases, true, false, ◌&&◌, not, Option, none, some, or_old, List, [],
  ◌∷◌, Map, lookup, emplace, lookup-emplace, ◌⊎◌, inl, inr, All, ◌≡◌, refl, ◌∙◌, sym, ap,
  nat_beq_iff, arith, nat_eq, list_eq, ◌==◌, if◌then◌else◌,
}
use piconaut.Errors.{Error}
use piconaut.Utils.Strings.{npos}
use piconaut.Utils.Strings.Split.{split}
use piconaut.Routers.Pattern.{is_valid_route}
use piconaut.Routers.Node.{RouterNode, param_pattern}
use piconaut.Routers.Router.{
  Router, RouterMatchResult, add_parts, no_match, braces, regex_match, match_route, is_empty,
}
use piconaut.Routers.Router.Paths.{add_route_valid, add_route_invalid}
use piconaut.Routers.Router.Walk.{walk, route_of, route_at}
use piconaut.Routers.Router.Table.{Entry, View, table, view, entry_at, match_view, is_present}
use piconaut.Routers.Router.Table.Naming.{Naming, naming_of, captured_view}
use piconaut.Routers.Router.Table.Registered.{
  Added, add_routes, rows, ways, FitsIn, Holds, add_routes-Holds, match_route-add_routes,
}
use piconaut.Http.Request.{H2oReq, get_path}
use piconaut.Http.Response.{Exchange, InlineFault, send}
use piconaut.Handlers.Dispatcher.{
  Route, make_route, Executor, dispatcher_fn, GlobalDispatcherHandler, Outcome, done, undefined,
  new_dispatcher, register_route_handler, dispatcher, handle_impl, not_found,
}
use piconaut.Handlers.Dispatcher.Dispatching.{register_valid, register_invalid}
use piconaut.Handlers.Dispatcher.Registered.{
  Backed, IsRegistered, IsRegistered-new, register-IsRegistered,
}

-- A call of `RegisterRouteHandler`: path and handler.
abbrev pub Registration : Type 0 → Type 0
Registration Hd = Str × Option Hd

abbrev pub FitsPath : {Hd : Type 0} → Registration Hd → Type 0
FitsPath (path, h) = length path ≤ npos

-- The first of two, if it is there.
abbrev pub first_or {ℓ} : {A : Type ℓ} → Option A → Option A → Option A
first_or none next = next
first_or (some first) next = some first

module _ {Hd : Type 0} (hasher : Str → ℕ) where
  -- The dispatcher after the calls, the last one first.
  abbrev pub register_all : List (Registration Hd) → GlobalDispatcherHandler Hd
  register_all [] = new_dispatcher
  register_all ((path, h) ∷ registrations) =
      (register_route_handler hasher path h (register_all registrations)).0

  -- What the router is asked to add.
  abbrev pub added : List (Registration Hd) → List (Added Executor)
  added [] = []
  added ((path, h) ∷ registrations) = (hasher path, path, dispatcher_fn) ∷ added registrations

  -- The router's table, and the names of its parameters.
  abbrev pub flat_view : List (Registration Hd) → View Executor
  flat_view registrations = table (rows (added registrations))

  abbrev pub flat_naming : List (Registration Hd) → Naming
  flat_naming registrations = naming_of (ways (added registrations))

  -- The handler of the first registration of a valid path with the hash.
  abbrev pub first_with : ℕ → List (Registration Hd) → Option (Option Hd)
  first_with k [] = none
  first_with k ((path, h) ∷ registrations) =
      first_or (first_with k registrations)
        (if is_valid_route path && hasher path == k then some h else none)

  pub added-FitsIn :
      (registrations : List (Registration Hd))
      → All FitsPath registrations
      → All FitsIn (added registrations)
  added-FitsIn [] f = tt
  added-FitsIn ((path, h) ∷ registrations) (f, fs) = (f, added-FitsIn registrations fs)

  pub register_all-IsRegistered :
      (registrations : List (Registration Hd))
      → All FitsPath registrations
      → IsRegistered (register_all registrations)
  register_all-IsRegistered [] f = IsRegistered-new
  register_all-IsRegistered ((path, h) ∷ registrations) (f, fs) =
      register-IsRegistered hasher path h (register_all registrations) f
        (register_all-IsRegistered registrations fs)

  abbrev pub held : Option (Route Hd) → Option (Option Hd)
  held none = none
  held (some route) = some route.req_handler

  held_or_old :
      (o : Option (Route Hd)) (route : Route Hd)
      → held (some (or_old o route)) ≡ first_or (held o) (some route.req_handler)
  held_or_old none route = refl
  held_or_old (some old) route = refl

  or_nothing : (o : Option (Option Hd)) → o ≡ first_or o none
  or_nothing none = refl
  or_nothing (some h) = refl

  held-emplace :
      (path : Str) (h : Option Hd) (k : ℕ) (routes : Map ℕ (Route Hd))
      → held (lookup k (emplace (hasher path) (make_route (hasher path) path h) routes))
        ≡ first_or (held (lookup k routes)) (if hasher path == k then some h else none)
  held-emplace path h k routes =
      ap held (lookup-emplace (hasher path) k (make_route (hasher path) path h) routes)
      ∙ elim (Bool-cases (hasher path == k)) [
        | inl e ↦
            rw (e, (nat_beq_iff (hasher path) k).0 e)
              (unfold make_route in held_or_old (lookup k routes) (make_route k path h))
        | inr e ↦ rw e (or_nothing (held (lookup k routes)))
      ]

  -- The two tables of the dispatcher.
  pub record Mirrors (registrations : List (Registration Hd)) (d : GlobalDispatcherHandler Hd)
      : Type 0 where
    pub routed : d.router ≡ add_routes (added registrations)
    pub kept : (k : ℕ) → held (lookup k d.routes) ≡ first_with k registrations

  module _ (path : Str) (h : Option Hd) (registrations : List (Registration Hd))
      (d : GlobalDispatcherHandler Hd) (before : Mirrors registrations d) where
    valid-Mirrors :
        is_valid_route path ≡ true
        → length path ≤ npos
        → Mirrors ((path, h) ∷ registrations) (register_route_handler hasher path h d).0
    valid-Mirrors valid f = rw (register_valid hasher path h d valid f) (record {
      routed =
          ap
            (λ (router : Router Executor). record {
              root = add_parts (split b'/' path) (hasher path) dispatcher_fn router.root;
            })
            before.routed
          ∙ sym (
              ap (λ (r : Router Executor × Option Error). r.0)
                (add_route_valid path f valid (hasher path) dispatcher_fn
                  (add_routes (added registrations))));
      kept = λ k. rw valid (held-emplace path h k d.routes ∙ rw (before.kept k) refl);
    })

    invalid-Mirrors :
        is_valid_route path ≡ false
        → Mirrors ((path, h) ∷ registrations) (register_route_handler hasher path h d).0
    invalid-Mirrors invalid = rw (register_invalid hasher path h d invalid) (record {
      routed =
          before.routed
          ∙ sym (
              ap (λ (r : Router Executor × Option Error). r.0)
                (add_route_invalid (hasher path) path dispatcher_fn
                  (add_routes (added registrations)) invalid));
      kept = λ k. rw invalid (before.kept k ∙ or_nothing (first_with k registrations));
    })

  pub register_all-Mirrors :
      (registrations : List (Registration Hd))
      → All FitsPath registrations
      → Mirrors registrations (register_all registrations)
  register_all-Mirrors [] f = record { routed = refl; kept = λ k. refl }
  register_all-Mirrors ((path, h) ∷ registrations) (f, fs) =
      let before = register_all-Mirrors registrations fs in
      elim (Bool-cases (is_valid_route path)) [
        | inl valid ↦ valid-Mirrors path h registrations (register_all registrations) before valid f
        | inr invalid ↦
            invalid-Mirrors path h registrations (register_all registrations) before invalid
      ]
