-- ===== src/Handlers/Dispatcher/Interleaving.antt =====
-- Registrations that run beside a request, in src/piconaut/handlers/global_dispatcher_handler.h:
-- `RegisterRouteHandler` holds `mutex_` for its two writes, `__HandleImpl` reads without it, and the result
-- of the match is two pointers into the tree, which are read at the lookup. The calls
-- of the router and of the table are taken as one step each.
use piconaut.Prelude.{
  ℕ, Bool-cases, inl, inr, sym, ◌≤◌, Str, length, true, Option, none, some, [], Map, lookup,
  emplace, ◌≡◌, refl, ◌∙◌, ap, if◌then◌else◌, nat_eq, list_eq,
}
use piconaut.Errors.{Error, out_of_range}
use piconaut.Utils.Strings.{npos, split_string}
use piconaut.Utils.Strings.Split.{split}
use piconaut.Routers.Pattern.{is_valid_route}
use piconaut.Routers.Router.{Router, RouterMatchResult, is_empty, match_route, add_route}
use piconaut.Routers.Router.Walk.{route_at}
use piconaut.Routers.Router.Pointers.{way_of_match, pointed, match_parts-pointed}
use piconaut.Handlers.Dispatcher.Dispatching.{no_function, with_route-no_function}
use piconaut.Routers.Router.Matching.{Chosen, match-add_parts}
use piconaut.Routers.Router.Paths.{match_route_lem, add_route_valid}
use piconaut.Http.Request.{H2oReq, get_path}
use piconaut.Http.Response.{Exchange, InlineFault, send}
use piconaut.Handlers.Dispatcher.{
  Route, make_route, Executor, dispatcher_fn, GlobalDispatcherHandler, Outcome, done, thrown,
  request_handler, new_dispatcher, register_route_handler, handle_impl, at_key, call, not_found,
  finish_register,
}
use piconaut.Handlers.Dispatcher.Registered.{
  Backed, no_executor, IsRegistered, IsRegistered-new, register-IsRegistered, IsHandled,
}

-- `pending` is the entry that the registration which holds `mutex_` has still to write.
pub record Shared (Hd : Type 0) : Type 0 where
  pub tables : GlobalDispatcherHandler Hd
  pub pending : Option (ℕ × Route Hd)

module _ {Hd : Type 0} where
  -- `RegisterRouteHandler` until `AddRoute` has returned, or thrown
  abbrev begun_by : ℕ × Route Hd → Router Executor × Option Error → Shared Hd → Shared Hd
  begun_by entry (router', some e) s = record s { tables = record s.tables { router = router' } }
  begun_by entry (router', none) s = record {
    tables = record s.tables { router = router' };
    pending = some entry;
  }

  unfoldable pub begin_register : (Str → ℕ) → Str → Option Hd → Shared Hd → Shared Hd
  begin_register hasher path handler s =
      begun_by (hasher path, make_route (hasher path) path handler)
        (add_route (hasher path) path dispatcher_fn s.tables.router) s

  -- `routes_.emplace(…)`, and the end of the lock
  abbrev finish_entry : Option (ℕ × Route Hd) → Shared Hd → Shared Hd
  finish_entry none s = s
  finish_entry (some (key, route)) s = record {
    tables = record s.tables { routes = emplace key route s.tables.routes };
    pending = none;
  }

  unfoldable pub end_register : Shared Hd → Shared Hd
  end_register s = finish_entry s.pending s

  module _ (hasher : Str → ℕ) where
    -- The steps of registrations, of which one at a time holds the lock.
    pub data Step (s : Shared Hd) : Shared Hd → Type 0 where
      begins :
          (path : Str) (handler : Option Hd)
          → s.pending ≡ none
          → length path ≤ npos
          → Step s (begin_register hasher path handler s)
      ends : Step s (end_register s)

    pub data Steps (s : Shared Hd) : Shared Hd → Type 0 where
      here : Steps s s
      and_then : {s' s'' : Shared Hd} → Steps s s' → Step s' s'' → Steps s s''

    two_steps :
        (path : Str) (handler : Option Hd) (x : Router Executor × Option Error)
        (d : GlobalDispatcherHandler Hd)
        → end_register (
            begun_by
              (hasher path, make_route (hasher path) path handler)
              x
              (record { tables = d; pending = none }))
          ≡ record { tables = (finish_register (hasher path) path handler d x).0; pending = none }
    unfolding end_register
    two_steps path handler (router', none) d = refl
    two_steps path handler (router', some e) d = refl

    -- The two steps of a registration, one after the other, are RegisterRouteHandler.
    pub register-two_steps :
        (path : Str) (handler : Option Hd) (d : GlobalDispatcherHandler Hd)
        → end_register (begin_register hasher path handler (record { tables = d; pending = none }))
          ≡ record { tables = (register_route_handler hasher path handler d).0; pending = none }
    unfolding begin_register register_route_handler
    register-two_steps path handler d =
        two_steps path handler (add_route (hasher path) path dispatcher_fn d.router) d

    pub pending-end_register : (s : Shared Hd) → (end_register s).pending ≡ none
    unfolding end_register
    pending-end_register s = of_entry s.pending refl
      where
        of_entry : (p : Option (ℕ × Route Hd)) → s.pending ≡ p → (finish_entry p s).pending ≡ none
        of_entry none e = e
        of_entry (some (key, route)) e = refl

    -- The tables of a dispatcher after any steps.
    pub data Reach : Shared Hd → Type 0 where
      made : Reach (record { tables = new_dispatcher; pending = none })
      stepped : {s s' : Shared Hd} → Reach s → Step s s' → Reach s'

    with_none :
        (s : Shared Hd) → s.pending ≡ none → s ≡ record { tables = s.tables; pending = none }
    with_none s e = ap (λ p. record { tables = s.tables; pending = p }) e

    end_twice :
        (s : Shared Hd) (p : Option (ℕ × Route Hd))
        → s.pending ≡ p
        → (end_register (finish_entry p s)).tables ≡ (finish_entry p s).tables
    unfolding end_register
    end_twice s none e = rw e refl
    end_twice s (some (key, route)) e = refl

    -- Once the registration that is under way has ended, the router and the table agree.
    Reach-IsRegistered : {s : Shared Hd} → Reach s → IsRegistered (end_register s).tables
    unfolding end_register
    Reach-IsRegistered made = IsRegistered-new
    Reach-IsRegistered (stepped {s} r (begins path handler e fits)) =
        let before : IsRegistered s.tables = rw (with_none s e) at (Reach-IsRegistered r) in
        rw (ap (λ t. (end_register (begin_register hasher path handler t)).tables) (with_none s e))
          (rw (register-two_steps path handler s.tables)
            (register-IsRegistered hasher path handler s.tables fits before))
    Reach-IsRegistered (stepped {s} r ends) = rw (end_twice s s.pending refl) (Reach-IsRegistered r)

    Reach-Steps : {s s' : Shared Hd} → Reach s → Steps s s' → Reach s'
    Reach-Steps r here = r
    Reach-Steps r (and_then steps step) = stepped (Reach-Steps r steps) step

  -- A request that is matched in one state of the tables and looked up in another.
  module _ (handle_request : Hd → H2oReq → Map Str Str → Exchange → Outcome)
      (fault : InlineFault) where
    -- What the result of the match in `before` points to, when it is read in `after`.
    unfoldable pub read_later :
        GlobalDispatcherHandler Hd
        → GlobalDispatcherHandler Hd
        → H2oReq
        → RouterMatchResult Executor × Map Str Str
    unfolding way_of_match
    read_later before after req =
        let (result, params) = match_route (get_path req) [] before.router in
        let way = way_of_match (split_string (get_path req) b'/') before.router.root in
        (if is_empty result then result else pointed (route_at way after.router.root), params)

    -- What `__HandleImpl` does with the result.
    abbrev with_result :
        Map ℕ (Route Hd) → RouterMatchResult Executor × Map Str Str → H2oReq → Exchange → Outcome
    with_result routes (result, params) req r =
        if is_empty result
        then done (send fault not_found 404 r)
        else at_key handle_request fault routes result.key
            (λ h. call handle_request fault result.executor req h params r)

    unfoldable pub handle_between :
        GlobalDispatcherHandler Hd → GlobalDispatcherHandler Hd → H2oReq → Exchange → Outcome
    unfolding read_later
    handle_between before after req r = with_result after.routes (read_later before after req) req r

    read_at_once :
        (d : GlobalDispatcherHandler Hd) (req : H2oReq)
        → read_later d d req ≡ match_route (get_path req) [] d.router
    unfolding read_later match_route
    read_at_once d req = elim (Bool-cases (is_empty (match_route (get_path req) [] d.router).0)) [
      | inl empty ↦ rw empty refl
      | inr full ↦ rw full (
          ap (λ x. (x, (match_route (get_path req) [] d.router).1))
            (sym (match_parts-pointed (split_string (get_path req) b'/') [] d.router.root full)))
    ]

    -- With no step between the two, this is handle_impl.
    handle_at_once :
        (d : GlobalDispatcherHandler Hd) (req : H2oReq) (r : Exchange)
        → handle_between d d req r ≡ handle_impl handle_request fault d req r
    unfolding handle_between handle_impl
    handle_at_once d req r = ap (λ x. with_result d.routes x req r) (read_at_once d req)

    at_entry :
        (routes : Map ℕ (Route Hd)) (k : ℕ) (h : Option Executor) (params : Map Str Str)
        (req : H2oReq) (r : Exchange)
        → Backed routes (k, h)
        → IsHandled handle_request fault req r routes
            (pointed (k, h), params)
            (at_key handle_request fault routes
              (some k)
              (λ hd. call handle_request fault (some h) req hd params r))
    unfolding request_handler
    at_entry routes k none params req r b = inr (
        inl (
          refl,
          with_route-no_function handle_request fault (lookup k routes)
              ∙ ap (λ j. thrown (no_function (lookup j routes))) b,
        ))
    at_entry routes k (some dispatcher_fn) params req r (route, e) =
        inr (inr (k, route, refl, refl, e, rw e refl))

    -- With AddRoute and emplace of each registration as two steps, paths no longer than npos, and
    -- one registration at a time under the lock: a request that is matched at any moment, and
    -- looked up after any steps of registrations at a moment when none is under way, is handled in
    -- one of three ways (IsHandled), by what the two pointers of its match then point to: the 404
    -- answer, the exception at a node without a handler, or the call of the handler that routes_
    -- has under the key of the node, with what was captured at the match.
    pub interleaved-cases :
        (hasher : Str → ℕ) {s s' : Shared Hd} (req : H2oReq) (r : Exchange)
        → Reach hasher s
        → Steps hasher s s'
        → s'.pending ≡ none
        → IsHandled handle_request fault req r s'.tables.routes
            (read_later s.tables s'.tables req)
            (handle_between s.tables s'.tables req r)
    unfolding handle_between read_later is_empty end_register
    interleaved-cases hasher {s} {s'} req r reach steps free =
        let result = (match_route (get_path req) [] s.tables.router).0 in
        let now : IsRegistered s'.tables =
          rw (with_none hasher s' free) at
            (Reach-IsRegistered hasher (Reach-Steps hasher reach steps)) in
        elim (Bool-cases (is_empty result)) [
          | inl empty ↦ rw (empty, empty) (inl (no_executor result empty, refl))
          | inr full ↦
              let way = way_of_match (split_string (get_path req) b'/') s.tables.router.root in
              rw full (
                at_entry s'.tables.routes (route_at way s'.tables.router.root).0
                  (route_at way s'.tables.router.root).1 _ req r (now.backed way))
        ]

    -- While a valid path is being registered, between AddRoute and emplace, where its hash is no
    -- key of routes_ yet and both paths are no longer than npos: a request whose parts the path's
    -- parts take (Chosen) makes handle_impl throw std::out_of_range.
    pub begin_register-thrown :
        (hasher : Str → ℕ) (path : Str) (handler : Option Hd) (d : GlobalDispatcherHandler Hd)
        (req : H2oReq) (r : Exchange)
        → is_valid_route path ≡ true
        → length path ≤ npos
        → length (get_path req) ≤ npos
        → lookup (hasher path) d.routes ≡ none
        → Chosen (split b'/' path) (split b'/' (get_path req)) d.router.root
        → handle_impl handle_request fault
            (begin_register hasher path handler (record { tables = d; pending = none })).tables
            req
            r
          ≡ thrown out_of_range
    unfolding begin_register handle_impl is_empty
    begin_register-thrown hasher path handler d req r valid fits fits' absent chosen =
        rw (add_route_valid path fits valid (hasher path) dispatcher_fn d.router) (
          rw
            (match_route_lem (get_path req) [] _ fits'
              ∙ match-add_parts (hasher path) dispatcher_fn (split b'/' path)
                  (split b'/' (get_path req)) [] d.router.root chosen)
            (rw absent refl))
