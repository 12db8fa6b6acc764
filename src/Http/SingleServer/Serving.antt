-- ===== src/Http/SingleServer/Serving.antt =====
-- The requests that a server of src/piconaut/http/http_single_server.cc hands to its dispatcher.
use piconaut.Prelude.{ℕ, zero, suc, Str, Bool, true, false, Option, Map, [], ◌≡◌, ◌≤◌, refl, length}
use piconaut.Utils.Strings.{npos}
use piconaut.Http.Request.{H2oReq, get_path}
use piconaut.Http.Response.{Exchange, InlineFault}
use piconaut.Routers.Router.{match_route}
use piconaut.Handlers.Dispatcher.{Outcome, handle_impl}
use piconaut.Handlers.Dispatcher.Registered.{
  IsRegistered, IsRegistered-new, register-IsRegistered, handle-cases, IsHandled,
}
use piconaut.Http.SingleServer.{
  H2oServer, add_call, evloop_run, new_h2o_server, register_handler, run_event_loop, start_server,
}

module _ {Hd : Type 0} where
  routers-run_event_loop :
      (rounds : ℕ) (s : H2oServer Hd) → (run_event_loop rounds s).routers ≡ s.routers
  unfolding run_event_loop
  routers-run_event_loop zero s = refl
  routers-run_event_loop (suc rounds) s = routers-run_event_loop rounds (add_call evloop_run s)

  routers-start_server :
      (a b l p q : Bool) (rounds : ℕ) (s : H2oServer Hd)
      → (start_server a b l p q rounds s).0.routers ≡ s.routers
  unfolding start_server
  routers-start_server false b l p q rounds s = refl
  routers-start_server true false l p q rounds s = refl
  routers-start_server true true false p q rounds s = refl
  routers-start_server true true true false q rounds s = refl
  routers-start_server true true true true false rounds s = refl
  routers-start_server true true true true true rounds s = routers-run_event_loop rounds _

  module _ (hasher : Str → ℕ) where
    -- A server by its construction, registrations and starts, whether they succeed or not.
    pub data Reach : H2oServer Hd → Type 0 where
      constructed : (host_ok : Bool) → Reach (new_h2o_server host_ok).0
      registered :
          (path : Str) (handler : Option Hd) {s : H2oServer Hd}
          → length path ≤ npos
          → Reach s
          → Reach (register_handler hasher path handler s).0
      started :
          (a b l p q : Bool) (rounds : ℕ) {s : H2oServer Hd}
          → Reach s
          → Reach (start_server a b l p q rounds s).0

    constructed-IsRegistered :
        (host_ok : Bool) → IsRegistered (new_h2o_server {Hd = Hd} host_ok).0.routers
    unfolding new_h2o_server
    constructed-IsRegistered true = IsRegistered-new
    constructed-IsRegistered false = IsRegistered-new

    Reach-IsRegistered : {s : H2oServer Hd} → Reach s → IsRegistered s.routers
    unfolding register_handler
    Reach-IsRegistered (constructed host_ok) = constructed-IsRegistered host_ok
    Reach-IsRegistered (registered path handler {s} fits r) =
        register-IsRegistered hasher path handler s.routers fits (Reach-IsRegistered r)
    Reach-IsRegistered (started a b l p q rounds {s} r) =
        rw (routers-start_server a b l p q rounds s) (Reach-IsRegistered r)

    -- In any sequence of constructions, registrations of paths no longer than npos, and starts of a
    -- single-threaded server, whether they succeed or not: a request with a path no longer than npos
    -- is handled in one of the three ways.
    pub server-cases :
        (handle_request : Hd → H2oReq → Map Str Str → Exchange → Outcome) (fault : InlineFault)
        {s : H2oServer Hd} (req : H2oReq) (r : Exchange)
        → Reach s
        → length (get_path req) ≤ npos
        → IsHandled handle_request fault req r s.routers.routes
            (match_route (get_path req) [] s.routers.router)
            (handle_impl handle_request fault s.routers req r)
    server-cases handle_request fault {s} req r reach fits =
        handle-cases handle_request fault s.routers req r (Reach-IsRegistered reach) fits
