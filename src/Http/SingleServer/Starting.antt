-- ===== src/Http/SingleServer/Starting.antt =====
-- What `Start` of src/piconaut/http/http_single_server.cc leaves open, and what a handler that is
-- registered at the server meets.
use piconaut.Prelude.{
  ℕ, zero, suc, Bool, true, false, ◌&&◌, ◌||◌, not, none, ◌≡◌, ◌↔◌, refl, arith, if◌then◌else◌, ◌≢◌,
  Bool-cases, inl, inr,
}
use piconaut.Http.SingleServer.{
  H2oServer, add_call, evloop_run, run_event_loop, start_server, destroy_server,
}

module _ {Hd : Type 0} where
  open_sockets-run_event_loop :
      (rounds : ℕ) (s : H2oServer Hd) → (run_event_loop rounds s).open_sockets ≡ s.open_sockets
  unfolding run_event_loop
  open_sockets-run_event_loop zero s = refl
  open_sockets-run_event_loop (suc rounds) s =
      open_sockets-run_event_loop rounds (add_call evloop_run s)

  -- Whatever calls fail, Start of the single-threaded server leaves one more listening socket open
  -- where socket, bind and listen succeed and either the event loop is not created (an error) or
  -- the listener is (a started server), and otherwise none: on every other error the descriptor is
  -- closed.
  pub open_sockets-start_server :
      (socket_ok bind_ok listen_ok loop_ok listener_ok : Bool) (rounds : ℕ) (s : H2oServer Hd)
      → (start_server socket_ok bind_ok listen_ok loop_ok listener_ok rounds s).0.open_sockets ≡ (
          if socket_ok && bind_ok && listen_ok && (not loop_ok || listener_ok)
          then suc s.open_sockets
          else s.open_sockets)
  unfolding start_server
  open_sockets-start_server false b l p q rounds s = refl
  open_sockets-start_server true false l p q rounds s = omega arith
  open_sockets-start_server true true false p q rounds s = omega arith
  open_sockets-start_server true true true false q rounds s = refl
  open_sockets-start_server true true true true false rounds s = omega arith
  open_sockets-start_server true true true true true rounds s = open_sockets-run_event_loop rounds _

  -- Start of the single-threaded server throws no exception exactly when socket, bind, listen, the
  -- creation of the event loop and the creation of the listener all succeed.
  pub started_iff :
      (socket_ok bind_ok listen_ok loop_ok listener_ok : Bool) (rounds : ℕ) (s : H2oServer Hd)
      → ((start_server socket_ok bind_ok listen_ok loop_ok listener_ok rounds s).1 ≡ none)
        ↔ ((socket_ok && bind_ok && listen_ok && loop_ok && listener_ok) ≡ true)
  unfolding start_server
  started_iff false b l p q rounds s = (λ e. cc e, λ e. cc e)
  started_iff true false l p q rounds s = (λ e. cc e, λ e. cc e)
  started_iff true true false p q rounds s = (λ e. cc e, λ e. cc e)
  started_iff true true true false q rounds s = (λ e. cc e, λ e. cc e)
  started_iff true true true true false rounds s = (λ e. cc e, λ e. cc e)
  started_iff true true true true true rounds s = (λ e. refl, λ e. refl)

  listeners-run_event_loop :
      (rounds : ℕ) (s : H2oServer Hd) → (run_event_loop rounds s).listeners ≡ s.listeners
  unfolding run_event_loop
  listeners-run_event_loop zero s = refl
  listeners-run_event_loop (suc rounds) s = listeners-run_event_loop rounds (add_call evloop_run s)

  -- Before any Start has succeeded, the listener of a server is set by a Start that throws nothing.
  pub listeners-start_server :
      (a b l p q : Bool) (rounds : ℕ) (s : H2oServer Hd)
      → s.listeners ≡ false
      → (start_server a b l p q rounds s).0.listeners ≡ (a && b && l && p && q)
  unfolding start_server
  listeners-start_server false b l p q rounds s e = e
  listeners-start_server true false l p q rounds s e = e
  listeners-start_server true true false p q rounds s e = e
  listeners-start_server true true true false q rounds s e = e
  listeners-start_server true true true true false rounds s e = refl
  listeners-start_server true true true true true rounds s e = listeners-run_event_loop rounds _

  -- For a server of which no Start has succeeded, the destructor after a Start is undefined exactly
  -- when that Start throws: it closes a listener that was never created.
  destroy-start_server :
      (a b l p q : Bool) (rounds : ℕ) (s : H2oServer Hd)
      → s.listeners ≡ false
      → (destroy_server (start_server a b l p q rounds s).0 ≡ none)
        ↔ ((start_server a b l p q rounds s).1 ≢ none)
  unfolding destroy_server
  destroy-start_server a b l p q rounds s e = elim (Bool-cases (a && b && l && p && q)) [
    | inl all ↦ (
      λ gone. cc (rw (listeners-start_server a b l p q rounds s e, all) at gone),
      λ threw. absurd (threw ((started_iff a b l p q rounds s).1 all)),
    )
    | inr some_failed ↦ (
      λ gone ok. cc (some_failed, (started_iff a b l p q rounds s).0 ok),
      λ threw. rw (listeners-start_server a b l p q rounds s e, some_failed) refl,
    )
  ]
