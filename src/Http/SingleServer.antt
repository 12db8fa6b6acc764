-- ===== src/Http/SingleServer.antt =====
-- `H2OServer` of src/piconaut/http/http_single_server.cc: the pointers that it holds, its listening
-- sockets that are open, and the calls that it makes of the system and of libh2o. Whether a call
-- succeeds is a parameter.
pub mod Starting
pub mod Serving
use piconaut.Prelude.{
  ℕ, zero, suc, ◌-◌, Str, bytes, Bool, true, false, Option, none, some, List, [], ◌∷◌, ◌++◌,
  if◌then◌else◌,
}
use piconaut.Errors.{Error, runtime_error}
use piconaut.Handlers.Dispatcher.{GlobalDispatcherHandler, new_dispatcher, register_route_handler}

pub data ServerCall : Type 0 where
  register_host register_global_path create_handler : ServerCall
  socket bind listen close evloop_create context_init : ServerCall
  socket_create read_start evloop_run socket_accept accept : ServerCall
  socket_close context_dispose config_dispose : ServerCall

-- `handlers` counts the handlers of libh2o; the fields from `hosts` to `listener_data` say whether
-- `accept_ctx_.hosts`, `loops_`, `contexts_`, `listeners_`, `accept_ctx_.ctx` and the listener's
-- `data` are set.
pub record H2oServer (Hd : Type 0) : Type 0 where
  pub routers : GlobalDispatcherHandler Hd
  pub handlers : ℕ
  pub open_sockets : ℕ
  pub hosts : Bool
  pub loops : Bool
  pub contexts : Bool
  pub listeners : Bool
  pub accept_context : Bool
  pub listener_data : Bool
  pub calls : List ServerCall

module _ {Hd : Type 0} where
  abbrev pub add_call : ServerCall → H2oServer Hd → H2oServer Hd
  add_call c s = record s { calls = s.calls ++ c ∷ [] }

  abbrev pub failed : Str → H2oServer Hd → H2oServer Hd × Option Error
  failed what s = (s, some (runtime_error what))

  abbrev pub close_fd : H2oServer Hd → H2oServer Hd
  close_fd s = record (add_call close s) { open_sockets = s.open_sockets - 1 }

  -- `RegisterGlobalHandler(handler)`. `MakePiconautHandler` writes through the pointer that
  -- `h2o_create_handler` returns, so that the test of its result never finds a null pointer.
  unfoldable pub register_global_handler : H2oServer Hd → H2oServer Hd
  register_global_handler s =
      let called = add_call create_handler (add_call register_global_path s) in
      record called { handlers = suc s.handlers }

  unfoldable pub new_h2o_server : Bool → H2oServer Hd × Option Error
  unfolding register_global_handler
  new_h2o_server host_ok =
      let s : H2oServer Hd = record {
        routers = new_dispatcher;
        handlers = 0;
        open_sockets = 0;
        hosts = false;
        loops = false;
        contexts = false;
        listeners = false;
        accept_context = false;
        listener_data = false;
        calls = register_host ∷ [];
      } in
      if host_ok
      then (register_global_handler s, none)
      else failed (bytes "Failed to register host configuration") s

  -- `RegisterHandler(path, handler)`
  unfoldable pub register_handler :
      (Str → ℕ) → Str → Option Hd → H2oServer Hd → H2oServer Hd × Option Error
  unfolding register_route_handler
  register_handler hasher path handler s =
      let (routers', thrown') = register_route_handler hasher path handler s.routers in
      (record s { routers = routers' }, thrown')

  -- `Stop()`, which is empty
  unfoldable pub stop_server : H2oServer Hd → H2oServer Hd
  stop_server s = s

  -- `~H2OServer()`: to close a listener that has never been created is undefined, `none`.
  unfoldable pub destroy_server : H2oServer Hd → Option (H2oServer Hd)
  unfolding stop_server
  destroy_server s =
      let called =
        add_call config_dispose
          (add_call context_dispose (add_call socket_close (stop_server s))) in
      if s.listeners then some (record called { open_sockets = s.open_sockets - 1 }) else none

  -- `AcceptConnection(listener, err)`: whether there is an error, and whether a socket comes out
  unfoldable pub accept_connection : Bool → Bool → H2oServer Hd → H2oServer Hd
  accept_connection err accepted s =
      let called = add_call socket_accept s in
      if err then s else if accepted then add_call accept called else called

  -- `RunEventLoop()`, for the number of rounds in which `h2o_evloop_run` returns 0
  unfoldable pub run_event_loop : ℕ → H2oServer Hd → H2oServer Hd
  run_event_loop zero s = add_call evloop_run s
  run_event_loop (suc rounds) s = run_event_loop rounds (add_call evloop_run s)

  module _ (socket_ok bind_ok listen_ok loop_ok listener_ok : Bool) (rounds : ℕ) where
    -- The parts of `Start`, each with what follows it.
    unfoldable pub start_listener : H2oServer Hd → H2oServer Hd × Option Error
    unfolding run_event_loop
    start_listener s =
        let called = add_call socket_create s in
        let set = record called { listeners = true; accept_context = true; listener_data = true } in
        if listener_ok
        then (run_event_loop rounds (add_call read_start set), none)
        else failed (bytes "Failed to create listener socket")
            (close_fd (record called { listeners = false }))

    unfoldable pub start_loop : H2oServer Hd → H2oServer Hd × Option Error
    unfolding start_listener
    start_loop s =
        let called = record (add_call evloop_create s) { loops = loop_ok } in
        if loop_ok
        then start_listener (record (add_call context_init called) { contexts = true })
        else failed (bytes "Failed to create evloop") called

    unfoldable pub start_listen : H2oServer Hd → H2oServer Hd × Option Error
    unfolding start_loop
    start_listen s =
        let called = add_call listen s in
        if listen_ok
        then start_loop called
        else failed (bytes "Failed to listen on socket") (close_fd called)

    unfoldable pub start_bind : H2oServer Hd → H2oServer Hd × Option Error
    unfolding start_listen
    start_bind s =
        let called = add_call bind s in
        if bind_ok
        then start_listen called
        else failed (bytes "Failed to bind to the specified host and port") (close_fd called)

    unfoldable pub start_server : H2oServer Hd → H2oServer Hd × Option Error
    unfolding start_bind
    start_server s =
        let called = add_call socket (record s { hosts = true; accept_context = false }) in
        if socket_ok
        then start_bind (record called { open_sockets = suc s.open_sockets })
        else failed (bytes "Failed to create socket") called
