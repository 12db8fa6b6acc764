-- ===== src/Main.antt =====
-- main.cc: the program that registers its handlers for five paths and starts a server. `Hd` is the
-- type of its handlers; its three objects are parameters.
pub mod Tree
pub mod Routing
pub mod Dispatch
pub mod HelloWorld
pub mod Requests
pub mod Answers
pub mod Ending
pub mod Running
use piconaut.Prelude.{ℕ, Str, bytes, Bool, true, false, Option, none, some, List, [], ◌∷◌}
use mathlib.Core.Option
use piconaut.Errors.{Error}
use piconaut.Sys.SignalHandler.{
  SignalType, sigint, sigterm, Handle, SignalHandler, new_signal_handler, register_callback, start,
  destroy,
}
use piconaut.Http.SingleServer.{
  H2oServer, new_h2o_server, register_handler, start_server, stop_server, destroy_server,
}

-- The two global pointers, null until `main` has set them.
pub record MainState (Hd : Type 0) : Type 0 where
  pub signals : Option SignalHandler
  pub server : Option (H2oServer Hd)

abbrev pub post_path : Str
post_path = bytes "/post"

abbrev pub id_path : Str
id_path = bytes "/post/{id}"

abbrev pub slug_path : Str
slug_path = bytes "/post/{id}/{slug}"

abbrev pub month_path : Str
month_path = bytes "/{year}/{month}"

abbrev pub archive_path : Str
archive_path = bytes "/{year}/{month}/post/{id}/{slug}"

-- `return 1` in the handler of an exception, `return 0` behind it.
abbrev pub exit_code : Option Error → ℕ
exit_code none = 0
exit_code (some e) = 1

-- `g_signal_`, which `main()` makes and starts
abbrev pub signals_of_main : (Handle → Bool) → ℕ → Bool → SignalHandler × Option Error
signals_of_main init_ok callback thread_ok =
    start thread_ok (register_callback (some callback) (new_signal_handler init_ok))

module _ {Hd : Type 0} where
  -- `CaptureSignalDefault(handler, signum)`
  abbrev pub stop_if : Option (H2oServer Hd) → Option (H2oServer Hd)
  stop_if none = none
  stop_if (some s) = some (stop_server s)

  unfoldable pub capture_signal_default : SignalType → MainState Hd → MainState Hd
  unfolding stop_server
  capture_signal_default sigint m = record m { server = stop_if m.server }
  capture_signal_default sigterm m = record m { server = stop_if m.server }
  capture_signal_default _ m = m

  -- What follows a call that may throw.
  abbrev pub unless_thrown :
      (H2oServer Hd → H2oServer Hd × Option Error)
      → H2oServer Hd × Option Error
      → H2oServer Hd × Option Error
  unless_thrown next (s, none) = next s
  unless_thrown next (s, some e) = (s, some e)

  -- The calls of `RegisterHandler`, until one throws.
  unfoldable pub register_each :
      (Str → ℕ) → List (Str × Hd) → H2oServer Hd → H2oServer Hd × Option Error
  unfolding register_handler
  register_each hasher [] s = (s, none)
  register_each hasher ((path, h) ∷ rest) s =
      unless_thrown (register_each hasher rest) (register_handler hasher path (some h) s)

  abbrev pub route_table : Hd → Hd → Hd → List (Str × Hd)
  route_table handler1 handler2 handler3 =
      (post_path, handler1)
      ∷ (id_path, handler2)
      ∷ (slug_path, handler3)
      ∷ (month_path, handler3)
      ∷ (archive_path, handler3)
      ∷ []

  -- What follows the calls of `RegisterHandler` in `main()`.
  abbrev pub end_of_main :
      SignalHandler
      → (H2oServer Hd → H2oServer Hd × Option Error)
      → H2oServer Hd × Option Error
      → ℕ × MainState Hd
  end_of_main sig start_it (ready, some e) = (1, record { signals = some sig; server = some ready })
  end_of_main sig start_it (ready, none) =
      let (ended, no_start) = start_it ready in
      (exit_code no_start, record { signals = some sig; server = some ended })

  -- What follows `g_signal_->Start()`.
  abbrev pub with_signals :
      (Str → ℕ)
      → List (Str × Hd)
      → Bool
      → (H2oServer Hd → H2oServer Hd × Option Error)
      → SignalHandler × Option Error
      → ℕ × MainState Hd
  with_signals hasher table host_ok start_it (sig, some e) =
      (1, record { signals = some sig; server = none })
  with_signals hasher table host_ok start_it (sig, none) =
      let (made, no_server) = new_h2o_server host_ok in
      elim no_server [
        | some e ↦ (1, record { signals = some sig; server = none })
        | none ↦ end_of_main sig start_it (register_each hasher table made)
      ]

  -- `main()`: the result of the process, and the globals at that time. Whether a thread can be
  -- created and whether the calls of the libraries succeed are parameters, and so is `Start` of the
  -- server, for the rounds that its event loop makes. Memory is never exhausted.
  module _ (init_ok : Handle → Bool) (hasher : Str → ℕ) (callback : ℕ)
      (handler1 handler2 handler3 : Hd) where
    unfoldable pub run_main :
        Bool → Bool → (H2oServer Hd → H2oServer Hd × Option Error) → ℕ × MainState Hd
    unfolding register_each new_h2o_server start register_callback new_signal_handler
    run_main thread_ok host_ok start_it =
        with_signals hasher (route_table handler1 handler2 handler3) host_ok start_it
          (signals_of_main init_ok callback thread_ok)

-- The end of the process behind `main()`: its result, `std::terminate`, or undefined behaviour.
pub data Ended : Type 0 where
  exited : ℕ → Ended
  terminated undefined_end : Ended

abbrev pub destroy_signals_of : Option SignalHandler → Option (Option SignalHandler)
destroy_signals_of none = some none
destroy_signals_of (some sig) = Option.map some (destroy sig)

module _ {Hd : Type 0} where
  abbrev pub destroy_server_of : Option (H2oServer Hd) → ℕ → Ended
  destroy_server_of none code = exited code
  destroy_server_of (some s) code = elim (destroy_server s) [
    | none ↦ undefined_end
    | some rest ↦ exited code
  ]

  -- The globals are destroyed in the order against that of their definitions.
  unfoldable pub exit_process : ℕ × MainState Hd → Ended
  unfolding destroy destroy_server
  exit_process (code, m) = elim (destroy_signals_of m.signals) [
    | none ↦ terminated
    | some rest ↦ destroy_server_of m.server code
  ]
