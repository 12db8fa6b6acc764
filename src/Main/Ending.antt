-- ===== src/Main/Ending.antt =====
-- What becomes of the process of main.cc behind `main()`.
use piconaut.Prelude.{
  ℕ, Str, Bool, true, false, Option, none, some, List, ◌≡◌, refl, ap, Bool-cases, inl, inr,
  if◌then◌else◌,
}
use piconaut.Errors.{Error}
use piconaut.Sys.SignalHandler.{
  Handle, h_int, h_term, SignalHandler, new_signal_handler, initialize_default_signals,
  initialize_signal, start_signal, register_callback, start, destroy,
}
use piconaut.Http.SingleServer.{H2oServer, new_h2o_server}
use piconaut.Main.{
  route_table, MainState, end_of_main, with_signals, run_main, exit_process, exited, terminated,
}

-- Whether `Start` has been called, and whether there is a thread to join.
abbrev pub thread_state : SignalHandler → Bool × Bool
thread_state s = (s.is_run, s.joinable)

module _ (init_ok : Handle → Bool) where
  thread_state-new_signal_handler : thread_state (new_signal_handler init_ok) ≡ (false, false)
  unfolding new_signal_handler initialize_default_signals initialize_signal start_signal
  thread_state-new_signal_handler = elim (Bool-cases (init_ok h_int)) [
    | inl e ↦ elim (Bool-cases (init_ok h_term)) [
      | inl e' ↦ rw (e, e') refl
      | inr e' ↦ rw (e, e') refl
    ]
    | inr e ↦ elim (Bool-cases (init_ok h_term)) [
      | inl e' ↦ rw (e, e') refl
      | inr e' ↦ rw (e, e') refl
    ]
  ]

  pub thread_state-register_callback :
      (callback : ℕ)
      → thread_state (register_callback (some callback) (new_signal_handler init_ok))
        ≡ (false, false)
  unfolding register_callback
  thread_state-register_callback callback = thread_state-new_signal_handler

module _ {Hd : Type 0} (hasher : Str → ℕ) (table : List (Str × Hd)) (host_ok : Bool)
    (start_it : H2oServer Hd → H2oServer Hd × Option Error) where
  signals-end_of_main :
      (sig : SignalHandler) (x : H2oServer Hd × Option Error)
      → (end_of_main sig start_it x).1.signals ≡ some sig
  signals-end_of_main sig (ready, none) = refl
  signals-end_of_main sig (ready, some e) = refl

  -- With a thread that nobody has joined.
  exit_process-joinable :
      (x : ℕ × MainState Hd) (sig : SignalHandler)
      → x.1.signals ≡ some sig
      → sig.joinable ≡ true
      → exit_process x ≡ terminated
  unfolding exit_process destroy
  exit_process-joinable (code, m) sig e j = rw (e, destroy, j) refl

  -- With no thread and no server.
  exit_process-idle :
      (code : ℕ) (sig : SignalHandler)
      → sig.joinable ≡ false
      → exit_process {Hd = Hd} (code, record { signals = some sig; server = none }) ≡ exited code
  unfolding exit_process destroy
  exit_process-idle code sig j = rw (destroy, j) refl

  signals-with_signals :
      (sig : SignalHandler)
      → (with_signals hasher table host_ok start_it (sig, none)).1.signals ≡ some sig
  unfolding new_h2o_server
  signals-with_signals sig = elim (Bool-cases host_ok) [
    | inl e ↦ rw e (signals-end_of_main sig _)
    | inr e ↦ rw e refl
  ]

  exit_process-with_signals :
      (thread_ok : Bool) (s : SignalHandler)
      → thread_state s ≡ (false, false)
      → exit_process (with_signals hasher table host_ok start_it (start thread_ok s))
        ≡ (if thread_ok then terminated else exited 1)
  unfolding start
  exit_process-with_signals true s e =
      rw (ap (λ x. x.0) e) (exit_process-joinable _ _ (signals-with_signals _) refl)
  exit_process-with_signals false s e =
      rw (ap (λ x. x.0) e) (exit_process-idle 1 _ (ap (λ x. x.1) e))

-- Whether or not the host is registered, and whatever Start of the server does before it returns or
-- throws: where the thread of the signal handler can be created, the process never exits with what
-- main returns, but ends by std::terminate, in the destructor of the signal handler; where it
-- cannot, the process exits with 1.
pub exit_process-run_main :
    {Hd : Type 0} (init_ok : Handle → Bool) (hasher : Str → ℕ) (callback : ℕ)
    (handler1 handler2 handler3 : Hd) (thread_ok host_ok : Bool)
    (start_it : H2oServer Hd → H2oServer Hd × Option Error)
    → exit_process
        (run_main init_ok hasher callback handler1 handler2 handler3 thread_ok host_ok start_it)
      ≡ (if thread_ok then terminated else exited 1)
unfolding run_main
exit_process-run_main init_ok hasher callback handler1 handler2 handler3 thread_ok host_ok
      start_it =
    exit_process-with_signals hasher (route_table handler1 handler2 handler3) host_ok start_it
      thread_ok _ (thread_state-register_callback init_ok callback)
