-- ===== src/Sys/SignalHandler.antt =====
-- src/piconaut/sys/signal_handler.h. The calls of libuv and of the callback are recorded; whether
-- `uv_signal_init` succeeds is a parameter, and so is whether a thread can be created. Where `uv_signal_start` fails the program only prints;
-- what it prints is left out.
pub mod Runs
use piconaut.Errors.{Error, system_error}
use piconaut.Prelude.{
  ℕ, suc, Bool, true, false, Option, none, some, List, [], ◌∷◌, ◌++◌, Map, if◌then◌else◌,
}

-- The enumerators, and the other values that a number may be cast to.
pub data SignalType : Type 0 where
  sigint sigterm sighup sigquit sigusr1 sigusr2 sigabrt sigfpe sigill sigsegv : SignalType
  other : ℕ → SignalType

-- The members of the type `uv_signal_t`.
pub data Handle : Type 0 where
  h_int h_term h_hup h_quit h_usr1 h_usr2 h_abrt h_fpe h_ill h_segv : Handle

pub data UvCall : Type 0 where
  signal_init signal_start signal_stop close stop_loop : Handle → UvCall
  run_default : UvCall

-- `callback_` is a function pointer, by a number; `signals_` maps a signal to its handle; `data` of
-- a handle points to this object once it is initialized. `threads` counts the threads started;
-- `joinable` says that the last one has not been joined.
pub record SignalHandler : Type 0 where
  pub callback : Option ℕ
  pub signals : Map SignalType Handle
  pub is_run : Bool
  pub threads : ℕ
  pub joinable : Bool
  pub owned : Handle → Bool
  pub calls : List UvCall
  -- the calls of the callback: which one, and the signal
  pub delivered : List (ℕ × SignalType)

unfoldable pub get_signal_handle : SignalType → Option Handle
get_signal_handle sigint = some h_int
get_signal_handle sigterm = some h_term
get_signal_handle sighup = some h_hup
get_signal_handle sigquit = some h_quit
get_signal_handle sigusr1 = some h_usr1
get_signal_handle sigusr2 = some h_usr2
get_signal_handle sigabrt = some h_abrt
get_signal_handle sigfpe = some h_fpe
get_signal_handle sigill = some h_ill
get_signal_handle sigsegv = some h_segv
get_signal_handle (other n) = none

abbrev pub record_call : UvCall → SignalHandler → SignalHandler
record_call c s = record s { calls = s.calls ++ c ∷ [] }

abbrev pub same_handle : Handle → Handle → Bool
same_handle h_int h_int = true
same_handle h_term h_term = true
same_handle h_hup h_hup = true
same_handle h_quit h_quit = true
same_handle h_usr1 h_usr1 = true
same_handle h_usr2 h_usr2 = true
same_handle h_abrt h_abrt = true
same_handle h_fpe h_fpe = true
same_handle h_ill h_ill = true
same_handle h_segv h_segv = true
same_handle _ _ = false

abbrev pub own : Handle → SignalHandler → SignalHandler
own h s = record s { owned = λ k. if same_handle h k then true else s.owned k }

-- `StopAllSignals()`: the loop over `signals_`.
abbrev pub stop_each : Map SignalType Handle → SignalHandler → SignalHandler
stop_each [] s = s
stop_each ((_, h) ∷ rest) s = stop_each rest (record_call (close h) (record_call (signal_stop h) s))

unfoldable pub stop_all_signals : SignalHandler → SignalHandler
stop_all_signals s = stop_each s.signals s

unfoldable pub stop : SignalHandler → SignalHandler
unfolding stop_all_signals
stop s = stop_all_signals s

-- `Start()`, where `thread_ok` says whether the constructor of `std::thread` succeeds; it throws behind
-- the assignment of `is_run_`.
unfoldable pub start : Bool → SignalHandler → SignalHandler × Option Error
start thread_ok s =
    let run = record s { is_run = true } in
    if s.is_run
    then (s, none)
    else if thread_ok
    then (record run { threads = suc s.threads; joinable = true }, none)
    else (run, some system_error)

-- `Join()`: a thread that can be joined is joined.
unfoldable pub join_thread : SignalHandler → SignalHandler
join_thread s = record s { joinable = false }

-- `~SignalHandler()`, which ends with the destructor of `thread_`: at a thread that can be joined it
-- calls `std::terminate`, `none`.
unfoldable pub destroy : SignalHandler → Option SignalHandler
unfolding stop_all_signals
destroy s = if s.joinable then none else some (stop_all_signals s)

unfoldable pub register_callback : Option ℕ → SignalHandler → SignalHandler
register_callback none s = s
register_callback (some callback) s = record s { callback = some callback }

-- Which callback runs, if any: `handler && handler->callback_`.
abbrev pub deliver : Bool → Option ℕ → SignalType → SignalHandler → SignalHandler
deliver false callback received s = s
deliver true none received s = s
deliver true (some callback) received s = record s {
  delivered = s.delivered ++ (callback, received) ∷ [];
}

-- `OnSignal(handle, signum)`
unfoldable pub on_signal : Handle → SignalType → SignalHandler → SignalHandler
on_signal h signal s =
    record_call (stop_loop h)
      (record_call (signal_stop h) (deliver (s.owned h) s.callback signal s))

-- `Run()`, on the thread that `Start` makes, but for what it prints
unfoldable pub run_monitor : SignalHandler → SignalHandler
run_monitor s = record_call run_default s

module _ (init_ok : Handle → Bool) where
  abbrev pub init_handle : Option Handle → SignalHandler → SignalHandler
  init_handle none s = s
  init_handle (some h) s =
      let called = record_call (signal_init h) s in if init_ok h then own h called else called

  unfoldable pub initialize_signal : SignalType → SignalHandler → SignalHandler
  unfolding get_signal_handle
  initialize_signal signum s = init_handle (get_signal_handle signum) s

  abbrev pub start_handle : Option Handle → SignalHandler → SignalHandler
  start_handle none s = s
  start_handle (some h) s = record_call (signal_start h) s

  unfoldable pub start_signal : SignalType → SignalHandler → SignalHandler
  unfolding get_signal_handle
  start_signal signum s = start_handle (get_signal_handle signum) s

  unfoldable pub set_signal_capture_mode : List SignalType → SignalHandler → SignalHandler
  set_signal_capture_mode [] s = s
  set_signal_capture_mode (signum ∷ signals) s =
      set_signal_capture_mode signals (start_signal signum (initialize_signal signum s))

  unfoldable pub initialize_default_signals : SignalHandler → SignalHandler
  unfolding initialize_signal start_signal
  initialize_default_signals s =
      start_signal sigterm
        (start_signal sigint (initialize_signal sigterm (initialize_signal sigint s)))

  unfoldable pub new_signal_handler : SignalHandler
  unfolding initialize_default_signals
  new_signal_handler = initialize_default_signals (record {
    callback = none;
    signals = [];
    is_run = false;
    threads = 0;
    joinable = false;
    owned = λ h. false;
    calls = [];
    delivered = [];
  })
