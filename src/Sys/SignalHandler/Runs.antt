-- ===== src/Sys/SignalHandler/Runs.antt =====
-- Any sequence of calls and signals of a `SignalHandler` of src/piconaut/sys/signal_handler.h.
use piconaut.Prelude.{
  ℕ, suc, Bool, true, false, ◌&&◌, Option, none, some, List, [], ◌∷◌, ◌++◌, ◌≡◌, refl, ◌∙◌, ap,
  append_assoc, arith, Bool-cases, inl, inr, if◌then◌else◌,
}
use piconaut.Sys.SignalHandler.{
  SignalType, Handle, h_int, h_term, signal_stop, stop_loop, SignalHandler, own, stop_each, stop,
  join_thread, start, register_callback, deliver, on_signal, run_monitor, init_handle,
  initialize_signal, start_handle, start_signal, set_signal_capture_mode, new_signal_handler,
  get_signal_handle,
}

module _ (init_ok : Handle → Bool) (thread_ok : Bool) where
  pub data Step (s : SignalHandler) : SignalHandler → Type 0 where
    starting : Step s (start thread_ok s).0
    stopping : Step s (stop s)
    joining : Step s (join_thread s)
    registering : (callback : Option ℕ) → Step s (register_callback callback s)
    capturing : (signals : List SignalType) → Step s (set_signal_capture_mode init_ok signals s)
    monitoring : Step s (run_monitor s)
    signalled : (h : Handle) (received : SignalType) → Step s (on_signal h received s)

  pub data Reach : SignalHandler → Type 0 where
    constructed : Reach (new_signal_handler init_ok)
    next : {s t : SignalHandler} → Reach s → Step s t → Reach t

  -- Two default handles belong to the handler if they could be initialized.
  abbrev OwnsDefaults : (Handle → Bool) → Type 0
  OwnsDefaults owned =
      (init_ok h_int ≡ true → owned h_int ≡ true) × (init_ok h_term ≡ true → owned h_term ≡ true)

  record Inv (s : SignalHandler) : Type 0 where
    pub no_signals : s.signals ≡ []
    pub one_thread : s.threads ≡ (if s.is_run && thread_ok then 1 else 0)
    pub owns : OwnsDefaults s.owned

  record_call-Inv :
      (s t : SignalHandler)
      → s.signals ≡ t.signals
      → s.threads ≡ t.threads
      → s.is_run ≡ t.is_run
      → s.owned ≡ t.owned
      → Inv t
      → Inv s
  record_call-Inv s t a b c d i = record {
    no_signals = a ∙ i.no_signals;
    one_thread = rw (b, c) i.one_thread;
    owns = rw d i.owns;
  }

  own-Inv : (h : Handle) (s : SignalHandler) → Inv s → Inv (own h s)
  own-Inv h s i = record {
    no_signals = i.no_signals;
    one_thread = i.one_thread;
    owns = (λ e. ground (arith, i.owns.0 e), λ e. ground (arith, i.owns.1 e));
  }

  init_handle-Inv : (o : Option Handle) (s : SignalHandler) → Inv s → Inv (init_handle init_ok o s)
  init_handle-Inv none s i = i
  init_handle-Inv (some h) s i = elim (Bool-cases (init_ok h)) [
    | inl e ↦ rw e (
        own-Inv h _
          (record { no_signals = i.no_signals; one_thread = i.one_thread; owns = i.owns }))
    | inr e ↦ rw e (record { no_signals = i.no_signals; one_thread = i.one_thread; owns = i.owns })
  ]

  start_handle-Inv :
      (o : Option Handle) (s : SignalHandler) → Inv s → Inv (start_handle init_ok o s)
  start_handle-Inv none s i = i
  start_handle-Inv (some h) s i = record {
    no_signals = i.no_signals;
    one_thread = i.one_thread;
    owns = i.owns;
  }

  capture-Inv :
      (signals : List SignalType) (s : SignalHandler)
      → Inv s
      → Inv (set_signal_capture_mode init_ok signals s)
  unfolding set_signal_capture_mode
  capture-Inv [] s i = i
  capture-Inv (signum ∷ signals) s i = capture-Inv signals _ (
      unfold start_signal initialize_signal in
      start_handle-Inv (get_signal_handle signum) _
        (init_handle-Inv (get_signal_handle signum) s i))

  deliver-Inv :
      (b : Bool) (callback : Option ℕ) (received : SignalType) (s : SignalHandler)
      → Inv s
      → Inv (deliver b callback received s)
  deliver-Inv false callback received s i = i
  deliver-Inv true none received s i = i
  deliver-Inv true (some callback) received s i = record {
    no_signals = i.no_signals;
    one_thread = i.one_thread;
    owns = i.owns;
  }

  -- Nothing is ever put into `signals_`, so there is nothing to stop.
  stop_of_Inv : (s : SignalHandler) → Inv s → stop s ≡ s
  stop_of_Inv s i = unfold stop in ap (λ m. stop_each m s) i.no_signals

  start-Inv : (s : SignalHandler) → Inv s → Inv (start thread_ok s).0
  unfolding start
  start-Inv s i = elim (Bool-cases s.is_run) [
    | inl e ↦ simp e i
    | inr e ↦ simp e (elim (Bool-cases thread_ok) [
      | inl ok ↦ rw ok (record {
        no_signals = i.no_signals;
        one_thread = ap suc (i.one_thread ∙ rw e refl);
        owns = i.owns;
      })
      | inr failed ↦ rw failed (record {
        no_signals = i.no_signals;
        one_thread = i.one_thread ∙ rw e refl;
        owns = i.owns;
      })
    ])
  ]

  Step-Inv : {s t : SignalHandler} → Step s t → Inv s → Inv t
  Step-Inv {s} starting i = start-Inv s i
  Step-Inv {s} stopping i = rw (stop_of_Inv s i) i
  Step-Inv {s} joining i =
      unfold join_thread in
      (record { no_signals = i.no_signals; one_thread = i.one_thread; owns = i.owns })
  Step-Inv {s} (registering none) i = unfold register_callback in i
  Step-Inv {s} (registering (some callback)) i =
      unfold register_callback in
      record { no_signals = i.no_signals; one_thread = i.one_thread; owns = i.owns }
  Step-Inv {s} (capturing signals) i = capture-Inv signals s i
  Step-Inv {s} monitoring i =
      unfold run_monitor in
      record { no_signals = i.no_signals; one_thread = i.one_thread; owns = i.owns }
  Step-Inv {s} (signalled h received) i =
      let j = deliver-Inv (s.owned h) s.callback received s i in
      unfold on_signal in
      record { no_signals = j.no_signals; one_thread = j.one_thread; owns = j.owns }

  new-Inv : Inv (new_signal_handler init_ok)
  unfolding new_signal_handler
  new-Inv = elim (Bool-cases (init_ok h_int)) [
    | inl e ↦ elim (Bool-cases (init_ok h_term)) [
      | inl e' ↦
          rw (e, e')
            (record { no_signals = refl; one_thread = refl; owns = (λ _. refl, λ _. refl) })
      | inr e' ↦
          rw (e, e')
            (record { no_signals = refl; one_thread = refl; owns = (λ _. refl, λ h. cc h) })
    ]
    | inr e ↦ elim (Bool-cases (init_ok h_term)) [
      | inl e' ↦
          rw (e, e')
            (record { no_signals = refl; one_thread = refl; owns = (λ h. cc h, λ _. refl) })
      | inr e' ↦
          rw (e, e')
            (record { no_signals = refl; one_thread = refl; owns = (λ h. cc h, λ h. cc h) })
    ]
  ]

  Reach-Inv : {s : SignalHandler} → Reach s → Inv s
  Reach-Inv constructed = new-Inv
  Reach-Inv (next r st) = Step-Inv st (Reach-Inv r)

  -- In any sequence of calls on a constructed signal handler, if the watcher of SIGINT can be
  -- initialized and a callback is registered, then OnSignal on that watcher delivers the signal to
  -- the callback, and stops the watcher and its loop.
  pub sigint_delivered :
      {s : SignalHandler} (callback : ℕ) (received : SignalType)
      → Reach s
      → init_ok h_int ≡ true
      → s.callback ≡ some callback
      → ((on_signal h_int received s).delivered ≡ s.delivered ++ (callback, received) ∷ [])
        × ((on_signal h_int received s).calls ≡ s.calls ++ signal_stop h_int ∷ stop_loop h_int ∷ [])
  unfolding on_signal
  sigint_delivered {s} callback received r ok registered =
      delivers (s.owned h_int) s.callback ((Reach-Inv r).owns.0 ok) registered
    where
      delivers :
          (b : Bool) (o : Option ℕ)
          → b ≡ true
          → o ≡ some callback
          → ((deliver b o received s).delivered ≡ s.delivered ++ (callback, received) ∷ [])
            × (((deliver b o received s).calls ++ signal_stop h_int ∷ []) ++ stop_loop h_int ∷ []
                ≡ s.calls ++ signal_stop h_int ∷ stop_loop h_int ∷ [])
      delivers false o e f = cc e
      delivers true none e f = cc f
      delivers true (some c) e f =
          (ground (arith, f), append_assoc s.calls (signal_stop h_int ∷ []) (stop_loop h_int ∷ []))
