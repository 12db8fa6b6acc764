-- ===== src/Main/Running.antt =====
-- The end of the process of main.cc.
use piconaut.Prelude.{ap, Option, none, some, ◌≡◌, refl}
use piconaut.Sys.SignalHandler.{SignalHandler, SignalType, sigint, sigterm}
use piconaut.Http.SingleServer.{H2oServer, stop_server}
use piconaut.Main.{MainState, stop_if, capture_signal_default}

stop_if-eq : {Hd : Type 0} (server : Option (H2oServer Hd)) → stop_if server ≡ server
unfolding stop_server
stop_if-eq none = refl
stop_if-eq (some s) = refl

-- Every signal leaves the globals as they are, since `Stop` of the server is empty.
capture_signal_default-eq :
    {Hd : Type 0} (t : SignalType) (m : MainState Hd) → capture_signal_default t m ≡ m
unfolding capture_signal_default
capture_signal_default-eq t m =
    let kept : record m { server = stop_if m.server } ≡ m =
      ap (λ server'. record m { server = server' }) (stop_if-eq m.server) in
    elim t as (λ k. capture_signal_default k m ≡ m) [ sigint ↦ kept | sigterm ↦ kept | _ ↦ refl ]
