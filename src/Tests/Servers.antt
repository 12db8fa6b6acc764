-- ===== src/Tests/Servers.antt =====
-- src/piconaut/http/impl/h2o_impl.h and src/piconaut/sys/signal_handler.h.
use piconaut.Prelude.{Bool, true, some, [], ◌∷◌, ◌++◌, ◌≡◌, refl}
use piconaut.Http.ServerImpl.{ServerImpl}
use piconaut.Sys.SignalHandler.{
  SignalHandler, Handle, h_int, sigint, signal_stop, stop_loop, start, register_callback, on_signal,
  new_signal_handler,
}
use piconaut.Sys.SignalHandler.Runs.{
  Reach, constructed, next, starting, registering, sigint_delivered,
}

abbrev blank : ServerImpl
blank = record {
  global = record {
    http1_req_timeout = 0;
    http1_upgrade_to_http2 = 0;
    http2_idle_timeout = 0;
    http2_graceful_shutdown_timeout = 0;
    http2_max_concurrent_requests_per_connection = 0;
    http2_max_streams_for_priority = 0;
  };
  compress_args = record { gzip_quality = 0; brotli_quality = 0 };
  registrations = [];
}

abbrev every : Handle → Bool
every h = true

abbrev running : SignalHandler
running = (start true (register_callback (some 1) (new_signal_handler every))).0

run : Reach every true running
run = next (next constructed (registering (some 1))) starting

has_callback : running.callback ≡ some 1
unfolding start register_callback new_signal_handler
has_callback = refl

sigint_delivered_example :
    ((on_signal h_int sigint running).delivered ≡ running.delivered ++ (1, sigint) ∷ [])
    × ((on_signal h_int sigint running).calls
        ≡ running.calls ++ signal_stop h_int ∷ stop_loop h_int ∷ [])
sigint_delivered_example = sigint_delivered every true 1 sigint run refl has_callback
