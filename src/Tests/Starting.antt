-- ===== src/Tests/Starting.antt =====
-- The servers of src/piconaut/http at fixed inputs.
use piconaut.Errors.{system_error}
use piconaut.Prelude.{
  Bool, nat_eq, ◌==◌, ℕ, pos, negsuc, ◌^◌, ◌&&◌, none, some, ◌↔◌, arith, if◌then◌else◌, suc, true,
  false, ◌+◌, [], ◌∷◌, ◌++◌, ◌≡◌, refl,
}
use piconaut.Http.SingleServer.{
  H2oServer, new_h2o_server, start_server, register_global_path, create_handler, register_host,
}
use piconaut.Http.SingleServer.Starting.{open_sockets-start_server}
use piconaut.Http.MultiServer.{
  MultiThreadedH2oServer, new_multi_threaded, as_port, as_size, start_multi, run_event_loop,
}
use piconaut.Http.MultiServer.Counts.{is_negative, start_multi-num_threads}
use piconaut.Http.MultiServer.Ports.{start_multi-port}
use piconaut.Http.MultiServer.Loops.{replicate, all_created, run_event_loop-start_multi}

abbrev single : H2oServer ℕ
single = (new_h2o_server true).0

made : single.calls ≡ register_host ∷ register_global_path ∷ create_handler ∷ []
unfolding new_h2o_server
made = refl

-- Without an event loop the listening socket stays open.
open_sockets-start_server_example :
    (start_server true true true false true 3 single).0.open_sockets ≡ suc single.open_sockets
open_sockets-start_server_example = open_sockets-start_server true true true false true 3 single

-- Every thread can be created.
abbrev every : ℕ → Bool
every i = true

abbrev threaded : MultiThreadedH2oServer
threaded = (new_multi_threaded true (pos 8080) (pos 2)).0

-- Three loops are created, and all of the server stands on the first.
two_threads_contexts : (start_multi every (2 ^ 40) true true true threaded).0.contexts ≡ 0 ∷ 0 ∷ []
unfolding start_multi new_multi_threaded
two_threads_contexts = refl

-- A server with -1 threads.
abbrev negative : MultiThreadedH2oServer
negative = (new_multi_threaded true (pos 8080) (negsuc 0)).0

start_multi-num_threads_example :
    (((start_multi every (2 ^ 40) true true true negative).1 ≡ none) ↔ (
      (true && true && true ≡ true)
      × (is_negative negative.num_threads ≡ false)
      × (all_created every 0 (as_size negative.num_threads) ≡ true)))
    × ((start_multi every (2 ^ 40) true true true negative).0.open_sockets
        ≡ negative.open_sockets + (if true && true && true then 1 else 0))
start_multi-num_threads_example =
    start_multi-num_threads every (2 ^ 40) negative (omega arith) (omega arith)
      (unfold new_multi_threaded in omega arith) true true true

-- Where the second thread cannot be created, the first one is left running.
second_fails :
    ((start_multi (λ i. i == 0) (2 ^ 40) true true true threaded).0.threads ≡ 0 ∷ [])
    × ((start_multi (λ i. i == 0) (2 ^ 40) true true true threaded).1 ≡ some system_error)
unfolding start_multi new_multi_threaded
second_fails = (refl, refl)

-- The second thread runs the loop that the first runs.
run_event_loop-start_multi_example :
    run_event_loop 1 3 (start_multi every (2 ^ 40) true true true threaded).0
    ≡ some (record (start_multi every (2 ^ 40) true true true threaded).0 {
      runs =
          (start_multi every (2 ^ 40) true true true threaded).0.runs
          ++ replicate 4 threaded.loop_count;
    })
run_event_loop-start_multi_example =
    run_event_loop-start_multi every (2 ^ 40) threaded 1 3
      (unfold new_multi_threaded as_size in omega arith)
      (unfold new_multi_threaded as_size in omega arith)

-- The port -1 asks for the port 65535, and bind fails.
abbrev wrapped : MultiThreadedH2oServer
wrapped = (new_multi_threaded true (negsuc 0) (pos 2)).0

start_multi-port_example :
    (start_multi every (2 ^ 40) true false true wrapped).0.bound ≡ wrapped.bound ++ 65535 ∷ []
start_multi-port_example =
    start_multi-port every (2 ^ 40) false true wrapped 65535 (omega arith)
      (unfold new_multi_threaded in (1, refl))

-- The port 65616 asks for the port 80.
large_port :
    (start_multi every
      (2 ^ 40)
      true
      true
      true
      (new_multi_threaded true (pos 65616) (pos 2)).0).0.bound
    ≡ 80 ∷ []
unfolding start_multi new_multi_threaded as_port
large_port = refl
