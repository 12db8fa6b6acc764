-- ===== src/Http/ServerImpl/Workers.antt =====
-- The worker threads of `H2OServerImpl` in src/piconaut/http/impl/h2o_impl.h: its constructor, `AddRoute`,
-- `Start`, `Stop`, and the callbacks of a listening socket. The results of `socket`, `bind` and
-- `listen` are not looked at by the code, so that nothing depends on them.
pub mod Shared
use piconaut.Http.Response.{Exchange}
use piconaut.Prelude.{
  ℕ, zero, suc, Str, Bool, true, false, Option, none, some, List, [], ◌∷◌, ◌++◌, if◌then◌else◌,
}

-- What the callbacks call, on the listening socket of a number, what a worker's thread calls, on the
-- loop of a number, and what the destructor calls.
pub data WorkerCall : Type 0 where
  run_once dispose_context : ℕ → WorkerCall
  dispose_config : WorkerCall
  close_socket read_again alloc_req : ℕ → WorkerCall
  -- `h2o_accept(ctx, sock)`, with the worker whose context `ctx->ctx` is
  accept_on : Option ℕ → ℕ → WorkerCall

-- Event loops are numbered by their creation: `contexts` holds the loop of each worker's context,
-- `listeners` the loop of each listening socket. `accept_context` is the worker whose context
-- `h2o_accept_context_.ctx` points to; `data` of every listening socket points to that one object.
pub record Workers : Type 0 where
  pub worker_number : ℕ
  pub server_running : Bool
  pub paths : List Str
  pub handlers : ℕ
  pub loop_count : ℕ
  pub contexts : List ℕ
  pub threads : List ℕ
  pub joined : List ℕ
  pub listeners : List ℕ
  pub accept_context : Option ℕ
  pub calls : List WorkerCall

-- `H2OServerImpl(host, port, is_ssl, worker_number)`
unfoldable pub new_workers : ℕ → Workers
new_workers worker_number = record {
  worker_number = worker_number;
  server_running = false;
  paths = [];
  handlers = 0;
  loop_count = 0;
  contexts = [];
  threads = [];
  joined = [];
  listeners = [];
  accept_context = none;
  calls = [];
}

-- `AddRoute(path, handler, middlewares)`
unfoldable pub add_path : Str → Workers → Workers
add_path path s = record s { paths = s.paths ++ path ∷ []; handlers = suc s.handlers }

-- The first loop of `Start`: the worker `i` gets a loop, a context and a thread; the result of
-- `pthread_create` is not looked at, and taken for success.
unfoldable pub init_workers : ℕ → ℕ → Workers → Workers
init_workers zero i s = s
init_workers (suc n) i s = init_workers n (suc i) (record s {
  loop_count = suc s.loop_count;
  contexts = s.contexts ++ s.loop_count ∷ [];
  accept_context = some i;
  threads = s.threads ++ i ∷ [];
})

-- The second: a listening socket on the loop of each context.
unfoldable pub listen_on : List ℕ → Workers → Workers
listen_on [] s = s
listen_on (l ∷ rest) s = listen_on rest (record s { listeners = s.listeners ++ l ∷ [] })

-- `Start()`, until the threads have been joined
unfoldable pub start_workers : Workers → Workers
unfolding init_workers listen_on
start_workers s =
    let ready =
      init_workers s.worker_number 0
        (record s { server_running = true; contexts = []; threads = [] }) in
    let listening = listen_on ready.contexts ready in
    record listening { joined = listening.threads }

-- `Stop()`
unfoldable pub stop_workers : Workers → Workers
stop_workers s = record s { server_running = false }

-- `OnAccept(sock, err)`, for the listening socket of number `i`
unfoldable pub on_accept : Bool → ℕ → Workers → Workers
on_accept err i s = record s {
  calls = s.calls ++ (if err then close_socket i else read_again i) ∷ [];
}

-- The callback that `OnAccept` hands to `h2o_socket_read_start`.
unfoldable pub on_read : Bool → ℕ → Workers → Workers
on_read err i s = record s {
  calls =
      s.calls
      ++ (if err then close_socket i ∷ [] else alloc_req i ∷ accept_on s.accept_context i ∷ []);
}

-- `RunLoop(arg)` on a context, for the number of rounds in which `h2o_evloop_run` returns 0
unfoldable pub run_loop : ℕ → ℕ → Workers → Workers
run_loop loop zero s = record s { calls = s.calls ++ run_once loop ∷ [] }
run_loop loop (suc rounds) s =
    run_loop loop rounds (record s { calls = s.calls ++ run_once loop ∷ [] })

-- The loop of `~H2OServerImpl()` over the contexts, each by its loop.
unfoldable pub dispose_contexts : List ℕ → Workers → Workers
dispose_contexts [] s = s
dispose_contexts (loop ∷ rest) s =
    dispose_contexts rest (record s { calls = s.calls ++ dispose_context loop ∷ [] })

-- `~H2OServerImpl()`
unfoldable pub destroy_workers : Workers → Workers
unfolding dispose_contexts
destroy_workers s =
    let disposed = dispose_contexts s.contexts s in
    record disposed { calls = disposed.calls ++ dispose_config ∷ [] }

-- `on_req` of the handlers that `AddRoute` makes: what it returns, and the response, which it leaves.
unfoldable pub on_request : Exchange → ℕ × Exchange
on_request r = (0, r)
