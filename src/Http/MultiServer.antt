-- ===== src/Http/MultiServer.antt =====
-- `MultiThreadedH2OServer` of src/piconaut/http/http_server.cc: its event loops, by the order of their
-- creation, and what stands on them. Whether a call of the system succeeds is a parameter.
pub mod Loops
pub mod Counts
pub mod Ports
pub mod Stopping
use piconaut.Prelude.{
  ℕ, zero, suc, ◌-◌, ◌^◌, ◌%◌, ℤ, pos, negsuc, ltb, Str, bytes, ◌++◌, Bool, not, Option, none, some,
  List, [], ◌∷◌, get_elem?, if◌then◌else◌,
}
use piconaut.Errors.{Error, runtime_error, length_error, system_error}

-- `loop_count` loops have been created; `contexts` and `listeners` hold the loop of each context
-- and of each listening socket, `threads` the index that each thread runs; `runs`
-- the loop of each call of `h2o_evloop_run`; `bound` the port of each call of `bind`. `queues` and
-- `listener` are the pointers of that name, `none` where they have never been written.
pub record MultiThreadedH2oServer : Type 0 where
  pub num_threads : ℤ
  pub port : ℤ
  pub bound : List ℕ
  pub handlers : ℕ
  pub open_sockets : ℕ
  pub loop_count : ℕ
  pub loop : Option ℕ
  pub contexts : List ℕ
  pub listeners : List ℕ
  pub threads : List ℕ
  pub joined : List ℕ
  pub runs : List ℕ
  pub queues : Option Bool
  pub listener : Option Bool

-- `MultiThreadedH2OServer(host, port, num_threads)`
unfoldable pub new_multi_threaded : Bool → ℤ → ℤ → MultiThreadedH2oServer × Option Error
new_multi_threaded host_ok port num_threads = (
  record {
    num_threads = num_threads;
    port = port;
    bound = [];
    handlers = 0;
    open_sockets = 0;
    loop_count = 0;
    loop = none;
    contexts = [];
    listeners = [];
    threads = [];
    joined = [];
    runs = [];
    queues = none;
    listener = none;
  },
  if host_ok then none else some (runtime_error (bytes "Failed to register host configuration")),
)

-- `RegisterHandler(path, handler)`. `MakePiconautHandler` writes through the pointer that
-- `h2o_create_handler` returns, so that the test of its result never finds a null pointer.
unfoldable pub register_path : Str → MultiThreadedH2oServer → MultiThreadedH2oServer
register_path path s = record s { handlers = suc s.handlers }

-- An `int` where a `size_t` of 64 bits is expected.
unfoldable pub as_size : ℤ → ℕ
as_size (pos n) = n
as_size (negsuc n) = 2 ^ 64 - suc n

-- An `int` where a `uint16_t` is expected, as in `htons(port_)`.
unfoldable pub as_port : ℤ → ℕ
as_port (pos n) = n % 2 ^ 16
as_port (negsuc n) = 2 ^ 16 - suc (n % 2 ^ 16)

-- The first loop over the threads: a loop is created, and the context is put on `loop_`.
unfoldable pub init_contexts : ℕ → ℕ → MultiThreadedH2oServer → MultiThreadedH2oServer
init_contexts zero loop' s = s
init_contexts (suc n) loop' s =
    init_contexts n loop'
      (record s { loop_count = suc s.loop_count; contexts = s.contexts ++ loop' ∷ [] })

-- The second: a listening socket on the loop of each context.
unfoldable pub create_sockets : List ℕ → MultiThreadedH2oServer → MultiThreadedH2oServer
create_sockets [] s = s
create_sockets (l ∷ rest) s = create_sockets rest (record s { listeners = s.listeners ++ l ∷ [] })

-- The third: a thread for each index, from `i` on, until one cannot be created: `thread_ok` says for
-- which indices the constructor of `std::thread` succeeds.
unfoldable pub start_threads :
    (ℕ → Bool) → ℕ → ℕ → MultiThreadedH2oServer → MultiThreadedH2oServer × Option Error
start_threads thread_ok zero i s = (s, none)
start_threads thread_ok (suc n) i s =
    let rest = start_threads thread_ok n (suc i) (record s { threads = s.threads ++ i ∷ [] }) in
    if thread_ok i then rest else (s, some system_error)

-- `Start()` from the creation of `loop_` on
unfoldable pub start_loops :
    (ℕ → Bool) → MultiThreadedH2oServer → MultiThreadedH2oServer × Option Error
unfolding as_size init_contexts create_sockets start_threads
start_loops thread_ok s =
    let created = record s {
      loop = some s.loop_count;
      loop_count = suc s.loop_count;
      contexts = [];
    } in
    let ready = init_contexts (as_size s.num_threads) s.loop_count created in
    start_threads thread_ok (as_size s.num_threads) 0 (create_sockets ready.contexts ready)

-- `Start()`, where `max_size` is the `max_size()` of a vector of contexts
unfoldable pub start_multi :
    (ℕ → Bool)
    → ℕ
    → Bool
    → Bool
    → Bool
    → MultiThreadedH2oServer
    → MultiThreadedH2oServer × Option Error
unfolding as_size as_port start_loops
start_multi thread_ok max_size socket_ok bind_ok listen_ok s =
    let opened = record s {
      open_sockets = suc s.open_sockets;
      bound = s.bound ++ as_port s.port ∷ [];
    } in
    let closed = record opened { open_sockets = suc s.open_sockets - 1 } in
    if not socket_ok
    then (s, some (runtime_error (bytes "Failed to create socket")))
    else if not bind_ok
    then (closed, some (runtime_error (bytes "Failed to bind to the specified host and port")))
    else if not listen_ok
    then (closed, some (runtime_error (bytes "Failed to listen on socket")))
    else if ltb max_size (as_size s.num_threads)
    then (opened, some length_error)
    else start_loops thread_ok opened

-- `Wait()`: each thread that is joinable
unfoldable pub wait_multi : MultiThreadedH2oServer → MultiThreadedH2oServer
wait_multi s = record s { joined = s.threads }

-- `Stop()`, and the destructor: the pointers are tested; to read one that has never been written is
-- undefined, `none`. What it disposes of are copies of the contexts.
unfoldable pub stop_multi : MultiThreadedH2oServer → Option MultiThreadedH2oServer
stop_multi s = elim s.queues [
  | none ↦ none
  | some queue ↦ elim s.listener [ none ↦ none | some socket ↦ some s ]
]

-- `~MultiThreadedH2OServer()`
unfoldable pub destroy_multi : MultiThreadedH2oServer → Option MultiThreadedH2oServer
unfolding stop_multi
destroy_multi s = stop_multi s

-- The loop of `RunEventLoop`, for the number of rounds in which `h2o_evloop_run` returns 0
unfoldable pub run_rounds : ℕ → ℕ → MultiThreadedH2oServer → MultiThreadedH2oServer
run_rounds loop' zero s = record s { runs = s.runs ++ loop' ∷ [] }
run_rounds loop' (suc rounds) s = run_rounds loop' rounds (record s { runs = s.runs ++ loop' ∷ [] })

-- `RunEventLoop(thread_index)`; an index out of the range of the contexts is undefined, `none`.
unfoldable pub run_event_loop : ℕ → ℕ → MultiThreadedH2oServer → Option MultiThreadedH2oServer
unfolding run_rounds
run_event_loop thread_index rounds s = elim (get_elem? s.contexts thread_index) [
  | none ↦ none
  | some loop' ↦ some (run_rounds loop' rounds s)
]

-- `on_message(receiver, messages)`, whose body is a comment
unfoldable pub on_message : MultiThreadedH2oServer → MultiThreadedH2oServer
on_message s = s

-- What `AcceptConnection(listener, err)` does: throw, drop the event, or hand a connection on.
pub data Accepted : Type 0 where
  refused : Error → Accepted
  dropped handed_on : Accepted

unfoldable pub accept_multi : Bool → Bool → Bool → Accepted
accept_multi has_listener err accepted =
    if not has_listener
    then refused (runtime_error (bytes "Null socket on_accept"))
    else if err
    then dropped
    else if accepted
    then handed_on
    else dropped
