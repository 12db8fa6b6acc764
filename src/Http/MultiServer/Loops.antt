-- ===== src/Http/MultiServer/Loops.antt =====
-- Which event loop the threads of src/piconaut/http/http_server.cc run.
use piconaut.Prelude.{
  ℕ, Bool, Bool-cases, inl, inr, Option, none, ◌&&◌, if◌then◌else◌, get_elem?, ◌<◌, ltb, false, ◌≤◌,
  zero, suc, ◌+◌, true, List, [], ◌∷◌, ◌++◌, ◌≡◌, refl, arith, append_assoc, append-nil, sym, ap,
  ◌∙◌, some,
}
use piconaut.Errors.{Error, system_error}
use piconaut.Http.MultiServer.{
  MultiThreadedH2oServer, as_size, as_port, init_contexts, create_sockets, start_threads,
  start_loops, start_multi, run_rounds, run_event_loop,
}

-- `n` times the same.
abbrev pub replicate : ℕ → ℕ → List ℕ
replicate zero l = []
replicate (suc n) l = l ∷ replicate n l

init_contexts_lem :
    (n l : ℕ) (s : MultiThreadedH2oServer)
    → init_contexts n l s
      ≡ record s { loop_count = s.loop_count + n; contexts = s.contexts ++ replicate n l }
unfolding init_contexts
init_contexts_lem zero l s =
    λ i. record s { loop_count = count i; contexts = sym (append-nil s.contexts) i }
  where
    count : s.loop_count ≡ s.loop_count + 0
    count = omega arith
init_contexts_lem (suc n) l s = init_contexts_lem n l _ ∙ λ i. record s {
  loop_count = count i;
  contexts = append_assoc s.contexts (l ∷ []) (replicate n l) i;
}
  where
    count : suc s.loop_count + n ≡ s.loop_count + suc n
    count = omega arith

create_sockets_lem :
    (loops : List ℕ) (s : MultiThreadedH2oServer)
    → create_sockets loops s ≡ record s { listeners = s.listeners ++ loops }
unfolding create_sockets
create_sockets_lem [] s = ap (λ ls. record s { listeners = ls }) (sym (append-nil s.listeners))
create_sockets_lem (l ∷ loops) s =
    create_sockets_lem loops _
    ∙ ap (λ ls. record s { listeners = ls }) (append_assoc s.listeners (l ∷ []) loops)

-- The numbers from `i` on.
abbrev pub range_from : ℕ → ℕ → List ℕ
range_from i zero = []
range_from i (suc n) = i ∷ range_from (suc i) n

-- The indices from `i` on whose threads are created, until one cannot be.
abbrev pub created_from : (ℕ → Bool) → ℕ → ℕ → List ℕ
created_from thread_ok i zero = []
created_from thread_ok i (suc n) = if thread_ok i then i ∷ created_from thread_ok (suc i) n else []

-- All of these can be created.
abbrev pub all_created : (ℕ → Bool) → ℕ → ℕ → Bool
all_created thread_ok i zero = true
all_created thread_ok i (suc n) = thread_ok i && all_created thread_ok (suc i) n

start_threads_lem :
    (thread_ok : ℕ → Bool) (n i : ℕ) (s : MultiThreadedH2oServer)
    → start_threads thread_ok n i s ≡ (
      record s { threads = s.threads ++ created_from thread_ok i n },
      if all_created thread_ok i n then none else some system_error,
    )
unfolding start_threads
start_threads_lem thread_ok zero i s =
    ap (λ ts. (record s { threads = ts }, none)) (sym (append-nil s.threads))
start_threads_lem thread_ok (suc n) i s = elim (Bool-cases (thread_ok i)) [
  | inl e ↦ simp e (
      start_threads_lem thread_ok n (suc i) _
      ∙ ap
          (λ ts. (
            record s { threads = ts },
            if all_created thread_ok (suc i) n then none else some system_error,
          ))
          (append_assoc s.threads (i ∷ []) (created_from thread_ok (suc i) n)))
  | inr e ↦
      simp e
        (ap (λ ts. (record s { threads = ts }, some system_error)) (sym (append-nil s.threads)))
]

-- What is made once socket, bind and listen have succeeded: the context of every thread, and every
-- listening socket, is on the one loop that is created first; there is a thread for each index
-- from 0 until one cannot be created, and one more loop for each thread, on which nothing stands.
pub start_loops_lem :
    (thread_ok : ℕ → Bool) (s : MultiThreadedH2oServer)
    → start_loops thread_ok s ≡ (
      record s {
        loop = some s.loop_count;
        loop_count = suc s.loop_count + as_size s.num_threads;
        contexts = replicate (as_size s.num_threads) s.loop_count;
        listeners = s.listeners ++ replicate (as_size s.num_threads) s.loop_count;
        threads = s.threads ++ created_from thread_ok 0 (as_size s.num_threads);
      },
      if all_created thread_ok 0 (as_size s.num_threads) then none else some system_error,
    )
unfolding start_loops
start_loops_lem thread_ok s = rw (init_contexts_lem, create_sockets_lem, start_threads_lem) refl

-- `s` with one more socket open, bound to its port.
abbrev pub with_socket : MultiThreadedH2oServer → MultiThreadedH2oServer
with_socket s = record s {
  open_sockets = suc s.open_sockets;
  bound = s.bound ++ as_port s.port ∷ [];
}

pub start_multi_lem :
    (thread_ok : ℕ → Bool) (max_size : ℕ) (s : MultiThreadedH2oServer)
    → as_size s.num_threads ≤ max_size
    → start_multi thread_ok max_size true true true s ≡ start_loops thread_ok (with_socket s)
unfolding start_multi
start_multi_lem thread_ok max_size s fits = rw fits_lem refl
  where
    fits_lem : ltb max_size (as_size s.num_threads) ≡ false
    fits_lem = ground (arith, fits)

get_elem?-replicate : (n i l : ℕ) → i < n → get_elem? (replicate n l) i ≡ some l
get_elem?-replicate zero i l h = absurd (omega (arith, h))
get_elem?-replicate (suc n) zero l h = refl
get_elem?-replicate (suc n) (suc i) l h = get_elem?-replicate n i l (omega (arith, h))

run_rounds_lem :
    (l rounds : ℕ) (s : MultiThreadedH2oServer)
    → run_rounds l rounds s ≡ record s { runs = s.runs ++ replicate (suc rounds) l }
unfolding run_rounds
run_rounds_lem l zero s = refl
run_rounds_lem l (suc rounds) s =
    run_rounds_lem l rounds _
    ∙ ap (λ rs. record s { runs = rs }) (append_assoc s.runs (l ∷ []) (replicate (suc rounds) l))

run_at_loop :
    (s : MultiThreadedH2oServer) (i rounds l : ℕ)
    → get_elem? s.contexts i ≡ some l
    → run_event_loop i rounds s ≡ some (run_rounds l rounds s)
unfolding run_event_loop
run_at_loop s i rounds l e = rw (run_event_loop, e) refl

-- Where socket, bind and listen succeed and num_threads is no more than the max_size of a vector of
-- contexts, and whichever threads can be created, every thread of an index below num_threads, for
-- any number of rounds, runs one and the same loop in RunEventLoop: the one that Start of the
-- multi-threaded server creates first.
pub run_event_loop-start_multi :
    (thread_ok : ℕ → Bool) (max_size : ℕ) (s : MultiThreadedH2oServer) (i rounds : ℕ)
    → as_size s.num_threads ≤ max_size
    → i < as_size s.num_threads
    → run_event_loop i rounds (start_multi thread_ok max_size true true true s).0
      ≡ some (record (start_multi thread_ok max_size true true true s).0 {
        runs =
            (start_multi thread_ok max_size true true true s).0.runs
            ++ replicate (suc rounds) s.loop_count;
      })
run_event_loop-start_multi thread_ok max_size s i rounds fits h =
    let started = (start_multi thread_ok max_size true true true s).0 in
    let n = as_size s.num_threads in
    let made = start_multi_lem thread_ok max_size s fits ∙ start_loops_lem thread_ok _ in
    run_at_loop started i rounds s.loop_count (
      ap (λ (x : MultiThreadedH2oServer × Option Error). get_elem? x.0.contexts i) made
      ∙ get_elem?-replicate n i s.loop_count h)
    ∙ ap (λ x. some x) (run_rounds_lem s.loop_count rounds started)
