-- ===== src/Http/ServerImpl/Workers/Shared.antt =====
-- Which worker's context a connection of src/piconaut/http/impl/h2o_impl.h comes to.
use piconaut.Prelude.{
  ℕ, zero, suc, ◌+◌, false, Option, some, List, [], ◌∷◌, ◌++◌, append_assoc, append-nil, ◌≡◌, refl,
  sym, ap, ◌∙◌, arith,
}
use piconaut.Http.MultiServer.Loops.{range_from}
use piconaut.Http.ServerImpl.Workers.{
  Workers, accept_on, alloc_req, init_workers, listen_on, start_workers, on_read,
}

-- The worker whose context is set last.
abbrev pub last_worker : ℕ → ℕ → Option ℕ → Option ℕ
last_worker zero i before = before
last_worker (suc n) i before = some (i + n)

init_workers_lem :
    (n i : ℕ) (s : Workers)
    → init_workers n i s ≡ record s {
      loop_count = s.loop_count + n;
      contexts = s.contexts ++ range_from s.loop_count n;
      threads = s.threads ++ range_from i n;
      accept_context = last_worker n i s.accept_context;
    }
unfolding init_workers
init_workers_lem zero i s = λ j. record s {
  loop_count = count j;
  contexts = sym (append-nil s.contexts) j;
  threads = sym (append-nil s.threads) j;
}
  where
    count : s.loop_count ≡ s.loop_count + 0
    count = omega arith
init_workers_lem (suc n) i s = init_workers_lem n (suc i) _ ∙ λ j. record s {
  loop_count = count j;
  contexts = append_assoc s.contexts (s.loop_count ∷ []) (range_from (suc s.loop_count) n) j;
  threads = append_assoc s.threads (i ∷ []) (range_from (suc i) n) j;
  accept_context = last n i j;
}
  where
    count : suc s.loop_count + n ≡ s.loop_count + suc n
    count = omega arith

    last : (n i : ℕ) → last_worker n (suc i) (some i) ≡ some (i + n)
    last zero i = ap (λ k. some k) (omega arith)
    last (suc n) i = ap (λ k. some k) (omega arith)

listen_on_lem :
    (loops : List ℕ) (s : Workers)
    → listen_on loops s ≡ record s { listeners = s.listeners ++ loops }
unfolding listen_on
listen_on_lem [] s = ap (λ ls. record s { listeners = ls }) (sym (append-nil s.listeners))
listen_on_lem (l ∷ loops) s =
    listen_on_lem loops _
    ∙ ap (λ ls. record s { listeners = ls }) (append_assoc s.listeners (l ∷ []) loops)

-- With n + 1 workers, Start gives each worker its own loop, context and thread, and one listening
-- socket on its loop; the context that a connection is accepted on is that of worker n, whatever
-- socket it arrives at, so that the last worker serves every connection.
pub connections_on_last :
    (s : Workers) (n i : ℕ)
    → s.worker_number ≡ suc n
    → ((start_workers s).contexts ≡ range_from s.loop_count (suc n))
      × ((start_workers s).listeners ≡ s.listeners ++ range_from s.loop_count (suc n))
      × ((start_workers s).joined ≡ range_from 0 (suc n))
      × ((on_read false i (start_workers s)).calls
          ≡ s.calls ++ alloc_req i ∷ accept_on (some n) i ∷ [])
unfolding start_workers on_read
connections_on_last s n i e =
    rw (e, init_workers_lem, listen_on_lem)
      (
        refl,
        refl,
        refl,
        ap (λ k. s.calls ++ (alloc_req i ∷ accept_on (some k) i ∷ [])) (omega arith),
      )
