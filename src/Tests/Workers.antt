-- ===== src/Tests/Workers.antt =====
-- The worker threads of src/piconaut/http/impl/h2o_impl.h with three workers.
use piconaut.Prelude.{false, some, [], ◌∷◌, ◌++◌, ◌≡◌, refl}
use piconaut.Http.MultiServer.Loops.{range_from}
use piconaut.Http.ServerImpl.Workers.{
  Workers, new_workers, start_workers, on_read, alloc_req, accept_on,
}
use piconaut.Http.ServerImpl.Workers.Shared.{connections_on_last}

abbrev three : Workers
three = record (new_workers 3) { worker_number = 3 }

connections_on_last_example :
    ((start_workers three).contexts ≡ range_from three.loop_count 3)
    × ((start_workers three).listeners ≡ three.listeners ++ range_from three.loop_count 3)
    × ((start_workers three).joined ≡ range_from 0 3)
    × ((on_read false 0 (start_workers three)).calls
        ≡ three.calls ++ (alloc_req 0 ∷ accept_on (some 2) 0 ∷ []))
connections_on_last_example = connections_on_last three 2 0 refl

loops_of_three : (start_workers three).contexts ≡ 0 ∷ 1 ∷ 2 ∷ []
unfolding start_workers new_workers
loops_of_three = refl
