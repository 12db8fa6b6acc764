-- ===== src/Http/MultiServer/Stopping.antt =====
-- `Stop` of src/piconaut/http/http_server.cc, after any calls.
use piconaut.Prelude.{
  ℕ, ap, ℤ, ltb, Bool-cases, inl, inr, Bool, true, false, Str, none, Option, ◌≡◌, refl, ◌∙◌,
}
use piconaut.Errors.{Error}
use piconaut.Http.MultiServer.{
  MultiThreadedH2oServer, as_size, new_multi_threaded, register_path, start_multi, wait_multi,
  stop_multi,
}
use piconaut.Http.MultiServer.Loops.{start_loops_lem, with_socket}

pub data Reach : MultiThreadedH2oServer → Type 0 where
  constructed : (host_ok : Bool) (port n : ℤ) → Reach (new_multi_threaded host_ok port n).0
  registered : (path : Str) {s : MultiThreadedH2oServer} → Reach s → Reach (register_path path s)
  started :
      (thread_ok : ℕ → Bool) (max_size : ℕ) (a b l : Bool) {s : MultiThreadedH2oServer}
      → Reach s
      → Reach (start_multi thread_ok max_size a b l s).0
  waited : {s : MultiThreadedH2oServer} → Reach s → Reach (wait_multi s)

queues-start_multi :
    (thread_ok : ℕ → Bool) (max_size : ℕ) (a b l : Bool) (s : MultiThreadedH2oServer)
    → (start_multi thread_ok max_size a b l s).0.queues ≡ s.queues
unfolding start_multi
queues-start_multi thread_ok max_size false b l s = refl
queues-start_multi thread_ok max_size true false l s = refl
queues-start_multi thread_ok max_size true true false s = refl
queues-start_multi thread_ok max_size true true true s =
    elim (Bool-cases (ltb max_size (as_size s.num_threads))) [
      | inl e ↦ rw e refl
      | inr e ↦ rw e (
          ap (λ (x : MultiThreadedH2oServer × Option Error). x.0.queues)
            (start_loops_lem thread_ok (with_socket s)))
    ]

queues_unwritten : {s : MultiThreadedH2oServer} → Reach s → s.queues ≡ none
unfolding new_multi_threaded register_path wait_multi
queues_unwritten (constructed host_ok port n) = refl
queues_unwritten (registered path r) = queues_unwritten r
queues_unwritten (started thread_ok max_size a b l {s} r) =
    queues-start_multi thread_ok max_size a b l s ∙ queues_unwritten r
queues_unwritten (waited r) = queues_unwritten r

-- After any calls `Stop` reads a pointer that nothing has written.
pub stop_undefined : {s : MultiThreadedH2oServer} → Reach s → stop_multi s ≡ none
unfolding stop_multi
stop_undefined r = rw (queues_unwritten r) refl
