-- ===== src/Http/MultiServer/Counts.antt =====
-- The number of threads of src/piconaut/http/http_server.cc, an `int` that `Start` hands to `resize`.
use piconaut.Prelude.{
  ℕ, ◌+◌, ◌^◌, ◌≤◌, ◌<◌, ℤ, pos, negsuc, ltb, Bool, true, false, ◌&&◌, none, Option, ap, ◌≡◌, ◌↔◌,
  arith, if◌then◌else◌,
}
use piconaut.Errors.{Error}
use piconaut.Http.MultiServer.{MultiThreadedH2oServer, as_size, start_multi}
use piconaut.Http.MultiServer.Loops.{all_created, start_loops_lem, with_socket}

-- A value that an `int` of 32 bits holds.
abbrev pub IsInt : ℤ → Type 0
IsInt (pos n) = n < 2 ^ 31
IsInt (negsuc n) = n < 2 ^ 31

abbrev pub is_negative : ℤ → Bool
is_negative (pos n) = false
is_negative (negsuc n) = true

module _ (thread_ok : ℕ → Bool) (max_size : ℕ) (s : MultiThreadedH2oServer)
    (low : 2 ^ 31 ≤ max_size) (high : max_size < 2 ^ 63) (int : IsInt s.num_threads) where
  too_long : ltb max_size (as_size s.num_threads) ≡ is_negative s.num_threads
  unfolding as_size
  too_long = given s.num_threads int
    where
      given : (z : ℤ) → IsInt z → ltb max_size (as_size z) ≡ is_negative z
      given (pos n) i = ground arith
      given (negsuc n) i = ground arith

  -- Let num_threads be a value of an int of 32 bits, and the max_size of a vector of contexts lie
  -- between 2 ^ 31 and 2 ^ 63. Start of the multi-threaded server returns without an exception
  -- exactly when socket, bind and listen succeed, num_threads is not negative, and every thread can
  -- be created; the listening socket is left open whenever the first three calls succeed, so that
  -- it leaks where a negative num_threads or a thread that cannot be created throws.
  pub start_multi-num_threads :
      (socket_ok bind_ok listen_ok : Bool)
      → (((start_multi thread_ok max_size socket_ok bind_ok listen_ok s).1 ≡ none) ↔ (
          (socket_ok && bind_ok && listen_ok ≡ true)
          × (is_negative s.num_threads ≡ false)
          × (all_created thread_ok 0 (as_size s.num_threads) ≡ true)))
        × ((start_multi thread_ok max_size socket_ok bind_ok listen_ok s).0.open_sockets
            ≡ s.open_sockets + (if socket_ok && bind_ok && listen_ok then 1 else 0))
  unfolding start_multi
  start_multi-num_threads false b l = ground arith
  start_multi-num_threads true false l = ground arith
  start_multi-num_threads true true false = ground arith
  start_multi-num_threads true true true = rw too_long (
      ground (
        arith,
        ap (λ (x : MultiThreadedH2oServer × Option Error). x.0.open_sockets)
            (start_loops_lem thread_ok (with_socket s)),
        ap (λ (x : MultiThreadedH2oServer × Option Error). x.1)
            (start_loops_lem thread_ok (with_socket s)),
      ))
