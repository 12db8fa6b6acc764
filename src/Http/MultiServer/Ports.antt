-- ===== src/Http/MultiServer/Ports.antt =====
-- The port of src/piconaut/http/http_server.cc, an `int` that `Start` hands to `htons`.
use piconaut.Prelude.{
  ℕ, ◌+◌, ◌*◌, ◌^◌, ◌<◌, ℤ, pos, negsuc, suc, Option, Bool, true, false, ltb, [], ◌∷◌, ◌++◌, ◌≡◌,
  refl, arith, ap, Bool-cases, inl, inr, ◌∙◌,
}
use piconaut.Errors.{Error}
use piconaut.Http.MultiServer.{MultiThreadedH2oServer, as_port, as_size, start_multi}
use piconaut.Http.MultiServer.Loops.{start_loops_lem, with_socket}

bound-start_multi :
    (thread_ok : ℕ → Bool) (max_size : ℕ) (bind_ok listen_ok : Bool) (s : MultiThreadedH2oServer)
    → (start_multi thread_ok max_size true bind_ok listen_ok s).0.bound
      ≡ s.bound ++ as_port s.port ∷ []
unfolding start_multi
bound-start_multi thread_ok max_size false l s = refl
bound-start_multi thread_ok max_size true false s = refl
bound-start_multi thread_ok max_size true true s =
    elim (Bool-cases (ltb max_size (as_size s.num_threads))) [
      | inl e ↦ rw e refl
      | inr e ↦ rw e (
          ap (λ (x : MultiThreadedH2oServer × Option Error). x.0.bound)
            (start_loops_lem thread_ok (with_socket s)))
    ]

-- Equal but for a multiple of 2 ^ 16.
abbrev pub IsSamePort : ℤ → ℕ → Type 0
IsSamePort (pos m) n = (k : ℕ) × (m ≡ n + k * 2 ^ 16)
IsSamePort (negsuc m) n = (k : ℕ) × (suc m + n ≡ k * 2 ^ 16)

as_port_lem : (port : ℤ) (n : ℕ) → n < 2 ^ 16 → IsSamePort port n → as_port port ≡ n
unfolding as_port
as_port_lem (pos m) n h (k, e) = omega (arith, h, e)
as_port_lem (negsuc m) n h (k, e) = omega (arith, h, e)

-- Let port, which may be negative, differ from n, which is below 2 ^ 16, by a multiple of 2 ^ 16
-- (IsSamePort). Where socket succeeds, and for any number of threads, Start of the multi-threaded
-- server calls bind once, whether it and the calls after it succeed or not, and asks for the port
-- n.
pub start_multi-port :
    (thread_ok : ℕ → Bool) (max_size : ℕ) (bind_ok listen_ok : Bool) (s : MultiThreadedH2oServer)
    (n : ℕ)
    → n < 2 ^ 16
    → IsSamePort s.port n
    → (start_multi thread_ok max_size true bind_ok listen_ok s).0.bound ≡ s.bound ++ n ∷ []
start_multi-port thread_ok max_size b l s n h e =
    bound-start_multi thread_ok max_size b l s
    ∙ ap (λ p. s.bound ++ p ∷ []) (as_port_lem s.port n h e)
