-- ===== src/Middleware/Manager/Chain.antt =====
-- The middlewares of src/piconaut/middleware/middleware_manager.cc as one chain.
use mathlib.Core.Path.{fun_ext}
use native.Mathlib.Numerals.{add-one}
use piconaut.Prelude.{
  ℕ, zero, suc, ◌+◌, ◌-◌, ◌≤◌, ◌<◌, length, get_elem?, drop, some, List, [], ◌∷◌, ◌++◌, append-nil,
  append_assoc, ◌≡◌, refl, ◌∙◌, sym, ap, arith, ltb, Bool-cases, true, false, inl, inr,
}
use piconaut.Middleware.Manager.{MiddlewareBase, MiddlewareManager, add, execute, handle}

module _ {ℓ} {S : Type ℓ} where
  -- Each middleware around those behind it, the first one outermost.
  abbrev pub chain : List (MiddlewareBase S) → S → S
  chain [] s = s
  chain (m ∷ ms) s = m (chain ms) s

  drop_at :
      (ms : List (MiddlewareBase S)) (i : ℕ)
      → i < length ms
      → (m : MiddlewareBase S) × (get_elem? ms i ≡ some m) × (drop i ms ≡ m ∷ drop (suc i) ms)
  drop_at [] i h = absurd (omega arith)
  drop_at (m ∷ ms) zero h = (m, refl, refl)
  drop_at (m ∷ ms) (suc i) h = drop_at ms i (omega arith)

  execute_inside :
      (fuel : ℕ) (ms : List (MiddlewareBase S)) (i : ℕ) (s : S)
      → i < length ms
      → execute fuel ms (i + 1) ≡ chain (drop (suc i) ms)
      → execute (suc fuel) ms i s ≡ chain (drop i ms) s
  unfolding execute
  execute_inside fuel ms i s h next =
      let (m, e, d) = drop_at ms i h in
      let lt : ltb i (length ms) ≡ true = ground arith in rw (lt, e, d) (ap (λ k. m k s) next)

  execute_outside :
      (fuel : ℕ) (ms : List (MiddlewareBase S)) (i : ℕ) (s : S)
      → ltb i (length ms) ≡ false
      → execute (suc fuel) ms i s ≡ s
  unfolding execute
  execute_outside fuel ms i s h = rw h refl

  chain_at_end : (ms : List (MiddlewareBase S)) (i : ℕ) → length ms ≤ i → drop i ms ≡ []
  chain_at_end [] i h = unfold_nil i
    where
      unfold_nil : (i : ℕ) → ◌≡◌ {A = List (MiddlewareBase S)} (drop i []) []
      unfold_nil zero = refl
      unfold_nil (suc i) = refl
  chain_at_end (m ∷ ms) zero h = absurd (omega arith)
  chain_at_end (m ∷ ms) (suc i) h = chain_at_end ms i (omega arith)

  execute-eq-chain :
      (fuel : ℕ) (ms : List (MiddlewareBase S)) (i : ℕ)
      → length ms - i < fuel
      → execute fuel ms i ≡ chain (drop i ms)
  execute-eq-chain zero ms i h = absurd (omega arith)
  execute-eq-chain (suc fuel) ms i h = fun_ext λ s. elim (Bool-cases (ltb i (length ms))) [
    | inl lt ↦
        execute_inside fuel ms i s (ground arith) (
          execute-eq-chain fuel ms (i + 1) (ground arith) ∙ ap (λ n. chain (drop n ms)) (add-one i))
    | inr ge ↦
        execute_outside fuel ms i s ge
        ∙ ap (λ l. chain l s) (sym (chain_at_end ms i (ground arith)))
  ]

  pub handle_lem : (m : MiddlewareManager S) (s : S) → handle m s ≡ chain m.middlewares s
  unfolding handle
  handle_lem m s =
      ap (λ (f : S → S). f s)
        (execute-eq-chain (suc (length m.middlewares)) m.middlewares 0 (omega arith))

  -- The calls of `Add` for one middleware after the other.
  abbrev pub add_all : List (MiddlewareBase S) → MiddlewareManager S → MiddlewareManager S
  add_all [] m = m
  add_all (middleware ∷ rest) m = add_all rest (add middleware m)

  middlewares-add_all :
      (ms : List (MiddlewareBase S)) (m : MiddlewareManager S)
      → (add_all ms m).middlewares ≡ m.middlewares ++ ms
  unfolding add
  middlewares-add_all [] m = sym (append-nil m.middlewares)
  middlewares-add_all (middleware ∷ rest) m =
      middlewares-add_all rest _ ∙ append_assoc m.middlewares (middleware ∷ []) rest

  -- After calls of Add for some middlewares, one after the other, on any manager, Handle, which
  -- walks by an index and a continuation, is the right-nested chain of the middlewares that were
  -- there and then of the added ones in the order of their calls, with the identity behind the
  -- last.
  pub handle-add_all :
      (ms : List (MiddlewareBase S)) (m : MiddlewareManager S) (s : S)
      → handle (add_all ms m) s ≡ chain (m.middlewares ++ ms) s
  handle-add_all ms m s =
      handle_lem (add_all ms m) s ∙ ap (λ l. chain l s) (middlewares-add_all ms m)
