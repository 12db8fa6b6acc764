-- ===== src/Middleware/Manager.antt =====
-- src/piconaut/middleware/middleware_base.h, middleware_manager.h and middleware_manager.cc. A
-- middleware is its `Handle`: it acts on the state that requests, responses and middlewares share,
-- and may run the continuation any number of times.
pub mod Chain
use piconaut.Prelude.{
  ℕ, zero, suc, ◌+◌, ◌-◌, length, get_elem?, Option, none, some, List, [], ◌∷◌, ◌++◌, ltb,
  if◌then◌else◌,
}

abbrev pub MiddlewareBase {ℓ} : Type ℓ → Type ℓ
MiddlewareBase S = (S → S) → S → S

pub record MiddlewareManager {ℓ} (S : Type ℓ) : Type ℓ where
  pub middlewares : List (MiddlewareBase S)

module _ {ℓ} {S : Type ℓ} where
  unfoldable pub add : MiddlewareBase S → MiddlewareManager S → MiddlewareManager S
  add middleware m = record { middlewares = m.middlewares ++ middleware ∷ [] }

  -- `middlewares_[index]->Handle(req, res, next)`
  abbrev pub handle_at : Option (MiddlewareBase S) → (S → S) → S → S
  handle_at none next s = s
  handle_at (some middleware) next s = middleware next s

  -- `execute`, on fuel: a middleware gets `execute(index + 1)` as its continuation.
  unfoldable pub execute : ℕ → List (MiddlewareBase S) → ℕ → S → S
  execute zero middlewares index s = s
  execute (suc fuel) middlewares index s =
      let next = execute fuel middlewares (index + 1) in
      if ltb index (length middlewares) then handle_at (get_elem? middlewares index) next s else s

  unfoldable pub handle : MiddlewareManager S → S → S
  unfolding execute
  handle m s = execute (suc (length m.middlewares)) m.middlewares 0 s
