-- ===== src/Middleware/Csrf.antt =====
-- src/piconaut/middleware/csrf_middleware.cc. The number that the generator draws, libh2o's search
-- for a header and the fault of a send are parameters.
pub mod Guard
use piconaut.Prelude.{
  ℕ, zero, suc, ◌+◌, ◌/◌, ◌%◌, Str, bytes, Bool, true, false, not, List, [], ◌∷◌, ◌++◌, ltb, nat_eq,
  list_eq, ◌==◌, if◌then◌else◌,
}
use piconaut.Http.Request.{H2oReq, FindHeader, get_method, get_header}
use piconaut.Http.Response.{Exchange, InlineFault, set_status, add_header, send, default_status}
use piconaut.Middleware.Manager.{MiddlewareBase}

-- What the middlewares of one request share; `E` is whatever else they act on.
pub record Context {ℓ} (E : Type ℓ) : Type ℓ where
  pub request : H2oReq
  pub exchange : Exchange
  pub other : E

-- `std::to_string`, the decimal digits; the number itself is fuel enough.
unfoldable pub decimal : ℕ → ℕ → Str
decimal zero n = []
decimal (suc fuel) n =
    let front = decimal fuel (n / 10) in
    if ltb n 10 then (48 + n) ∷ [] else front ++ (48 + n % 10) ∷ []

-- `dist(rng)` is the number that is drawn.
unfoldable pub generate_token : ℕ → Str
unfolding decimal
generate_token drawn = decimal (suc drawn) drawn

pub record CsrfMiddleware : Type 0 where
  pub csrf_token : Str

unfoldable pub new_csrf_middleware : ℕ → CsrfMiddleware
unfolding generate_token
new_csrf_middleware drawn = record { csrf_token = generate_token drawn }

unfoldable pub validate_token : CsrfMiddleware → Str → Bool
validate_token m token = token == m.csrf_token

abbrev pub token_header : Str
token_header = bytes "X-CSRF-Token"

abbrev pub forbidden : Str
forbidden = bytes "Forbidden: CSRF token invalid"

-- `Handle(req, res, next)`
unfoldable pub csrf_handle {ℓ} :
    {E : Type ℓ} → FindHeader → InlineFault → CsrfMiddleware → MiddlewareBase (Context E)
csrf_handle find_header fault m next c =
    let reject = record c {
      exchange = send fault forbidden default_status (set_status 403 c.exchange);
    } in
    let pass = next (record c { exchange = add_header token_header m.csrf_token c.exchange }) in
    if get_method c.request == bytes "POST"
    then (if not (validate_token m (get_header find_header token_header c.request))
        then reject
        else pass)
    else pass
