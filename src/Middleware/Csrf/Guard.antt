-- ===== src/Middleware/Csrf/Guard.antt =====
-- What `CsrfMiddleware::Handle` of src/piconaut/middleware/csrf_middleware.cc lets through.
use piconaut.Prelude.{
  ℕ, ap, ◌⊎◌, sym, suc, ◌/◌, Str, bytes, true, false, none, List, [], ◌∷◌, ◌++◌, ◌≡◌, refl, ◌≢◌,
  ◌∙◌, arith, nat_eq, list_eq, str_iff, ltb, Bool-cases, inl, inr, ◌==◌,
}
use piconaut.Http.Request.{FindHeader, get_method, get_header}
use piconaut.Http.Response.{InlineFault, add_header, send_inline, set_status, default_status}
use piconaut.Http.Response.Sending.{send_sent}
use piconaut.Middleware.Manager.{MiddlewareBase, handle}
use piconaut.Middleware.Manager.Chain.{chain, handle_lem}
use piconaut.Middleware.Csrf.{
  Context, CsrfMiddleware, decimal, generate_token, new_csrf_middleware, validate_token,
  token_header, forbidden, csrf_handle,
}

decimal-ne-nil : (fuel n : ℕ) → decimal (suc fuel) n ≢ []
unfolding decimal
decimal-ne-nil fuel n = elim (Bool-cases (ltb n 10)) [
  | inl e ↦ rw e (λ h. cc h)
  | inr e ↦ rw e (snoc-ne-nil (decimal fuel (n / 10)) _)
]
  where
    snoc-ne-nil : (s : Str) (c : ℕ) → s ++ c ∷ [] ≢ []
    snoc-ne-nil [] c h = cc h
    snoc-ne-nil (d ∷ s) c h = cc h

-- A generated token is never empty.
pub generate_token-ne-nil : (drawn : ℕ) → generate_token drawn ≢ []
unfolding generate_token
generate_token-ne-nil drawn = decimal-ne-nil drawn drawn

validate_wrong :
    (m : CsrfMiddleware) (token : Str) → token ≢ m.csrf_token → validate_token m token ≡ false
unfolding validate_token
validate_wrong m token bad = ground (arith, str_iff token m.csrf_token)

module _ {ℓ} {E : Type ℓ} (find_header : FindHeader) (fault : InlineFault)
    (m : CsrfMiddleware) where
  abbrev pub IsPost : Context E → Type 0
  IsPost c = get_method c.request ≡ bytes "POST"

  -- The answer to a request that is turned away.
  abbrev pub rejected : Context E → Context E
  rejected c = record c {
    exchange = record {
      status = 200;
      reason = bytes "OK";
      calls = c.exchange.calls ++ send_inline 200 (bytes "OK") forbidden ∷ [];
    };
  }

  abbrev pub token_of : Context E → Str
  token_of c = get_header find_header token_header c.request

  module _ (next : Context E → Context E) (c : Context E) where
    -- A POST without the token is answered there and then, whatever is behind.
    pub csrf_handle_reject :
        IsPost c
        → token_of c ≢ m.csrf_token
        → fault forbidden ≡ none
        → csrf_handle find_header fault m next c ≡ rejected c
    unfolding csrf_handle
    csrf_handle_reject post bad sent =
        let is_post : (get_method c.request == bytes "POST") ≡ true = (str_iff _ _).1 post in
        rw (is_post, validate_wrong m _ bad)
          (ap (λ x. record c { exchange = x })
            (send_sent fault forbidden default_status (set_status 403 c.exchange) sent
              ∙ unfold set_status in refl))

    -- A request that is no POST, or whose token is the middleware's, is passed on to the next
    -- middleware, with the token added to the headers of its response and nothing else changed.
    pub csrf_handle_pass :
        (get_method c.request ≢ bytes "POST") ⊎ (token_of c ≡ m.csrf_token)
        → csrf_handle find_header fault m next c
          ≡ next (record c { exchange = add_header token_header m.csrf_token c.exchange })
    unfolding csrf_handle
    csrf_handle_pass (inl other) =
        let not_post : (get_method c.request == bytes "POST") ≡ false =
          ground (arith, str_iff (get_method c.request) (bytes "POST")) in
        rw not_post refl
    csrf_handle_pass (inr good) =
        let valid : validate_token m (get_header find_header token_header c.request) ≡ true =
          unfold validate_token in (str_iff _ _).1 good in
        elim (Bool-cases (get_method c.request == bytes "POST")) [
          | inl e ↦ rw (e, valid) refl
          | inr e ↦ rw e refl
        ]

  -- In a chain that begins with the CSRF middleware, a POST whose token differs from the
  -- middleware's, where the send does not fail, gets one answer and no middleware behind sees it:
  -- the response is the body "Forbidden: CSRF token invalid", sent with status 200 and reason "OK".
  pub handle-csrf_reject :
      (behind : List (MiddlewareBase (Context E))) (c : Context E)
      → IsPost c
      → token_of c ≢ m.csrf_token
      → fault forbidden ≡ none
      → handle (record { middlewares = csrf_handle find_header fault m ∷ behind }) c ≡ rejected c
  handle-csrf_reject behind c post bad sent =
      handle_lem (record { middlewares = csrf_handle find_header fault m ∷ behind }) c
      ∙ csrf_handle_reject (chain behind) c post bad sent

-- With a freshly made CSRF middleware first in the chain, a POST in which the search finds no token
-- header, where the send does not fail, is rejected: the token that is generated is never empty,
-- whatever number is drawn.
pub missing_token {ℓ} :
    {E : Type ℓ} (find_header : FindHeader) (fault : InlineFault) (drawn : ℕ)
    (behind : List (MiddlewareBase (Context E))) (c : Context E)
    → get_method c.request ≡ bytes "POST"
    → find_header c.request.headers token_header ≡ none
    → fault forbidden ≡ none
    → handle
        (record {
          middlewares = csrf_handle find_header fault (new_csrf_middleware drawn) ∷ behind;
        })
        c
      ≡ rejected find_header fault (new_csrf_middleware drawn) c
unfolding get_header new_csrf_middleware
missing_token find_header fault drawn behind c post missing sent =
    handle-csrf_reject find_header fault (new_csrf_middleware drawn) behind c post no_token sent
  where
    no_header : get_header find_header token_header c.request ≡ []
    no_header = rw (missing, get_header) refl

    no_token :
        token_of find_header fault (new_csrf_middleware drawn) c
        ≢ (new_csrf_middleware drawn).csrf_token
    no_token e = generate_token-ne-nil drawn (sym (sym no_header ∙ e))
