-- ===== src/Tests/Csrf.antt =====
-- src/piconaut/middleware.
use piconaut.Prelude.{ℕ, suc, Str, bytes, none, [], ◌∷◌, ◌≡◌, ◌≢◌, refl, arith, nat_eq, list_eq}
use piconaut.Http.Request.{FindHeader, get_header, get_method}
use piconaut.Http.Response.{InlineFault}
use piconaut.Middleware.Manager.{MiddlewareBase, MiddlewareManager, handle}
use piconaut.Middleware.Manager.Chain.{chain, add_all, handle-add_all}
use piconaut.Middleware.Csrf.{Context, CsrfMiddleware, generate_token, csrf_handle, token_header}
use piconaut.Middleware.Csrf.Guard.{rejected, handle-csrf_reject}

abbrev no_headers : FindHeader
no_headers headers name = none

abbrev sound : InlineFault
sound body = none

abbrev ask : Str → Context ℕ
ask method = record {
  request = record { method = method; path_normalized = bytes "/"; headers = []; entity = [] };
  exchange = record { status = 0; reason = []; calls = [] };
  other = 0;
}

-- A middleware that counts the requests that it sees.
abbrev counting : MiddlewareBase (Context ℕ)
counting next c = next (record c { other = suc c.other })

token_1203 : generate_token 1203 ≡ bytes "1203"
unfolding generate_token
token_1203 = refl

-- A middleware that sets the count that the others see.
abbrev setting : MiddlewareBase (Context ℕ)
setting next c = next (record c { other = 7 })

abbrev one_middleware : MiddlewareManager (Context ℕ)
one_middleware = record { middlewares = counting ∷ [] }

handle-add_all_example :
    handle (add_all (setting ∷ counting ∷ []) one_middleware) (ask (bytes "GET"))
    ≡ chain (counting ∷ setting ∷ counting ∷ []) (ask (bytes "GET"))
handle-add_all_example = handle-add_all (setting ∷ counting ∷ []) one_middleware (ask (bytes "GET"))

abbrev guard : CsrfMiddleware
guard = record { csrf_token = bytes "42" }

is_post : get_method (ask (bytes "POST")).request ≡ bytes "POST"
unfolding get_method
is_post = refl

is_get : get_method (ask (bytes "GET")).request ≢ bytes "POST"
unfolding get_method
is_get e = ground arith

wrong_token : get_header no_headers token_header (ask (bytes "POST")).request ≢ bytes "42"
unfolding get_header
wrong_token e = cc e

handle-csrf_reject_example :
    handle
      (record { middlewares = csrf_handle no_headers sound guard ∷ counting ∷ [] })
      (ask (bytes "POST"))
    ≡ rejected no_headers sound guard (ask (bytes "POST"))
handle-csrf_reject_example =
    handle-csrf_reject no_headers sound guard (counting ∷ []) (ask (bytes "POST")) is_post
      wrong_token refl
