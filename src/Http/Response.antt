-- ===== src/Http/Response.antt =====
-- src/piconaut/http/response.cc. The calls of libh2o are recorded with their arguments, and a send
-- with the status and the reason that the request object holds at that moment.
pub mod Sending
use piconaut.Prelude.{ℕ, Str, bytes, ◌⊎◌, inl, inr, Option, none, some, List, [], ◌∷◌, ◌++◌}
use piconaut.Errors.{Error, invalid_argument}

pub data H2oCall : Type 0 where
  -- h2o_add_header_by_str(name, value), h2o_add_header(H2O_TOKEN_CONTENT_TYPE, value)
  add_header_by_str : Str → Str → H2oCall
  add_content_type : Str → H2oCall
  -- h2o_send_inline, h2o_send_error_503(reason, body)
  send_inline : (status : ℕ) → (reason body : Str) → H2oCall
  send_error_503 : (reason body : Str) → H2oCall

-- `req_->res`, and the calls so far.
pub record Exchange : Type 0 where
  pub status : ℕ
  pub reason : Str
  pub calls : List H2oCall

-- `Response(req)`: a null pointer is refused.
abbrev pub make_response : Option Exchange → Exchange ⊎ Error
make_response none = inr (invalid_argument (bytes "Response object cannot be null"))
make_response (some r) = inl r

-- What `h2o_send_inline` throws on a body, if it throws.
abbrev pub InlineFault : Type 0
InlineFault = Str → Option Str

unfoldable pub set_status : ℕ → Exchange → Exchange
set_status status_code r = record r { status = status_code }

unfoldable pub add_header : Str → Str → Exchange → Exchange
add_header name value r = record r { calls = r.calls ++ add_header_by_str name value ∷ [] }

unfoldable pub inline_or_503 : InlineFault → Str → Exchange → Exchange
inline_or_503 fault body r = elim (fault body) [
  | none ↦ record r { calls = r.calls ++ send_inline r.status r.reason body ∷ [] }
  | some what ↦ record r {
    status = 503;
    calls = r.calls ++ send_error_503 (bytes "internal server error") what ∷ [];
  }
]

-- `Send(body, status_code)`; the header gives `status_code` the default 200
unfoldable pub send : InlineFault → Str → ℕ → Exchange → Exchange
unfolding set_status inline_or_503
send fault body status_code r =
    inline_or_503 fault body (record (set_status status_code r) { reason = bytes "OK" })

abbrev pub default_status : ℕ
default_status = 200

-- `SendJson(json, status_code)`, for the bytes of the buffer
unfoldable pub send_json : InlineFault → Str → ℕ → Exchange → Exchange
unfolding set_status inline_or_503
send_json fault body status_code r =
    let typed = record (set_status status_code r) {
      calls = r.calls ++ add_content_type (bytes "application/json") ∷ [];
    } in
    inline_or_503 fault body (record typed { reason = bytes "OK" })
