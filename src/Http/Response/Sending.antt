-- ===== src/Http/Response/Sending.antt =====
-- What `Send` and `SendJson` of src/piconaut/http/response.cc leave behind.
use piconaut.Prelude.{ℕ, Str, bytes, none, some, List, [], ◌∷◌, ◌++◌, ◌≡◌, refl, ap, append_assoc}
use piconaut.Http.Response.{
  Exchange, InlineFault, H2oCall, add_content_type, send_inline, send_error_503, set_status,
  inline_or_503, send, send_json,
}

-- The exchange after one more answer.
abbrev pub answered : ℕ → Str → List H2oCall → Exchange → Exchange
answered status reason answer r = record {
  status = status;
  reason = reason;
  calls = r.calls ++ answer;
}

module _ (fault : InlineFault) (body : Str) (code : ℕ) (r : Exchange) where
  pub send_sent :
      fault body ≡ none
      → send fault body code r
        ≡ answered code (bytes "OK") (send_inline code (bytes "OK") body ∷ []) r
  unfolding send set_status inline_or_503
  send_sent e = rw (e, send, inline_or_503) refl

  pub send_failed :
      (what : Str)
      → fault body ≡ some what
      → send fault body code r
        ≡ answered 503 (bytes "OK") (send_error_503 (bytes "internal server error") what ∷ []) r
  unfolding send set_status inline_or_503
  send_failed what e = rw (e, send, inline_or_503) refl

  pub send_json_sent :
      fault body ≡ none
      → send_json fault body code r
        ≡ answered code
            (bytes "OK")
            (add_content_type (bytes "application/json") ∷ send_inline code (bytes "OK") body ∷ [])
            r
  unfolding send_json set_status inline_or_503
  send_json_sent e =
      rw (e, send_json, inline_or_503)
        (ap (λ l. record { status = code; reason = bytes "OK"; calls = l })
          (append_assoc r.calls (add_content_type (bytes "application/json") ∷ [])
            (send_inline code (bytes "OK") body ∷ [])))
