-- ===== src/Main/HelloWorld.antt =====
-- `HelloWorldHandler` of main.cc: the body that it builds, and its answer. The parameters of a request
-- come in the order in which the map yields them.
pub mod Statements
pub mod Body
use piconaut.Prelude.{ℕ, ℤ, pos, Str, bytes, Option, none, some, List, [], ◌∷◌, Map, ◌⊎◌, inl, inr}
use piconaut.Errors.{Error}
use piconaut.Formats.Json.RapidJson.{RapidJson}
use piconaut.Formats.Json.JsonBuffer.{JsonBuffer, sent_bytes}
use piconaut.Formats.Json.ValueBuilder.{
  ValueBuilder, new_builder, index, assign_string, assign_chars, assign_int, create_json_object,
  serialize_to_bytes,
}
use piconaut.Http.Request.{H2oReq, FindHeader, get_header}
use piconaut.Http.Response.{Exchange, InlineFault, send_json}

-- What ends the handler early: an assertion of RapidJSON, or an exception.
pub data Stopped : Type 0 where
  failed_assertion : Stopped
  raised : Error → Stopped

infixl 5 ◌>>=◌
abbrev pub ◌>>=◌ {ℓ κ} : {A : Type ℓ} {B : Type κ} → A ⊎ Stopped → (A → B ⊎ Stopped) → B ⊎ Stopped
inl a >>= f = f a
inr e >>= f = inr e

abbrev pub or_assertion {ℓ} : {A : Type ℓ} → Option A → A ⊎ Stopped
or_assertion none = inr failed_assertion
or_assertion (some a) = inl a

abbrev pub or_raised {ℓ} : {A : Type ℓ} → A × Option Error → A ⊎ Stopped
or_raised (a, none) = inl a
or_raised (a, some e) = inr (raised e)

abbrev pub bytes_or_raised : JsonBuffer ⊎ Error → Str ⊎ Stopped
bytes_or_raised (inl buffer) = inl (sent_bytes buffer)
bytes_or_raised (inr e) = inr (raised e)

-- The values that the handler assigns.
pub data Plain : Type 0 where
  text literal : Str → Plain
  whole : ℤ → Plain

module _ (json : RapidJson) where
  unfoldable pub set_plain : Plain → ValueBuilder json → ValueBuilder json
  unfolding assign_string assign_chars assign_int
  set_plain (text value) b = assign_string json value b
  set_plain (literal value) b = assign_chars json value b
  set_plain (whole value) b = assign_int json value b

  -- `json[key].CreateJsonObject()`
  unfoldable pub create_at_key : Str → ValueBuilder json → ValueBuilder json ⊎ Stopped
  unfolding index create_json_object
  create_at_key key b = do
    at_key ← or_assertion (index json key b)
    or_raised (create_json_object json at_key)

  -- `json[key] = value`
  unfoldable pub set_key : Str → Plain → ValueBuilder json → ValueBuilder json ⊎ Stopped
  unfolding index set_plain
  set_key key value b = do at_key ← or_assertion (index json key b); inl (set_plain value at_key)

  -- `json[key][name] = value`
  unfoldable pub set_below : Str → Str → Plain → ValueBuilder json → ValueBuilder json ⊎ Stopped
  unfolding index set_plain
  set_below key name value b = do
    at_key ← or_assertion (index json key b)
    at_name ← or_assertion (index json name at_key)
    inl (set_plain value at_name)

  unfoldable pub server_part : ValueBuilder json → ValueBuilder json ⊎ Stopped
  unfolding create_at_key set_below
  server_part b = do
    made ← create_at_key (bytes "server") b
    named ← set_below (bytes "server") (bytes "name") (literal (bytes "Piconaut Framework")) made
    set_below (bytes "server") (bytes "version") (literal (bytes "v0.2.1")) named

  unfoldable pub set_keys : List (Str × Plain) → ValueBuilder json → ValueBuilder json ⊎ Stopped
  unfolding set_key
  set_keys [] b = inl b
  set_keys ((key, value) ∷ rest) b = set_key key value b >>= set_keys rest

  -- The loop over the parameters.
  unfoldable pub set_params : Map Str Str → ValueBuilder json → ValueBuilder json ⊎ Stopped
  unfolding set_below
  set_params [] b = inl b
  set_params ((name, value) ∷ rest) b =
      set_below (bytes "params") name (text value) b >>= set_params rest

  unfoldable pub params_part : Map Str Str → ValueBuilder json → ValueBuilder json ⊎ Stopped
  unfolding create_at_key set_params
  params_part [] b = inl b
  params_part (p ∷ params) b = create_at_key (bytes "params") b >>= set_params (p ∷ params)

  module _ (find_header : FindHeader) (req : H2oReq) where
    abbrev pub fields : List (Str × Plain)
    fields =
        (bytes "status", whole (pos 200))
        ∷ (bytes "userAgent", text (get_header find_header (bytes "user-agent") req))
        ∷ (bytes "acceptLanguage", text (get_header find_header (bytes "accept-language") req))
        ∷ (bytes "acceptEncoding", text (get_header find_header (bytes "accept-encoding") req))
        ∷ (bytes "cacheControl", text (get_header find_header (bytes "cache-control") req))
        ∷ (bytes "pragma", text (get_header find_header (bytes "pragma") req))
        ∷ []

    -- The body that `HandleRequest` builds.
    unfoldable pub hello_body : Map Str Str → ValueBuilder json ⊎ Stopped
    unfolding server_part set_keys params_part new_builder
    hello_body params = do
      served ← server_part (new_builder json)
      filled ← set_keys fields served
      params_part params filled

    -- `HandleRequest(req, res, params)`
    unfoldable pub hello_request : InlineFault → Map Str Str → Exchange → Exchange ⊎ Stopped
    unfolding hello_body serialize_to_bytes send_json sent_bytes
    hello_request fault params r = do
      body ← hello_body params
      sent ← bytes_or_raised (serialize_to_bytes json body)
      inl (send_json fault sent 200 r)
