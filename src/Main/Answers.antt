-- ===== src/Main/Answers.antt =====
-- The answers of main.cc, from the request to the body that `HelloWorldHandler` sends.
use piconaut.Prelude.{
  ℕ, ◌≤◌, Str, bytes, length, true, [], Map, map, inl, inr, ◌⊎◌, ◌≡◌, ◌≢◌, ◌∙◌, ap,
}
use piconaut.Utils.Strings.{npos}
use piconaut.Utils.Strings.Split.{split}
use piconaut.Formats.Json.RapidJson.{RapidJson, IsRapidJson, object_type, c_str}
use piconaut.Formats.Json.RapidJson.Nested.{IsRapidNested}
use piconaut.Formats.Json.ValueBuilder.{ValueBuilder, serialize_to_bytes}
use piconaut.Http.Request.{H2oReq, FindHeader, get_path}
use piconaut.Http.Response.{Exchange, InlineFault, send_json}
use piconaut.Http.SingleServer.{new_h2o_server}
use piconaut.Handlers.Dispatcher.{Outcome, done, thrown, undefined, handle_impl}
use piconaut.Main.{route_table, register_each}
use piconaut.Main.Dispatch.{AreDistinct, main_paths}
use piconaut.Main.Requests.{MainRequest, main_requests}
use piconaut.Main.HelloWorld.{
  Stopped, failed_assertion, raised, hello_request, hello_body, bytes_or_raised, ◌>>=◌,
}
use piconaut.Formats.Json.ValueBuilder.Objects.{Holds}
use piconaut.Main.HelloWorld.Body.{hello_request-send_json}

-- What the call of `HelloWorldHandler` is for the dispatcher. Behind a failed assertion of RapidJSON
-- nothing is said.
abbrev pub as_outcome : Exchange ⊎ Stopped → Outcome
as_outcome (inl r) = done r
as_outcome (inr (raised e)) = thrown e
as_outcome (inr failed_assertion) = undefined

module _ (json : RapidJson) (laws : IsRapidJson json) (nested : IsRapidNested json)
    (find_header : FindHeader) (fault : InlineFault) {Hd : Type 0} where
  -- The handlers of main, which are all `HelloWorldHandler`.
  abbrev pub run_hello : Hd → H2oReq → Map Str Str → Exchange → Outcome
  run_hello h req params r = as_outcome (hello_request json find_header req fault params r)

  -- Where RapidJSON keeps the laws of IsRapidJson and IsRapidNested, and HandleRequest of the
  -- handlers is that of HelloWorldHandler: with the five routes of main registered under five
  -- distinct hashes, every request of one of the five forms (MainRequest) with a path no longer
  -- than npos is handled so: HelloWorldHandler builds a body without a failed assertion, an object
  -- with an object as its member "params" where there are parameters, and the dispatcher sends the
  -- bytes of that body by SendJson with the status 200, or raises the exception of the
  -- serialization where that fails.
  pub main_answers :
      (hasher : Str → ℕ) (h1 h2 h3 : Hd) {h : Hd} {params : Map Str Str} (req : H2oReq)
      (r : Exchange)
      → AreDistinct (map hasher main_paths)
      → length (get_path req) ≤ npos
      → MainRequest h1 h2 h3 (split b'/' (get_path req)) h params
      → (b : ValueBuilder json) × (hello_body json find_header req params ≡ inl b)
        × (json.type_of b.document json.root ≡ object_type)
        × (params ≢ [] → Holds json laws nested (c_str (bytes "params")) b.document)
        × (handle_impl run_hello fault
              (register_each hasher (route_table h1 h2 h3) (new_h2o_server true).0).0.routers
              req
              r
            ≡ as_outcome (
                bytes_or_raised (serialize_to_bytes json b) >>= λ sent.
                inl (send_json fault sent 200 r)))
  main_answers hasher h1 h2 h3 {h} {params} req r distinct fits asked =
      let (b, body, object, holds, sent) =
        hello_request-send_json json laws nested find_header req fault params r in
      (
        b,
        body,
        object,
        holds,
        main_requests hasher h1 h2 h3 distinct run_hello fault req r fits asked
            ∙ ap as_outcome sent,
      )
