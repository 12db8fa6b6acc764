-- ===== src/Main/HelloWorld/Body.antt =====
-- The body that `HelloWorldHandler` of main.cc builds, and its answer.
use piconaut.Prelude.{
  Str, bytes, false, List, [], ◌∷◌, Map, inl, ◌≡◌, ◌≢◌, refl, ◌∙◌, ap, arith, All,
}
use piconaut.Formats.Json.RapidJson.{RapidJson, IsRapidJson, object_type, c_str}
use piconaut.Formats.Json.RapidJson.Nested.{IsRapidNested}
use piconaut.Formats.Json.ValueBuilder.{ValueBuilder, new_builder, start, index, serialize_to_bytes}
use piconaut.Formats.Json.ValueBuilder.Objects.{IsOpen, Holds}
use piconaut.Http.Request.{H2oReq, FindHeader}
use piconaut.Http.Response.{Exchange, InlineFault, send_json}
use piconaut.Main.HelloWorld.{
  Plain, text, literal, ◌>>=◌, bytes_or_raised, create_at_key, server_part, set_keys, set_params,
  params_part, fields, hello_body, hello_request,
}
use piconaut.Main.HelloWorld.Statements.{
  set_key-Through, create_at_key-ThroughObject, set_below-ThroughObject,
}

abbrev server : Str
server = c_str (bytes "server")

abbrev pub params_key : Str
params_key = c_str (bytes "params")

server-ne-params : server ≢ params_key
unfolding c_str
server-ne-params e = ground arith

module _ (json : RapidJson) (laws : IsRapidJson json) (nested : IsRapidNested json) where
  open json use {root, type_of, has_member}

  set_keys-Through :
      (j : Str) (table : List (Str × Plain)) (b : ValueBuilder json)
      → All (λ (x : Str × Plain). c_str x.0 ≢ j) table
      → IsOpen json laws nested b
      → (b' : ValueBuilder json) × (set_keys json table b ≡ inl b')
        × IsOpen json laws nested b'
        × (has_member b'.document root j ≡ has_member b.document root j)
  unfolding set_keys
  set_keys-Through j [] b ne o = (b, refl, o, refl)
  set_keys-Through j ((key, value) ∷ rest) b (ne, nes) o =
      let first = set_key-Through json laws nested key value b o in
      let (b', e, o', kept) = set_keys-Through j rest first.next nes first.is_open in
      (b', ap (λ m. m >>= set_keys json rest) first.through ∙ e, o', kept ∙ first.others j ne)

  set_params-Through :
      (params : Map Str Str) (b : ValueBuilder json)
      → IsOpen json laws nested b
      → Holds json laws nested params_key b.document
      → (b' : ValueBuilder json) × (set_params json params b ≡ inl b')
        × IsOpen json laws nested b'
        × Holds json laws nested params_key b'.document
  unfolding set_params
  set_params-Through [] b o h = (b, refl, o, h)
  set_params-Through ((name, value) ∷ rest) b o h =
      let first =
        set_below-ThroughObject json laws nested (bytes "params") name (text value) b o h in
      let (b', e, o', h') =
        set_params-Through rest first.step.next first.step.is_open first.holds in
      (b', ap (λ m. m >>= set_params json rest) first.step.through ∙ e, o', h')

  -- The first statement makes the empty builder an object.
  create_at_key-start :
      (key : Str)
      → create_at_key json key (new_builder json)
        ≡ create_at_key json key (start json (new_builder json))
  unfolding create_at_key index start new_builder
  create_at_key-start key = refl

  begun-IsOpen : IsOpen json laws nested (start json (new_builder json))
  unfolding start new_builder
  begun-IsOpen = record {
    begun = refl;
    no_nodes = refl;
    document_object = laws.type-set_object root _;
  }

  begun_bare : (k : Str) → has_member (start json (new_builder json)).document root k ≡ false
  unfolding start new_builder
  begun_bare k = laws.has_member-set_object root k _

  server_part-Through :
      (b' : ValueBuilder json) × (server_part json (new_builder json) ≡ inl b')
      × IsOpen json laws nested b'
      × (has_member b'.document root params_key ≡ false)
  unfolding server_part
  server_part-Through =
      let b = start json (new_builder json) in
      let made =
        create_at_key-ThroughObject json laws nested (bytes "server") b begun-IsOpen
          (begun_bare server) in
      let named =
        set_below-ThroughObject json laws nested (bytes "server") (bytes "name")
          (literal (bytes "Piconaut Framework")) made.step.next made.step.is_open made.holds in
      let versioned =
        set_below-ThroughObject json laws nested (bytes "server") (bytes "version")
          (literal (bytes "v0.2.1")) named.step.next named.step.is_open named.holds in
      (
        versioned.step.next,
        rw (create_at_key-start, made.step.through) (rw named.step.through versioned.step.through),
        versioned.step.is_open,
        versioned.step.others params_key server-ne-params
            ∙ named.step.others params_key server-ne-params
            ∙ made.step.others params_key server-ne-params
            ∙ begun_bare params_key,
      )

  params_part-Through :
      (params : Map Str Str) (b : ValueBuilder json)
      → IsOpen json laws nested b
      → has_member b.document root params_key ≡ false
      → (b' : ValueBuilder json) × (params_part json params b ≡ inl b')
        × IsOpen json laws nested b'
        × (params ≢ [] → Holds json laws nested params_key b'.document)
  unfolding params_part
  params_part-Through [] b o e = (b, refl, o, λ ne. absurd (ne refl))
  params_part-Through (p ∷ params) b o e =
      let made = create_at_key-ThroughObject json laws nested (bytes "params") b o e in
      let (b', e', o', h) =
        set_params-Through (p ∷ params) made.step.next made.step.is_open made.holds in
      (b', ap (λ m. m >>= set_params json (p ∷ params)) made.step.through ∙ e', o', λ ne. h)

  module _ (find_header : FindHeader) (req : H2oReq) where
    fields-ne-params :
        All (λ (x : Str × Plain). c_str x.0 ≢ params_key) (fields json find_header req)
    unfolding c_str
    fields-ne-params = ground arith

    -- Where RapidJSON keeps the laws of IsRapidJson and IsRapidNested, HelloWorldHandler answers
    -- every request with any parameters: no statement fails an assertion of RapidJSON or throws,
    -- the body that it builds is an object, with an object as its member "params" where there are
    -- parameters, and what it does then is to send the bytes of that body with status 200, or to
    -- raise the exception of the serialization where that fails.
    pub hello_request-send_json :
        (fault : InlineFault) (params : Map Str Str) (r : Exchange)
        → (b : ValueBuilder json) × (hello_body json find_header req params ≡ inl b)
          × (type_of b.document root ≡ object_type)
          × (params ≢ [] → Holds json laws nested params_key b.document)
          × (hello_request json find_header req fault params r ≡ (
              bytes_or_raised (serialize_to_bytes json b) >>= λ sent.
              inl (send_json fault sent 200 r)))
    unfolding hello_body hello_request
    hello_request-send_json fault params r =
        let (served, e, o, bare) = server_part-Through in
        let (filled, e', o', kept) =
          set_keys-Through params_key (fields json find_header req) served fields-ne-params o in
        let (b, e'', o'', h) = params_part-Through params filled o' (kept ∙ bare) in
        let body : hello_body json find_header req params ≡ inl b = rw e (rw e' e'') in
        (
          b,
          body,
          o''.document_object,
          h,
          ap
              (λ m. m >>= λ b'. bytes_or_raised (serialize_to_bytes json b') >>= λ sent.
                inl (send_json fault sent 200 r))
              body,
        )
