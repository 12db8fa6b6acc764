-- ===== src/Http/Request.antt =====
-- src/piconaut/http/request.cc: the accessors of a request that libh2o has parsed.
use piconaut.Prelude.{
  ℕ, Str, bytes, ◌⊎◌, inl, inr, Option, none, some, List, [], ◌∷◌, Map, insert, get_elem?, nat_eq,
  list_eq,
}
use piconaut.Errors.{Error, invalid_argument}

-- The fields of `h2o_req_t` that are read.
pub record H2oReq : Type 0 where
  pub method : Str
  pub path_normalized : Str
  pub headers : List (Str × Str)
  pub entity : Str

-- `Request(req)`: a null pointer is refused.
abbrev pub make_request : Option H2oReq → H2oReq ⊎ Error
make_request none = inr (invalid_argument (bytes "Request object cannot be null"))
make_request (some req) = inl req

unfoldable pub get_path : H2oReq → Str
get_path req = req.path_normalized

unfoldable pub get_method : H2oReq → Str
get_method req = req.method

unfoldable pub get_body : H2oReq → Str
get_body req = req.entity

-- The loop of `Headers`: a later header of the same name overwrites.
abbrev pub collect_headers : List (Str × Str) → Map Str Str → Map Str Str
collect_headers [] headers = headers
collect_headers ((name, value) ∷ rest) headers = collect_headers rest (insert name value headers)

unfoldable pub headers_of : H2oReq → Map Str Str
headers_of req = collect_headers req.headers []

-- `h2o_find_header_by_str(&headers, name, -1)`: an index, or `none` for -1.
abbrev pub FindHeader : Type 0
FindHeader = List (Str × Str) → Str → Option ℕ

abbrev pub value_at : List (Str × Str) → ℕ → Str
value_at [] i = []
value_at headers i = elim (get_elem? headers i) [ none ↦ [] | some (name, value) ↦ value ]

unfoldable pub get_header : FindHeader → Str → H2oReq → Str
get_header find_header name req = elim (find_header req.headers name) [
  | some i ↦ value_at req.headers i
  | none ↦ []
]
