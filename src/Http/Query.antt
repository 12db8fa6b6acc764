-- ===== src/Http/Query.antt =====
-- `GetQueryString` of src/piconaut/http/request.cc, on the fields `path` and `query_at` of the request.
-- A result `none` is a read of the byte behind the path.
pub mod Values
use piconaut.Prelude.{
  ℕ, ◌+◌, Str, Option, none, some, [], ◌∷◌, length, drop, ◌==◌, nat_eq, if◌then◌else◌,
}

-- `h2o_strstr(haystack, needle)`: an offset, or `none` for `SIZE_MAX`.
abbrev pub Strstr : Type 0
Strstr = Str → Str → Option ℕ

-- The bytes in front of the first `c`, or all of them: `memchr` and the end of the query.
unfoldable pub until_byte : ℕ → Str → Str
until_byte c [] = []
until_byte c (x ∷ s) = let rest = x ∷ until_byte c s in if x == c then [] else rest

-- What stands at `found`, with the query behind it.
unfoldable pub value_from : Str → Option Str
unfolding until_byte
value_from [] = none
value_from (x ∷ s) = if x == b'=' then some (until_byte b'&' s) else some []

-- `GetQueryString(name)`; `query_at` is `none` for `SIZE_MAX`
unfoldable pub get_query_string : Strstr → Str → Option ℕ → Str → Option Str
unfolding value_from
get_query_string strstr path none name = some []
get_query_string strstr path (some query_at) name =
    let query_string = drop (query_at + 1) path in
    elim (strstr query_string name) [
      | none ↦ some []
      | some offset ↦ value_from (drop (offset + length name) query_string)
    ]
