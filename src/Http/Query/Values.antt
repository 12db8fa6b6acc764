-- ===== src/Http/Query/Values.antt =====
-- What `GetQueryString` of src/piconaut/http/request.cc finds.
use piconaut.Prelude.{
  ℕ, ◌+◌, ◌<◌, Str, some, [], ◌∷◌, ◌++◌, length, take, drop, drop-drop, All, ◌≡◌, ◌≢◌, refl, sym,
  ap, ◌∙◌, arith, nat_eq, list_eq, nat_beq_iff,
}
use piconaut.Http.Query.{Strstr, until_byte, value_from, get_query_string}

-- No place before the end of `pre` has the name.
abbrev pub NotBefore : ℕ → Str → Str → Type 0
NotBefore n name query = (i : ℕ) → i < n → take (length name) (drop i query) ≢ name

-- `strstr` finds the first place where the name stands.
abbrev pub FindsFirst : Strstr → Type 0
FindsFirst strstr =
    (pre name post : Str)
    → NotBefore (length pre) name (pre ++ (name ++ post))
    → strstr (pre ++ (name ++ post)) name ≡ some (length pre)

-- Behind a value the query ends, or the next one begins.
abbrev pub EndsValue : Str → Type 0
EndsValue [] = Unit
EndsValue (c ∷ rest) = c ≡ b'&'

abbrev pub IsValue : Str → Type 0
IsValue = All (λ c. c ≢ b'&')

until_byte-append :
    (value rest : Str) → IsValue value → EndsValue rest → until_byte b'&' (value ++ rest) ≡ value
unfolding until_byte
until_byte-append [] [] v e = refl
until_byte-append [] (c ∷ rest) v e = ground (arith, nat_beq_iff c b'&')
until_byte-append (c ∷ value) rest (p, v) e =
    ground (arith, nat_beq_iff c b'&', until_byte-append value rest v e)

drop_append : (s t : Str) → drop (length s) (s ++ t) ≡ t
drop_append [] t = refl
drop_append (c ∷ s) t = drop_append s t

drop_both : (s t u : Str) → drop (length s + length t) (s ++ (t ++ u)) ≡ u
drop_both s t u =
    sym (drop-drop (length t) (length s) (s ++ (t ++ u)))
    ∙ ap (λ (r : Str). drop (length t) r) (drop_append s (t ++ u))
    ∙ drop_append t u

-- Where h2o_strstr finds the first place of a name, and the query behind query_at is pre, name,
-- "=", value, rest, with no place of the name before the end of pre, no "&" in the value, and rest
-- empty or begun by "&": get_query_string returns the value.
pub query_value :
    (strstr : Strstr) (path : Str) (query_at : ℕ) (pre name value rest : Str)
    → FindsFirst strstr
    → drop (query_at + 1) path ≡ pre ++ (name ++ (b'=' ∷ (value ++ rest)))
    → NotBefore (length pre) name (pre ++ (name ++ (b'=' ∷ (value ++ rest))))
    → IsValue value
    → EndsValue rest
    → get_query_string strstr path (some query_at) name ≡ some value
unfolding get_query_string value_from
query_value strstr path query_at pre name value rest first at absent v e =
    rw
      (
        get_query_string,
        at,
        first pre name (b'=' ∷ (value ++ rest)) absent,
        at,
        drop_both pre name (b'=' ∷ (value ++ rest)),
        until_byte-append value rest v e,
      )
      refl
