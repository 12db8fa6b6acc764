-- ===== src/Routers/Pattern.antt =====
-- `Router::IsValidRoute` of src/piconaut/routers/router.cc: the regular expression of a route,
-- as its automaton, and the scan of the braces.
pub mod Segments
pub mod Braces
use piconaut.Prelude.{
  ℕ, Str, Bool, true, false, not, ◌&&◌, ◌||◌, [], ◌∷◌, leb, nat_eq, ◌==◌, if◌then◌else◌,
}

-- [A-Za-z0-9]
abbrev pub is_alnum : ℕ → Bool
is_alnum c = (leb b'A' c && leb c b'Z') || (leb b'a' c && leb c b'z') || (leb b'0' c && leb c b'9')

abbrev pub is_one_of : ℕ → Str → Bool
is_one_of c [] = false
is_one_of c (d ∷ s) = c == d || is_one_of c s

-- -._~%!$&'()*+,;=:@{}
abbrev pub route_marks : Str
route_marks =
    0x2d ∷ 0x2e ∷ 0x5f ∷ 0x7e ∷ 0x25 ∷ 0x21 ∷ 0x24 ∷ 0x26 ∷ 0x27 ∷ 0x28 ∷ 0x29 ∷ 0x2a ∷ 0x2b ∷ 0x2c
    ∷ 0x3b ∷ 0x3d ∷ 0x3a ∷ 0x40 ∷ 0x7b ∷ 0x7d ∷ []

-- [A-Za-z0-9-._~%!$&'()*+,;=:@{}]
unfoldable pub route_char : ℕ → Bool
route_char c = is_alnum c || is_one_of c route_marks

-- Between two groups, behind the slash of a group, and behind a character of a group.
pub data Place : Type 0 where
  between opened inside : Place

-- std::regex_match with ^(/[A-Za-z0-9-._~%!$&'()*+,;=:@{}]+)*$
unfoldable pub route_regex : Place → Str → Bool
route_regex between [] = true
route_regex opened [] = false
route_regex inside [] = true
route_regex between (c ∷ s) = c == b'/' && route_regex opened s
route_regex opened (c ∷ s) = route_char c && route_regex inside s
route_regex inside (c ∷ s) =
    (c == b'/' || route_char c) && route_regex (if c == b'/' then opened else inside) s

-- `pos + 1 < path.size() && path[pos + 1] == c`, on what follows position `pos`
abbrev pub next_is : ℕ → Str → Bool
next_is c [] = false
next_is c (d ∷ s) = d == c

-- The loop over `pos`, on what is left of the path, with `inside_param`.
unfoldable pub scan_braces : Bool → Str → Bool
scan_braces inside_param [] = not inside_param
scan_braces inside_param (c ∷ s) =
    let opened = scan_braces true s in
    let closed = scan_braces false s in
    let on = scan_braces inside_param s in
    if c == b'{'
    then (if inside_param then false else opened)
    else if c == b'}'
    then (if not inside_param then false else if next_is b'{' s then false else closed)
    else on

unfoldable pub is_valid_route : Str → Bool
unfolding route_regex scan_braces
is_valid_route path = if not (route_regex between path) then false else scan_braces false path
