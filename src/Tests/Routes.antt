-- ===== src/Tests/Routes.antt =====
-- src/piconaut/routers/router.cc, with routes of main.cc.
use piconaut.Prelude.{
  ℕ, Str, bytes, true, false, some, List, [], ◌∷◌, ◌++◌, insert, ◌≡◌, ◌≢◌, ◌↔◌, refl, arith, nat_eq,
  list_eq, list_beq,
}
use piconaut.Errors.{invalid_argument}
use piconaut.Utils.Strings.{substr}
use piconaut.Utils.Strings.Split.{split}
use piconaut.Routers.Pattern.{route_char, is_valid_route}
use piconaut.Routers.Pattern.Segments.{Segments}
use piconaut.Routers.Pattern.Braces.{HasSeparateBraces, is_valid_route_iff}
use piconaut.Routers.Node.{param_pattern, RouterNode, new_node, find_child}
use piconaut.Routers.Router.{
  Router, new_router, normalized_part, regex_match, add_parts, add_route, match_parts, match_route,
  no_match, is_empty,
}
use piconaut.Routers.Router.Matching.{name_of, Chosen, literally, as_param, captured}
use piconaut.Routers.Router.Captures.{AreValues, match_route-AreValues}
use piconaut.Routers.Router.Resolution.{Resolved, resolve}
use piconaut.Routers.Router.Paths.{match_route-add_route, add_route_invalid}
use piconaut.Routers.Router.Table.{match_view, table}
use piconaut.Routers.Router.Table.Naming.{captured_view, naming_of}
use piconaut.Routers.Router.Table.Registered.{
  shape_of, Added, add_routes, rows, ways, match_route-add_routes,
}
use piconaut.Routers.Router.Table.Reordered.{swap, match_route-Reordered}
use piconaut.Routers.Router.Printing.{print_node, print_router_tree}
use piconaut.Routers.Router.Overlaps.{no_backtracking}

abbrev post_path : Str
post_path = bytes "/post/{id}"

abbrev request : Str
request = bytes "/post/42"

abbrev empty_router : Router ℕ
empty_router = new_router

post_is_valid : is_valid_route post_path ≡ true
unfolding is_valid_route route_char
post_is_valid = refl

chosen : Chosen (split b'/' post_path) (split b'/' request) empty_router.root
unfolding split regex_match find_child normalized_part list_beq
chosen = (literally refl refl, (literally refl refl, (as_param refl refl refl, tt)))

refused : (is_valid_route (bytes "/a{{b}}") ≡ false) × (is_valid_route (bytes "/{a}{b}") ≡ false)
unfolding is_valid_route route_char
refused = (refl, refl)

-- What is between two braces may hold a slash, and a part may begin and end with different braces.
accepted : (is_valid_route (bytes "/{a/b}") ≡ true) × (is_valid_route (bytes "/{a}x{b}") ≡ true)
unfolding is_valid_route route_char
accepted = (refl, refl)

match_route-add_route_example : match_route request [] (add_route 5 post_path 7 empty_router).0 ≡ (
  record { executor = some (some 7); key = some 5 },
  captured (split b'/' post_path) (split b'/' request) [],
)
match_route-add_route_example =
    match_route-add_route 5 post_path 7 empty_router request [] post_is_valid (omega arith)
      (omega arith) chosen

add_route_invalid_example :
    add_route 5 (bytes "/a{{b}}") 7 empty_router
    ≡ (empty_router, some (invalid_argument (bytes "Invalid route pattern: " ++ bytes "/a{{b}}")))
add_route_invalid_example = add_route_invalid 5 (bytes "/a{{b}}") 7 empty_router refused.0

is_valid_route_iff_example :
    (is_valid_route post_path ≡ true) ↔ Segments post_path × HasSeparateBraces post_path
is_valid_route_iff_example = is_valid_route_iff post_path

abbrev post_parts : List Str
post_parts = [] ∷ bytes "post" ∷ bytes "{id}" ∷ []

abbrev post_tree : RouterNode ℕ
post_tree = add_parts post_parts 5 7 new_node

abbrev request_parts : List Str
request_parts = [] ∷ bytes "post" ∷ bytes "42" ∷ []

found : is_empty (match_parts request_parts [] post_tree).0 ≡ false
unfolding is_empty match_parts add_parts normalized_part regex_match list_beq
found = refl

resolve_example : Resolved request_parts [] post_tree
resolve_example = resolve request_parts [] post_tree found

match_route-AreValues_example : AreValues (match_route request [] (record { root = post_tree })).1
match_route-AreValues_example = match_route-AreValues request [] (record { root = post_tree }) tt

a_value : regex_match (bytes "a") param_pattern ≡ true
unfolding regex_match
a_value = refl

b-ne-c : bytes "b" ≢ bytes "c"
b-ne-c e = ground arith

no_backtracking_example :
    (match_parts (bytes "a" ∷ bytes "c" ∷ []) [] (
        add_parts
          (bytes "{x}" ∷ bytes "c" ∷ [])
          2
          20
          (add_parts (bytes "a" ∷ bytes "b" ∷ []) 1 10 (new_node {H = ℕ})))
      ≡ (no_match, []))
    × (match_parts
          (bytes "a" ∷ bytes "c" ∷ [])
          []
          (add_parts (bytes "{x}" ∷ bytes "c" ∷ []) 2 20 (new_node {H = ℕ}))
        ≡ (
          record { executor = some (some 20); key = some 2 },
          insert (name_of (bytes "{x}")) (bytes "a") [],
        ))
no_backtracking_example =
    no_backtracking 1 2 10 20 (bytes "a") (bytes "b") (bytes "c") (bytes "{x}") refl refl refl refl
      a_value b-ne-c []

abbrev two_routes : List (Added ℕ)
two_routes = (6, bytes "/post/new", 8) ∷ (5, post_path, 7) ∷ []

abbrev two_routes_reordered : List (Added ℕ)
two_routes_reordered = (5, post_path, 7) ∷ (6, bytes "/post/new", 8) ∷ []

new-ne-braces : shape_of (bytes "/post/new") ≢ shape_of post_path
unfolding split normalized_part
new-ne-braces e = ground arith

match_route-add_routes_example : match_route request [] (add_routes two_routes) ≡ (
  match_view (split b'/' request) (table (rows two_routes)),
  captured_view (split b'/' request) (table (rows two_routes)) (naming_of (ways two_routes)) [],
)
match_route-add_routes_example =
    match_route-add_routes two_routes request [] (omega arith, (omega arith, tt)) (omega arith)

new_is_valid : is_valid_route (bytes "/post/new") ≡ true
unfolding is_valid_route route_char
new_is_valid = refl

-- The value is found under the name of the route's parameter.
captured_of_two :
    captured_view (split b'/' request) (table (rows two_routes)) (naming_of (ways two_routes)) []
    ≡ insert (bytes "id") (bytes "42") []
unfolding captured_view split normalized_part list_beq is_valid_route regex_match route_char substr
captured_of_two = refl

-- The request for a value goes to the parameter, the one for the name to the literal.
chosen_of_two :
    (match_view (split b'/' request) (table (rows two_routes))
      ≡ record { executor = some (some 7); key = some 5 })
    × (match_view (split b'/' (bytes "/post/new")) (table (rows two_routes))
        ≡ record { executor = some (some 8); key = some 6 })
unfolding match_view split normalized_part list_beq is_valid_route regex_match route_char
chosen_of_two = (refl, refl)

match_route-Reordered_example :
    (match_route request [] (add_routes two_routes)).0
    ≡ (match_route request [] (add_routes two_routes_reordered)).0
match_route-Reordered_example =
    match_route-Reordered two_routes two_routes_reordered request [] []
      (omega arith, (omega arith, tt)) (omega arith)
      (swap (6, bytes "/post/new", 8) (5, post_path, 7) [] new-ne-braces)

printed :
    print_router_tree (record { root = post_tree })
    ≡ bytes "Router Tree"
      ++ 10 ∷ 10 ∷ bytes "Route Root:"
      ++ 10 ∷ bytes "  post"
      ++ 10 ∷ bytes "    {} (param: id)"
      ++ 10 ∷ []
unfolding print_router_tree print_node add_parts normalized_part list_beq
printed = refl
