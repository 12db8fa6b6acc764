-- ===== src/Routers/Router.antt =====
-- src/piconaut/routers/router.cc and router.h. A method returns the new router, and the exception
-- that it throws; the mutex is left out, since a call is one step.
pub mod Walk
pub mod Shape
pub mod Table
pub mod Printing
pub mod Added
pub mod Matching
pub mod Captures
pub mod Resolution
pub mod Pointers
pub mod Fresh
pub mod Overlaps
pub mod Paths
use piconaut.Prelude.{
  ℕ, ◌-◌, Str, bytes, length, Bool, true, false, not, ◌&&◌, ◌||◌, Option, none, some, or_old, List,
  [], ◌∷◌, ◌++◌, Map, insert, nat_eq, list_eq, ◌==◌, if◌then◌else◌,
}
use piconaut.Errors.{Error, invalid_argument}
use piconaut.Utils.Strings.{substr, split_string, split_each, remove_spaces_ref}
use piconaut.Routers.Pattern.{is_alnum, is_valid_route}
use piconaut.Routers.Node.{
  NodeType, static, parameter, ParamRegex, unset, param_pattern, RouterNode, node, children, type,
  param_name, param_regex, handler, key, with_children, new_node, find_child, put_child,
}

-- `front()` and `back()`. On an empty string `front()` is out of contract; the standard defines it as
-- `operator[](0)`, which is the terminator, and so a library without assertions returns it.
abbrev pub front : Str → ℕ
front [] = 0
front (c ∷ s) = c

abbrev pub back : Str → ℕ
back [] = 0
back (c ∷ []) = c
back (c ∷ d ∷ s) = back (d ∷ s)

abbrev pub is_param : Str → Bool
is_param part = front part == b'{' && back part == b'}'

abbrev pub braces : Str
braces = b'{' ∷ b'}' ∷ []

-- The common key of the parameters.
unfoldable pub normalized_part : Str → Str
normalized_part part = if is_param part then braces else part

-- [a-zA-Z0-9_-]
abbrev pub param_char : ℕ → Bool
param_char c = is_alnum c || c == b'_' || c == b'-'

abbrev pub all_param_chars : Str → Bool
all_param_chars [] = true
all_param_chars (c ∷ s) = param_char c && all_param_chars s

-- `std::regex_match(part, regex)`; the default-constructed one matches nothing
unfoldable pub regex_match : Str → ParamRegex → Bool
regex_match part unset = false
regex_match [] param_pattern = false
regex_match (c ∷ s) param_pattern = all_param_chars (c ∷ s)

-- `!container.empty() ? container : {""}`
abbrev pub at_least_one : List Str → List Str
at_least_one [] = [] ∷ []
at_least_one (part ∷ parts) = part ∷ parts

pub record Router (H : Type 0) : Type 0 where
  pub root : RouterNode H

-- The two pointers; the one to a handler may point to an empty function.
pub record RouterMatchResult (H : Type 0) : Type 0 where
  pub executor : Option (Option H)
  pub key : Option ℕ

-- What `endpoint_parts` holds: the parts of the path without their spaces.
unfoldable pub endpoint_parts : Str → List Str
unfolding split_each remove_spaces_ref
endpoint_parts path =
    at_least_one (split_each path b'/' (λ part parts. parts ++ remove_spaces_ref part ∷ []) [])

abbrev pub is_static : NodeType → Bool
is_static static = true
is_static parameter = false

module _ {H : Type 0} where
  abbrev pub new_router : Router H
  new_router = record { root = new_node }

  unfoldable pub is_empty : RouterMatchResult H → Bool
  is_empty r = elim r.executor [ none ↦ true | some fn ↦ false ]

  -- What the loop of `AddRoute` writes to the node that it has gone to.
  unfoldable pub mark : Str → RouterNode H → RouterNode H
  unfolding normalized_part substr
  mark part (node c h t p r k) =
      if normalized_part part == braces
      then node c h parameter (substr part 1 (length part - 2)) param_pattern k
      else node c h static p r k

  -- `node->key = key; node->handler = handler`
  abbrev pub set_endpoint : ℕ → H → RouterNode H → RouterNode H
  set_endpoint k' h' (node c h t p r k) = node c (some h') t p r k'

  -- The loop of `AddRoute` below a node: find or make the child, mark it, go on there.
  unfoldable pub add_parts : List Str → ℕ → H → RouterNode H → RouterNode H
  unfolding normalized_part find_child put_child mark
  add_parts [] k h n = set_endpoint k h n
  add_parts (part ∷ parts) k h n =
      let name = normalized_part part in
      let next = or_old (find_child name (children n)) new_node in
      with_children (put_child name (add_parts parts k h (mark part next)) (children n)) n

  unfoldable pub add_route : ℕ → Str → H → Router H → Router H × Option Error
  unfolding is_valid_route endpoint_parts add_parts
  add_route k path h router =
      if not (is_valid_route path)
      then (router, some (invalid_argument (bytes "Invalid route pattern: " ++ path)))
      else (record { root = add_parts (endpoint_parts path) k h router.root }, none)

  abbrev pub if_static : Option (RouterNode H) → Option (RouterNode H)
  if_static none = none
  if_static (some n) = if is_static (type n) then some n else none

  abbrev pub if_parameter : Option (RouterNode H) → Option (RouterNode H)
  if_parameter none = none
  if_parameter (some n) = if is_static (type n) then none else some n

  -- `it`, if it is there and static
  abbrev pub static_child : Str → RouterNode H → Option (RouterNode H)
  static_child part n = if_static (find_child part (children n))

  -- `param_it`, if it is there and a parameter
  abbrev pub param_child : RouterNode H → Option (RouterNode H)
  param_child n = if_parameter (find_child braces (children n))

  abbrev pub no_match : RouterMatchResult H
  no_match = record { executor = none; key = none }

  abbrev pub matched : RouterNode H → RouterMatchResult H
  matched n = record { executor = some (handler n); key = some (key n) }

  -- The loop of `MatchRoute` below a node.
  unfoldable pub match_parts :
      List Str → Map Str Str → RouterNode H → RouterMatchResult H × Map Str Str
  unfolding find_child regex_match
  match_parts [] params n = (matched n, params)
  match_parts (part ∷ parts) params n = elim (static_child part n) [
    | some next ↦ match_parts parts params next
    | none ↦ elim (param_child n) [
      | none ↦ (no_match, params)
      | some next ↦ elim (regex_match part (param_regex next)) [
        | false ↦ (no_match, params)
        | true ↦ match_parts parts (insert (param_name next) part params) next
      ]
    ]
  ]

  unfoldable pub match_route : Str → Map Str Str → Router H → RouterMatchResult H × Map Str Str
  unfolding split_string match_parts
  match_route path params router = match_parts (split_string path b'/') params router.root
