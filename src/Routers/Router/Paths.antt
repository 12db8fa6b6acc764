-- ===== src/Routers/Router/Paths.antt =====
-- `AddRoute` and `MatchRoute` of src/piconaut/routers/router.cc on whole paths.
use piconaut.Prelude.{
  ℕ, ◌≤◌, Str, bytes, length, true, false, Option, none, some, List, [], ◌∷◌, ◌++◌, Map, ◌≡◌, refl,
  ◌∙◌, sym, ap, arith, All, All-append, append_assoc, append-nil, nat_eq, list_eq,
}
use piconaut.Errors.{Error, invalid_argument}
use piconaut.Utils.Strings.{npos, split_each, remove_spaces_ref, is_space}
use piconaut.Utils.Strings.Split.{split, push_head, split-IsNonempty, IsNonempty}
use piconaut.Utils.Strings.Splitting.{fold_parts, split_string-eq-split, split_each-eq-fold}
use piconaut.Utils.Strings.Cleaning.{Spaceless, remove_spaces_ref_of_Spaceless}
use piconaut.Routers.Pattern.{route_char, is_valid_route}
use piconaut.Routers.Pattern.Segments.{IsSegment, render}
use piconaut.Routers.Pattern.Braces.{is_valid_route_iff}
use piconaut.Routers.Router.{
  Router, at_least_one, endpoint_parts, add_parts, add_route, match_parts, match_route,
}
use piconaut.Routers.Router.Matching.{Chosen, captured, match-add_parts}

module _ (P : ℕ → Type 0) (d : ℕ) where
  push_head-All :
      (c : ℕ) (parts : List Str) → P c → All (All P) parts → All (All P) (push_head c parts)
  push_head-All c [] p h = ((p, tt), tt)
  push_head-All c (part ∷ parts) p (q, h) = ((p, q), h)

  split-All : (s : Str) → All P s → All (All P) (split d s)
  unfolding split
  split-All [] h = (tt, tt)
  split-All (c ∷ s) (p, h) = ground (arith, split-All s h, push_head-All c (split d s) p)

route_char-no_space : (c : ℕ) → route_char c ≡ true → is_space c ≡ false
unfolding route_char
route_char-no_space c h = ground arith

chars-Spaceless : (s : Str) → All (λ c. route_char c ≡ true) s → Spaceless s
chars-Spaceless [] h = tt
chars-Spaceless (c ∷ s) (p, h) = (route_char-no_space c p, chars-Spaceless s h)

segment-Spaceless : (seg : Str) → IsSegment seg → Spaceless seg
segment-Spaceless [] h = absurd h
segment-Spaceless (c ∷ seg) h = chars-Spaceless (c ∷ seg) h

render-Spaceless : (segs : List Str) → All IsSegment segs → Spaceless (render segs)
render-Spaceless [] h = tt
render-Spaceless (seg ∷ segs) (p, h) = (
  refl,
  All-append (λ c. is_space c ≡ false) seg (render segs) (segment-Spaceless seg p)
      (render-Spaceless segs h),
)

-- A valid route has no spaces, so its parts are not changed by the cleaning.
valid-Spaceless : (path : Str) → is_valid_route path ≡ true → Spaceless path
valid-Spaceless path h =
    let (segs, good, same) = ((is_valid_route_iff path).0 h).0 in
    rw same (render-Spaceless segs good)

abbrev collect : Str → List Str → List Str
collect part parts = parts ++ remove_spaces_ref part ∷ []

collect_parts :
    (acc parts : List Str) → All Spaceless parts → fold_parts collect acc parts ≡ acc ++ parts
collect_parts acc [] h = sym (append-nil acc)
collect_parts acc (part ∷ parts) (p, h) =
    ap (λ s. fold_parts collect (acc ++ s ∷ []) parts) (remove_spaces_ref_of_Spaceless part p)
    ∙ collect_parts (acc ++ part ∷ []) parts h
    ∙ append_assoc acc (part ∷ []) parts

at_least_one-split : (d : ℕ) (s : Str) → at_least_one (split d s) ≡ split d s
at_least_one-split d s = one (split d s) (split-IsNonempty d s)
  where
    one : (parts : List Str) → IsNonempty parts → at_least_one parts ≡ parts
    one [] h = absurd h
    one (part ∷ parts) h = refl

module _ (path : Str) (fits : length path ≤ npos) (valid : is_valid_route path ≡ true) where
  -- For a valid path no longer than npos, the parts that AddRoute makes with the callback that
  -- removes spaces are the parts of the structural split at the slash, so that AddRoute and
  -- MatchRoute cut a path the same way.
  pub endpoint_parts-eq-split : endpoint_parts path ≡ split b'/' path
  endpoint_parts-eq-split =
      unfold_parts
      ∙ ap at_least_one (
          split_each-eq-fold path b'/' fits collect []
          ∙ ap (fold_parts collect []) (split_string-eq-split path b'/' fits)
          ∙ collect_parts [] (split b'/' path)
              (split-All (λ c. is_space c ≡ false) b'/' path (valid-Spaceless path valid)))
      ∙ at_least_one-split b'/' path
    where
      unfold_parts : endpoint_parts path ≡ at_least_one (split_each path b'/' collect [])
      unfold_parts = unfold endpoint_parts in refl

  pub add_route_valid :
      {H : Type 0} (k : ℕ) (h : H) (router : Router H)
      → add_route k path h router
        ≡ (record { root = add_parts (split b'/' path) k h router.root }, none)
  add_route_valid {H} k h router =
      unfold_add
      ∙ ap (λ parts. (record { root = add_parts parts k h router.root }, none))
          endpoint_parts-eq-split
    where
      unfold_add :
          add_route k path h router
          ≡ (record { root = add_parts (endpoint_parts path) k h router.root }, none)
      unfold_add = unfold add_route in rw valid refl

pub match_route_lem :
    {H : Type 0} (path : Str) (params : Map Str Str) (router : Router H)
    → length path ≤ npos
    → match_route path params router ≡ match_parts (split b'/' path) params router.root
match_route_lem path params router fits =
    unfold match_route in
    ap (λ parts. match_parts parts params router.root) (split_string-eq-split path b'/' fits)

-- After add_route with a valid path, both path and request no longer than npos, a request whose
-- parts the route's parts take below the root (Chosen: a literal takes itself, a parameter takes a
-- value that matches the pattern where no static child has that name) is matched: match_route
-- returns the key and the handler of the route just added, whatever routes the router held before,
-- and params gains the parameters' values under their names.
pub match_route-add_route :
    {H : Type 0} (k : ℕ) (path : Str) (h : H) (router : Router H) (request : Str)
    (params : Map Str Str)
    → is_valid_route path ≡ true
    → length path ≤ npos
    → length request ≤ npos
    → Chosen (split b'/' path) (split b'/' request) router.root
    → match_route request params (add_route k path h router).0 ≡ (
      record { executor = some (some h); key = some k },
      captured (split b'/' path) (split b'/' request) params,
    )
match_route-add_route k path h router request params valid fits fits' chosen =
    ap (λ (r : Router _ × Option Error). match_route request params r.0)
      (add_route_valid path fits valid k h router)
    ∙ match_route_lem request params _ fits'
    ∙ match-add_parts k h (split b'/' path) (split b'/' request) params router.root chosen

-- An invalid path is refused with its exception, and the tree is as it was.
pub add_route_invalid :
    {H : Type 0} (k : ℕ) (path : Str) (h : H) (router : Router H)
    → is_valid_route path ≡ false
    → add_route k path h router
      ≡ (router, some (invalid_argument (bytes "Invalid route pattern: " ++ path)))
unfolding add_route
add_route_invalid k path h router invalid = rw invalid refl
