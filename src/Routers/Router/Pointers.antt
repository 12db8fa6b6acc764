-- ===== src/Routers/Router/Pointers.antt =====
-- The two pointers of `RouterMatchResult` in src/piconaut/routers/router.cc: they point into the tree,
-- and what they point to is read later. The pointers are the names on the way to their node, since a
-- node that is in the tree stays there.
use piconaut.Prelude.{
  ℕ, Str, false, Option, none, some, List, [], ◌∷◌, Map, insert, ◌≡◌, refl, ◌∙◌, ap, Bool-cases,
  Option-cases, inl, inr, nat_eq, list_eq,
}
use piconaut.Routers.Node.{RouterNode, param_regex, param_name, children, find_child}
use piconaut.Routers.Router.{
  RouterMatchResult, braces, static_child, param_child, regex_match, match_parts, is_empty,
}
use piconaut.Routers.Router.Walk.{walk, route_at}
use piconaut.Routers.Router.Matching.{
  match-static_child, match-param_child, match-no_child, match-mismatch,
}
use piconaut.Routers.Router.Resolution.{child_of_static, child_of_parameter, walk_step, not_empty}

module _ {H : Type 0} where
  -- The way that the loop of `MatchRoute` goes.
  unfoldable pub way_of_match : List Str → RouterNode H → List Str
  way_of_match [] n = []
  way_of_match (q ∷ qs) n = elim (static_child q n) [
    | some next ↦ q ∷ way_of_match qs next
    | none ↦ elim (param_child n) [ none ↦ [] | some next ↦ braces ∷ way_of_match qs next ]
  ]

  -- The pointers to a node with this key and handler.
  abbrev pub pointed : ℕ × Option H → RouterMatchResult H
  pointed (k, h) = record { executor = some h; key = some k }

  route_at_step :
      (name : Str) (names : List Str) (n m : RouterNode H)
      → find_child name (children n) ≡ some m
      → route_at names m ≡ route_at (name ∷ names) n
  unfolding route_at
  route_at_step name names n m e = rw (walk_step name names n m e) refl

  -- Read at once, the pointers give what match_parts gives.
  pub match_parts-pointed :
      (qs : List Str) (params : Map Str Str) (n : RouterNode H)
      → is_empty (match_parts qs params n).0 ≡ false
      → (match_parts qs params n).0 ≡ pointed (route_at (way_of_match qs n) n)
  unfolding way_of_match
  match_parts-pointed [] params n h = unfold match_parts route_at walk in refl
  match_parts-pointed (q ∷ qs) params n h = elim (Option-cases (static_child q n)) [
    | inr (m, e) ↦
        let step = match-static_child q qs params n m e in
        ap (λ (x : RouterMatchResult H × Map Str Str). x.0) step
        ∙ match_parts-pointed qs params m (rw step at h)
        ∙ ap pointed (route_at_step q (way_of_match qs m) n m (child_of_static _ m e))
        ∙ rw (e, way_of_match) refl
    | inl e ↦ elim (Option-cases (param_child n)) [
      | inl e' ↦ absurd (not_empty (match-no_child q qs params n e e') h)
      | inr (m, e') ↦ elim (Bool-cases (regex_match q (param_regex m))) [
        | inl v ↦
            let step = match-param_child q qs params n m e e' v in
            ap (λ (x : RouterMatchResult H × Map Str Str). x.0) step
            ∙ match_parts-pointed qs (insert (param_name m) q params) m (rw step at h)
            ∙ ap pointed (route_at_step braces (way_of_match qs m) n m (child_of_parameter _ m e'))
            ∙ rw (e, e', way_of_match) refl
        | inr v ↦ absurd (not_empty (match-mismatch q qs params n m e e' v) h)
      ]
    ]
  ]
