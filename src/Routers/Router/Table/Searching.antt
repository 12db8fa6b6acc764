-- ===== src/Routers/Router/Table/Searching.antt =====
-- `MatchRoute` of src/piconaut/routers/router.cc on the view of the tree.
use mathlib.Core.Path.{fun_ext}
use piconaut.Prelude.{
  Str, true, false, Bool-cases, inl, inr, not, ◌&&◌, Option, none, some, List, [], ◌∷◌, Map, insert,
  ◌≡◌, refl, sym, ap, ◌∙◌, nat_eq, list_eq, str_iff, ◌==◌, if◌then◌else◌,
}
use piconaut.Routers.Node.{param_pattern, param_name, RouterNode, children, param_regex, find_child}
use piconaut.Routers.Router.{
  RouterMatchResult, braces, if_static, if_parameter, static_child, param_child, regex_match,
  no_match, match_parts,
}
use piconaut.Routers.Router.Walk.{walk}
use piconaut.Routers.Router.Shape.{IsShaped, IsShapedAt, child-IsShapedAt}
use piconaut.Routers.Router.Table.Naming.{
  naming, naming_here, naming_below, naming-child, captured_view,
}
use piconaut.Routers.Router.Table.{is_present, view, match_view, view_below, view-cons}

module _ {H : Type 0} where
  view_below_here : (o : Option (RouterNode H)) → is_present (view_below [] o) ≡ is_present o
  unfolding view walk
  view_below_here none = refl
  view_below_here (some n) = refl

  module _ (q : Str) (qs : List Str) (params : Map Str Str) where
    -- What the loop does at the parameter of a node, and at a node.
    abbrev after_param : Option (RouterNode H) → RouterMatchResult H × Map Str Str
    after_param none = (no_match, params)
    after_param (some next) = elim (regex_match q (param_regex next)) [
      | false ↦ (no_match, params)
      | true ↦ match_parts qs (insert (param_name next) q params) next
    ]

    abbrev after_static :
        Option (RouterNode H) → Option (RouterNode H) → RouterMatchResult H × Map Str Str
    after_static none b = after_param b
    after_static (some next) b = match_parts qs params next

    match_parts_cons :
        (n : RouterNode H)
        → match_parts (q ∷ qs) params n ≡ after_static (static_child q n) (param_child n)
    unfolding match_parts
    match_parts_cons n =
        elim (static_child q n)
          as (λ o.
            elim o [ some next ↦ match_parts qs params next | none ↦ after_param (param_child n) ]
            ≡ after_static o (param_child n)) [ none ↦ refl | some m ↦ refl ]

    -- Where the names of the part and of the parameters lead to, and what is captured there.
    abbrev chosen_view : Option (RouterNode H) → Option (RouterNode H) → RouterMatchResult H
    chosen_view o b =
        if is_present o && not (q == braces)
        then match_view qs (λ names. view_below names o)
        else if is_present b && regex_match q param_pattern
        then match_view qs (λ names. view_below names b)
        else no_match

    abbrev chosen_params : Option (RouterNode H) → Option (RouterNode H) → Map Str Str
    chosen_params o b =
        if is_present o && not (q == braces)
        then captured_view qs (λ names. view_below names o) (λ names. naming_below names o) params
        else if is_present b && regex_match q param_pattern
        then captured_view qs (λ names. view_below names b) (λ names. naming_below names b)
            (insert (naming_below [] b) q params)
        else params

    abbrev chosen :
        Option (RouterNode H) → Option (RouterNode H) → RouterMatchResult H × Map Str Str
    chosen o b = (chosen_view o b, chosen_params o b)

    module _ (n : RouterNode H) where
      match_view_cons :
          match_view (q ∷ qs) (view n)
          ≡ chosen_view (find_child q (children n)) (find_child braces (children n))
      unfolding match_view
      match_view_cons =
          rw
            (
              view-cons q [] n,
              view-cons braces [] n,
              fun_ext (λ names. view-cons q names n),
              fun_ext (λ names. view-cons braces names n),
              view_below_here (find_child q (children n)),
              view_below_here (find_child braces (children n)),
            )
            refl

      captured_view_cons :
          captured_view (q ∷ qs) (view n) (naming n) params
          ≡ chosen_params (find_child q (children n)) (find_child braces (children n))
      unfolding captured_view
      captured_view_cons =
          rw
            (
              view-cons q [] n,
              view-cons braces [] n,
              fun_ext (λ names. view-cons q names n),
              fun_ext (λ names. view-cons braces names n),
              view_below_here (find_child q (children n)),
              view_below_here (find_child braces (children n)),
              naming-child braces [] n,
              fun_ext (λ names. naming-child q names n),
              fun_ext (λ names. naming-child braces names n),
            )
            refl

    -- A search on the views of a tree.
    abbrev found : RouterNode H → Map Str Str → RouterMatchResult H × Map Str Str
    found n others = (match_view qs (view n), captured_view qs (view n) (naming n) others)

    chosen_of_param :
        (m : RouterNode H)
        → (if regex_match q param_pattern
            then found m (insert (param_name m) q params)
            else (no_match, params))
          ≡ chosen none (some m)
    chosen_of_param m = elim (Bool-cases (regex_match q param_pattern)) [
      | inl e ↦ rw (e, naming_here) refl
      | inr e ↦ rw e refl
    ]

    module _
        (ih : (others : Map Str Str) (n : RouterNode H)
          → IsShaped n
          → match_parts qs others n ≡ found n others) where
      after_param_patterned :
          (m : RouterNode H)
          → param_regex m ≡ param_pattern
          → IsShaped m
          → after_param (some m) ≡ (
              if regex_match q param_pattern
              then found m (insert (param_name m) q params)
              else (no_match, params))
      after_param_patterned m same s =
          ap
            (λ r. elim (regex_match q r) as (λ _. RouterMatchResult H × Map Str Str) [
              | false ↦ (no_match, params)
              | true ↦ match_parts qs (insert (param_name m) q params) m
            ])
            same
          ∙ elim (Bool-cases (regex_match q param_pattern)) [
            | inl e ↦ rw e (ih (insert (param_name m) q params) m s)
            | inr e ↦ rw e refl
          ]

      after_param_lem :
          (b : Option (RouterNode H))
          → IsShapedAt braces b
          → after_param (if_parameter b) ≡ chosen none b
      after_param_lem none j = refl
      after_param_lem (some m) j =
          let (kind, same) = j.0.as_parameter ((str_iff braces braces).1 refl) in
          rw kind (after_param_patterned m same j.1 ∙ chosen_of_param m)

      after_static_lem :
          (o b : Option (RouterNode H))
          → IsShapedAt q o
          → IsShapedAt braces b
          → after_static (if_static o) (if_parameter b) ≡ chosen o b
      after_static_lem none b i j = after_param_lem b j
      after_static_lem (some m) b i j = elim (Bool-cases (q == braces)) [
        | inl e ↦ rw (e, (i.0.as_parameter e).0) (after_param_lem b j)
        | inr e ↦ rw (e, i.0.as_static e) (ih params m i.1)
      ]

  -- The tree's search, on the view and the naming of a well-formed tree.
  pub match_parts-eq-match_view :
      (qs : List Str) (params : Map Str Str) (n : RouterNode H)
      → IsShaped n
      → match_parts qs params n
        ≡ (match_view qs (view n), captured_view qs (view n) (naming n) params)
  match_parts-eq-match_view [] params n s =
      unfold match_parts match_view captured_view view walk in refl
  match_parts-eq-match_view (q ∷ qs) params n s =
      match_parts_cons q qs params n
      ∙ after_static_lem q qs params (match_parts-eq-match_view qs) (find_child q (children n))
          (find_child braces (children n)) (child-IsShapedAt q n s) (child-IsShapedAt braces n s)
      ∙ λ i. (sym (match_view_cons q qs params n) i, sym (captured_view_cons q qs params n) i)
