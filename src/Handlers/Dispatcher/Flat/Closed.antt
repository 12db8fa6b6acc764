-- ===== src/Handlers/Dispatcher/Flat/Closed.antt =====
-- Registrations under which `__HandleImpl` of
-- src/piconaut/handlers/global_dispatcher_handler.h throws nothing.
use mathlib.Core.Path.{subst}
use piconaut.Prelude.{
  ℕ, suc, ◌≤◌, Str, length, Bool, Bool-cases, true, false, not, ◌&&◌, ◌||◌, Option, none, some,
  or_old, List, [], ◌∷◌, ◌++◌, append_assoc, Map, All, ◌≡◌, ◌≢◌, refl, ◌∙◌, sym, ap, arith, inl,
  inr, nat_eq, list_eq, str_iff, ◌==◌,
}
use piconaut.Utils.Strings.{npos}
use piconaut.Utils.Strings.Split.{split, IsNonempty, split-IsNonempty}
use piconaut.Routers.Node.{param_pattern}
use piconaut.Routers.Router.{RouterMatchResult, no_match, braces, regex_match}
use piconaut.Routers.Router.Table.{Entry, View, Row, table, begins, is_present, match_view}
use piconaut.Routers.Router.Table.Registered.{rows}
use piconaut.Http.Request.{H2oReq, get_path}
use piconaut.Http.Response.{Exchange, InlineFault}
use piconaut.Handlers.Dispatcher.{Outcome, thrown, Executor, dispatcher, handle_impl}
use piconaut.Errors.{Error}
use piconaut.Handlers.Dispatcher.Flat.{
  Registration, FitsPath, register_all, added, flat_view, first_with,
}
use piconaut.Handlers.Dispatcher.Flat.Answers.{outcome_of, handle_impl-register_all}

module _ {H : Type 0} where
  -- The names are those of a row.
  abbrev pub is_row : List Str → List (Row H) → Bool
  is_row names [] = false
  is_row names ((shape, k, h) ∷ rest) = names == shape || is_row names rest

  -- The names begin those of a row.
  abbrev pub is_way : List Str → List (Row H) → Bool
  is_way names [] = false
  is_way names ((shape, k, h) ∷ rest) = begins names shape || is_way names rest

-- What holds of each beginning of the names behind the first ones.
abbrev pub EachPrefix : (List Str → Type 0) → List Str → List Str → Type 0
EachPrefix P before [] = Unit
EachPrefix P before (name ∷ names) =
    P (before ++ name ∷ []) × EachPrefix P (before ++ name ∷ []) names

both_true : (a b : Bool) → (a && b) ≡ true → (a ≡ true) × (b ≡ true)
both_true true true e = (refl, refl)
both_true true false e = cc e
both_true false b e = cc e

prefix_of :
    (P : List Str → Type 0) (before shape : List Str) (name : Str) (names : List Str)
    → EachPrefix P before shape
    → begins (name ∷ names) shape ≡ true
    → P (before ++ name ∷ names)
prefix_of P before [] name names p b = cc b
prefix_of P before (x ∷ shape) name [] (p, ps) b =
    let same = (str_iff x name).0 (both_true (x == name) (begins [] shape) b).0 in
    subst (λ y. P (before ++ y ∷ [])) same p
prefix_of P before (x ∷ shape) name (other ∷ names) (p, ps) b =
    let (first, further) = both_true (x == name) (begins (other ∷ names) shape) b in
    let same = (str_iff x name).0 first in
    subst P
      (append_assoc before (x ∷ []) (other ∷ names) ∙ ap (λ y. before ++ y ∷ other ∷ names) same)
      (prefix_of P (before ++ x ∷ []) shape other names ps further)

module _ {H : Type 0} where
  -- Each way of two names or more to a row is a row itself.
  abbrev pub IsClosed : List (Row H) → Type 0
  IsClosed all =
      All
        (λ (row : Row H). EachPrefix (λ names. 2 ≤ length names → is_row names all ≡ true) [] row.0)
        all

  row-key :
      (names : List Str) (rest : List (Row H))
      → is_row names rest ≡ true
      → (k : ℕ) × (h : H) × (table rest names ≡ some (k, some h))
  row-key names [] e = cc e
  row-key names ((shape, k, h) ∷ rest) e = elim (Bool-cases (names == shape)) [
    | inl same ↦ (k, h, rw same refl)
    | inr other ↦
        let (k', h', at) = row-key names rest (rw other at e) in
        (
          k',
          h',
          rw other (elim (Bool-cases (begins names shape)) [
            | inl way ↦ rw (way, at) refl
            | inr off ↦ rw off at
          ]),
        )
  ]

  way_of_inner :
      (names : List Str) (rest : List (Row H)) (j : ℕ)
      → 2 ≤ length names
      → table rest names ≡ some (j, none)
      → is_way names rest ≡ true
  way_of_inner [] rest j long e = absurd (omega (arith, long))
  way_of_inner (name ∷ names) [] j long e = cc e
  way_of_inner (name ∷ names) ((shape, k, h) ∷ rest) j long e =
      elim (Bool-cases (name ∷ names == shape)) [
        | inl same ↦ cc (rw same at e)
        | inr other ↦ elim (Bool-cases (begins (name ∷ names) shape)) [
          | inl way ↦ rw way refl
          | inr off ↦ rw off (way_of_inner (name ∷ names) rest j long (rw (other, off) at e))
        ]
      ]

  -- A way to a row among all, which are closed, is a row among all.
  way-is_row :
      (all rest : List (Row H)) (names : List Str)
      → All
          (λ (row : Row H).
            EachPrefix (λ names'. 2 ≤ length names' → is_row names' all ≡ true) [] row.0)
          rest
      → 2 ≤ length names
      → is_way names rest ≡ true
      → is_row names all ≡ true
  way-is_row all [] names c long w = cc w
  way-is_row all ((shape, k, h) ∷ rest) [] c long w = absurd (omega (arith, long))
  way-is_row all ((shape, k, h) ∷ rest) (name ∷ names) (c, cs) long w =
      elim (Bool-cases (begins (name ∷ names) shape)) [
        | inl way ↦
            prefix_of (λ names'. 2 ≤ length names' → is_row names' all ≡ true) [] shape name names c
              way long
        | inr off ↦ way-is_row all rest (name ∷ names) cs long (rw off at w)
      ]

  pub closed-ne-inner :
      (all : List (Row H)) (names : List Str) (j : ℕ)
      → IsClosed all
      → 2 ≤ length names
      → table all names ≢ some (j, none)
  closed-ne-inner all names j c long e =
      let (k, h, at) =
        row-key names all (way-is_row all all names c long (way_of_inner names all j long e)) in
      cc (at, e)

  -- A way without a handler that is found stands in the view, as deep as the request.
  abbrev Inner : List Str → View H → Type 0
  Inner qs v =
      (names : List Str) × (j : ℕ) × (length names ≡ length qs) × (v names ≡ some (j, none))

  cons-Inner :
      (name q : Str) (qs : List Str) (v : View H)
      → Inner qs (λ names. v (name ∷ names))
      → Inner (q ∷ qs) v
  cons-Inner name q qs v (names, j, deep, at) = (name ∷ names, j, ap suc deep, at)

  match_view-Inner :
      (qs : List Str) (v : View H) → (match_view qs v).executor ≡ some none → Inner qs v
  unfolding match_view
  match_view-Inner [] v e = here (v []) refl e
    where
      here :
          (o : Option (Entry H))
          → v [] ≡ o
          → (elim o as (λ _. RouterMatchResult H) [
            | none ↦ no_match
            | some (k, h) ↦ record { executor = some h; key = some k }
          ]).executor
            ≡ some none
          → Inner [] v
      here none at e' = cc e'
      here (some (j, none)) at e' = ([], j, refl, at)
      here (some (j, some h)) at e' = cc e'
  match_view-Inner (q ∷ qs) v e = elim (Bool-cases (is_present (v (q ∷ [])) && not (q == braces))) [
    | inl a ↦ cons-Inner q q qs v (match_view-Inner qs (λ names. v (q ∷ names)) (rw a at e))
    | inr a ↦ elim (Bool-cases (is_present (v (braces ∷ [])) && regex_match q param_pattern)) [
      | inl b ↦
          cons-Inner braces q qs v
            (match_view-Inner qs (λ names. v (braces ∷ names)) (rw (a, b) at e))
      | inr b ↦ cc (rw (a, b) at e)
    ]
  ]

two_parts : (s : Str) → 2 ≤ length (split b'/' (b'/' ∷ s))
unfolding split
two_parts s = more (split b'/' s) (split-IsNonempty b'/' s)
  where
    more : (parts : List Str) → IsNonempty parts → 2 ≤ suc (length parts)
    more [] h = absurd h
    more (part ∷ parts) h = omega arith

module _ {Hd : Type 0} (hasher : Str → ℕ)
    (handle_request : Hd → H2oReq → Map Str Str → Exchange → Outcome) (fault : InlineFault)
    (registrations : List (Registration Hd)) (req : H2oReq) (r : Exchange) where
  outcome-thrown :
      (fn : Option (Option Executor)) (key : Option ℕ) (params : Map Str Str) (e : Error)
      → ((h : Hd) (params' : Map Str Str) → handle_request h req params' r ≢ thrown e)
      → outcome_of hasher handle_request fault registrations req r fn key params ≡ thrown e
      → fn ≡ some none
  unfolding dispatcher
  outcome-thrown none key params e safe eq = cc eq
  outcome-thrown (some none) key params e safe eq = refl
  outcome-thrown (some (some fn)) none params e safe eq = cc eq
  outcome-thrown (some (some fn)) (some k) params e safe eq =
      absurd (called (or_old (first_with hasher k registrations) none) eq)
    where
      called : (o : Option Hd) → dispatcher handle_request fault req o params r ≢ thrown e
      called none eq' = cc eq'
      called (some h) eq' = safe h params eq'

  -- Let a dispatcher come about by any calls of register_route_handler with paths no longer than
  -- npos, and let each way of two parts or more to a valid path be a valid path that has been
  -- registered too (IsClosed, where all parameters count as one name). Then handle_impl on a
  -- request path that begins with a slash and is no longer than npos throws no exception that no
  -- handler throws for this request.
  pub handle_impl-ne-thrown :
      (rest : Str) (e : Error)
      → All FitsPath registrations
      → IsClosed (rows (added hasher registrations))
      → get_path req ≡ b'/' ∷ rest
      → length (get_path req) ≤ npos
      → ((h : Hd) (params : Map Str Str) → handle_request h req params r ≢ thrown e)
      → handle_impl handle_request fault (register_all hasher registrations) req r ≢ thrown e
  handle_impl-ne-thrown rest e f closed slash fits safe eq =
      let all = rows (added hasher registrations) in
      let flat = handle_impl-register_all hasher handle_request fault registrations req r f fits in
      let (names, j, deep, at) =
        match_view-Inner (split b'/' (get_path req)) (flat_view hasher registrations)
          (outcome-thrown _ _ _ e safe (sym flat ∙ eq)) in
      closed-ne-inner all names j closed (rw deep (rw slash (two_parts rest))) at
