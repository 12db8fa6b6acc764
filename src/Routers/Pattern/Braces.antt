-- ===== src/Routers/Pattern/Braces.antt =====
-- What the scan of the braces accepts, and `is_valid_route` against the two descriptions.
use piconaut.Prelude.{
  ℕ, Str, Bool, true, false, List, [], ◌∷◌, ◌++◌, ◌≡◌, refl, ◌≢◌, ◌↔◌, ◌∙◌, sym, ap, arith, All,
  Bool-cases, nat_eq, nat_beq_iff, ◌==◌, inl, inr, append-nil,
}
use piconaut.Routers.Pattern.{next_is, scan_braces, is_valid_route}
use piconaut.Routers.Pattern.Segments.{Segments, route_regex_iff}

abbrev pub Plain : Str → Type 0
Plain = All (λ c. (c ≢ b'{') × (c ≢ b'}'))

-- A text, and then parameters in braces with the text behind each.
abbrev pub assemble : Str → List (Str × Str) → Str
assemble text [] = text
assemble text ((name, next) ∷ params) = text ++ (b'{' ∷ (name ++ b'}' ∷ assemble next params))

-- A text stands before another parameter only if it is not empty.
abbrev pub Separates : Str → List (Str × Str) → Type 0
Separates text [] = Unit
Separates [] (param ∷ params) = ⊥
Separates (c ∷ text) (param ∷ params) = Unit

abbrev pub AreSeparate : List (Str × Str) → Type 0
AreSeparate [] = Unit
AreSeparate ((name, text) ∷ params) = Separates text params × AreSeparate params

abbrev pub ArePlain : List (Str × Str) → Type 0
ArePlain = All (λ p. Plain p.0 × Plain p.1)

-- Parameters in braces that neither nest nor touch.
pub record HasSeparateBraces (s : Str) : Type 0 where
  pub text : Str
  pub params : List (Str × Str)
  pub plain : Plain text × ArePlain params
  pub separate : AreSeparate params
  pub same : s ≡ assemble text params

-- What is left of such a string inside a parameter.
record InParam (s : Str) : Type 0 where
  pub name : Str
  pub text : Str
  pub params : List (Str × Str)
  pub plain : Plain name × (Plain text × ArePlain params)
  pub separate : Separates text params × AreSeparate params
  pub same : s ≡ name ++ b'}' ∷ assemble text params

abbrev IsPlainByte : ℕ → Type 0
IsPlainByte c = (c ≢ b'{') × (c ≢ b'}')

outside_plain : (c : ℕ) (s : Str) → IsPlainByte c → HasSeparateBraces s → HasSeparateBraces (c ∷ s)
outside_plain c s p r = record {
  text = c ∷ r.text;
  params = r.params;
  plain = ((p, r.plain.0), r.plain.1);
  separate = r.separate;
  same = assemble_cons r.text r.params r.same;
}
  where
    assemble_cons :
        (text : Str) (params : List (Str × Str))
        → s ≡ assemble text params
        → c ∷ s ≡ assemble (c ∷ text) params
    assemble_cons text [] e = ap (λ t. c ∷ t) e
    assemble_cons text (param ∷ params) e = ap (λ t. c ∷ t) e

inside_plain : (c : ℕ) (s : Str) → IsPlainByte c → InParam s → InParam (c ∷ s)
inside_plain c s p r = record {
  name = c ∷ r.name;
  text = r.text;
  params = r.params;
  plain = ((p, r.plain.0), r.plain.1);
  separate = r.separate;
  same = ap (λ t. c ∷ t) r.same;
}

opening : (s : Str) → InParam s → HasSeparateBraces (b'{' ∷ s)
opening s r = record {
  text = [];
  params = (r.name, r.text) ∷ r.params;
  plain = (tt, ((r.plain.0, r.plain.1.0), r.plain.1.1));
  separate = r.separate;
  same = ap (λ t. b'{' ∷ t) r.same;
}

-- No brace opens right behind, so a text stands before the next parameter.
closing-Separates :
    (s text : Str) (params : List (Str × Str))
    → next_is b'{' s ≡ false
    → s ≡ assemble text params
    → Separates text params
closing-Separates s text [] n e = tt
closing-Separates s [] (param ∷ params) n e = absurd (ground (arith, e))
closing-Separates s (c ∷ text) (param ∷ params) n e = tt

closing : (s : Str) → next_is b'{' s ≡ false → HasSeparateBraces s → InParam (b'}' ∷ s)
closing s n r = record {
  name = [];
  text = r.text;
  params = r.params;
  plain = (tt, r.plain);
  separate = (closing-Separates s r.text r.params n r.same, r.separate);
  same = ap (λ t. b'}' ∷ t) r.same;
}

-- What a scan that succeeds has seen, by what is left.
scan_outside :
    (c : ℕ) (s : Str)
    → (scan_braces false s ≡ true → HasSeparateBraces s)
    → (scan_braces true s ≡ true → InParam s)
    → scan_braces false (c ∷ s) ≡ true
    → HasSeparateBraces (c ∷ s)
unfolding scan_braces
scan_outside c s o i h = elim (Bool-cases (c == b'{')) [
  | inl e ↦ rw ((nat_beq_iff c b'{').0 e) (opening s (i (rw e at h)))
  | inr n ↦ elim (Bool-cases (c == b'}')) [
    | inl e ↦ absurd (ground arith)
    | inr m ↦ outside_plain c s (ground arith, ground arith) (o (ground arith))
  ]
]

scan_inside :
    (c : ℕ) (s : Str)
    → (scan_braces false s ≡ true → HasSeparateBraces s)
    → (scan_braces true s ≡ true → InParam s)
    → scan_braces true (c ∷ s) ≡ true
    → InParam (c ∷ s)
unfolding scan_braces
scan_inside c s o i h = elim (Bool-cases (c == b'{')) [
  | inl e ↦ absurd (ground arith)
  | inr n ↦ elim (Bool-cases (c == b'}')) [
    | inl e ↦ rw ((nat_beq_iff c b'}').0 e) (closing s (ground arith) (o (ground arith)))
    | inr m ↦ inside_plain c s (ground arith, ground arith) (i (ground arith))
  ]
]

scan_both :
    (s : Str)
    → (scan_braces false s ≡ true → HasSeparateBraces s) × (scan_braces true s ≡ true → InParam s)
scan_both [] =
    unfold scan_braces in
    (
      λ h. record { text = []; params = []; plain = (tt, tt); separate = tt; same = refl },
      λ h. absurd (ground arith),
    )
scan_both (c ∷ s) = let (o, i) = scan_both s in (scan_outside c s o i, scan_inside c s o i)

scan-Plain :
    (inside_param : Bool) (text s : Str)
    → Plain text
    → scan_braces inside_param (text ++ s) ≡ scan_braces inside_param s
unfolding scan_braces
scan-Plain b [] s h = refl
scan-Plain b (c ∷ text) s (p, h) = ground (arith, scan-Plain b text s h)

next_of_separate :
    (text : Str) (params : List (Str × Str))
    → Plain text
    → Separates text params
    → next_is b'{' (assemble text params) ≡ false
next_of_separate [] [] p h = refl
next_of_separate [] (param ∷ params) p h = absurd h
next_of_separate (c ∷ text) [] p h = ground arith
next_of_separate (c ∷ text) (param ∷ params) p h = ground arith

scan_braces_step :
    (text name next : Str) (params : List (Str × Str))
    → Plain text
    → Plain name
    → next_is b'{' (assemble next params) ≡ false
    → scan_braces false (assemble text ((name, next) ∷ params))
      ≡ scan_braces false (assemble next params)
unfolding scan_braces
scan_braces_step text name next params p q n =
    scan-Plain false text (b'{' ∷ (name ++ b'}' ∷ assemble next params)) p
    ∙ scan-Plain true name (b'}' ∷ assemble next params) q
    ∙ rw n refl

scan-assemble :
    (text : Str) (params : List (Str × Str))
    → Plain text
    → ArePlain params
    → AreSeparate params
    → scan_braces false (assemble text params) ≡ true
scan-assemble text [] p q h =
    rw (sym (append-nil text)) (scan-Plain false text [] p ∙ unfold scan_braces in refl)
scan-assemble text ((name, next) ∷ params) p ((q, r), qs) (h, hs) =
    scan_braces_step text name next params p q (next_of_separate next params r h)
    ∙ scan-assemble next params r qs hs

pub scan_braces_iff : (s : Str) → (scan_braces false s ≡ true) ↔ HasSeparateBraces s
scan_braces_iff s =
    ((scan_both s).0, λ r. rw r.same (scan-assemble r.text r.params r.plain.0 r.plain.1 r.separate))

-- is_valid_route accepts a path exactly when the path is a row of segments, each a slash and at
-- least one character of the class of the regular expression, and its braces are pairs that do not
-- nest, with text between one pair and the next.
pub is_valid_route_iff :
    (path : Str) → (is_valid_route path ≡ true) ↔ Segments path × HasSeparateBraces path
unfolding is_valid_route
is_valid_route_iff path =
    (valid, λ (s, b). ground (arith, (route_regex_iff path).1 s, (scan_braces_iff path).1 b))
  where
    valid : is_valid_route path ≡ true → Segments path × HasSeparateBraces path
    valid h = ((route_regex_iff path).0 (ground arith), (scan_braces_iff path).0 (ground arith))
