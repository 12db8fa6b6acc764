-- ===== src/Routers/Pattern/Segments.antt =====
-- What the regular expression of a route accepts.
use piconaut.Prelude.{
  ℕ, Str, true, false, List, [], ◌∷◌, ◌++◌, ◌≡◌, refl, ◌≢◌, ◌↔◌, arith, All, Bool-cases, nat_eq,
  nat_beq_iff, ◌==◌, ◌||◌, if◌then◌else◌, ◌∙◌, &&-eq-true, inl, inr,
}
use piconaut.Routers.Pattern.{route_char, between, opened, inside, route_regex}

-- A segment has a character, and only those of the class.
abbrev pub IsSegment : Str → Type 0
IsSegment [] = ⊥
IsSegment (c ∷ s) = All (λ c. route_char c ≡ true) (c ∷ s)

-- Each segment behind a slash.
abbrev pub render : List Str → Str
render [] = []
render (seg ∷ segs) = b'/' ∷ seg ++ render segs

slash_no_route_char : route_char b'/' ≡ false
unfolding route_char
slash_no_route_char = refl

pub route_char_ne_slash : (c : ℕ) → route_char c ≡ true → c ≢ b'/'
unfolding route_char
route_char_ne_slash c h = ground arith

-- The segments that an accepted string has, by place: behind a slash the first one may be open.
record Opened (s : Str) : Type 0 where
  pub seg : Str
  pub segs : List Str
  pub good : IsSegment seg × All IsSegment segs
  pub same : s ≡ seg ++ render segs

record Inside (s : Str) : Type 0 where
  pub seg : Str
  pub segs : List Str
  pub good : All (λ c. route_char c ≡ true) seg × All IsSegment segs
  pub same : s ≡ seg ++ render segs

open_with : (c : ℕ) (s : Str) → route_char c ≡ true → Inside s → Opened (c ∷ s)
open_with c s p r = record {
  seg = c ∷ r.seg;
  segs = r.segs;
  good = ((p, r.good.0), r.good.1);
  same = ground (arith, r.same);
}

Inside-slash : (c : ℕ) (s : Str) → c ≡ b'/' → Opened s → Inside (c ∷ s)
Inside-slash c s e r = record {
  seg = [];
  segs = r.seg ∷ r.segs;
  good = (tt, r.good);
  same = ground (arith, r.same);
}

Inside-char : (c : ℕ) (s : Str) → route_char c ≡ true → Inside s → Inside (c ∷ s)
Inside-char c s p r = record {
  seg = c ∷ r.seg;
  segs = r.segs;
  good = ((p, r.good.0), r.good.1);
  same = ground (arith, r.same);
}

-- A character behind a character of a group.
inside_step :
    (c : ℕ) (s : Str)
    → (route_regex opened s ≡ true → Opened s)
    → (route_regex inside s ≡ true → Inside s)
    → route_regex inside (c ∷ s) ≡ true
    → Inside (c ∷ s)
unfolding route_regex
inside_step c s o i h =
    let (p, r) =
      &&-eq-true (c == b'/' || route_char c) (route_regex (if c == b'/' then opened else inside) s)
        h in
    elim (Bool-cases (c == b'/')) [
      | inl e ↦ Inside-slash c s ((nat_beq_iff c b'/').0 e) (o (rw e at r))
      | inr n ↦ Inside-char c s (rw n at p) (i (rw n at r))
    ]

opened_step :
    (c : ℕ) (s : Str)
    → (route_regex inside s ≡ true → Inside s)
    → route_regex opened (c ∷ s) ≡ true
    → Opened (c ∷ s)
unfolding route_regex
opened_step c s i h =
    let (p, r) = &&-eq-true (route_char c) (route_regex inside s) h in open_with c s p (i r)

-- By the rest of the string, for the two places behind a slash at once.
read_both :
    (s : Str) → (route_regex opened s ≡ true → Opened s) × (route_regex inside s ≡ true → Inside s)
read_both [] =
    unfold route_regex in
    (λ h. absurd (ground arith), λ h. record { seg = []; segs = []; good = (tt, tt); same = refl })
read_both (c ∷ s) = let (o, i) = read_both s in (opened_step c s i, inside_step c s o i)

inside_segment :
    (seg s : Str)
    → All (λ c. route_char c ≡ true) seg
    → route_regex inside (seg ++ s) ≡ route_regex inside s
unfolding route_regex
inside_segment [] s h = refl
inside_segment (c ∷ seg) s (p, h) =
    ground (arith, inside_segment seg s h, route_char_ne_slash c p, nat_beq_iff c b'/')

inside_render :
    (segs : List Str) → route_regex inside (render segs) ≡ route_regex between (render segs)
unfolding route_regex
inside_render [] = refl
inside_render (seg ∷ segs) = refl

accepts_step :
    (c : ℕ) (seg : Str) (segs : List Str)
    → IsSegment (c ∷ seg)
    → route_regex between (render segs) ≡ true
    → route_regex between (render ((c ∷ seg) ∷ segs)) ≡ true
unfolding route_regex
accepts_step c seg segs (p, ps) h =
    rw p (inside_segment seg (render segs) ps ∙ inside_render segs ∙ h)

accepts : (segs : List Str) → All IsSegment segs → route_regex between (render segs) ≡ true
accepts [] h = unfold route_regex in refl
accepts ([] ∷ segs) (p, h) = absurd p
accepts ((c ∷ seg) ∷ segs) (p, h) = accepts_step c seg segs p (accepts segs h)

-- The segments of an accepted string.
abbrev pub Segments : Str → Type 0
Segments s = (segs : List Str) × All IsSegment segs × (s ≡ render segs)

reads : (s : Str) → route_regex between s ≡ true → Segments s
reads [] h = ([], tt, refl)
reads (c ∷ s) h =
    unfold route_regex in
    let (slash, r) = &&-eq-true (c == b'/') (route_regex opened s) h in
    let o = (read_both s).0 r in
    (o.seg ∷ o.segs, o.good, ground (arith, o.same, nat_beq_iff c b'/'))

pub route_regex_iff : (s : Str) → (route_regex between s ≡ true) ↔ Segments s
route_regex_iff s = (reads s, λ (segs, good, same). rw same (accepts segs good))
