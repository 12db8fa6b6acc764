-- ===== src/Utils/Strings/Split.antt =====
-- The parts of a string between delimiters, by recursion on the string: what `SplitString` of
-- src/piconaut/utils/string_utils.h is held to, and its inverse.
use piconaut.Prelude.{
  ℕ, Str, List, [], ◌∷◌, ◌++◌, ◌≡◌, refl, ◌≢◌, arith, All, nat_eq, nat_beq_iff, ◌==◌, if◌then◌else◌,
}

abbrev pub push_head : ℕ → List Str → List Str
push_head c [] = (c ∷ []) ∷ []
push_head c (part ∷ parts) = (c ∷ part) ∷ parts

unfoldable pub split : ℕ → Str → List Str
split d [] = [] ∷ []
split d (c ∷ s) = if c == d then [] ∷ split d s else push_head c (split d s)

-- The parts with the delimiter between them.
unfoldable pub join : ℕ → List Str → Str
join d [] = []
join d (part ∷ []) = part
join d (part ∷ parts) = part ++ d ∷ join d parts

-- No byte of the part is the delimiter.
abbrev pub Free : ℕ → Str → Type 0
Free d = All (λ c. c ≢ d)

abbrev pub IsNonempty : List Str → Type 0
IsNonempty [] = ⊥
IsNonempty (part ∷ parts) = Unit

pub split-IsNonempty : (d : ℕ) (s : Str) → IsNonempty (split d s)
unfolding split
split-IsNonempty d [] = tt
split-IsNonempty d (c ∷ s) = ground (arith, split-IsNonempty d s)

join-push_head :
    (d c : ℕ) (parts : List Str) → IsNonempty parts → join d (push_head c parts) ≡ c ∷ join d parts
unfolding join
join-push_head d c [] h = absurd h
join-push_head d c (part ∷ []) h = refl
join-push_head d c (part ∷ next ∷ parts) h = refl

join-cons_nil :
    (d : ℕ) (parts : List Str) → IsNonempty parts → join d ([] ∷ parts) ≡ d ∷ join d parts
unfolding join
join-cons_nil d [] h = absurd h
join-cons_nil d (part ∷ parts) h = refl

pub join-split : (d : ℕ) (s : Str) → join d (split d s) ≡ s
unfolding split
join-split d [] = unfold join in refl
join-split d (c ∷ s) = ground (
  arith,
  nat_beq_iff c d,
  join-split d s,
  join-push_head d c (split d s) (split-IsNonempty d s),
  join-cons_nil d (split d s) (split-IsNonempty d s),
)

push_head-Free :
    (d c : ℕ) (parts : List Str) → c ≢ d → All (Free d) parts → All (Free d) (push_head c parts)
push_head-Free d c [] n h = ((n, tt), tt)
push_head-Free d c (part ∷ parts) n (p, h) = ((n, p), h)

pub split-Free : (d : ℕ) (s : Str) → All (Free d) (split d s)
unfolding split
split-Free d [] = (tt, tt)
split-Free d (c ∷ s) =
    ground (arith, nat_beq_iff c d, split-Free d s, push_head-Free d c (split d s))

-- A part free of the delimiter comes back whole from a string that goes on with the delimiter.
split-append : (d : ℕ) (part s : Str) → Free d part → split d (part ++ d ∷ s) ≡ part ∷ split d s
unfolding split
split-append d [] s h = ground (arith, nat_beq_iff d d)
split-append d (c ∷ part) s (n, h) = ground (arith, nat_beq_iff c d, split-append d part s h)

split_of_Free : (d : ℕ) (part : Str) → Free d part → split d part ≡ part ∷ []
unfolding split
split_of_Free d [] h = refl
split_of_Free d (c ∷ part) (n, h) = ground (arith, nat_beq_iff c d, split_of_Free d part h)

pub split-join :
    (d : ℕ) (parts : List Str)
    → IsNonempty parts
    → All (Free d) parts
    → split d (join d parts) ≡ parts
unfolding join
split-join d [] n h = absurd n
split-join d (part ∷ []) n (p, h) = split_of_Free d part p
split-join d (part ∷ next ∷ parts) n (p, h) =
    ground (arith, split-append d part (join d (next ∷ parts)) p, split-join d (next ∷ parts) tt h)
