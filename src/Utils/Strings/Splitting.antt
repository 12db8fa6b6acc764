-- ===== src/Utils/Strings/Splitting.antt =====
-- `SplitString` of src/piconaut/utils/string_utils.h, both overloads, against `split`.
use piconaut.Prelude.{
  ℕ, zero, suc, ◌+◌, ◌-◌, ◌≤◌, ◌<◌, Str, length, take, drop, take_all, drop-drop, length-drop, List,
  [], ◌∷◌, ◌++◌, append_assoc, ◌≡◌, refl, sym, ap, ◌∙◌, inl, inr, arith, nat_eq, ◌==◌, false,
  Bool-cases,
}
use piconaut.Utils.Strings.{
  npos, index_from, find, substr, split_loop, split_string, split_each_loop, split_each,
}
use piconaut.Utils.Strings.Split.{split}

-- What the search finds, and the first part that it gives.
pub data First (d pos : ℕ) (t : Str) : Type 0 where
  last : index_from pos t d ≡ npos → split d t ≡ t ∷ [] → First d pos t
  before :
      (k : ℕ)
      → k < length t
      → index_from pos t d ≡ pos + k
      → split d t ≡ take k t ∷ split d (drop (suc k) t)
      → First d pos t

First-step : (d pos c : ℕ) (t : Str) → (c == d) ≡ false → First d (pos + 1) t → First d pos (c ∷ t)
unfolding index_from split
First-step d pos c t n (last e s) = last (ground arith) (ground arith)
First-step d pos c t n (before k lt e s) =
    before (suc k) (omega arith) (ground arith) (ground arith)

pub first : (d pos : ℕ) (t : Str) → First d pos t
unfolding index_from split
first d pos [] = last refl refl
first d pos (c ∷ t) = elim (Bool-cases (c == d)) [
  | inl e ↦ before 0 (omega arith) (ground arith) (ground arith)
  | inr n ↦ First-step d pos c t n (first d (pos + 1) t)
]

-- The rest of the string, once the position is known.
rest_part :
    (start : ℕ) (str : Str)
    → length str ≤ npos
    → start ≤ length str
    → substr str start (npos - start) ≡ drop start str
unfolding substr
rest_part start str h k =
    take_all (npos - start) (drop start str) (omega (arith, length-drop start str))

rest_all : (start : ℕ) (str : Str) → length str ≤ npos → substr str start npos ≡ drop start str
unfolding substr
rest_all start str h = take_all npos (drop start str) (omega (arith, length-drop start str))

part_before :
    (start k : ℕ) (str : Str) → substr str start (start + k - start) ≡ take k (drop start str)
unfolding substr
part_before start k str =
    let e : start + k - start ≡ k = omega arith in ap (λ n. take n (drop start str)) e

drop_next : (start k : ℕ) (str : Str) → drop (start + k + 1) str ≡ drop (suc k) (drop start str)
drop_next start k str =
    let e : start + k + 1 ≡ start + suc k = omega arith in
    ap (λ n. drop n str) e ∙ sym (drop-drop (suc k) start str)

module _ (str : Str) (d : ℕ) (fits : length str ≤ npos) where
  loop_step :
      (fuel start : ℕ) (tokens : List Str)
      → start ≤ length str
      → length str - start < suc fuel
      → ((next : ℕ) (tokens : List Str)
          → next ≤ length str
          → length str - next < fuel
          → split_loop fuel str d next (find str d next) tokens ≡ tokens ++ split d (drop next str))
      → First d start (drop start str)
      → split_loop (suc fuel) str d start (find str d start) tokens
        ≡ tokens ++ split d (drop start str)
  unfolding split_loop find
  loop_step fuel start tokens le enough ih (last e s) =
      rw (e, s) (ap (λ t. tokens ++ t ∷ []) (rest_part start str fits le))
  loop_step fuel start tokens le enough ih (before k lt e s) =
      rw (e, s)
        (ground (
          arith,
          length-drop start str,
          part_before start k str,
          drop_next start k str,
          ih (start + k + 1) (tokens ++ substr str start (start + k - start) ∷ []),
          append_assoc tokens (substr str start (start + k - start) ∷ [])
              (split d (drop (start + k + 1) str)),
        ))

  split_loop-eq-split :
      (fuel start : ℕ) (tokens : List Str)
      → start ≤ length str
      → length str - start < fuel
      → split_loop fuel str d start (find str d start) tokens ≡ tokens ++ split d (drop start str)
  split_loop-eq-split zero start tokens le enough = absurd (omega arith)
  split_loop-eq-split (suc fuel) start tokens le enough =
      loop_step fuel start tokens le enough (split_loop-eq-split fuel)
        (first d start (drop start str))

  -- On a string no longer than npos, split_string (find and substr in a loop, run on one step more
  -- fuel than the string has bytes) returns the parts of the structural split at the delimiter.
  pub split_string-eq-split : split_string str d ≡ split d str
  unfolding split_string
  split_string-eq-split = split_loop-eq-split (suc (length str)) 0 [] (omega arith) (omega arith)

-- A callback over the parts, first to last.
abbrev pub fold_parts {ℓ} : {S : Type ℓ} → (Str → S → S) → S → List Str → S
fold_parts callback s [] = s
fold_parts callback s (part ∷ parts) = fold_parts callback (callback part s) parts

module _ {ℓ} {S : Type ℓ} (str : Str) (d : ℕ) (fits : length str ≤ npos)
    (callback : Str → S → S) where
  each_step :
      (fuel start : ℕ) (s : S)
      → start ≤ length str
      → length str - start < suc fuel
      → ((next : ℕ) (s : S)
          → next ≤ length str
          → length str - next < fuel
          → split_each_loop fuel str d next (find str d next) callback s
            ≡ fold_parts callback s (split d (drop next str)))
      → First d start (drop start str)
      → split_each_loop (suc fuel) str d start (find str d start) callback s
        ≡ fold_parts callback s (split d (drop start str))
  unfolding split_each_loop find
  each_step fuel start s le enough ih (last e p) =
      rw (e, p) (ap (λ t. callback t s) (rest_all start str fits))
  each_step fuel start s le enough ih (before k lt e p) =
      let more : (start + k == npos) ≡ false = ground (arith, length-drop start str) in
      rw (e, more, p, part_before start k str, ← drop_next start k str)
        (ih (start + k + 1) (callback (take k (drop start str)) s)
          (omega (arith, length-drop start str)) (omega (arith, length-drop start str)))

  each_loop-eq-fold :
      (fuel start : ℕ) (s : S)
      → start ≤ length str
      → length str - start < fuel
      → split_each_loop fuel str d start (find str d start) callback s
        ≡ fold_parts callback s (split d (drop start str))
  each_loop-eq-fold zero start s le enough = absurd (omega arith)
  each_loop-eq-fold (suc fuel) start s le enough =
      each_step fuel start s le enough (each_loop-eq-fold fuel) (first d start (drop start str))

  -- On a string no longer than npos, split_each calls its callback once for each part that
  -- split_string returns, in order.
  pub split_each-eq-fold :
      (s : S) → split_each str d callback s ≡ fold_parts callback s (split_string str d)
  unfolding split_each
  split_each-eq-fold s =
      each_loop-eq-fold (suc (length str)) 0 s (omega arith) (omega arith)
      ∙ ap (fold_parts callback s) (sym (split_string-eq-split str d fits))
