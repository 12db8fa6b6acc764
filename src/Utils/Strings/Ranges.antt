-- ===== src/Utils/Strings/Ranges.antt =====
-- The positions that `SplitString` of src/piconaut/utils/string_utils.h hands to `substr`, which throws
-- `std::out_of_range` for one behind the end.
use piconaut.Prelude.{
  ℕ, zero, suc, ◌+◌, ◌-◌, ◌≤◌, ◌<◌, Str, length, length-drop, drop, leb, true, false, List, [], ◌∷◌,
  ◌++◌, Option, none, some, ◌≡◌, refl, ◌∙◌, arith, nat_eq, ◌==◌, if◌then◌else◌,
}
use piconaut.Utils.Strings.{npos, find, substr, split_loop, split_string}
use piconaut.Utils.Strings.Splitting.{First, first, last, before}

-- `str.substr(pos, n)` with its exception, `none`.
unfoldable pub try_substr : Str → ℕ → ℕ → Option Str
unfolding substr
try_substr str pos n = if leb pos (length str) then some (substr str pos n) else none

-- `SplitString(str, delimiter)` with the exceptions of its calls of `substr`; without fuel there is no
-- result.
unfoldable pub try_split_loop : ℕ → Str → ℕ → ℕ → ℕ → List Str → Option (List Str)
unfolding try_substr
try_split_loop zero str delimiter start end tokens = none
try_split_loop (suc fuel) str delimiter start end tokens =
    elim (try_substr str start (end - start)) [
      | none ↦ none
      | some token ↦
          let rest =
            try_split_loop fuel str delimiter (end + 1) (find str delimiter (end + 1))
              (tokens ++ token ∷ []) in
          if end == npos then some (tokens ++ token ∷ []) else rest
    ]

unfoldable pub try_split_string : Str → ℕ → Option (List Str)
unfolding try_split_loop
try_split_string str delimiter =
    try_split_loop (suc (length str)) str delimiter 0 (find str delimiter 0) []

module _ (str : Str) (d : ℕ) (fits : length str ≤ npos) where
  try_round :
      (fuel start end : ℕ) (tokens : List Str)
      → start ≤ length str
      → try_split_loop (suc fuel) str d start end tokens ≡ (
          if end == npos
          then some (tokens ++ substr str start (end - start) ∷ [])
          else try_split_loop fuel str d
              (end + 1)
              (find str d (end + 1))
              (tokens ++ substr str start (end - start) ∷ []))
  unfolding try_split_loop
  try_round fuel start end tokens le =
      let ok : leb start (length str) ≡ true = ground arith in
      rw (try_split_loop, try_substr, ok) refl

  try_step :
      (fuel start : ℕ) (tokens : List Str)
      → start ≤ length str
      → ((next : ℕ) (tokens : List Str)
          → next ≤ length str
          → length str - next < fuel
          → try_split_loop fuel str d next (find str d next) tokens
            ≡ some (split_loop fuel str d next (find str d next) tokens))
      → length str - start < suc fuel
      → First d start (drop start str)
      → try_split_loop (suc fuel) str d start (find str d start) tokens
        ≡ some (split_loop (suc fuel) str d start (find str d start) tokens)
  unfolding split_loop find
  try_step fuel start tokens le ih enough (last e s) =
      try_round fuel start (find str d start) tokens le ∙ rw e refl
  try_step fuel start tokens le ih enough (before k lt e s) =
      let more : (start + k == npos) ≡ false = ground (arith, length-drop start str) in
      try_round fuel start (find str d start) tokens le
      ∙ rw (e, more)
          (ih (start + k + 1) _ (omega (arith, length-drop start str))
            (omega (arith, length-drop start str)))

  try_split_loop-eq :
      (fuel start : ℕ) (tokens : List Str)
      → start ≤ length str
      → length str - start < fuel
      → try_split_loop fuel str d start (find str d start) tokens
        ≡ some (split_loop fuel str d start (find str d start) tokens)
  try_split_loop-eq zero start tokens le enough = absurd (omega arith)
  try_split_loop-eq (suc fuel) start tokens le enough =
      try_step fuel start tokens le (try_split_loop-eq fuel) enough (first d start (drop start str))

  -- For a string no longer than npos, SplitString ends within one round more than the bytes of the
  -- string, and no call of substr throws std::out_of_range: with the exceptions written out it
  -- returns the list of split_string.
  pub try_split_string-eq : try_split_string str d ≡ some (split_string str d)
  unfolding try_split_string split_string
  try_split_string-eq = try_split_loop-eq (suc (length str)) 0 [] (omega arith) (omega arith)
