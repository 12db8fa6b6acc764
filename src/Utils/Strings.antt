-- ===== src/Utils/Strings.antt =====
-- src/piconaut/utils/string_utils.h. A `std::string` is the list of its bytes, a position and
-- `npos` are `size_t` numbers, and a callback is a function on the state that it captures.
pub mod Split
pub mod Splitting
pub mod Ranges
pub mod Cleaning
pub mod RoundTrip
use piconaut.Prelude.{
  ℕ, zero, suc, ◌+◌, ◌-◌, ◌^◌, Str, length, take, drop, Bool, ◌&&◌, ◌||◌, List, [], ◌∷◌, ◌++◌, leb,
  ◌==◌, nat_eq, if◌then◌else◌,
}

-- `std::string::npos`
abbrev pub npos : ℕ
npos = 2 ^ 64 - 1

-- The first position of `c` in a string that begins at position `pos`.
unfoldable pub index_from : ℕ → Str → ℕ → ℕ
index_from pos [] c = npos
index_from pos (x ∷ s) c = if x == c then pos else index_from (pos + 1) s c

-- `str.find(c, pos)`
unfoldable pub find : Str → ℕ → ℕ → ℕ
find str c pos = index_from pos (drop pos str) c

-- `str.substr(pos, n)` for `pos` in range; `n` may go past the end
unfoldable pub substr : Str → ℕ → ℕ → Str
substr str pos n = take n (drop pos str)

-- The loop of `SplitString`, over `tokens`, `start` and `end`, on fuel: a round takes at least the
-- delimiter off what is left.
unfoldable pub split_loop : ℕ → Str → ℕ → ℕ → ℕ → List Str → List Str
split_loop zero str delimiter start end tokens = tokens
split_loop (suc fuel) str delimiter start end tokens =
    let rest =
      split_loop fuel str delimiter (end + 1) (find str delimiter (end + 1))
        (tokens ++ substr str start (end - start) ∷ []) in
    if end == npos then tokens ++ substr str start (end - start) ∷ [] else rest

-- `SplitString(str, delimiter)`
unfoldable pub split_string : Str → ℕ → List Str
unfolding split_loop find substr
split_string str delimiter = split_loop (suc (length str)) str delimiter 0 (find str delimiter 0) []

-- `SplitString(str, delimiter, callback)`, for a callback that captures a state
module _ {ℓ} {S : Type ℓ} where
  unfoldable pub split_each_loop : ℕ → Str → ℕ → ℕ → ℕ → (Str → S → S) → S → S
  split_each_loop zero str delimiter start end callback s = s
  split_each_loop (suc fuel) str delimiter start end callback s =
      let rest =
        split_each_loop fuel str delimiter (end + 1) (find str delimiter (end + 1)) callback
          (callback (substr str start (end - start)) s) in
      if end == npos then callback (substr str start npos) s else rest

  unfoldable pub split_each : Str → ℕ → (Str → S → S) → S → S
  unfolding split_each_loop find substr
  split_each str delimiter callback s =
      split_each_loop (suc (length str)) str delimiter 0 (find str delimiter 0) callback s

-- `::isspace` in the "C" locale
abbrev pub is_space : ℕ → Bool
is_space c = c == 32 || (leb 9 c && leb c 13)

-- `str.erase(std::remove_if(str.begin(), str.end(), ::isspace), str.end())`
unfoldable pub remove_spaces_ref : Str → Str
remove_spaces_ref [] = []
remove_spaces_ref (c ∷ str) =
    if is_space c then remove_spaces_ref str else c ∷ remove_spaces_ref str

unfoldable pub remove_spaces : Str → Str
unfolding remove_spaces_ref
remove_spaces str_to_clean = remove_spaces_ref str_to_clean
