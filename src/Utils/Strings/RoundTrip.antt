-- ===== src/Utils/Strings/RoundTrip.antt =====
-- `SplitString` of src/piconaut/utils/string_utils.h and its inverse, and `RemoveSpaces`.
use piconaut.Prelude.{ℕ, ◌≤◌, Str, length, List, ◌≡◌, ◌∙◌, All}
use piconaut.Utils.Strings.{npos, split_string, remove_spaces}
use piconaut.Utils.Strings.Split.{join, Free, IsNonempty, join-split, split-Free, split-join}
use piconaut.Utils.Strings.Splitting.{split_string-eq-split}
use piconaut.Utils.Strings.Cleaning.{
  Spaceless, remove_spaces_ref_of_Spaceless, remove_spaces_ref-Spaceless,
}

-- The parts that split_string makes of a string no longer than npos, joined again by the delimiter,
-- are the string, and none of them holds the delimiter.
pub join-split_string :
    (s : Str) (d : ℕ)
    → length s ≤ npos
    → (join d (split_string s d) ≡ s) × All (Free d) (split_string s d)
join-split_string s d fits = rw (split_string-eq-split s d fits) (join-split d s, split-Free d s)

-- At least one part, none with the delimiter, joined by the delimiter into a string no longer than
-- npos: split_string gives the parts back.
pub split_string-join :
    (d : ℕ) (parts : List Str)
    → IsNonempty parts
    → All (Free d) parts
    → length (join d parts) ≤ npos
    → split_string (join d parts) d ≡ parts
split_string-join d parts some_part free fits =
    split_string-eq-split (join d parts) d fits ∙ split-join d parts some_part free

-- The result of remove_spaces has no space, and removing the spaces again changes nothing.
pub remove_spaces_idempotent :
    (s : Str) → Spaceless (remove_spaces s) × (remove_spaces (remove_spaces s) ≡ remove_spaces s)
unfolding remove_spaces
remove_spaces_idempotent s = (
  remove_spaces_ref-Spaceless s,
  remove_spaces_ref_of_Spaceless _ (remove_spaces_ref-Spaceless s),
)
