-- ===== src/Tests/Strings.antt =====
-- src/piconaut/utils/string_utils.h.
use piconaut.Prelude.{Str, bytes, some, [], ◌∷◌, ◌≡◌, refl, All, arith}
use piconaut.Utils.Strings.{index_from, split_string}
use piconaut.Utils.Strings.Ranges.{try_split_string, try_split_string-eq}
use piconaut.Utils.Strings.Split.{split, join, Free}
use piconaut.Utils.Strings.Splitting.{split_string-eq-split}
use piconaut.Utils.Strings.RoundTrip.{join-split_string}

abbrev path : Str
path = bytes "/a//b"

split_path : split_string path b'/' ≡ [] ∷ bytes "a" ∷ [] ∷ bytes "b" ∷ []
unfolding split_string index_from
split_path = refl

split_string-eq-split_example : split_string path b'/' ≡ split b'/' path
split_string-eq-split_example = split_string-eq-split path b'/' (omega arith)

join-split_string_example :
    (join b'/' (split_string path b'/') ≡ path) × All (Free b'/') (split_string path b'/')
join-split_string_example = join-split_string path b'/' (omega arith)

try_split_string-eq_example : try_split_string path b'/' ≡ some (split_string path b'/')
try_split_string-eq_example = try_split_string-eq path b'/' (omega arith)
