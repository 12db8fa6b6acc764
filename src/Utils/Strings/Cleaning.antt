-- ===== src/Utils/Strings/Cleaning.antt =====
-- `RemoveSpaces` and `RemoveSpacesRef` of src/piconaut/utils/string_utils.h.
use piconaut.Prelude.{Str, false, [], ◌∷◌, ◌≡◌, refl, arith, All}
use piconaut.Utils.Strings.{is_space, remove_spaces_ref}

abbrev pub Spaceless : Str → Type 0
Spaceless = All (λ c. is_space c ≡ false)

pub remove_spaces_ref_of_Spaceless : (s : Str) → Spaceless s → remove_spaces_ref s ≡ s
unfolding remove_spaces_ref
remove_spaces_ref_of_Spaceless [] h = refl
remove_spaces_ref_of_Spaceless (c ∷ s) (p, h) = ground (arith, remove_spaces_ref_of_Spaceless s h)

pub remove_spaces_ref-Spaceless : (s : Str) → Spaceless (remove_spaces_ref s)
unfolding remove_spaces_ref
remove_spaces_ref-Spaceless [] = tt
remove_spaces_ref-Spaceless (c ∷ s) = ground (arith, remove_spaces_ref-Spaceless s)
