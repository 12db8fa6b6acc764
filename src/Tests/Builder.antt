-- ===== src/Tests/Builder.antt =====
-- src/piconaut/formats/json/value_builder.cc, over the smallest document library.
use piconaut.Prelude.{pos, Str, bytes, true, some, [], ◌∷◌, ◌≡◌, refl, list_eq, nat_eq, list_beq}
use piconaut.Formats.Json.RapidJson.{c_str, number_type}
use piconaut.Formats.Json.RapidJson.Cells.{cells, cells-IsRapidJson}
use piconaut.Formats.Json.ValueBuilder.{
  ValueBuilder, new_builder, start, index, at_member, assign_string, assign_int, may_be_string,
  known,
}
use piconaut.Formats.Json.ValueBuilder.Targets.{
  int_of, write_to, indexing, writing, Built, fresh, stepped,
}
use piconaut.Formats.Json.ValueBuilder.Typed.{kind, current_type-Built}
use piconaut.Formats.Json.ValueBuilder.Members.{IsReady, reassign}

abbrev json : ValueBuilder cells
json = new_builder cells

abbrev key : Str
key = bytes "key1"

-- `json["key1"]`, as it stands behind the first statement and behind the second.
abbrev keyed : ValueBuilder cells
keyed = at_member cells key [] (start cells json)

indexed : index cells key json ≡ some keyed
unfolding index new_builder start list_beq c_str
indexed = refl

ready : IsReady cells cells-IsRapidJson json
unfolding new_builder start list_beq
ready = record { no_nodes = refl; document_object = refl }

open_type : may_be_string keyed.current_type ≡ true
unfolding new_builder start list_beq c_str
open_type = refl

abbrev again : ValueBuilder cells
again = at_member cells key [] (start cells (assign_string cells (bytes "v") keyed))

indexed_again : index cells key (assign_string cells (bytes "v") keyed) ≡ some again
unfolding index assign_string new_builder start list_beq c_str
indexed_again = refl

reassign_example :
    ((assign_string cells (bytes "w") again).document
      ≡ (assign_string cells (bytes "w") keyed).document)
    × ((assign_int cells (pos 1) again).document ≡ (assign_string cells (bytes "v") keyed).document)
reassign_example =
    reassign cells cells-IsRapidJson key (bytes "v") (bytes "w") (pos 1) json keyed again ready
      indexed open_type indexed_again

-- `json["key1"] = 1`
abbrev numbered : ValueBuilder cells
numbered = write_to cells (int_of (pos 1)) keyed

numbered-Built : Built cells numbered
numbered-Built = stepped (stepped fresh (indexing key indexed)) (writing (int_of (pos 1)))

numbered_at : numbered.current_value ≡ some (key ∷ [])
unfolding write_to assign_int new_builder start list_beq c_str
numbered_at = refl

numbered_type : numbered.current_type ≡ known number_type
unfolding write_to assign_int new_builder start list_beq c_str
numbered_type = refl

current_type-Built_example : kind number_type ≡ kind (cells.type_of numbered.document (key ∷ []))
current_type-Built_example =
    current_type-Built cells cells-IsRapidJson (key ∷ []) number_type numbered-Built numbered_at
      numbered_type
