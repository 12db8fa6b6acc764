-- ===== src/Tests/Values.antt =====
-- src/piconaut/formats/json/value.cc, over the small document library.
use piconaut.Prelude.{
  pos, bytes, true, false, some, [], ◌∷◌, map, ◌≡◌, ◌≢◌, inl, inr, refl, list_eq, nat_eq, list_beq,
  arith,
}
use piconaut.Errors.{runtime_error}
use piconaut.Formats.Json.RapidJson.{number, of_int, c_str}
use piconaut.Formats.Json.RapidJson.Cells.{
  cells, cell_values, cells-IsRapidJson, cells-IsRapidNested, cells-IsRapidValues, Held,
}
use piconaut.Formats.Json.Value.{
  Value, new_value, subscript, at_key_of, begin, write_scalar, write_strings, write_ints,
  write_doubles, write_bools, write_values,
}
use piconaut.Formats.Json.Value.As.{
  as_string, as_int, as_double, as_bool, as_strings, as_ints, as_doubles, as_bools, as_values,
  item_of,
}
use piconaut.Formats.Json.Value.Made.{Made, fresh, indexing}
use piconaut.Formats.Json.Value.RoundTrip.{as_vector-write_vector}
use piconaut.Formats.Json.Value.Reading.{as-write_scalar, item_forgets}

abbrev V : Type 0
V = Value cells cell_values

-- `json["name"]`
abbrev named : V
named =
    at_key_of cells cell_values (bytes "name")
      (begin cells cell_values (new_value cells cell_values))

subscripted : subscript cells cell_values (bytes "name") (new_value cells cell_values) ≡ some named
unfolding subscript new_value begin c_str list_beq
subscripted = refl

named-Made : Made cells cell_values named
named-Made = indexing (bytes "name") subscripted fresh

as_vector-write_vector_example :
    (as_strings cells cell_values (write_strings cells cell_values (bytes "ada" ∷ []) named)
      ≡ inl (map c_str (bytes "ada" ∷ [])))
    × (as_ints cells cell_values (write_ints cells cell_values (pos 3 ∷ pos 4 ∷ []) named)
        ≡ inl (pos 3 ∷ pos 4 ∷ []))
    × (as_doubles cells cell_values (write_doubles cells cell_values (5 ∷ []) named) ≡ inl (5 ∷ []))
    × (as_bools cells cell_values (write_bools cells cell_values (true ∷ false ∷ []) named)
        ≡ inl (true ∷ false ∷ []))
    × (as_values cells cell_values (write_values cells cell_values (named ∷ []) named)
        ≡ inl (
            map
              (λ (u : V). item_of cells cell_values (cell_values.value_at u.document []))
              (named ∷ [])))
as_vector-write_vector_example =
    as_vector-write_vector cells cell_values cells-IsRapidValues named (bytes "ada" ∷ [])
      (pos 3 ∷ pos 4 ∷ []) (5 ∷ []) (true ∷ false ∷ []) (named ∷ []) named-Made

-- A whole number is no `double`.
as-write_scalar_example :
    (as_string cells cell_values (write_scalar cells cell_values (number (of_int (pos 3))) named)
      ≡ inr (runtime_error (bytes "JSON value is not a string")))
    × (as_int cells cell_values (write_scalar cells cell_values (number (of_int (pos 3))) named)
        ≡ inl (pos 3))
    × (as_double cells cell_values (write_scalar cells cell_values (number (of_int (pos 3))) named)
        ≡ inr (runtime_error (bytes "JSON value is not a double")))
    × (as_bool cells cell_values (write_scalar cells cell_values (number (of_int (pos 3))) named)
        ≡ inr (runtime_error (bytes "JSON value is not a boolean")))
as-write_scalar_example =
    as-write_scalar cells cell_values cells-IsRapidValues (number (of_int (pos 3))) named named-Made

age-ne-name : c_str (bytes "age") ≢ bytes "name"
unfolding c_str
age-ne-name e = ground arith

item_forgets_example :
    (cell_values.value_at (item_of cells cell_values Held.fields).document [] ≡ Held.fields)
    × (i : V) × (subscript cells cell_values (bytes "age") (item_of cells cell_values Held.fields)
        ≡ some i)
    × (cells.has_member i.document [] (bytes "name") ≡ false)
item_forgets_example =
    item_forgets cells cell_values cells-IsRapidValues cells-IsRapidJson cells-IsRapidNested
      Held.fields (bytes "age") (bytes "name") age-ne-name
