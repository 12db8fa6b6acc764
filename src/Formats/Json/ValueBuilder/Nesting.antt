-- ===== src/Formats/Json/ValueBuilder/Nesting.antt =====
-- Where the next member of a `ValueBuilder` of src/piconaut/formats/json/value_builder.cc goes.
use piconaut.Prelude.{Bool, true, false, Option, none, some, [], ◌≡◌, refl, ◌∙◌, ap, arith}
use piconaut.Formats.Json.RapidJson.{RapidJson, Scalar}
use piconaut.Formats.Json.ValueBuilder.{
  JsonValueType, ValueBuilder, back_value, get_node_value, start, write_if, create_at,
}
use piconaut.Formats.Json.ValueBuilder.Targets.{
  Write, string_of, chars_of, uint_of, int_of, double_of, float_of, bool_of, object, write_to,
  HasTarget, start-current_value, Built, Built-HasTarget,
}

module _ (json : RapidJson) where
  open json use {Doc, Ptr, Float, Double, root, type_of, has_member}

  write_if-clears :
      (may : Bool) (t : JsonValueType) (v : Scalar Float Double) (o : Option Ptr)
      (s : ValueBuilder json) {p : Ptr}
      → o ≡ some p
      → (write_if json may t v o s).value_nodes ≡ []
  write_if-clears may t v none s e = cc e
  write_if-clears true t v (some p) s e = refl
  write_if-clears false t v (some p) s e = refl

  create_at-clears :
      (o : Option Ptr) (b : ValueBuilder json) {p : Ptr}
      → o ≡ some p
      → (create_at json o b).0.value_nodes ≡ []
  create_at-clears none b e = cc e
  create_at-clears (some p) b e = ground arith

  clears :
      (w : Write json) (b : ValueBuilder json)
      → HasTarget json b
      → (write_to json w b).value_nodes ≡ []
  unfolding write_to
  clears (string_of value) b (p, e) =
      write_if-clears _ _ _ _ (start json b) (start-current_value json b ∙ e)
  clears (chars_of value) b (p, e) =
      write_if-clears _ _ _ _ (start json b) (start-current_value json b ∙ e)
  clears (uint_of value) b (p, e) =
      write_if-clears _ _ _ _ (start json b) (start-current_value json b ∙ e)
  clears (int_of value) b (p, e) =
      write_if-clears _ _ _ _ (start json b) (start-current_value json b ∙ e)
  clears (double_of value) b (p, e) =
      write_if-clears _ _ _ _ (start json b) (start-current_value json b ∙ e)
  clears (float_of value) b (p, e) =
      write_if-clears _ _ _ _ (start json b) (start-current_value json b ∙ e)
  clears (bool_of value) b (p, e) =
      write_if-clears _ _ _ _ (start json b) (start-current_value json b ∙ e)
  clears object b (p, e) = create_at-clears b.current_value b e

  -- On a builder that has come about by a constructor and any calls, after an assignment of a plain
  -- value, or the creation of an object, made or refused, the next member that is indexed is one of
  -- the document itself.
  pub write_to-node :
      {b : ValueBuilder json} (w : Write json)
      → Built json b
      → get_node_value json (write_to json w b) ≡ root
  unfolding get_node_value
  write_to-node {b} w built = ap (back_value json) (clears w b (Built-HasTarget json built))
