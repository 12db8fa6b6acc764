-- ===== src/Formats/Json/ValueBuilder/Targets.antt =====
-- The steps of a `ValueBuilder` of src/piconaut/formats/json/value_builder.cc, and the pointer to the
-- current value, which each assignment tests.
use piconaut.Prelude.{
  if_some, ℕ, ℤ, Str, Bool, true, false, Bool-cases, inl, inr, Option, none, some, ◌≡◌, refl, ◌∙◌,
  arith,
}
use piconaut.Formats.Json.RapidJson.{RapidJson, Scalar, c_str}
use piconaut.Formats.Json.ValueBuilder.{
  JsonValueType, ValueBuilder, new_builder, copy_builder, get_node_value, start, at_member, index,
  assign_builder, write_if, assign_string, assign_chars, assign_uint, assign_int, assign_double,
  assign_float, assign_bool, create_at, create_json_object, is_object,
}

module _ (json : RapidJson) where
  open json use {Doc, Ptr, Float, Double, root, type_of}

  -- The calls that write a plain value, or an empty object.
  pub data Write : Type 0 where
    string_of chars_of : Str → Write
    uint_of : ℕ → Write
    int_of : ℤ → Write
    double_of : Double → Write
    float_of : Float → Write
    bool_of : Bool → Write
    object : Write

  unfoldable pub write_to : Write → ValueBuilder json → ValueBuilder json
  unfolding assign_string assign_chars assign_uint assign_int assign_double assign_float assign_bool
      create_json_object
  write_to (string_of value) b = assign_string json value b
  write_to (chars_of value) b = assign_chars json value b
  write_to (uint_of value) b = assign_uint json value b
  write_to (int_of value) b = assign_int json value b
  write_to (double_of value) b = assign_double json value b
  write_to (float_of value) b = assign_float json value b
  write_to (bool_of value) b = assign_bool json value b
  write_to object b = (create_json_object json b).0

  -- Any call that changes a builder.
  pub data Step (b : ValueBuilder json) : ValueBuilder json → Type 0 where
    indexing : (key : Str) {b' : ValueBuilder json} → index json key b ≡ some b' → Step b b'
    writing : (w : Write) → Step b (write_to w b)
    assigning : (other : ValueBuilder json) → Step b (assign_builder json other b)

  pub data Built : ValueBuilder json → Type 0 where
    fresh : Built (new_builder json)
    copied : (other : ValueBuilder json) → Built (copy_builder json other)
    stepped : {b b' : ValueBuilder json} → Built b → Step b b' → Built b'

  abbrev pub HasTarget : ValueBuilder json → Type 0
  HasTarget b = (p : Ptr) × (b.current_value ≡ some p)

  pub start-current_value : (b : ValueBuilder json) → (start json b).current_value ≡ b.current_value
  unfolding start
  start-current_value b = ground arith

  write_if-HasTarget :
      (may : Bool) (t : JsonValueType) (v : Scalar Float Double) (o : Option Ptr)
      (s : ValueBuilder json)
      → HasTarget s
      → HasTarget (write_if json may t v o s)
  write_if-HasTarget may t v none s h = h
  write_if-HasTarget true t v (some p) s h = h
  write_if-HasTarget false t v (some p) s h = h

  start-HasTarget : (b : ValueBuilder json) → HasTarget b → HasTarget (start json b)
  start-HasTarget b (p, e) = (p, start-current_value b ∙ e)

  write_to-HasTarget : (w : Write) (b : ValueBuilder json) → HasTarget b → HasTarget (write_to w b)
  unfolding write_to
  write_to-HasTarget (string_of value) b h =
      write_if-HasTarget _ _ _ _ (start json b) (start-HasTarget b h)
  write_to-HasTarget (chars_of value) b h =
      write_if-HasTarget _ _ _ _ (start json b) (start-HasTarget b h)
  write_to-HasTarget (uint_of value) b h =
      write_if-HasTarget _ _ _ _ (start json b) (start-HasTarget b h)
  write_to-HasTarget (int_of value) b h =
      write_if-HasTarget _ _ _ _ (start json b) (start-HasTarget b h)
  write_to-HasTarget (double_of value) b h =
      write_if-HasTarget _ _ _ _ (start json b) (start-HasTarget b h)
  write_to-HasTarget (float_of value) b h =
      write_if-HasTarget _ _ _ _ (start json b) (start-HasTarget b h)
  write_to-HasTarget (bool_of value) b h =
      write_if-HasTarget _ _ _ _ (start json b) (start-HasTarget b h)
  write_to-HasTarget object b h = create_at-HasTarget b.current_value b h
    where
      create_at-HasTarget :
          (o : Option Ptr) (b : ValueBuilder json) → HasTarget b → HasTarget (create_at json o b).0
      create_at-HasTarget none b h = h
      create_at-HasTarget (some p) b h = ground arith

  at_member-HasTarget :
      (key : Str) (node : Ptr) (s : ValueBuilder json) → HasTarget (at_member json key node s)
  at_member-HasTarget key node s = elim (Bool-cases (json.has_member s.document node (c_str key))) [
    | inl e ↦ rw e (_, refl)
    | inr e ↦ rw e (_, refl)
  ]

  -- Where a member is found or made, the value that holds it is an object.
  pub index-at_member :
      (key : Str) (b b' : ValueBuilder json)
      → index json key b ≡ some b'
      → (is_object (type_of (start json b).document (get_node_value json (start json b))) ≡ true)
        × (b' ≡ at_member json key (get_node_value json (start json b)) (start json b))
  unfolding index
  index-at_member key b b' e =
      if_some (is_object (type_of (start json b).document (get_node_value json (start json b)))) _
        b' e

  Step-HasTarget : {b b' : ValueBuilder json} → Step b b' → HasTarget b → HasTarget b'
  Step-HasTarget {b} {b'} (indexing key e) h =
      rw (index-at_member key b b' e).1
        (at_member-HasTarget key (get_node_value json (start json b)) (start json b))
  Step-HasTarget {b} (writing w) h = write_to-HasTarget w b h
  Step-HasTarget {b} (assigning other) h = unfold assign_builder in (_, refl)

  -- However a builder has come about, by a constructor and then any calls that index, assign or
  -- create an object, its pointer to the current value is not null.
  pub Built-HasTarget : {b : ValueBuilder json} → Built b → HasTarget b
  Built-HasTarget fresh = unfold new_builder in (root, refl)
  Built-HasTarget (copied other) = unfold copy_builder in (root, refl)
  Built-HasTarget (stepped b s) = Step-HasTarget s (Built-HasTarget b)
