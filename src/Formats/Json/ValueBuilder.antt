-- ===== src/Formats/Json/ValueBuilder.antt =====
-- src/piconaut/formats/json/value_builder.cc and value_builder.h. A method returns the new builder;
-- what it writes to `std::cerr` is left out.
pub mod Targets
pub mod Typed
pub mod Members
pub mod Nesting
pub mod Objects
use piconaut.Prelude.{
  ℕ, ℤ, Str, bytes, Bool, true, false, Option, none, some, List, [], ◌∷◌, ◌++◌, ◌⊎◌, inl, inr,
  length, take, take_all, ◌≡◌, arith, ◌||◌, if◌then◌else◌,
}
use piconaut.Errors.{Error, runtime_error}
use piconaut.Formats.Json.JsonBuffer.{JsonBuffer, filled}
use piconaut.Formats.Json.RapidJson.{
  RapidType, null_type, false_type, true_type, object_type, array_type, string_type, number_type,
  Scalar, string, number, boolean, Number, of_uint, of_int, of_float, of_double, c_str, RapidJson,
}

pub data JsonValueType : Type 0 where
  unknown : JsonValueType
  known : RapidType → JsonValueType

-- `static_cast<JsonValueType>(…)` of a type of the document library, whose values agree
abbrev pub value_type : RapidType → JsonValueType
value_type t = known t

-- `current_type_ == kUnknown || current_type_ == …`
abbrev pub may_be_string : JsonValueType → Bool
may_be_string unknown = true
may_be_string (known string_type) = true
may_be_string (known _) = false

abbrev pub may_be_number : JsonValueType → Bool
may_be_number unknown = true
may_be_number (known number_type) = true
may_be_number (known _) = false

abbrev pub may_be_boolean : JsonValueType → Bool
may_be_boolean unknown = true
may_be_boolean (known false_type) = true
may_be_boolean (known true_type) = true
may_be_boolean (known _) = false

abbrev pub is_unknown : JsonValueType → Bool
is_unknown unknown = true
is_unknown (known t) = false

abbrev pub is_object : RapidType → Bool
is_object object_type = true
is_object _ = false

module _ (json : RapidJson) where
  open json use {
    Doc, Ptr, Float, Double, root, new_document, type_of, set_object, assign, has_member,
    add_member, member, copy_from, write, write_pretty,
  }

  pub record JsonBuilderNode : Type 0 where
    pub key : Str
    pub value : Ptr

  -- `nullptr` is `none`.
  pub record ValueBuilder : Type 0 where
    pub document : Doc
    pub current_value : Option Ptr
    pub is_empty : Bool
    pub current_type : JsonValueType
    pub value_nodes : List JsonBuilderNode

  unfoldable pub new_builder : ValueBuilder
  new_builder = record {
    document = set_object root new_document;
    current_value = some root;
    is_empty = true;
    current_type = unknown;
    value_nodes = [];
  }

  unfoldable pub copy_builder : ValueBuilder → ValueBuilder
  copy_builder other = record {
    document = copy_from root other.document new_document;
    current_value = some root;
    is_empty = other.is_empty;
    current_type = unknown;
    value_nodes = [];
  }

  abbrev pub back_value : List JsonBuilderNode → Ptr
  back_value [] = root
  back_value (node ∷ []) = node.value
  back_value (node ∷ next ∷ nodes) = back_value (next ∷ nodes)

  unfoldable pub get_node_value : ValueBuilder → Ptr
  get_node_value b = back_value b.value_nodes

  -- The first lines of each method: an empty builder becomes an object.
  unfoldable pub start : ValueBuilder → ValueBuilder
  start b =
      if b.is_empty then record b { document = set_object root b.document; is_empty = false } else b

  -- `operator=(const ValueBuilder&)`, for another builder
  unfoldable pub assign_builder : ValueBuilder → ValueBuilder → ValueBuilder
  unfolding start get_node_value
  assign_builder other b =
      let s = start b in
      record s {
        document = copy_from (get_node_value s) other.document s.document;
        current_type = value_type (type_of other.document root);
        current_value = some (get_node_value s);
      }

  -- `operator[](key)` at the node that it goes by; the members of a value that is no object are a
  -- failed assertion, `none`.
  abbrev pub at_member : Str → Ptr → ValueBuilder → ValueBuilder
  at_member key node s =
      let name = c_str key in
      let added = add_member node name s.document in
      let made = record s {
        document = added;
        current_type = unknown;
        current_value = some (member added node name);
        value_nodes = s.value_nodes ++ record { key = key; value = member added node name } ∷ [];
      } in
      let found = record s {
        current_value = some (member s.document node name);
        current_type = value_type (type_of s.document (member s.document node name));
        value_nodes =
            s.value_nodes ++ record { key = key; value = member s.document node name } ∷ [];
      } in
      if has_member s.document node name then found else made

  unfoldable pub index : Str → ValueBuilder → Option ValueBuilder
  unfolding start get_node_value
  index key b =
      let s = start b in
      if is_object (type_of s.document (get_node_value s))
      then some (at_member key (get_node_value s) s)
      else none

  -- What each `operator=` of a plain value does with its test: write, or refuse the change of type;
  -- the nodes are cleared either way.
  abbrev pub write_if :
      Bool → JsonValueType → Scalar Float Double → Option Ptr → ValueBuilder → ValueBuilder
  write_if may t v none s = s
  write_if true t v (some p) s = record s {
    document = assign p v s.document;
    current_type = t;
    value_nodes = [];
  }
  write_if false t v (some p) s = record s { value_nodes = [] }

  -- `operator=(const std::string&)`
  unfoldable pub assign_string : Str → ValueBuilder → ValueBuilder
  unfolding start
  assign_string value b =
      let s = start b in
      write_if (may_be_string s.current_type) (known string_type) (string (c_str value))
        s.current_value s

  -- `operator=(const char*)`, which leaves the type as it is
  unfoldable pub assign_chars : Str → ValueBuilder → ValueBuilder
  unfolding start
  assign_chars value b =
      let s = start b in
      write_if (may_be_string s.current_type) s.current_type (string (c_str value)) s.current_value
        s

  -- `operator=` of `unsigned int`, `int`, `double` and `float`
  abbrev pub assign_number : Number Float Double → ValueBuilder → ValueBuilder
  assign_number value b =
      let s = start b in
      write_if (may_be_number s.current_type) (known number_type) (number value) s.current_value s

  unfoldable pub assign_uint : ℕ → ValueBuilder → ValueBuilder
  unfolding start
  assign_uint value b = assign_number (of_uint value) b

  unfoldable pub assign_int : ℤ → ValueBuilder → ValueBuilder
  unfolding start
  assign_int value b = assign_number (of_int value) b

  unfoldable pub assign_double : Double → ValueBuilder → ValueBuilder
  unfolding start
  assign_double value b = assign_number (of_double value) b

  unfoldable pub assign_float : Float → ValueBuilder → ValueBuilder
  unfolding start
  assign_float value b = assign_number (of_float value) b

  -- `operator=(bool)`, which leaves the type as it is
  unfoldable pub assign_bool : Bool → ValueBuilder → ValueBuilder
  unfolding start
  assign_bool value b =
      let s = start b in
      write_if (may_be_boolean s.current_type) s.current_type (boolean value) s.current_value s

  abbrev pub no_target : Error
  no_target = runtime_error (
      bytes
        "please call `json[\"key_name\"].CreateJsonObject()` before call CreateJsonObject on root")

  -- `CreateJsonObject()`, with the exception that it throws
  abbrev pub create_at : Option Ptr → ValueBuilder → ValueBuilder × Option Error
  create_at none b = (b, some no_target)
  create_at (some p) b =
      if is_unknown b.current_type
      then (
        record b {
          document = set_object p b.document;
          current_type = known object_type;
          value_nodes = [];
        },
        none,
      )
      else (record b { value_nodes = [] }, none)

  unfoldable pub create_json_object : ValueBuilder → ValueBuilder × Option Error
  create_json_object b = create_at b.current_value b

  abbrev pub serialized : Option Str → JsonBuffer ⊎ Error
  serialized none = inr (runtime_error (bytes "Failed to serialize JSON document."))
  serialized (some text) = inl (filled text)

  -- `SerializeToBytes()` and `SerializePrettyToBytes()`: the buffer, or the exception
  unfoldable pub serialize_to_bytes : ValueBuilder → JsonBuffer ⊎ Error
  serialize_to_bytes b = serialized (write b.document)

  unfoldable pub serialize_pretty_to_bytes : ValueBuilder → JsonBuffer ⊎ Error
  serialize_pretty_to_bytes b = serialized (write_pretty b.document)
