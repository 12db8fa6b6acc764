-- ===== src/Formats/Json/Value/As.antt =====
-- `As<T>` and `SerializeToBytes` of src/piconaut/formats/json/value.cc.
use piconaut.Prelude.{
  ℤ, Str, bytes, Bool, true, false, Option, none, some, List, [], ◌∷◌, ◌++◌, ◌⊎◌, inl, inr,
  if◌then◌else◌,
}
use piconaut.Errors.{Error, runtime_error}
use piconaut.Formats.Json.RapidJson.{c_str, RapidJson}
use piconaut.Formats.Json.RapidJson.Values.{RapidValues}
use piconaut.Formats.Json.Value.{Value, new_value, copy_value}

-- `As<std::optional<T>>`: no value for null.
abbrev pub unless_null {ℓ} : {A : Type ℓ} → Bool → A ⊎ Error → Option A ⊎ Error
unless_null true r = inl none
unless_null false (inl a) = inl (some a)
unless_null false (inr e) = inr e

module _ {ℓ κ} {V : Type ℓ} {A : Type κ} where
  -- `As<T>` of a plain type at a value: the test, the getter, and the message.
  abbrev pub checked : (V → Bool) → (V → A) → Str → V → A ⊎ Error
  checked is get message v = if is v then inl (get v) else inr (runtime_error message)

  -- The loop of `As<std::vector<T>>` over the elements, with `result`.
  abbrev pub collect : (V → A ⊎ Error) → List A → List V → List A ⊎ Error
  collect read result [] = inl result
  collect read result (v ∷ rest) = elim (read v) [
    | inl a ↦ collect read (result ++ a ∷ []) rest
    | inr e ↦ inr e
  ]

module _ (json : RapidJson) (values : RapidValues json) where
  open json use {
    Doc, Ptr, Float, Double, root, new_document, type_of, set_object, assign, has_member,
    add_member, member, copy_from, write,
  }
  open values use {
    Val, value_at, of_scalar, empty_array, push_back, put, is_string, is_int, is_double, is_bool,
    is_null, is_array, get_string, get_int, get_double, get_bool, get_array,
  }

  -- `As<T>()`: the current value, or the exception.
  abbrev pub read_at {ℓ} : {A : Type ℓ} → Option Ptr → (Val → A ⊎ Error) → Doc → A ⊎ Error
  read_at none read d = inr (runtime_error (bytes "Null JSON value"))
  read_at (some p) read d = read (value_at d p)

  abbrev pub string_of_value : Val → Str ⊎ Error
  string_of_value =
      checked is_string (λ w. c_str (get_string w)) (bytes "JSON value is not a string")

  abbrev pub int_of_value : Val → ℤ ⊎ Error
  int_of_value = checked is_int get_int (bytes "JSON value is not an integer")

  abbrev pub double_of_value : Val → Double ⊎ Error
  double_of_value = checked is_double get_double (bytes "JSON value is not a double")

  abbrev pub bool_of_value : Val → Bool ⊎ Error
  bool_of_value = checked is_bool get_bool (bytes "JSON value is not a boolean")

  unfoldable pub as_string : Value json values → Str ⊎ Error
  as_string v = read_at v.current_value string_of_value v.document

  unfoldable pub as_int : Value json values → ℤ ⊎ Error
  as_int v = read_at v.current_value int_of_value v.document

  unfoldable pub as_double : Value json values → Double ⊎ Error
  as_double v = read_at v.current_value double_of_value v.document

  unfoldable pub as_bool : Value json values → Bool ⊎ Error
  as_bool v = read_at v.current_value bool_of_value v.document

  -- `As<std::optional<T>>()`, by `As<T>` at a value
  unfoldable pub as_optional {ℓ} :
      {A : Type ℓ} → (Val → A ⊎ Error) → Value json values → Option A ⊎ Error
  as_optional read v = read_at v.current_value (λ w. unless_null (is_null w) (read w)) v.document

  -- `As<std::vector<T>>()`, by the reading of an element
  unfoldable pub as_array {ℓ} :
      {A : Type ℓ} → (Val → A ⊎ Error) → Value json values → List A ⊎ Error
  as_array read v =
      read_at v.current_value
        (λ w.
          if is_array w
          then collect read [] (get_array w)
          else inr (runtime_error (bytes "JSON value is not an array")))
        v.document

  unfoldable pub as_strings : Value json values → List Str ⊎ Error
  unfolding as_array
  as_strings =
      as_array
        (checked is_string (λ w. c_str (get_string w)) (bytes "JSON array element is not a string"))

  unfoldable pub as_ints : Value json values → List ℤ ⊎ Error
  unfolding as_array
  as_ints = as_array (checked is_int get_int (bytes "JSON array element is not an integer"))

  unfoldable pub as_doubles : Value json values → List Double ⊎ Error
  unfolding as_array
  as_doubles = as_array (checked is_double get_double (bytes "JSON array element is not a double"))

  unfoldable pub as_bools : Value json values → List Bool ⊎ Error
  unfolding as_array
  as_bools = as_array (checked is_bool get_bool (bytes "JSON array element is not a boolean"))

  -- `Value item; item.document_.CopyFrom(v, …); result.push_back(item)`
  unfoldable pub item_of : Val → Value json values
  unfolding new_value copy_value
  item_of w =
      copy_value json values
        (record (new_value json values) { document = put root w (new_value json values).document })

  unfoldable pub as_values : Value json values → List (Value json values) ⊎ Error
  unfolding as_array item_of
  as_values = as_array (λ w. inl (item_of w))

  -- `As<T>()` of any other type
  unfoldable pub as_other {ℓ} : (A : Type ℓ) → Value json values → A ⊎ Error
  as_other A v =
      read_at v.current_value
        (λ w. inr (runtime_error (bytes "Unsupported type for JSON deserialization"))) v.document

  -- `SerializeToBytes()`
  unfoldable pub value_to_bytes : Value json values → Str ⊎ Error
  value_to_bytes v = elim (write v.document) [
    | none ↦ inr (runtime_error (bytes "Failed to serialize JSON document."))
    | some text ↦ inl text
  ]
