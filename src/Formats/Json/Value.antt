-- ===== src/Formats/Json/Value.antt =====
-- src/piconaut/formats/json/value.cc and value.h. A method returns the new value; reading returns what
-- is read, or the exception.
pub mod As
pub mod Made
pub mod RoundTrip
pub mod Reading
use piconaut.Prelude.{
  ℤ, Str, bytes, Bool, true, false, Option, none, some, List, [], ◌∷◌, ◌++◌, ◌⊎◌, inl, inr,
  if◌then◌else◌,
}
use piconaut.Errors.{Error, runtime_error}
use piconaut.Formats.Json.RapidJson.{
  Scalar, string, number, boolean, null, of_int, of_double, c_str, RapidJson,
}
use piconaut.Formats.Json.RapidJson.Values.{RapidValues}
use piconaut.Formats.Json.ValueBuilder.{is_object}

-- The loops of `operator=` over a vector, with `array`.
abbrev pub push_all {ℓ κ} : {V : Type ℓ} {A : Type κ} → (V → V → V) → (A → V) → V → List A → V
push_all push make array [] = array
push_all push make array (item ∷ rest) = push_all push make (push array (make item)) rest

module _ (json : RapidJson) (values : RapidValues json) where
  open json use {
    Doc, Ptr, Float, Double, root, new_document, type_of, set_object, assign, has_member,
    add_member, member, copy_from, write,
  }
  open values use {
    Val, value_at, of_scalar, empty_array, push_back, put, is_string, is_int, is_double, is_bool,
    is_null, is_array, get_string, get_int, get_double, get_bool, get_array,
  }

  -- `nullptr` is `none`.
  pub record Value : Type 0 where
    pub document : Doc
    pub current_value : Option Ptr
    pub is_empty : Bool

  unfoldable pub new_value : Value
  new_value = record {
    document = set_object root new_document;
    current_value = some root;
    is_empty = true;
  }

  unfoldable pub copy_value : Value → Value
  copy_value other = record {
    document = copy_from root other.document new_document;
    current_value = some root;
    is_empty = other.is_empty;
  }

  -- `operator=(const Value&)`, for another value
  unfoldable pub assign_value : Value → Value → Value
  assign_value other v = record {
    document = copy_from root other.document v.document;
    current_value = some root;
    is_empty = other.is_empty;
  }

  -- The first lines of each method.
  unfoldable pub begin : Value → Value
  begin v =
      if v.is_empty then record v { document = set_object root v.document; is_empty = false } else v

  abbrev pub at_key_of : Str → Value → Value
  at_key_of name s =
      let d =
        if has_member s.document root name then s.document else add_member root name s.document in
      record s { document = d; current_value = some (member d root name) }

  -- `operator[](key)`; the members of a document that is no object are a failed assertion, `none`.
  unfoldable pub subscript : Str → Value → Option Value
  unfolding begin
  subscript key v =
      let s = begin v in
      if is_object (type_of s.document root) then some (at_key_of (c_str key) s) else none

  -- `if (current_value_) *current_value_ = …`
  abbrev pub write_at : Option Ptr → (Ptr → Doc → Doc) → Value → Value
  write_at none change s = s
  write_at (some p) change s = record s { document = change p s.document }

  -- `operator=` of a plain value
  unfoldable pub write_scalar : Scalar Float Double → Value → Value
  unfolding begin
  write_scalar scalar v = let s = begin v in write_at s.current_value (λ p d. assign p scalar d) s

  unfoldable pub write_string : Str → Value → Value
  unfolding write_scalar
  write_string value v = write_scalar (string (c_str value)) v

  -- `operator=(const char*)`
  unfoldable pub write_chars : Str → Value → Value
  unfolding write_scalar
  write_chars value v = write_scalar (string (c_str value)) v

  unfoldable pub write_int : ℤ → Value → Value
  unfolding write_scalar
  write_int value v = write_scalar (number (of_int value)) v

  unfoldable pub write_double : Double → Value → Value
  unfolding write_scalar
  write_double value v = write_scalar (number (of_double value)) v

  unfoldable pub write_bool : Bool → Value → Value
  unfolding write_scalar
  write_bool value v = write_scalar (boolean value) v

  -- `*current_value_ = Value(kNullType)`; through a null pointer the behaviour is undefined, `none`.
  abbrev pub write_null : Option Ptr → Value → Option Value
  write_null none v = none
  write_null (some p) v = some (record v { document = assign p null v.document })

  -- `operator=(const std::optional<T>&)`, by the assignment of a `T`
  abbrev pub write_optional {ℓ} :
      {A : Type ℓ} → (A → Value → Value) → Option A → Value → Option Value
  write_optional write_some (some value) v = some (write_some value v)
  write_optional write_some none v = write_null v.current_value v

  -- `operator=(const std::vector<T>&)`, by the value made of a `T`
  unfoldable pub write_array {ℓ} : {A : Type ℓ} → (A → Val) → List A → Value → Value
  unfolding begin
  write_array make items v =
      let s = begin v in
      write_at s.current_value (λ p d. put p (push_all push_back make empty_array items) d) s

  unfoldable pub write_strings : List Str → Value → Value
  unfolding write_array
  write_strings items v = write_array (λ item. of_scalar (string (c_str item))) items v

  unfoldable pub write_ints : List ℤ → Value → Value
  unfolding write_array
  write_ints items v = write_array (λ item. of_scalar (number (of_int item))) items v

  unfoldable pub write_doubles : List Double → Value → Value
  unfolding write_array
  write_doubles items v = write_array (λ item. of_scalar (number (of_double item))) items v

  unfoldable pub write_bools : List Bool → Value → Value
  unfolding write_array
  write_bools items v = write_array (λ item. of_scalar (boolean item)) items v

  -- `operator=(const std::vector<Value>&)`: copies of the documents
  unfoldable pub write_values : List Value → Value → Value
  unfolding write_array
  write_values items v = write_array (λ (item : Value). value_at item.document root) items v
