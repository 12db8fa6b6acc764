-- ===== src/Formats/Json/Value/Reading.antt =====
-- Reading another type than what was written, optional values, and the elements of a vector, in
-- src/piconaut/formats/json/value.cc.
use piconaut.Prelude.{
  ℤ, Str, bytes, Bool, false, Option, none, some, ◌⊎◌, inl, inr, ◌≡◌, ◌≢◌, refl, ◌∙◌, if◌then◌else◌,
}
use mathlib.Core.Option
use piconaut.Errors.{Error, runtime_error}
use piconaut.Formats.Json.RapidJson.{
  Scalar, string, number, boolean, null, of_int, of_double, RapidJson, IsRapidJson, c_str,
}
use piconaut.Formats.Json.RapidJson.Nested.{IsRapidNested}
use piconaut.Formats.Json.RapidJson.Values.{
  RapidValues, IsRapidValues, string_scalar, int_scalar, double_scalar, bool_scalar, null_scalar,
}
use piconaut.Formats.Json.Value.{
  Value, begin, new_value, copy_value, write_scalar, write_optional, write_null, write_string,
  write_int, write_double, write_bool, subscript,
}
use piconaut.Formats.Json.Value.As.{
  string_of_value, int_of_value, double_of_value, bool_of_value, as_string, as_int, as_double,
  as_bool, as_optional, item_of,
}
use piconaut.Formats.Json.Value.Made.{Made, HasTarget, Made-HasTarget}
use piconaut.Formats.Json.Value.RoundTrip.{
  read_at-write_scalar, checked_string, checked_int, checked_double, checked_bool,
}

module _ (json : RapidJson) (values : RapidValues json) (laws : IsRapidValues json values) where
  open json use {
    Doc, Ptr, Float, Double, root, new_document, type_of, set_object, assign, has_member,
    add_member, member, copy_from,
  }
  open values use {
    Val, value_at, of_scalar, get_string, get_int, get_double, get_bool, is_null, put,
  }

  -- Where RapidJSON reads what was written (IsRapidValues): on a value that has come about by a
  -- constructor and any calls, after the assignment of any plain value each of the four As returns
  -- what its getter reads where the value is of its type, and throws the error of that type
  -- otherwise.
  pub as-write_scalar :
      (scalar : Scalar Float Double) (v : Value json values)
      → Made json values v
      → (as_string json values (write_scalar json values scalar v) ≡ (
          if string_scalar scalar
          then inl (c_str (get_string (of_scalar scalar)))
          else inr (runtime_error (bytes "JSON value is not a string"))))
        × (as_int json values (write_scalar json values scalar v) ≡ (
            if int_scalar scalar
            then inl (get_int (of_scalar scalar))
            else inr (runtime_error (bytes "JSON value is not an integer"))))
        × (as_double json values (write_scalar json values scalar v) ≡ (
            if double_scalar scalar
            then inl (get_double (of_scalar scalar))
            else inr (runtime_error (bytes "JSON value is not a double"))))
        × (as_bool json values (write_scalar json values scalar v) ≡ (
            if bool_scalar scalar
            then inl (get_bool (of_scalar scalar))
            else inr (runtime_error (bytes "JSON value is not a boolean"))))
  unfolding as_string as_int as_double as_bool
  as-write_scalar scalar v made =
      let h = Made-HasTarget json values made in
      (
        read_at-write_scalar json values laws _ scalar v h
            ∙ rw (laws.is_string-of_scalar scalar) refl,
        read_at-write_scalar json values laws _ scalar v h ∙ rw (laws.is_int-of_scalar scalar) refl,
        read_at-write_scalar json values laws _ scalar v h
            ∙ rw (laws.is_double-of_scalar scalar) refl,
        read_at-write_scalar json values laws _ scalar v h
            ∙ rw (laws.is_bool-of_scalar scalar) refl,
      )

  -- An optional value of a plain type `A`, by its scalar and by what is read of that.
  module _ {A : Type 0} (make : A → Scalar Float Double) (read : Val → A ⊎ Error) (f : A → A)
      (all : Option A → Option A) (all_none : all none ≡ none)
      (all_some : (a : A) → all (some a) ≡ some (f a))
      (good : (a : A) → read (of_scalar (make a)) ≡ inl (f a))
      (not_null : (a : A) → null_scalar (make a) ≡ false) where
    write_null-lem :
        (v : Value json values) (o : Option Ptr) {p : Ptr}
        → v.current_value ≡ o
        → o ≡ some p
        → (v' : Value json values) × (write_null json values o v ≡ some v')
          × (as_optional json values read v' ≡ inl (all none))
    unfolding as_optional
    write_null-lem v none e h = cc h
    write_null-lem v (some p) e h = (
      record v { document = assign p null v.document },
      refl,
      rw (e, laws.value-assign p null v.document, laws.is_null-of_scalar null, all_none) refl,
    )

    optional_lem :
        (o : Option A) (v : Value json values)
        → HasTarget json values v
        → (v' : Value json values) × (write_optional json values
              (λ a. write_scalar json values (make a))
              o
              v
            ≡ some v')
          × (as_optional json values read v' ≡ inl (all o))
    unfolding as_optional
    optional_lem none v (p, h) = write_null-lem v v.current_value refl h
    optional_lem (some a) v h = (
      write_scalar json values (make a) v,
      refl,
      read_at-write_scalar json values laws _ (make a) v h
          ∙ rw (laws.is_null-of_scalar (make a), not_null a, good a, all_some a) refl,
    )

  -- Where RapidJSON reads what was written (IsRapidValues): on a value that has come about by a
  -- constructor and any calls, the assignment of an optional string, integer, double or truth value
  -- ends, with or without a value, and As of the optional type reads it back (a string up to its
  -- first zero byte).
  pub as_optional-write_optional :
      (os : Option Str) (on : Option ℤ) (ox : Option Double) (ob : Option Bool)
      (v : Value json values)
      → Made json values v
      → ((v' : Value json values) × (write_optional json values (write_string json values) os v
            ≡ some v')
          × (as_optional json values (string_of_value json values) v' ≡ inl (Option.map c_str os)))
        × ((v' : Value json values) × (write_optional json values (write_int json values) on v
              ≡ some v')
            × (as_optional json values (int_of_value json values) v' ≡ inl on))
        × ((v' : Value json values) × (write_optional json values (write_double json values) ox v
              ≡ some v')
            × (as_optional json values (double_of_value json values) v' ≡ inl ox))
        × ((v' : Value json values) × (write_optional json values (write_bool json values) ob v
              ≡ some v')
            × (as_optional json values (bool_of_value json values) v' ≡ inl ob))
  unfolding write_string write_int write_double write_bool
  as_optional-write_optional os on ox ob v made =
      let h = Made-HasTarget json values made in
      (
        optional_lem (λ s. string (c_str s)) _ c_str (Option.map c_str) refl (λ s. refl)
            (checked_string json values laws _) (λ s. refl) os v h,
        optional_lem (λ n. number (of_int n)) _ (λ n. n) (λ o. o) refl (λ n. refl)
            (checked_int json values laws _) (λ n. refl) on v h,
        optional_lem (λ x. number (of_double x)) _ (λ x. x) (λ o. o) refl (λ x. refl)
            (checked_double json values laws _) (λ x. refl) ox v h,
        optional_lem (λ b. boolean b) _ (λ b. b) (λ o. o) refl (λ b. refl)
            (checked_bool json values laws _) (λ b. refl) ob v h,
      )

  -- Where RapidJSON reads what was written, SetObject leaves no members and AddMember adds one
  -- name: an element that As of a vector of values returns holds a copy of the array's element, but
  -- operator[] on it with any key goes through and leaves its document no member of another name.
  pub item_forgets :
      (rapid : IsRapidJson json) (nested : IsRapidNested json) (w : Val) (key other : Str)
      → c_str key ≢ other
      → (value_at (item_of json values w).document root ≡ w)
        × (i : Value json values) × (subscript json values key (item_of json values w) ≡ some i)
        × (has_member i.document root other ≡ false)
  unfolding item_of begin copy_value new_value subscript
  item_forgets rapid nested w key other ne =
      let d = copy_from root (put root w (set_object root new_document)) new_document in
      let object = rapid.type-set_object root d in
      (
        laws.value-copy_from root _ _ ∙ laws.value-put root w _,
        record {
          document = add_member root (c_str key) (set_object root d);
          current_value =
              some (member (add_member root (c_str key) (set_object root d)) root (c_str key));
          is_empty = false;
        },
        rw (object, rapid.has_member-set_object root (c_str key) d) refl,
        nested.others-add_member (c_str key) other (set_object root d) object ne
            ∙ rapid.has_member-set_object root other d,
      )
