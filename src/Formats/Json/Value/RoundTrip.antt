-- ===== src/Formats/Json/Value/RoundTrip.antt =====
-- Reading what has been written, in src/piconaut/formats/json/value.cc.
use piconaut.Prelude.{
  ℤ, Str, Bool, true, List, [], ◌∷◌, ◌++◌, map, map-id, append_assoc, append-nil, ◌⊎◌, inl, ◌≡◌,
  refl, sym, ap, ◌∙◌, arith, nat_eq,
}
use piconaut.Errors.{Error}
use piconaut.Formats.Json.RapidJson.{
  Scalar, string, number, boolean, of_int, of_double, RapidJson, c_str,
}
use piconaut.Formats.Json.RapidJson.Values.{RapidValues, IsRapidValues}
use piconaut.Formats.Json.Value.{
  Value, begin, push_all, write_scalar, write_array, write_string, write_int, write_double,
  write_bool, write_strings, write_ints, write_doubles, write_bools, write_values,
}
use piconaut.Formats.Json.Value.As.{
  checked, collect, item_of, as_values, read_at, as_string, as_int, as_double, as_bool, as_array,
  as_strings, as_ints, as_doubles, as_bools,
}
use piconaut.Formats.Json.Value.Made.{
  Made, HasTarget, Made-HasTarget, begin-current_value, write_scalar-current_value,
  write_array-current_value, write_at-document,
}

pub c_str-c_str : (s : Str) → c_str (c_str s) ≡ c_str s
unfolding c_str
c_str-c_str [] = refl
c_str-c_str (c ∷ s) = ground (arith, c_str-c_str s)

module _ (json : RapidJson) (values : RapidValues json) (laws : IsRapidValues json values) where
  open json use {Doc, Ptr, Float, Double, root, assign}
  open values use {
    Val, value_at, of_scalar, empty_array, push_back, put, is_string, is_int, is_double, is_bool,
    is_null, is_array, get_string, get_int, get_double, get_bool, get_array,
  }

  -- Reading behind a write of a plain value meets that value.
  pub read_at-write_scalar {ℓ} :
      {A : Type ℓ} (read : Val → A ⊎ Error) (scalar : Scalar Float Double) (v : Value json values)
      → HasTarget json values v
      → read_at json values
          (write_scalar json values scalar v).current_value
          read
          (write_scalar json values scalar v).document
        ≡ read (of_scalar scalar)
  unfolding write_scalar
  read_at-write_scalar read scalar v (p, h) =
      ap (λ o. read_at json values o read (write_scalar json values scalar v).document)
        (write_scalar-current_value json values scalar v ∙ h)
      ∙ ap (λ d. read (value_at d p))
          (write_at-document json values (begin json values v).current_value
            (λ p d. assign p scalar d) (begin json values v)
            (begin-current_value json values v ∙ h))
      ∙ ap read (laws.value-assign p scalar (begin json values v).document)

  -- The same, for a vector.
  pub read_at-write_array {ℓ κ} :
      {A : Type ℓ} {B : Type κ} (read : Val → B ⊎ Error) (make : A → Val) (items : List A)
      (v : Value json values)
      → HasTarget json values v
      → read_at json values
          (write_array json values make items v).current_value
          read
          (write_array json values make items v).document
        ≡ read (push_all push_back make empty_array items)
  unfolding write_array
  read_at-write_array read make items v (p, h) =
      ap (λ o. read_at json values o read (write_array json values make items v).document)
        (write_array-current_value json values make items v ∙ h)
      ∙ ap (λ d. read (value_at d p))
          (write_at-document json values (begin json values v).current_value
            (λ p d. put p (push_all push_back make empty_array items) d) (begin json values v)
            (begin-current_value json values v ∙ h))
      ∙ ap read (laws.value-put p _ (begin json values v).document)

  -- A plain value passes the test of its own type, and is read as it was given.
  pub checked_string :
      (message s : Str)
      → checked is_string (λ w. c_str (get_string w)) message (of_scalar (string (c_str s)))
        ≡ inl (c_str s)
  checked_string message s =
      rw
        (
          laws.is_string-of_scalar (string (c_str s)),
          laws.get_string-of_scalar (c_str s),
          c_str-c_str s,
        )
        refl

  pub checked_int :
      (message : Str) (n : ℤ)
      → checked is_int get_int message (of_scalar (number (of_int n))) ≡ inl n
  checked_int message n =
      rw (laws.is_int-of_scalar (number (of_int n)), laws.get_int-of_scalar n) refl

  pub checked_double :
      (message : Str) (x : Double)
      → checked is_double get_double message (of_scalar (number (of_double x))) ≡ inl x
  checked_double message x =
      rw (laws.is_double-of_scalar (number (of_double x)), laws.get_double-of_scalar x) refl

  pub checked_bool :
      (message : Str) (b : Bool) → checked is_bool get_bool message (of_scalar (boolean b)) ≡ inl b
  checked_bool message b = rw (laws.is_bool-of_scalar (boolean b), laws.get_bool-of_scalar b) refl

  -- Where RapidJSON reads what was written (IsRapidValues): on a value that has come about by a
  -- constructor and any calls, an assigned string is read back by As up to its first zero byte, and
  -- an assigned integer, double or truth value as it is.
  pub as-write :
      (v : Value json values) (s : Str) (n : ℤ) (x : Double) (b : Bool)
      → Made json values v
      → (as_string json values (write_string json values s v) ≡ inl (c_str s))
        × (as_int json values (write_int json values n v) ≡ inl n)
        × (as_double json values (write_double json values x v) ≡ inl x)
        × (as_bool json values (write_bool json values b v) ≡ inl b)
  unfolding as_string as_int as_double as_bool write_string write_int write_double write_bool
  as-write v s n x b made =
      let h = Made-HasTarget json values made in
      (
        read_at-write_scalar _ _ v h ∙ checked_string _ s,
        read_at-write_scalar _ _ v h ∙ checked_int _ n,
        read_at-write_scalar _ _ v h ∙ checked_double _ x,
        read_at-write_scalar _ _ v h ∙ checked_bool _ b,
      )

  push_all_array {ℓ} :
      {A : Type ℓ} (make : A → Val) (array : Val) (items : List A)
      → is_array array ≡ true
      → (is_array (push_all push_back make array items) ≡ true)
        × (get_array (push_all push_back make array items) ≡ get_array array ++ map make items)
  push_all_array make array [] h = (h, sym (append-nil (get_array array)))
  push_all_array make array (item ∷ items) h =
      let (kept, got) =
        push_all_array make (push_back array (make item)) items
          (laws.is_array-push_back array (make item) h) in
      (
        kept,
        got
            ∙ rw (laws.get_array-push_back array (make item) h)
                (append_assoc (get_array array) (make item ∷ []) (map make items)),
      )

  collect-map {ℓ κ} :
      {A : Type ℓ} {B : Type κ} (read : Val → B ⊎ Error) (make : A → Val) (f : A → B)
      → ((a : A) → read (make a) ≡ inl (f a))
      → (result : List B) (items : List A)
      → collect read result (map make items) ≡ inl (result ++ map f items)
  collect-map read make f good result [] = ap inl (sym (append-nil result))
  collect-map read make f good result (item ∷ items) = rw (good item) (
      collect-map read make f good (result ++ f item ∷ []) items
      ∙ ap inl (append_assoc result (f item ∷ []) (map f items)))

  -- What is read of each element is read of the vector.
  pub as_array-write_array {ℓ κ} :
      {A : Type ℓ} {B : Type κ} (read : Val → B ⊎ Error) (make : A → Val) (f : A → B)
      → ((a : A) → read (make a) ≡ inl (f a))
      → (items : List A) (v : Value json values) → HasTarget json values v
      → as_array json values read (write_array json values make items v) ≡ inl (map f items)
  unfolding as_array
  as_array-write_array read make f good items v h =
      let (is, got) = push_all_array make empty_array items laws.is_array-empty in
      read_at-write_array _ make items v h
      ∙ rw (is, got, laws.get_array-empty) (collect-map read make f good [] items)

  -- Where RapidJSON reads what was written (IsRapidValues): on a value that has come about by a
  -- constructor and any calls, As reads back an assigned vector: strings up to their first zero
  -- bytes, integers, doubles and truth values as they are, and for each value a new value with a
  -- copy of its document.
  pub as_vector-write_vector :
      (v : Value json values) (ss : List Str) (ns : List ℤ) (xs : List Double) (bs : List Bool)
      (us : List (Value json values))
      → Made json values v
      → (as_strings json values (write_strings json values ss v) ≡ inl (map c_str ss))
        × (as_ints json values (write_ints json values ns v) ≡ inl ns)
        × (as_doubles json values (write_doubles json values xs v) ≡ inl xs)
        × (as_bools json values (write_bools json values bs v) ≡ inl bs)
        × (as_values json values (write_values json values us v)
            ≡ inl (
                map (λ (u : Value json values). item_of json values (value_at u.document root)) us))
  unfolding as_strings as_ints as_doubles as_bools as_values write_strings write_ints write_doubles
      write_bools write_values
  as_vector-write_vector v ss ns xs bs us made =
      let h = Made-HasTarget json values made in
      (
        as_array-write_array _ _ c_str (checked_string _) ss v h,
        as_array-write_array _ _ (λ n. n) (checked_int _) ns v h ∙ ap inl (map-id ns),
        as_array-write_array _ _ (λ x. x) (checked_double _) xs v h ∙ ap inl (map-id xs),
        as_array-write_array _ _ (λ b. b) (checked_bool _) bs v h ∙ ap inl (map-id bs),
        as_array-write_array (λ w. inl (item_of json values w)) _
            (λ (u : Value json values). item_of json values (value_at u.document root)) (λ u. refl)
            us v h,
      )
