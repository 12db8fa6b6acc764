-- ===== src/Formats/Json/RapidJson/Values.antt =====
-- The values of the document library as src/piconaut/formats/json/value.cc makes and reads them, as an
-- interface: a value by its content, the tests of its type, and the getters.
use piconaut.Prelude.{ℤ, Str, Bool, true, false, List, [], ◌∷◌, ◌++◌, ◌≡◌, ltb, ◌^◌}
use piconaut.Formats.Json.RapidJson.{
  of_uint, of_int, of_float, of_double, Scalar, string, number, boolean, null, RapidJson,
}

-- What `IsString()`, `IsInt()`, `IsDouble()`, `IsBool()` and `IsNull()` say of a value made from one.
module _ {Float Double : Type 0} where
  abbrev pub string_scalar : Scalar Float Double → Bool
  string_scalar (string s) = true
  string_scalar _ = false

  abbrev pub int_scalar : Scalar Float Double → Bool
  int_scalar (number (of_uint n)) = ltb n (2 ^ 31)
  int_scalar (number (of_int n)) = true
  int_scalar _ = false

  abbrev pub double_scalar : Scalar Float Double → Bool
  double_scalar (number (of_float x)) = true
  double_scalar (number (of_double x)) = true
  double_scalar _ = false

  abbrev pub bool_scalar : Scalar Float Double → Bool
  bool_scalar (boolean b) = true
  bool_scalar _ = false

  abbrev pub null_scalar : Scalar Float Double → Bool
  null_scalar null = true
  null_scalar _ = false

pub record RapidValues (json : RapidJson) : Type 1 where
  pub Val : Type 0
  -- the value at an address; `Value(…)`; `Value(kArrayType)` and `PushBack`
  pub value_at : json.Doc → json.Ptr → Val
  pub of_scalar : Scalar json.Float json.Double → Val
  pub empty_array : Val
  pub push_back : Val → Val → Val
  -- `*p = v`, or `p->CopyFrom(v, allocator)`
  pub put : json.Ptr → Val → json.Doc → json.Doc
  pub is_string : Val → Bool
  pub is_int : Val → Bool
  pub is_double : Val → Bool
  pub is_bool : Val → Bool
  pub is_null : Val → Bool
  pub is_array : Val → Bool
  pub get_string : Val → Str
  pub get_int : Val → ℤ
  pub get_double : Val → json.Double
  pub get_bool : Val → Bool
  pub get_array : Val → List Val

module _ (json : RapidJson) (values : RapidValues json) where
  open json use {Doc, Ptr, Float, Double, root, assign, copy_from}
  open values use {
    Val, value_at, of_scalar, empty_array, push_back, put, is_string, is_int, is_double, is_bool,
    is_null, is_array, get_string, get_int, get_double, get_bool, get_array,
  }

  -- What the documentation says of reading what has been written.
  pub record IsRapidValues : Type 0 where
    pub value-assign :
        (p : Ptr) (s : Scalar Float Double) (d : Doc) → value_at (assign p s d) p ≡ of_scalar s
    pub value-put : (p : Ptr) (v : Val) (d : Doc) → value_at (put p v d) p ≡ v
    pub value-copy_from :
        (p : Ptr) (other d : Doc) → value_at (copy_from p other d) p ≡ value_at other root
    pub is_string-of_scalar : (s : Scalar Float Double) → is_string (of_scalar s) ≡ string_scalar s
    pub is_int-of_scalar : (s : Scalar Float Double) → is_int (of_scalar s) ≡ int_scalar s
    pub is_double-of_scalar : (s : Scalar Float Double) → is_double (of_scalar s) ≡ double_scalar s
    pub is_bool-of_scalar : (s : Scalar Float Double) → is_bool (of_scalar s) ≡ bool_scalar s
    pub is_null-of_scalar : (s : Scalar Float Double) → is_null (of_scalar s) ≡ null_scalar s
    pub get_string-of_scalar : (s : Str) → get_string (of_scalar (string s)) ≡ s
    pub get_int-of_scalar : (n : ℤ) → get_int (of_scalar (number (of_int n))) ≡ n
    pub get_double-of_scalar : (x : Double) → get_double (of_scalar (number (of_double x))) ≡ x
    pub get_bool-of_scalar : (b : Bool) → get_bool (of_scalar (boolean b)) ≡ b
    pub is_array-empty : is_array empty_array ≡ true
    pub is_array-push_back : (a v : Val) → is_array a ≡ true → is_array (push_back a v) ≡ true
    pub is_array-of_scalar : (s : Scalar Float Double) → is_array (of_scalar s) ≡ false
    pub get_array-empty : get_array empty_array ≡ []
    pub get_array-push_back :
        (a v : Val) → is_array a ≡ true → get_array (push_back a v) ≡ get_array a ++ v ∷ []
