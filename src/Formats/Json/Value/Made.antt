-- ===== src/Formats/Json/Value/Made.antt =====
-- The values that the calls of src/piconaut/formats/json/value.cc make, and their pointer to the
-- current value, which the writes of null go through with no test.
use piconaut.Prelude.{ℤ, Str, Bool, Option, none, some, List, ◌≡◌, refl, ◌∙◌, arith, if_some}
use piconaut.Formats.Json.RapidJson.{Scalar, RapidJson, c_str}
use piconaut.Formats.Json.RapidJson.Values.{RapidValues}
use piconaut.Formats.Json.ValueBuilder.{is_object}
use piconaut.Formats.Json.Value.{
  Value, new_value, copy_value, assign_value, begin, subscript, at_key_of, write_at, write_scalar,
  write_null, write_array, write_strings, write_ints, write_doubles, write_bools, write_values,
}
use piconaut.Formats.Json.Value.As.{item_of}

module _ (json : RapidJson) (values : RapidValues json) where
  open json use {Doc, Ptr, Float, Double, root, type_of, assign}
  open values use {Val}

  pub data Made : Value json values → Type 0 where
    fresh : Made (new_value json values)
    copied : (other : Value json values) → Made (copy_value json values other)
    read_item : (w : Val) → Made (item_of json values w)
    assigning : (other v : Value json values) → Made v → Made (assign_value json values other v)
    indexing :
        (key : Str) {v v' : Value json values}
        → subscript json values key v ≡ some v'
        → Made v
        → Made v'
    plain :
        (scalar : Scalar Float Double) (v : Value json values)
        → Made v
        → Made (write_scalar json values scalar v)
    clearing :
        {v v' : Value json values}
        → write_null json values v.current_value v ≡ some v'
        → Made v
        → Made v'
    strings_of :
        (items : List Str) (v : Value json values)
        → Made v
        → Made (write_strings json values items v)
    ints_of :
        (items : List ℤ) (v : Value json values) → Made v → Made (write_ints json values items v)
    doubles_of :
        (items : List Double) (v : Value json values)
        → Made v
        → Made (write_doubles json values items v)
    bools_of :
        (items : List Bool) (v : Value json values)
        → Made v
        → Made (write_bools json values items v)
    values_of :
        (items : List (Value json values)) (v : Value json values)
        → Made v
        → Made (write_values json values items v)

  abbrev pub HasTarget : Value json values → Type 0
  HasTarget v = (p : Ptr) × (v.current_value ≡ some p)

  pub begin-current_value :
      (v : Value json values) → (begin json values v).current_value ≡ v.current_value
  unfolding begin
  begin-current_value v = ground arith

  write_at-current_value :
      (o : Option Ptr) (change : Ptr → Doc → Doc) (s : Value json values)
      → (write_at json values o change s).current_value ≡ s.current_value
  write_at-current_value none change s = refl
  write_at-current_value (some p) change s = refl

  pub write_scalar-current_value :
      (scalar : Scalar Float Double) (v : Value json values)
      → (write_scalar json values scalar v).current_value ≡ v.current_value
  unfolding write_scalar
  write_scalar-current_value scalar v =
      write_at-current_value _ _ (begin json values v) ∙ begin-current_value v

  pub write_array-current_value {ℓ} :
      {A : Type ℓ} (make : A → Val) (items : List A) (v : Value json values)
      → (write_array json values make items v).current_value ≡ v.current_value
  unfolding write_array
  write_array-current_value make items v =
      write_at-current_value _ _ (begin json values v) ∙ begin-current_value v

  subscript-current_value :
      (key : Str) (v v' : Value json values) → subscript json values key v ≡ some v' → HasTarget v'
  unfolding subscript
  subscript-current_value key v v' e =
      rw
        (if_some (is_object (type_of (begin json values v).document root))
          (at_key_of json values (c_str key) (begin json values v)) v' e).1
        (_, refl)

  write_null-HasTarget :
      (o : Option Ptr) (v v' : Value json values)
      → write_null json values o v ≡ some v'
      → HasTarget v
      → HasTarget v'
  write_null-HasTarget none v v' e h = cc e
  write_null-HasTarget (some p) v v' e h = ground arith

  pub Made-HasTarget : {v : Value json values} → Made v → HasTarget v
  unfolding new_value copy_value assign_value item_of write_strings write_ints write_doubles
      write_bools write_values
  Made-HasTarget fresh = (root, refl)
  Made-HasTarget (copied other) = (root, refl)
  Made-HasTarget (read_item w) = (root, refl)
  Made-HasTarget (assigning other v m) = (root, refl)
  Made-HasTarget (indexing key {v} {v'} e m) = subscript-current_value key v v' e
  Made-HasTarget (plain scalar v m) =
      let (p, h) = Made-HasTarget m in (p, write_scalar-current_value scalar v ∙ h)
  Made-HasTarget (clearing {v} {v'} e m) =
      write_null-HasTarget v.current_value v v' e (Made-HasTarget m)
  Made-HasTarget (strings_of items v m) =
      let (p, h) = Made-HasTarget m in (p, write_array-current_value _ items v ∙ h)
  Made-HasTarget (ints_of items v m) =
      let (p, h) = Made-HasTarget m in (p, write_array-current_value _ items v ∙ h)
  Made-HasTarget (doubles_of items v m) =
      let (p, h) = Made-HasTarget m in (p, write_array-current_value _ items v ∙ h)
  Made-HasTarget (bools_of items v m) =
      let (p, h) = Made-HasTarget m in (p, write_array-current_value _ items v ∙ h)
  Made-HasTarget (values_of items v m) =
      let (p, h) = Made-HasTarget m in (p, write_array-current_value _ items v ∙ h)

  pub write_at-document :
      (o : Option Ptr) (change : Ptr → Doc → Doc) (s : Value json values) {p : Ptr}
      → o ≡ some p
      → (write_at json values o change s).document ≡ change p s.document
  write_at-document none change s e = cc e
  write_at-document (some q) change s e = cc e
