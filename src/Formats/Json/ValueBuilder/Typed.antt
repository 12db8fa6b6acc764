-- ===== src/Formats/Json/ValueBuilder/Typed.antt =====
-- The type that a `ValueBuilder` of src/piconaut/formats/json/value_builder.cc tests before it writes,
-- and the type of the value in the document.
use piconaut.Prelude.{
  Str, Bool, true, false, Bool-cases, inl, inr, Option, none, some, ◌≡◌, refl, ◌∙◌, arith,
}
use piconaut.Formats.Json.RapidJson.{
  RapidJson, IsRapidJson, RapidType, false_type, true_type, object_type, string_type, number_type,
  scalar_type, Scalar, c_str,
}
use piconaut.Formats.Json.ValueBuilder.{
  JsonValueType, known, ValueBuilder, new_builder, copy_builder, get_node_value, start, is_unknown,
  at_member, assign_builder, write_if, create_at, may_be_string, may_be_boolean,
}
use piconaut.Formats.Json.ValueBuilder.Members.{start-begun}
use piconaut.Formats.Json.ValueBuilder.Targets.{
  Write, write_to, Step, indexing, writing, assigning, Built, fresh, copied, stepped, string_of,
  chars_of, uint_of, int_of, double_of, float_of, bool_of, object, index-at_member,
}

-- The types, with one for both truth values.
abbrev pub kind : RapidType → RapidType
kind false_type = true_type
kind t = t

kind_of_string :
    (t : JsonValueType) (u : RapidType)
    → may_be_string t ≡ true
    → t ≡ known u
    → kind u ≡ string_type
kind_of_string t u may e = ground arith

kind_of_boolean :
    (t : JsonValueType) (u : RapidType) → may_be_boolean t ≡ true → t ≡ known u → kind u ≡ true_type
kind_of_boolean t u may e = ground arith

module _ (json : RapidJson) (laws : IsRapidJson json) where
  open json use {Doc, Ptr, Float, Double, root, type_of}

  -- The type that is known is the type of the current value; that of an empty builder can be known
  -- only of the object at its root.
  record IsTypedAt (d : Doc) (o : Option Ptr) (empty : Bool) (type : JsonValueType) : Type 0 where
    pub agrees :
        (p : Ptr) (t : RapidType) → o ≡ some p → type ≡ known t → kind t ≡ kind (type_of d p)
    pub empty_root : empty ≡ true → o ≡ some root
    pub empty_object : (t : RapidType) → empty ≡ true → type ≡ known t → t ≡ object_type

  abbrev IsTyped : ValueBuilder json → Type 0
  IsTyped b = IsTypedAt b.document b.current_value b.is_empty b.current_type

  same_target : (o : Option Ptr) (p q : Ptr) → o ≡ some p → o ≡ some q → p ≡ q
  same_target o p q e f = ground arith

  set_object_typed :
      (d : Doc) (o : Option Ptr) (p q : Ptr) (t : RapidType)
      → o ≡ some p
      → o ≡ some q
      → t ≡ object_type
      → kind t ≡ kind (type_of (json.set_object p d) q)
  set_object_typed d o p q t e f is =
      rw (is, ← same_target o p q e f, laws.type-set_object p d) refl

  start-IsTyped : (b : ValueBuilder json) → IsTyped b → IsTyped (start json b)
  unfolding start
  start-IsTyped b i = elim (Bool-cases b.is_empty) [
    | inl e ↦ rw e (record {
      agrees = λ p t at is.
          set_object_typed b.document b.current_value root p t (i.empty_root e) at
            (i.empty_object t e is);
      empty_root = λ f. ground arith;
      empty_object = λ t f is. ground arith;
    })
    | inr e ↦ rw e (record {
      agrees = i.agrees;
      empty_root = λ f. ground arith;
      empty_object = λ t f is. ground arith;
    })
  ]

  write_if-IsTyped :
      (may : Bool) (t : JsonValueType) (v : Scalar Float Double) (o : Option Ptr)
      (s : ValueBuilder json)
      → s.is_empty ≡ false
      → s.current_value ≡ o
      → (may ≡ true → (u : RapidType) → t ≡ known u → kind u ≡ kind (scalar_type v))
      → IsTyped s
      → IsTyped (write_if json may t v o s)
  write_if-IsTyped may t v none s begun here right i = i
  write_if-IsTyped true t v (some p) s begun here right i = record {
    agrees = λ q u at is.
        right refl u is
        ∙ rw (same_target s.current_value q p at here, laws.type-assign p v s.document) refl;
    empty_root = λ f. ground arith;
    empty_object = λ t f is. ground arith;
  }
  write_if-IsTyped false t v (some p) s begun here right i = i

  known_typed :
      (d : Doc) (q p : Ptr) (t u : RapidType)
      → type_of d q ≡ u
      → some q ≡ some p
      → known u ≡ known t
      → kind t ≡ kind (type_of d p)
  known_typed d q p t u typed at is = rw (← same_target (some q) q p refl at, typed) (ground arith)

  assign_builder-IsTyped :
      (other b : ValueBuilder json) → IsTyped b → IsTyped (assign_builder json other b)
  unfolding assign_builder
  assign_builder-IsTyped other b i = record {
    agrees = λ p t at is.
        known_typed _ _ p t _
          (laws.type-copy_from (get_node_value json (start json b)) other.document
            (start json b).document)
          at is;
    empty_root = λ f. ground (arith, start-begun json laws b);
    empty_object = λ t f is. ground (arith, start-begun json laws b);
  }

  at_member-IsTyped :
      (key : Str) (node : Ptr) (s : ValueBuilder json)
      → s.is_empty ≡ false
      → IsTyped (at_member json key node s)
  at_member-IsTyped key node s begun =
      elim (Bool-cases (json.has_member s.document node (c_str key))) [
        | inl e ↦ rw e (record {
          agrees = λ p t at is.
              known_typed s.document (json.member s.document node (c_str key)) p t _ refl at is;
          empty_root = λ f. ground arith;
          empty_object = λ t f is. ground arith;
        })
        | inr e ↦ rw e (record {
          agrees = λ p t at is. ground arith;
          empty_root = λ f. ground arith;
          empty_object = λ t f is. ground arith;
        })
      ]

  create_at-IsTyped :
      (o : Option Ptr) (b : ValueBuilder json)
      → b.current_value ≡ o
      → IsTyped b
      → IsTyped (create_at json o b).0
  create_at-IsTyped none b here i = i
  create_at-IsTyped (some p) b here i = elim (Bool-cases (is_unknown b.current_type)) [
    | inl e ↦ rw e (record {
      agrees =
          λ q t at is. set_object_typed b.document b.current_value p q t here at (ground arith);
      empty_root = i.empty_root;
      empty_object = λ t f is. ground arith;
    })
    | inr e ↦ rw e i
  ]

  write_to-IsTyped :
      (w : Write json) (b : ValueBuilder json) → IsTyped b → IsTyped (write_to json w b)
  unfolding write_to
  write_to-IsTyped w b i = go w
    where
      s : ValueBuilder json
      s = start json b

      written :
          (may : Bool) (t : JsonValueType) (v : Scalar Float Double)
          → (may ≡ true → (u : RapidType) → t ≡ known u → kind u ≡ kind (scalar_type v))
          → IsTyped (write_if json may t v s.current_value s)
      written may t v right =
          write_if-IsTyped may t v s.current_value s (start-begun json laws b) refl right
            (start-IsTyped b i)

      number_known : (u : RapidType) → known number_type ≡ known u → kind u ≡ number_type
      number_known u e = ground arith

      go : (w : Write json) → IsTyped (write_to json w b)
      go (string_of value) = written _ _ _ (λ may u e. ground arith)
      go (chars_of value) = written _ _ _ (λ may u e. kind_of_string s.current_type u may e)
      go (uint_of value) = written _ _ _ (λ may. number_known)
      go (int_of value) = written _ _ _ (λ may. number_known)
      go (double_of value) = written _ _ _ (λ may. number_known)
      go (float_of value) = written _ _ _ (λ may. number_known)
      go (bool_of true) = written _ _ _ (λ may u e. kind_of_boolean s.current_type u may e)
      go (bool_of false) = written _ _ _ (λ may u e. kind_of_boolean s.current_type u may e)
      go object = create_at-IsTyped b.current_value b refl i

  Step-IsTyped : {b b' : ValueBuilder json} → Step json b b' → IsTyped b → IsTyped b'
  Step-IsTyped {b} {b'} (indexing key e) i = rw (index-at_member json key b b' e).1 (
      at_member-IsTyped key (get_node_value json (start json b)) (start json b)
        (start-begun json laws b))
  Step-IsTyped {b} (writing w) i = write_to-IsTyped w b i
  Step-IsTyped {b} (assigning other) i = assign_builder-IsTyped other b i

  IsTyped-Built : {b : ValueBuilder json} → Built json b → IsTyped b
  IsTyped-Built fresh =
      unfold new_builder in
      record {
        agrees = λ p t at is. ground arith;
        empty_root = λ f. refl;
        empty_object = λ t f is. ground arith;
      }
  IsTyped-Built (copied other) =
      unfold copy_builder in
      record {
        agrees = λ p t at is. ground arith;
        empty_root = λ f. refl;
        empty_object = λ t f is. ground arith;
      }
  IsTyped-Built (stepped b s) = Step-IsTyped s (IsTyped-Built b)

  -- Where the laws of IsRapidJson hold: for a builder that has come about by a constructor and any
  -- calls that index, assign or create an object, a type that current_type holds is the type that
  -- the current value has in the document, true and false counted as one type.
  pub current_type-Built :
      {b : ValueBuilder json} (p : Ptr) (t : RapidType)
      → Built json b
      → b.current_value ≡ some p
      → b.current_type ≡ known t
      → kind t ≡ kind (type_of b.document p)
  current_type-Built p t b at is = (IsTyped-Built b).agrees p t at is
