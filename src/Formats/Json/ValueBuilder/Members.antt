-- ===== src/Formats/Json/ValueBuilder/Members.antt =====
-- Writing a member of a `ValueBuilder` of src/piconaut/formats/json/value_builder.cc twice.
use piconaut.Prelude.{
  ℤ, Str, true, false, Option, none, some, [], ◌≡◌, refl, ◌∙◌, sym, ap, arith, Bool-cases, inl, inr,
}
use piconaut.Formats.Json.RapidJson.{
  RapidJson, IsRapidJson, object_type, string_type, number_type, number, of_int, string, c_str,
}
use piconaut.Formats.Json.ValueBuilder.{
  known, ValueBuilder, get_node_value, start, at_member, index, write_if, assign_string, assign_int,
  may_be_string, may_be_number,
}
use piconaut.Formats.Json.ValueBuilder.Targets.{index-at_member}

module _ (json : RapidJson) (laws : IsRapidJson json) where
  open json use {Doc, Ptr, Float, Double, root, type_of, has_member, add_member, member, assign}

  -- Between two statements: no node is open, and the document is an object.
  pub record IsReady (b : ValueBuilder json) : Type 0 where
    pub no_nodes : b.value_nodes ≡ []
    pub document_object : type_of (start json b).document root ≡ object_type

  -- Behind `b[key]`: the current value is the member of that name.
  pub record IsAt (key : Str) (b : ValueBuilder json) : Type 0 where
    pub begun : b.is_empty ≡ false
    pub document_object : type_of b.document root ≡ object_type
    pub there : has_member b.document root (c_str key) ≡ true
    pub target : b.current_value ≡ some (member b.document root (c_str key))

  pub start_of_begun : (b : ValueBuilder json) → b.is_empty ≡ false → start json b ≡ b
  unfolding start
  start_of_begun b e = rw e refl

  pub start-begun : (b : ValueBuilder json) → (start json b).is_empty ≡ false
  unfolding start
  start-begun b = ground arith

  ready_node : (b : ValueBuilder json) → IsReady b → get_node_value json (start json b) ≡ root
  unfolding start get_node_value
  ready_node b r = ground (arith, r.no_nodes)

  at_member-IsAt :
      (key : Str) (s : ValueBuilder json)
      → s.is_empty ≡ false
      → type_of s.document root ≡ object_type
      → IsAt key (at_member json key root s)
  at_member-IsAt key s begun o = elim (Bool-cases (has_member s.document root (c_str key))) [
    | inl e ↦ rw e (record { begun = begun; document_object = o; there = e; target = refl })
    | inr e ↦ rw e (record {
      begun = begun;
      document_object = laws.type-add_member root (c_str key) s.document o;
      there = laws.has_member-add_member root (c_str key) s.document o;
      target = refl;
    })
  ]

  pub index-IsAt :
      (key : Str) (b b' : ValueBuilder json) → IsReady b → index json key b ≡ some b' → IsAt key b'
  index-IsAt key b b' r e =
      rw ((index-at_member json key b b' e).1, ready_node b r)
        (at_member-IsAt key (start json b) (start-begun b) r.document_object)

  -- The builder behind an accepted assignment of a string.
  abbrev strung : Str → Str → ValueBuilder json → ValueBuilder json
  strung key value b = record b {
    document = assign (member b.document root (c_str key)) (string (c_str value)) b.document;
    current_type = known string_type;
    value_nodes = [];
  }

  assign_string_at :
      (key value : Str) (b : ValueBuilder json)
      → IsAt key b
      → may_be_string b.current_type ≡ true
      → assign_string json value b ≡ strung key value b
  unfolding assign_string
  assign_string_at key value b i may = rw (start_of_begun b i.begun) (rw (i.target, may) refl)

  at_member_found :
      (key : Str) (s : ValueBuilder json)
      → has_member s.document root (c_str key) ≡ true
      → (at_member json key root s).document ≡ s.document
  at_member_found key s e = rw e refl

  type-at_member_found :
      (key : Str) (s : ValueBuilder json)
      → has_member s.document root (c_str key) ≡ true
      → (at_member json key root s).current_type
        ≡ known (type_of s.document (member s.document root (c_str key)))
  type-at_member_found key s e = rw e refl

  module _ (key value : Str) (b : ValueBuilder json) (i : IsAt key b) where
    strung_type : type_of (strung key value b).document root ≡ object_type
    strung_type =
        laws.type-assign_member root (c_str key) (string (c_str value)) b.document i.document_object
          i.there

    strung_there : has_member (strung key value b).document root (c_str key) ≡ true
    strung_there =
        laws.has_member-assign_member root (c_str key) (string (c_str value)) b.document
          i.document_object i.there

    strung_member :
        member (strung key value b).document root (c_str key) ≡ member b.document root (c_str key)
    strung_member =
        laws.member-assign_member root (c_str key) (string (c_str value)) b.document
          i.document_object i.there

    strung-IsReady : IsReady (strung key value b)
    strung-IsReady = record {
      no_nodes = refl;
      document_object = rw (start_of_begun (strung key value b) i.begun) strung_type;
    }

    next_of :
        (b' : ValueBuilder json)
        → index json key (strung key value b) ≡ some b'
        → b' ≡ at_member json key root (strung key value b)
    next_of b' e =
        (index-at_member json key (strung key value b) b' e).1
        ∙ rw
            (
              ready_node (strung key value b) strung-IsReady,
              start_of_begun (strung key value b) i.begun,
            )
            refl

    next-document :
        (b' : ValueBuilder json)
        → index json key (strung key value b) ≡ some b'
        → b'.document ≡ (strung key value b).document
    next-document b' e =
        ap (λ (x : ValueBuilder json). x.document) (next_of b' e)
        ∙ at_member_found key (strung key value b) strung_there

    next-type :
        (b' : ValueBuilder json)
        → index json key (strung key value b) ≡ some b'
        → b'.current_type ≡ known string_type
    next-type b' e =
        ap (λ (x : ValueBuilder json). x.current_type) (next_of b' e)
        ∙ type-at_member_found key (strung key value b) strung_there
        ∙ ap known (
            ap (type_of (strung key value b).document) strung_member
            ∙ laws.type-assign (member b.document root (c_str key)) (string (c_str value))
                b.document)

  refused_int :
      (n : ℤ) (b : ValueBuilder json)
      → b.is_empty ≡ false
      → b.current_type ≡ known string_type
      → (assign_int json n b).document ≡ b.document
  unfolding assign_int
  refused_int n b begun t = rw (start_of_begun b begun) (refused b.current_value b t)
    where
      refused :
          (o : Option Ptr) (s : ValueBuilder json)
          → s.current_type ≡ known string_type
          → (write_if json
              (may_be_number s.current_type)
              (known number_type)
              (number (of_int n))
              o
              s).document
            ≡ s.document
      refused none s t = refl
      refused (some p) s t = rw t refl

  -- Where the laws of IsRapidJson hold of the document library: between two statements on a builder
  -- whose document is an object, let a member that may hold a string be assigned a string, and be
  -- indexed again. Then assigning another string leaves the document as if only that one had been
  -- assigned, and assigning a number leaves the document unchanged.
  pub reassign :
      (key v w : Str) (n : ℤ) (b b₁ b₂ : ValueBuilder json)
      → IsReady b
      → index json key b ≡ some b₁
      → may_be_string b₁.current_type ≡ true
      → index json key (assign_string json v b₁) ≡ some b₂
      → ((assign_string json w b₂).document ≡ (assign_string json w b₁).document)
        × ((assign_int json n b₂).document ≡ (assign_string json v b₁).document)
  reassign key v w n b b₁ b₂ ready first may second =
      let i = index-IsAt key b b₁ ready first in
      let second' : index json key (strung key v b₁) ≡ some b₂ =
        rw (← assign_string_at key v b₁ i may) second in
      let j = index-IsAt key (strung key v b₁) b₂ (strung-IsReady key v b₁ i) second' in
      let t = next-type key v b₁ i b₂ second' in
      (
        ap (λ (x : ValueBuilder json). x.document) (assign_string_at key w b₂ j (rw t refl))
            ∙ rw (next-document key v b₁ i b₂ second', strung_member key v b₁ i)
                (laws.assign-assign (member b₁.document root (c_str key)) (string (c_str w))
                  (string (c_str v)) b₁.document)
            ∙ sym (ap (λ (x : ValueBuilder json). x.document) (assign_string_at key w b₁ i may)),
        refused_int n b₂ j.begun t
            ∙ next-document key v b₁ i b₂ second'
            ∙ sym (ap (λ (x : ValueBuilder json). x.document) (assign_string_at key v b₁ i may)),
      )
