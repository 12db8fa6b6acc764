-- ===== src/Formats/Json/ValueBuilder/Objects.antt =====
-- What the statements of a `ValueBuilder` of src/piconaut/formats/json/value_builder.cc keep of the
-- document: its root stays an object, and so does a member that holds members.
use piconaut.Prelude.{
  Str, Bool, true, false, some, [], ◌∷◌, ◌++◌, ◌⊎◌, inl, inr, ◌≡◌, refl, ◌∙◌, ap, Bool-cases,
}
use piconaut.Formats.Json.RapidJson.{RapidJson, IsRapidJson, Scalar, object_type, c_str}
use piconaut.Formats.Json.RapidJson.Nested.{Kept, IsRapidNested}
use piconaut.Formats.Json.ValueBuilder.{
  JsonValueType, ValueBuilder, get_node_value, at_member, index, write_if,
}
use piconaut.Formats.Json.ValueBuilder.Members.{start_of_begun}

module _ (json : RapidJson) (laws : IsRapidJson json) (nested : IsRapidNested json) where
  open json use {
    Doc, Ptr, Float, Double, root, type_of, set_object, assign, has_member, add_member, member,
  }

  -- Between two statements.
  pub record IsOpen (b : ValueBuilder json) : Type 0 where
    pub begun : b.is_empty ≡ false
    pub no_nodes : b.value_nodes ≡ []
    pub document_object : type_of b.document root ≡ object_type

  -- The member of that name is an object.
  abbrev pub Holds : Str → Doc → Type 0
  Holds k d = (has_member d root k ≡ true) × (type_of d (member d root k) ≡ object_type)

  -- Behind `operator[](name)` at a node.
  pub record IsPlaced (node : Ptr) (name : Str) (b b' : ValueBuilder json) : Type 0 where
    pub begun : b'.is_empty ≡ b.is_empty
    pub target : b'.current_value ≡ some (member b'.document node (c_str name))
    pub there : has_member b'.document node (c_str name) ≡ true
    pub nodes :
        b'.value_nodes
        ≡ b.value_nodes ++ record { key = name; value = member b'.document node (c_str name) } ∷ []
    pub grown : (b'.document ≡ b.document) ⊎ (b'.document ≡ add_member node (c_str name) b.document)

  pub at_member-IsPlaced :
      (name : Str) (node : Ptr) (b : ValueBuilder json)
      → type_of b.document node ≡ object_type
      → IsPlaced node name b (at_member json name node b)
  at_member-IsPlaced name node b o = elim (Bool-cases (has_member b.document node (c_str name))) [
    | inl e ↦
        rw e (record { begun = refl; target = refl; there = e; nodes = refl; grown = inl refl })
    | inr e ↦ rw e (record {
      begun = refl;
      target = refl;
      there = laws.has_member-add_member node (c_str name) b.document o;
      nodes = refl;
      grown = inr refl;
    })
  ]

  pub index_open :
      (key : Str) (b : ValueBuilder json)
      → IsOpen b
      → index json key b ≡ some (at_member json key root b)
  unfolding index get_node_value
  index_open key b o =
      rw (start_of_begun json laws b o.begun) (rw (o.no_nodes, o.document_object) refl)

  -- Behind the assignment of a plain value at an address.
  pub record IsWritten (p : Ptr) (b b' : ValueBuilder json) : Type 0 where
    pub begun : b'.is_empty ≡ b.is_empty
    pub no_nodes : b'.value_nodes ≡ []
    pub written :
        (b'.document ≡ b.document)
        ⊎ ((s : Scalar Float Double) × (b'.document ≡ assign p s b.document))

  pub write_if-IsWritten :
      (may : Bool) (t : JsonValueType) (s : Scalar Float Double) (b : ValueBuilder json) {p : Ptr}
      → b.current_value ≡ some p
      → IsWritten p b (write_if json may t s b.current_value b)
  write_if-IsWritten true t s b e =
      rw e (record { begun = refl; no_nodes = refl; written = inr (s, refl) })
  write_if-IsWritten false t s b e =
      rw e (record { begun = refl; no_nodes = refl; written = inl refl })

  -- A change below the member of the name `k`, which holds members.
  pub record IsBelow (k : Str) (d d' : Doc) : Type 0 where
    pub root_object : type_of d' root ≡ object_type
    pub holds : Holds k d'
    pub same : (j : Str) → has_member d' root j ≡ has_member d root j
    pub place : member d' root k ≡ member d root k

  Kept-IsBelow :
      (k : Str) (d d' : Doc)
      → type_of d root ≡ object_type
      → has_member d root k ≡ true
      → Kept json k d d'
      → type_of d' (member d root k) ≡ object_type
      → IsBelow k d d'
  Kept-IsBelow k d d' o h kept o' = record {
    root_object = kept.root_type ∙ o;
    holds = (kept.root_members k ∙ h, ap (type_of d') kept.place ∙ o');
    same = kept.root_members;
    place = kept.place;
  }

  -- `SetObject` at the member.
  pub set_object-IsBelow :
      (k : Str) (d : Doc)
      → type_of d root ≡ object_type
      → has_member d root k ≡ true
      → IsBelow k d (set_object (member d root k) d)
  set_object-IsBelow k d o h =
      Kept-IsBelow k d _ o h (nested.kept-set_object k d o h)
        (laws.type-set_object (member d root k) d)

  pub grown-IsBelow :
      (k name : Str) (d d' : Doc)
      → type_of d root ≡ object_type
      → Holds k d
      → (d' ≡ d) ⊎ (d' ≡ add_member (member d root k) name d)
      → IsBelow k d d'
  grown-IsBelow k name d d' o h (inl e) =
      rw e (record { root_object = o; holds = h; same = λ j. refl; place = refl })
  grown-IsBelow k name d d' o (h, h') (inr e) = rw e (
      Kept-IsBelow k d _ o h (nested.kept-add_member k name d o h h')
        (laws.type-add_member (member d root k) name d h'))

  pub written-IsBelow :
      (k name : Str) (d d' : Doc)
      → type_of d root ≡ object_type
      → Holds k d
      → has_member d (member d root k) name ≡ true
      → (d' ≡ d) ⊎ ((s : Scalar Float Double) × (d' ≡ assign (member d (member d root k) name) s d))
      → IsBelow k d d'
  written-IsBelow k name d d' o h there (inl e) =
      rw e (record { root_object = o; holds = h; same = λ j. refl; place = refl })
  written-IsBelow k name d d' o (h, h') there (inr (s, e)) = rw e (
      Kept-IsBelow k d _ o h (nested.kept-assign k name s d o h h' there)
        (laws.type-assign_member (member d root k) name s d h' there))

  pub IsBelow-trans :
      (k : Str) (d d' d'' : Doc) → IsBelow k d d' → IsBelow k d' d'' → IsBelow k d d''
  IsBelow-trans k d d' d'' f g = record {
    root_object = g.root_object;
    holds = g.holds;
    same = λ j. g.same j ∙ f.same j;
    place = g.place ∙ f.place;
  }
