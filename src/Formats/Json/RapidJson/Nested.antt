-- ===== src/Formats/Json/RapidJson/Nested.antt =====
-- What the documentation of RapidJSON says of the other values of a document, when one is written to
-- below a member of the root.
use piconaut.Prelude.{Str, true, ◌≡◌, ◌≢◌}
use piconaut.Formats.Json.RapidJson.{Scalar, object_type, RapidJson}

module _ (json : RapidJson) where
  open json use {
    Doc, Ptr, Float, Double, root, type_of, set_object, assign, has_member, add_member, member,
  }

  -- The root stays as it is, with its members, and the member of the name `k` keeps its address.
  pub record Kept (k : Str) (d d' : Doc) : Type 0 where
    pub root_type : type_of d' root ≡ type_of d root
    pub root_members : (j : Str) → has_member d' root j ≡ has_member d root j
    pub place : member d' root k ≡ member d root k

  pub record IsRapidNested : Type 0 where
    pub kept-set_object :
        (k : Str) (d : Doc)
        → type_of d root ≡ object_type
        → has_member d root k ≡ true
        → Kept k d (set_object (member d root k) d)
    pub kept-add_member :
        (k name : Str) (d : Doc)
        → type_of d root ≡ object_type
        → has_member d root k ≡ true
        → type_of d (member d root k) ≡ object_type
        → Kept k d (add_member (member d root k) name d)
    pub kept-assign :
        (k name : Str) (s : Scalar Float Double) (d : Doc)
        → type_of d root ≡ object_type
        → has_member d root k ≡ true
        → type_of d (member d root k) ≡ object_type
        → has_member d (member d root k) name ≡ true
        → Kept k d (assign (member d (member d root k) name) s d)
    pub others-add_member :
        (k j : Str) (d : Doc)
        → type_of d root ≡ object_type
        → k ≢ j
        → has_member (add_member root k d) root j ≡ has_member d root j
    pub others-assign :
        (k j : Str) (s : Scalar Float Double) (d : Doc)
        → type_of d root ≡ object_type
        → has_member d root k ≡ true
        → has_member (assign (member d root k) s d) root j ≡ has_member d root j
