-- ===== src/Formats/Json/RapidJson.antt =====
-- The document library that src/piconaut/formats/json stands on, as an interface: the calls that
-- the program makes, and what its documentation says of them.
pub mod Values
pub mod Nested
pub mod Cells
use piconaut.Prelude.{
  ℕ, ℤ, Str, Bool, true, false, Option, [], ◌∷◌, ◌≡◌, nat_eq, ◌==◌, if◌then◌else◌,
}

-- `rapidjson::Type`
pub data RapidType : Type 0 where
  null_type false_type true_type object_type array_type string_type number_type : RapidType

-- The numbers that a value is made from, over the floating-point types.
pub data Number (Float Double : Type 0) : Type 0 where
  of_uint : ℕ → Number Float Double
  of_int : ℤ → Number Float Double
  of_float : Float → Number Float Double
  of_double : Double → Number Float Double

-- What `Value(…)` is given: a string, a number, a truth value, or nothing.
pub data Scalar (Float Double : Type 0) : Type 0 where
  string : Str → Scalar Float Double
  number : Number Float Double → Scalar Float Double
  boolean : Bool → Scalar Float Double
  null : Scalar Float Double

abbrev pub scalar_type : {Float Double : Type 0} → Scalar Float Double → RapidType
scalar_type (string s) = string_type
scalar_type (number n) = number_type
scalar_type (boolean true) = true_type
scalar_type (boolean false) = false_type
scalar_type null = null_type

-- A string that is handed over by `c_str()` ends at its first zero byte.
unfoldable pub c_str : Str → Str
c_str [] = []
c_str (c ∷ s) = if c == 0 then [] else c ∷ c_str s

pub record RapidJson : Type 1 where
  pub Float : Type 0
  pub Double : Type 0
  -- a document with its allocator, and the addresses of its values
  pub Doc : Type 0
  pub Ptr : Type 0
  pub root : Ptr
  -- `Document()`, which is null
  pub new_document : Doc
  -- `p->GetType()`, `p->SetObject()`, `*p = Value(…)`
  pub type_of : Doc → Ptr → RapidType
  pub set_object : Ptr → Doc → Doc
  pub assign : Ptr → Scalar Float Double → Doc → Doc
  -- `p->HasMember(key)`, `p->AddMember(key, Value(), allocator)`, `&(*p)[key]`
  pub has_member : Doc → Ptr → Str → Bool
  pub add_member : Ptr → Str → Doc → Doc
  pub member : Doc → Ptr → Str → Ptr
  -- `p->CopyFrom(other, allocator)`
  pub copy_from : Ptr → Doc → Doc → Doc
  -- `Accept(writer)` with a `Writer` and with a `PrettyWriter`: the bytes, unless it fails
  pub write : Doc → Option Str
  pub write_pretty : Doc → Option Str

module _ (json : RapidJson) where
  open json use {
    Doc, Ptr, Float, Double, root, type_of, set_object, assign, has_member, add_member, member,
    copy_from,
  }

  -- What the documentation says of a value that is written to, and of the members of an object.
  pub record IsRapidJson : Type 0 where
    pub type-set_object : (p : Ptr) (d : Doc) → type_of (set_object p d) p ≡ object_type
    pub type-assign :
        (p : Ptr) (s : Scalar Float Double) (d : Doc) → type_of (assign p s d) p ≡ scalar_type s
    pub type-copy_from :
        (p : Ptr) (other d : Doc) → type_of (copy_from p other d) p ≡ type_of other root
    pub assign-assign :
        (p : Ptr) (s t : Scalar Float Double) (d : Doc) → assign p s (assign p t d) ≡ assign p s d
    pub has_member-set_object :
        (p : Ptr) (key : Str) (d : Doc) → has_member (set_object p d) p key ≡ false
    pub has_member-add_member :
        (p : Ptr) (key : Str) (d : Doc)
        → type_of d p ≡ object_type
        → has_member (add_member p key d) p key ≡ true
    pub type-add_member :
        (p : Ptr) (key : Str) (d : Doc)
        → type_of d p ≡ object_type
        → type_of (add_member p key d) p ≡ object_type
    pub type-member :
        (p : Ptr) (key : Str) (d : Doc)
        → type_of d p ≡ object_type
        → type_of (add_member p key d) (member (add_member p key d) p key) ≡ null_type
    pub type-assign_member :
        (p : Ptr) (key : Str) (s : Scalar Float Double) (d : Doc)
        → type_of d p ≡ object_type
        → has_member d p key ≡ true
        → type_of (assign (member d p key) s d) p ≡ object_type
    pub has_member-assign_member :
        (p : Ptr) (key : Str) (s : Scalar Float Double) (d : Doc)
        → type_of d p ≡ object_type
        → has_member d p key ≡ true
        → has_member (assign (member d p key) s d) p key ≡ true
    pub member-assign_member :
        (p : Ptr) (key : Str) (s : Scalar Float Double) (d : Doc)
        → type_of d p ≡ object_type
        → has_member d p key ≡ true
        → member (assign (member d p key) s d) p key ≡ member d p key
