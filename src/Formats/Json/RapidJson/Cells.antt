-- ===== src/Formats/Json/RapidJson/Cells.antt =====
-- A small library that keeps to `IsRapidJson` and `IsRapidValues`: every address, a list of keys, has a
-- cell with a type, the names of its members, and what is read there. A `double` is a number.
use mathlib.Core.Path.{fun_ext}
use piconaut.Prelude.{
  ℕ, ℤ, pos, Str, Bool, true, false, ◌||◌, some, List, [], ◌∷◌, ◌++◌, ◌≡◌, refl, ap, arith, length,
  nat_eq, list_eq, list_beq, list_beq_iff, str_iff, ◌==◌, if◌then◌else◌, Bool-cases, inl, inr,
}
use piconaut.Formats.Json.RapidJson.Nested.{IsRapidNested}
use piconaut.Formats.Json.RapidJson.Values.{
  string_scalar, int_scalar, double_scalar, bool_scalar, null_scalar, RapidValues, IsRapidValues,
}
use piconaut.Formats.Json.RapidJson.{
  RapidType, object_type, array_type, scalar_type, Scalar, string, number, boolean, null, of_uint,
  of_int, of_double, RapidJson, IsRapidJson,
}

abbrev pub Ptr : Type 0
Ptr = List Str

pub data Held : Type 0 where
  plain : Scalar (Unit {0}) ℕ → Held
  fields no_items : Held
  and_item : Held → Held → Held

pub record Cell : Type 0 where
  pub type : RapidType
  pub members : List Str
  pub held : Held

abbrev held_type : Held → RapidType
held_type (plain s) = scalar_type s
held_type fields = object_type
held_type no_items = array_type
held_type (and_item a v) = array_type

-- A cell with no members.
abbrev pub bare : Held → Cell
bare h = record { type = held_type h; members = []; held = h }

abbrev pub Doc : Type 0
Doc = Ptr → Cell

abbrev pub contains : List Str → Str → Bool
contains [] name = false
contains (other ∷ names) name = other == name || contains names name

abbrev pub update : Ptr → Cell → Doc → Doc
update p c d q = if p == q then c else d q

abbrev pub below : Ptr → Str → Ptr
below p name = name ∷ p

abbrev pub cells : RapidJson
cells = record {
  Float = Unit;
  Double = ℕ;
  Doc = Doc;
  Ptr = Ptr;
  root = [];
  new_document = λ p. bare (plain null);
  type_of = λ d p. (d p).type;
  set_object = λ p d. update p (bare fields) d;
  assign = λ p s d. update p (bare (plain s)) d;
  has_member = λ d p name. contains (d p).members name;
  add_member = λ p name d.
      update (below p name) (bare (plain null))
        (update p (record (d p) { members = name ∷ (d p).members }) d);
  member = λ d p name. below p name;
  copy_from = λ p other d. update p (other []) d;
  write = λ d. some [];
  write_pretty = λ d. some [];
}

self : (p : Ptr) → (p == p) ≡ true
self p = (list_beq_iff p p).1 refl

child-ne : (p : Ptr) (name : Str) → (below p name == p) ≡ false
child-ne p name = elim (Bool-cases (below p name == p)) [
  | inl e ↦ absurd (omega (arith, ap length ((list_beq_iff (below p name) p).0 e)))
  | inr e ↦ e
]

pub cells-IsRapidJson : IsRapidJson cells
cells-IsRapidJson = record {
  type-set_object = λ p d. rw (self p) refl;
  type-assign = λ p s d. rw (self p) refl;
  type-copy_from = λ p other d. rw (self p) refl;
  assign-assign = λ p s t d. fun_ext λ q. twice p q _ _ (d q);
  has_member-set_object = λ p key d. rw (self p) refl;
  has_member-add_member = λ p key d o. rw (child-ne p key, self p, (str_iff key key).1 refl) refl;
  type-add_member = λ p key d o. rw (child-ne p key, self p) o;
  type-member = λ p key d o. rw (self (below p key)) refl;
  type-assign_member = λ p key s d o h. rw (child-ne p key) o;
  has_member-assign_member = λ p key s d o h. rw (child-ne p key) h;
  member-assign_member = λ p key s d o h. refl;
}
  where
    twice :
        (p q : Ptr) (a b c : Cell)
        → (if p == q then a else if p == q then b else c) ≡ (if p == q then a else c)
    twice p q a b c = ground arith

pub cells-IsRapidNested : IsRapidNested cells
unfolding list_beq
cells-IsRapidNested = record {
  kept-set_object = λ k d o h. record { root_type = refl; root_members = λ j. refl; place = refl };
  kept-add_member =
      λ k name d o h o'. record { root_type = refl; root_members = λ j. refl; place = refl };
  kept-assign =
      λ k name s d o h o' h'. record { root_type = refl; root_members = λ j. refl; place = refl };
  others-add_member = λ k j d o ne. ground (arith, str_iff k j);
  others-assign = λ k j s d o h. refl;
}

abbrev on_plain : (Scalar (Unit {0}) ℕ → Bool) → Held → Bool
on_plain test (plain s) = test s
on_plain test _ = false

abbrev has_items : Held → Bool
has_items no_items = true
has_items (and_item a v) = true
has_items _ = false

abbrev text_of : Held → Str
text_of (plain (string s)) = s
text_of _ = []

abbrev int_of : Held → ℤ
int_of (plain (number (of_int n))) = n
int_of (plain (number (of_uint n))) = pos n
int_of _ = pos 0

abbrev double_of : Held → ℕ
double_of (plain (number (of_double x))) = x
double_of _ = 0

abbrev bool_of : Held → Bool
bool_of (plain (boolean b)) = b
bool_of _ = false

abbrev items_of : Held → List Held
items_of (and_item a v) = items_of a ++ v ∷ []
items_of _ = []

abbrev pub cell_values : RapidValues cells
cell_values = record {
  Val = Held;
  value_at = λ d p. (d p).held;
  of_scalar = plain;
  empty_array = no_items;
  push_back = and_item;
  put = λ p v d. update p (bare v) d;
  is_string = on_plain string_scalar;
  is_int = on_plain int_scalar;
  is_double = on_plain double_scalar;
  is_bool = on_plain bool_scalar;
  is_null = on_plain null_scalar;
  is_array = has_items;
  get_string = text_of;
  get_int = int_of;
  get_double = double_of;
  get_bool = bool_of;
  get_array = items_of;
}

pub cells-IsRapidValues : IsRapidValues cells cell_values
cells-IsRapidValues = record {
  value-assign = λ p s d. rw (self p) refl;
  value-put = λ p v d. rw (self p) refl;
  value-copy_from = λ p other d. rw (self p) refl;
  is_string-of_scalar = λ s. refl;
  is_int-of_scalar = λ s. refl;
  is_double-of_scalar = λ s. refl;
  is_bool-of_scalar = λ s. refl;
  is_null-of_scalar = λ s. refl;
  get_string-of_scalar = λ s. refl;
  get_int-of_scalar = λ n. refl;
  get_double-of_scalar = λ x. refl;
  get_bool-of_scalar = λ b. refl;
  is_array-empty = refl;
  is_array-push_back = λ a v e. refl;
  is_array-of_scalar = λ s. refl;
  get_array-empty = refl;
  get_array-push_back = λ a v e. refl;
}
