-- ===== src/Main/HelloWorld/Statements.antt =====
-- The statements of `HelloWorldHandler` of main.cc: none of them ends the handler early.
use piconaut.Prelude.{Str, true, false, some, [], ◌⊎◌, inl, inr, ◌≡◌, ◌≢◌, refl, ◌∙◌, ap}
use piconaut.Formats.Json.RapidJson.{RapidJson, IsRapidJson, Scalar, object_type, c_str}
use piconaut.Formats.Json.RapidJson.Nested.{IsRapidNested}
use piconaut.Formats.Json.ValueBuilder.{
  known, ValueBuilder, create_json_object, get_node_value, at_member, index, assign_string,
  assign_chars, assign_int,
}
use piconaut.Formats.Json.ValueBuilder.Members.{start_of_begun}
use piconaut.Formats.Json.ValueBuilder.Objects.{
  IsOpen, Holds, IsPlaced, at_member-IsPlaced, index_open, IsWritten, write_if-IsWritten, IsBelow,
  set_object-IsBelow, grown-IsBelow, written-IsBelow, IsBelow-trans,
}
use piconaut.Main.HelloWorld.{
  Stopped, Plain, text, literal, whole, set_plain, create_at_key, set_key, set_below,
}

module _ (json : RapidJson) (laws : IsRapidJson json) (nested : IsRapidNested json) where
  open json use {
    Doc, Ptr, Float, Double, root, type_of, set_object, assign, has_member, add_member, member,
  }

  -- A statement that goes through, and leaves every member but one of the root where it was.
  pub record Through (key : Str) (b : ValueBuilder json) (r : ValueBuilder json ⊎ Stopped)
      : Type 0 where
    pub next : ValueBuilder json
    pub through : r ≡ inl next
    pub is_open : IsOpen json laws nested next
    pub others :
        (j : Str) → key ≢ j → has_member next.document root j ≡ has_member b.document root j

  -- A member that is an object goes on to be one.
  pub record ThroughObject (key : Str) (b : ValueBuilder json) (r : ValueBuilder json ⊎ Stopped)
      : Type 0 where
    pub step : Through key b r
    pub holds : Holds json laws nested key step.next.document

  set_plain-IsWritten :
      (value : Plain) (b : ValueBuilder json) {p : Ptr}
      → b.is_empty ≡ false
      → b.current_value ≡ some p
      → IsWritten json laws nested p b (set_plain json value b)
  unfolding set_plain assign_string assign_chars assign_int
  set_plain-IsWritten (text value) b e h =
      rw (start_of_begun json laws b e) (write_if-IsWritten json laws nested _ _ _ b h)
  set_plain-IsWritten (literal value) b e h =
      rw (start_of_begun json laws b e) (write_if-IsWritten json laws nested _ _ _ b h)
  set_plain-IsWritten (whole value) b e h =
      rw (start_of_begun json laws b e) (write_if-IsWritten json laws nested _ _ _ b h)

  -- A member of the root is found or made, and written.
  abbrev RootStep : Str → Doc → Doc → Type 0
  RootStep k d d' =
      (type_of d' root ≡ object_type)
      × ((j : Str) → k ≢ j → has_member d' root j ≡ has_member d root j)

  root_grown :
      (k : Str) (d d' : Doc)
      → type_of d root ≡ object_type
      → (d' ≡ d) ⊎ (d' ≡ add_member root k d)
      → RootStep k d d'
  root_grown k d d' o (inl e) = rw e (o, λ j ne. refl)
  root_grown k d d' o (inr e) =
      rw e (laws.type-add_member root k d o, λ j ne. nested.others-add_member k j d o ne)

  root_written :
      (k : Str) (d d' : Doc)
      → type_of d root ≡ object_type
      → has_member d root k ≡ true
      → (d' ≡ d) ⊎ ((s : Scalar Float Double) × (d' ≡ assign (member d root k) s d))
      → RootStep k d d'
  root_written k d d' o h (inl e) = rw e (o, λ j ne. refl)
  root_written k d d' o h (inr (s, e)) =
      rw e (laws.type-assign_member root k s d o h, λ j ne. nested.others-assign k j s d o h)

  pub set_key-Through :
      (key : Str) (value : Plain) (b : ValueBuilder json)
      → IsOpen json laws nested b
      → Through (c_str key) b (set_key json key value b)
  unfolding set_key
  set_key-Through key value b o =
      let placed = at_member-IsPlaced json laws nested key root b o.document_object in
      let w =
        set_plain-IsWritten value (at_member json key root b) (placed.begun ∙ o.begun)
          placed.target in
      let (object, kept) = root_grown (c_str key) _ _ o.document_object placed.grown in
      let (object', kept') = root_written (c_str key) _ _ object placed.there w.written in
      record {
        next = set_plain json value (at_member json key root b);
        through = rw (index_open json laws nested key b o) refl;
        is_open = record {
          begun = w.begun ∙ placed.begun ∙ o.begun;
          no_nodes = w.no_nodes;
          document_object = object';
        };
        others = λ j ne. kept' j ne ∙ kept j ne;
      }

  pub create_at_key-ThroughObject :
      (key : Str) (b : ValueBuilder json)
      → IsOpen json laws nested b
      → has_member b.document root (c_str key) ≡ false
      → ThroughObject (c_str key) b (create_at_key json key b)
  unfolding create_at_key create_json_object
  create_at_key-ThroughObject key b o e =
      let k = c_str key in
      let d = add_member root k b.document in
      let object = laws.type-add_member root k b.document o.document_object in
      let there = laws.has_member-add_member root k b.document o.document_object in
      let below = set_object-IsBelow json laws nested k d object there in
      record {
        step = record {
          next = record b {
            document = set_object (member d root k) d;
            current_value = some (member d root k);
            current_type = known object_type;
            value_nodes = [];
          };
          through = rw (index_open json laws nested key b o, e) refl;
          is_open = record {
            begun = o.begun;
            no_nodes = refl;
            document_object = below.root_object;
          };
          others =
              λ j ne. below.same j ∙ nested.others-add_member k j b.document o.document_object ne;
        };
        holds = below.holds;
      }

  -- `operator[](name)` behind `operator[](key)`
  index_placed :
      (key name : Str) (b m : ValueBuilder json)
      → IsPlaced json laws nested root key b m
      → m.is_empty ≡ false
      → b.value_nodes ≡ []
      → type_of m.document (member m.document root (c_str key)) ≡ object_type
      → index json name m ≡ some (at_member json name (member m.document root (c_str key)) m)
  unfolding index get_node_value
  index_placed key name b m placed begun none_open object =
      rw (start_of_begun json laws m begun) (rw (placed.nodes, none_open, object) refl)

  document_found :
      (key : Str) (b : ValueBuilder json)
      → has_member b.document root (c_str key) ≡ true
      → (at_member json key root b).document ≡ b.document
  document_found key b h = rw h refl

  -- `[name] = value` behind `operator[](key)`
  set_member-IsBelow :
      (k name : Str) (value : Plain) (m : ValueBuilder json)
      → m.is_empty ≡ false
      → type_of m.document root ≡ object_type
      → Holds json laws nested k m.document
      → let w = set_plain json value (at_member json name (member m.document root k) m) in
        IsBelow json laws nested k m.document w.document
        × (w.is_empty ≡ false)
        × (w.value_nodes ≡ [])
  set_member-IsBelow k name value m begun object held =
      let node = member m.document root k in
      let n = at_member json name node m in
      let placed = at_member-IsPlaced json laws nested name node m held.1 in
      let grown = grown-IsBelow json laws nested k (c_str name) _ _ object held placed.grown in
      let w = set_plain-IsWritten value n (placed.begun ∙ begun) placed.target in
      let wrote =
        written-IsBelow json laws nested k (c_str name) n.document (set_plain json value n).document
          grown.root_object grown.holds (rw grown.place placed.there) (rw grown.place w.written) in
      (
        IsBelow-trans json laws nested k _ _ _ grown wrote,
        w.begun ∙ placed.begun ∙ begun,
        w.no_nodes,
      )

  pub set_below-ThroughObject :
      (key name : Str) (value : Plain) (b : ValueBuilder json)
      → IsOpen json laws nested b
      → Holds json laws nested (c_str key) b.document
      → ThroughObject (c_str key) b (set_below json key name value b)
  unfolding set_below
  set_below-ThroughObject key name value b o h =
      let k = c_str key in
      let m = at_member json key root b in
      let same : m.document ≡ b.document = document_found key b h.0 in
      let held : Holds json laws nested k m.document = rw same h in
      let placed = at_member-IsPlaced json laws nested key root b o.document_object in
      let begun : m.is_empty ≡ false = placed.begun ∙ o.begun in
      let (below, begun', no_nodes) =
        set_member-IsBelow k name value m begun (ap (λ d. type_of d root) same ∙ o.document_object)
          held in
      record {
        step = record {
          next = set_plain json value (at_member json name (member m.document root k) m);
          through =
              rw
                (
                  index_open json laws nested key b o,
                  index_placed key name b m placed begun o.no_nodes held.1,
                )
                refl;
          is_open = record {
            begun = begun';
            no_nodes = no_nodes;
            document_object = below.root_object;
          };
          others = λ j ne. below.same j ∙ ap (λ d. has_member d root j) same;
        };
        holds = below.holds;
      }
