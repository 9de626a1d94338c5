-- ===== src/Build/Keeps/Types.antt =====
-- The functions for data types leave a nodeset that is being read.
use open62541_nodeset_loader.Base.{
  ◌≡◌, refl, sym, ap, ◌∙◌, List, Option, none, some, deref, Ensures, Ensures-ret, Ensures-fault,
  Ensures-bind, Ensures-rest,
}
use open62541_nodeset_loader.Ua.{Ua}
use open62541_nodeset_loader.Container.{NodePtr}
use open62541_nodeset_loader.Node.{data_type, Specific, allocated_class}
use open62541_nodeset_loader.Nodeset.{Nodeset}
use open62541_nodeset_loader.Build.Attributes.{
  Attribute, field_name, field_value, field_data_type, field_is_optional, attr_value_rank,
  alias_to_id,
}
use open62541_nodeset_loader.Build.Fields.{
  atoi, get_value, get_flag, as_data_type, set_definition, add_data_type_definition, read_field,
  add_data_type_field,
}
use open62541_nodeset_loader.Build.Keeps.{
  IsRead, Same, Same-trans, IsRead-Same, write-IsRead, get_value-Same, get_flag-Same,
}

module _ (ua : Ua) where
  -- A cast that succeeds tells the struct.
  as_data_type-class :
      (specific : Specific ua.NodeId)
      → Ensures (λ n. allocated_class specific ≡ data_type) (as_data_type ua specific)
  unfolding as_data_type
  as_data_type-class (Specific.data_type n) = Ensures-ret _ _ refl
  as_data_type-class _ = Ensures-fault _

  set_definition-IsRead :
      (p : NodePtr) (n : _) (definition : _) (s t : Nodeset ua)
      → IsRead ua s
      → Same ua s t
      → allocated_class (s.heap p).specific ≡ data_type
      → IsRead ua (set_definition ua p n definition t)
  unfolding set_definition
  set_definition-IsRead p n definition s t h same e =
      let read = IsRead-Same ua same h in
      write-IsRead ua p _ t read (
        (read.unsorted p).0,
        sym e
            ∙ (ap (λ heap. allocated_class (heap p).specific) (sym same.heap)
                ∙ (read.unsorted p).1),
      )

  pub add_data_type_definition-IsRead :
      (p : NodePtr) (attributes : List Attribute) (s : Nodeset ua)
      → IsRead ua s
      → Ensures (IsRead ua) (add_data_type_definition ua p attributes s)
  unfolding add_data_type_definition
  add_data_type_definition-IsRead p attributes s h =
      Ensures-bind (λ n. allocated_class (s.heap p).specific ≡ data_type) _ _ _
        (as_data_type-class (s.heap p).specific)
        λ n e.
          Ensures-bind (λ r. Same ua s r.0) _ _ _ (get_flag-Same ua _ attributes s)
            λ r1 k1.
              Ensures-bind (λ r. Same ua r1.0 r.0) _ _ _ (get_flag-Same ua _ attributes r1.0)
                λ r2 k2.
                  Ensures-ret _ _ (set_definition-IsRead p n _ s r2.0 h (Same-trans ua k1 k2) e)

  read_field-Same :
      (name value : Option _) (attributes : List Attribute) (definition : _) (s : Nodeset ua)
      → Ensures (λ r. Same ua s r.0) (read_field ua name value attributes definition s)
  unfolding read_field
  read_field-Same name (some value) attributes definition s = Ensures-rest _ _ _ λ number.
      Ensures-ret _ _ (record {
        heap = refl;
        nodes = refl;
        all_nodes = refl;
        sorted_nodes = refl;
        next_ptr = refl;
      })
  read_field-Same name none attributes definition s =
      Ensures-bind (λ r. Same ua s r.0) _ (get_value ua field_data_type attributes s) _
        (get_value-Same ua field_data_type attributes s)
        λ r1 k1. Ensures-rest _ (alias_to_id ua r1.0 r1.1) _ λ type.
          Ensures-bind (λ r. Same ua r1.0 r.0) _ (get_value ua attr_value_rank attributes r1.0) _
            (get_value-Same ua attr_value_rank attributes r1.0)
            λ r2 k2. Ensures-rest _ (deref r2.1) _ λ rank.
              Ensures-rest _ (atoi rank) _ λ value_rank.
                Ensures-bind (λ r. Same ua r2.0 r.0) _
                  (get_flag ua field_is_optional attributes r2.0) _
                  (get_flag-Same ua field_is_optional attributes r2.0)
                  λ r k.
                    Ensures-ret (λ t. Same ua s t.0) (r.0, _, definition.is_enum)
                      (Same-trans ua k1 (Same-trans ua k2 k))

  pub add_data_type_field-IsRead :
      (p : NodePtr) (attributes : List Attribute) (s : Nodeset ua)
      → IsRead ua s
      → Ensures (IsRead ua) (add_data_type_field ua p attributes s)
  unfolding add_data_type_field
  add_data_type_field-IsRead p attributes s h =
      Ensures-bind (λ n. allocated_class (s.heap p).specific ≡ data_type) _ _ _
        (as_data_type-class (s.heap p).specific)
        λ n e. Ensures-rest _ (deref n.definition) _ λ definition.
          Ensures-bind (λ r. Same ua s r.0) _ (get_value ua field_name attributes s) _
            (get_value-Same ua field_name attributes s)
            λ r1 k1.
              Ensures-bind (λ r. Same ua r1.0 r.0) _ (get_value ua field_value attributes r1.0) _
                (get_value-Same ua field_value attributes r1.0)
                λ r2 k2.
                  Ensures-bind (λ r. Same ua r2.0 r.0) (IsRead ua)
                    (read_field ua r1.1 r2.1 attributes definition r2.0) _
                    (read_field-Same _ _ attributes definition r2.0)
                    λ r k. Ensures-ret (IsRead ua) _ (
                      set_definition-IsRead p n _ s r.0 h (Same-trans ua k1 (Same-trans ua k2 k)) e)
