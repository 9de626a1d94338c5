-- ===== src/Build/Keeps/Texts.antt =====
-- The functions for references, aliases, namespaces and texts leave a nodeset that is being read.
use open62541_nodeset_loader.Base.{
  ℕ, ◌≡◌, refl, false, List, Option, fault, ret, deref, Ensures, Ensures-ret, Ensures-fault,
  Ensures-bind, Ensures-rest, Ensures-map, Ensures-if,
}
use open62541_nodeset_loader.Ua.{Text, Ua, LocalizedText, ua_string}
use open62541_nodeset_loader.Container.{NodePtr}
use open62541_nodeset_loader.Node.{Node, Specific, allocated_class}
use open62541_nodeset_loader.Nodeset.{Nodeset}
use open62541_nodeset_loader.Build.Attributes.{Attribute, alias_to_id}
use open62541_nodeset_loader.Build.Fields.{get_value, get_flag}
use open62541_nodeset_loader.Build.Keeps.{
  IsRead, IsUnsorted, Same, Same-trans, IsRead-Same, write-IsRead, get_value-Same, get_flag-Same,
}
use open62541_nodeset_loader.Build.{
  RefPtr, new_reference, new_reference_finish, nodeset_new_alias, new_alias_finish,
  new_namespace_finish, set_display_name, display_name_finish, set_description, description_finish,
  write_inverse_name, set_inverse_name, inverse_name_finish, is_reference_type,
}
use open62541_nodeset_loader.Build.Attributes.{
  attr_locale, attr_is_forward, attr_reference_type, attr_alias,
}

module _ (ua : Ua) where
  pub new_reference-IsRead :
      (p : NodePtr) (attributes : List Attribute) (s : Nodeset ua)
      → IsRead ua s
      → Ensures (λ r. IsRead ua r.0) (new_reference ua p attributes s)
  unfolding new_reference
  new_reference-IsRead p attributes s h =
      Ensures-bind (λ r. Same ua s r.0) _ (get_flag ua attr_is_forward attributes s) _
        (get_flag-Same ua attr_is_forward attributes s)
        λ r k.
          Ensures-bind (λ v. Same ua r.0 v.0) _ (get_value ua attr_reference_type attributes r.0) _
            (get_value-Same ua attr_reference_type attributes r.0)
            λ v same.
              (let read = IsRead-Same ua (Same-trans ua k same) h in
                Ensures-rest _ (alias_to_id ua v.0 v.1) _
                  λ type. Ensures-ret _ _ (write-IsRead ua p _ v.0 read (read.unsorted p)))

  pub new_reference_finish-IsRead :
      (ref : RefPtr) (text : _) (s : Nodeset ua)
      → IsRead ua s
      → Ensures (IsRead ua) (new_reference_finish ua ref text s)
  unfolding new_reference_finish
  new_reference_finish-IsRead ref text s h =
      Ensures-rest _ (alias_to_id ua s text) _
        λ target. Ensures-ret _ _ (write-IsRead ua ref.owner _ s h (h.unsorted ref.owner))

  pub nodeset_new_alias-IsRead :
      (attributes : List Attribute) (s : Nodeset ua)
      → IsRead ua s
      → Ensures (λ r. IsRead ua r.0) (nodeset_new_alias ua attributes s)
  unfolding nodeset_new_alias
  nodeset_new_alias-IsRead attributes s h =
      Ensures-bind (λ r. Same ua s r.0) _ (get_value ua attr_alias attributes s) _
        (get_value-Same ua attr_alias attributes s)
        λ r k. Ensures-ret _ _ (
          IsRead-Same ua
            (record {
              heap = k.heap;
              nodes = k.nodes;
              all_nodes = k.all_nodes;
              sorted_nodes = k.sorted_nodes;
              next_ptr = k.next_ptr;
            })
            h)

  pub new_alias_finish-IsRead :
      (alias : Option ℕ) (text : _) (s : Nodeset ua)
      → IsRead ua s
      → Ensures (IsRead ua) (new_alias_finish ua alias text s)
  unfolding new_alias_finish
  new_alias_finish-IsRead alias text s h = Ensures-rest _ (deref alias) _ λ i. Ensures-ret _ _ (
      IsRead-Same ua
        (record {
          heap = refl;
          nodes = refl;
          all_nodes = refl;
          sorted_nodes = refl;
          next_ptr = refl;
        })
        h)

  pub new_namespace_finish-IsRead :
      {UserContext : Type 0} (add_namespace : _) (user_context : UserContext) (uri : _)
      (s : Nodeset ua)
      → IsRead ua s
      → Ensures (λ r. IsRead ua r.1) (new_namespace_finish ua add_namespace user_context uri s)
  unfolding new_namespace_finish
  new_namespace_finish-IsRead add_namespace user_context uri s h =
      Ensures-rest _ (add_namespace (ua_string uri) user_context s.ns_mapping) _ λ added.
        Ensures-ret _ _ (
          IsRead-Same ua
            (record {
              heap = refl;
              nodes = refl;
              all_nodes = refl;
              sorted_nodes = refl;
              next_ptr = refl;
            })
            h)

  -- After the locale was read.
  get_value-IsRead :
      (attributes : List Attribute) (s : Nodeset ua)
      → IsRead ua s
      → Ensures (λ r. IsRead ua r.0) (get_value ua attr_locale attributes s)
  get_value-IsRead attributes s h =
      Ensures-map (λ r. Same ua s r.0) (λ r. IsRead ua r.0) (get_value ua attr_locale attributes s)
        (get_value-Same ua attr_locale attributes s) λ r k. IsRead-Same ua k h

  pub set_display_name-IsRead :
      (p : NodePtr) (attributes : List Attribute) (s : Nodeset ua)
      → IsRead ua s
      → Ensures (IsRead ua) (set_display_name ua p attributes s)
  unfolding set_display_name
  set_display_name-IsRead p attributes s h =
      Ensures-bind (λ r. IsRead ua r.0) _ (get_value ua attr_locale attributes s) _
        (get_value-IsRead attributes s h)
        λ r read. Ensures-ret _ _ (write-IsRead ua p _ r.0 read (read.unsorted p))

  pub display_name_finish-IsRead :
      (p : NodePtr) (text : _) (s : Nodeset ua)
      → IsRead ua s
      → IsRead ua (display_name_finish ua p text s)
  unfolding display_name_finish
  display_name_finish-IsRead p text s h = write-IsRead ua p _ s h (h.unsorted p)

  pub set_description-IsRead :
      (p : NodePtr) (attributes : List Attribute) (s : Nodeset ua)
      → IsRead ua s
      → Ensures (IsRead ua) (set_description ua p attributes s)
  unfolding set_description
  set_description-IsRead p attributes s h =
      Ensures-bind (λ r. IsRead ua r.0) _ (get_value ua attr_locale attributes s) _
        (get_value-IsRead attributes s h)
        λ r read. Ensures-ret _ _ (write-IsRead ua p _ r.0 read (read.unsorted p))

  pub description_finish-IsRead :
      (p : NodePtr) (text : _) (s : Nodeset ua)
      → IsRead ua s
      → IsRead ua (description_finish ua p text s)
  unfolding description_finish
  description_finish-IsRead p text s h = write-IsRead ua p _ s h (h.unsorted p)

  -- What a write to the inverse name leaves, by the struct that is there.
  inverse_written :
      (change : LocalizedText → LocalizedText) (n : Node ua.NodeId) (specific : Specific ua.NodeId)
      → n.is_done ≡ false
      → allocated_class specific ≡ n.node_class
      → Ensures (IsUnsorted ua) (elim specific [
        | Specific.reference_type m ↦ ret (record n {
          specific = Specific.reference_type (record m { inverse_name = change m.inverse_name });
        })
        | _ ↦ fault
      ])
  inverse_written change n (Specific.reference_type m) d c = Ensures-ret _ _ (d, c)
  inverse_written change n _ d c = Ensures-fault _

  write_inverse_name-IsUnsorted :
      (change : LocalizedText → LocalizedText) (n : Node ua.NodeId)
      → IsUnsorted ua n
      → Ensures (IsUnsorted ua) (write_inverse_name ua change n)
  unfolding write_inverse_name
  write_inverse_name-IsUnsorted change n h = inverse_written change n n.specific h.0 h.1

  pub set_inverse_name-IsRead :
      (p : NodePtr) (attributes : List Attribute) (s : Nodeset ua)
      → IsRead ua s
      → Ensures (IsRead ua) (set_inverse_name ua p attributes s)
  unfolding set_inverse_name
  set_inverse_name-IsRead p attributes s h =
      Ensures-if _ (is_reference_type ua (s.heap p).node_class) _ _
        (Ensures-bind (λ r. IsRead ua r.0) _ (get_value ua attr_locale attributes s) _
          (get_value-IsRead attributes s h)
          λ r read.
            Ensures-bind (IsUnsorted ua) _
              (write_inverse_name ua (λ name. record name { locale = r.1 }) (r.0.heap p)) _
              (write_inverse_name-IsUnsorted _ (r.0.heap p) (read.unsorted p))
              λ n k. Ensures-ret _ _ (write-IsRead ua p n r.0 read k))
        (Ensures-ret _ s h)

  pub inverse_name_finish-IsRead :
      (p : NodePtr) (text : Option Text) (s : Nodeset ua)
      → IsRead ua s
      → Ensures (IsRead ua) (inverse_name_finish ua p text s)
  unfolding inverse_name_finish
  inverse_name_finish-IsRead p text s h =
      Ensures-if _ (is_reference_type ua (s.heap p).node_class) _ _
        (Ensures-bind (IsUnsorted ua) _
          (write_inverse_name ua (λ name. record name { text = text }) (s.heap p)) _
          (write_inverse_name-IsUnsorted _ (s.heap p) (h.unsorted p))
          λ n k. Ensures-ret _ _ (write-IsRead ua p n s h k))
        (Ensures-ret _ s h)
