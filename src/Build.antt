-- ===== src/Build.antt =====
-- The functions of src/Nodeset.c that the XML handlers call to fill a nodeset.
-- A text goes through the character arena and is read back from there; fields hold its bytes.
-- `calloc` and `realloc` are taken to succeed here.
pub mod Attributes
pub mod Fields
pub mod Texts
pub mod Visits
pub mod Live
pub mod Keeps
use open62541_nodeset_loader.Base.{
  ℕ, suc, Bool, true, false, List, [], ◌∷◌, Option, none, some, length, map, ◌==◌, if◌then◌else◌,
  Exec, fault, ret, ◌>>=◌, deref,
}
use open62541_nodeset_loader.Ua.{Text, Ua, LocalizedText, NamespaceMapping, ua_string}
use open62541_nodeset_loader.AliasList.{new_alias, set_id}
use open62541_nodeset_loader.Container.{NodePtr, contents}
use open62541_nodeset_loader.Container
use open62541_nodeset_loader.Node.{NodeClass, class_index, Reference, Node, Specific, node_new}
use open62541_nodeset_loader.Nodeset.{Nodeset, update, set_class, null_id}
use Attributes.{
  Attribute, extract_attributes, alias_to_id, attr_is_forward, attr_reference_type, attr_alias,
  attr_locale,
}
use Fields.{get_value, get_flag}

-- An `NL_Reference *`: the node that owns the list, and the reference's place counted from the end
-- of the list, which stays when newer ones are put in front.
pub record RefPtr : Type 0 where
  pub owner : NodePtr
  pub place : ℕ

module _ (ua : Ua) where
  -- A new address holds the new node, and both containers the address.
  unfoldable pub new_node : NodeClass → List Attribute → Nodeset ua → Exec (Nodeset ua × NodePtr)
  new_node c attributes nodeset = do
    let node = record (node_new (null_id ua) c) { node_class = c }
    (arena, filled) ← extract_attributes ua nodeset node attributes nodeset.char_arena
    let p = nodeset.next_ptr
    ret (
      record nodeset {
        char_arena = arena;
        heap = update nodeset.heap p filled;
        next_ptr = suc p;
        nodes = set_class nodeset.nodes c (Container.add true (nodeset.nodes c) p).0;
        all_nodes = (Container.add true nodeset.all_nodes p).0;
      },
      p,
    )

  -- A write to a node.
  abbrev pub write_node : NodePtr → Node ua.NodeId → Nodeset ua → Nodeset ua
  write_node p node nodeset = record nodeset { heap = update nodeset.heap p node }

  unfoldable pub new_reference : NodePtr → List Attribute → Nodeset ua → Exec (Nodeset ua × RefPtr)
  new_reference p attributes nodeset = do
    (nodeset1, is_forward) ← get_flag ua attr_is_forward attributes nodeset
    (nodeset2, type_name) ← get_value ua attr_reference_type attributes nodeset1
    ref_type ← alias_to_id ua nodeset2 type_name
    let node = nodeset2.heap p
    let ref : Reference ua.NodeId = record {
      is_forward = is_forward;
      ref_type = ref_type;
      target = null_id ua;
      target_ptr = none;
    }
    ret (
      write_node p (record node { refs = ref ∷ node.refs }) nodeset2,
      record { owner = p; place = length node.refs },
    )

  -- `ref->target = target`
  unfoldable pub set_target :
      List (Reference ua.NodeId) → ℕ → ua.NodeId → List (Reference ua.NodeId)
  set_target [] place target = []
  set_target (ref ∷ refs) place target =
      let rest = set_target refs place target in
      if length refs == place then record ref { target = target } ∷ refs else ref ∷ rest

  unfoldable pub new_reference_finish : RefPtr → Option Text → Nodeset ua → Exec (Nodeset ua)
  unfolding set_target
  new_reference_finish ref text nodeset = do
    target ← alias_to_id ua nodeset text
    let node = nodeset.heap ref.owner
    ret (
        write_node ref.owner (record node { refs = set_target node.refs ref.place target }) nodeset)

  -- An `Alias *`, or NULL when the table is full.
  unfoldable pub nodeset_new_alias : List Attribute → Nodeset ua → Exec (Nodeset ua × Option ℕ)
  nodeset_new_alias attributes nodeset = do
    (read, name) ← get_value ua attr_alias attributes nodeset
    let (list, alias) = new_alias (null_id ua) read.alias_list name
    ret (record read { alias_list = list }, alias)

  unfoldable pub new_alias_finish : Option ℕ → Option Text → Nodeset ua → Exec (Nodeset ua)
  new_alias_finish alias text nodeset = do
    i ← deref alias
    ret (record nodeset {
      alias_list = set_id nodeset.alias_list i (ua.parse_node_id text nodeset.ns_mapping);
    })

  -- The file context's callback is an argument.
  unfoldable pub new_namespace_finish :
      {UserContext : Type 0}
      → (Text → UserContext → NamespaceMapping → Exec (UserContext × NamespaceMapping))
      → UserContext
      → Option Text
      → Nodeset ua
      → Exec (UserContext × Nodeset ua)
  new_namespace_finish add_namespace user_context uri nodeset =
      add_namespace (ua_string uri) user_context nodeset.ns_mapping >>= λ added.
      ret (added.0, record nodeset { ns_mapping = added.1 })

  unfoldable pub set_display_name : NodePtr → List Attribute → Nodeset ua → Exec (Nodeset ua)
  set_display_name p attributes nodeset = do
    (read, locale) ← get_value ua attr_locale attributes nodeset
    let node = read.heap p
    ret (
        write_node p (record node { display_name = record (node.display_name) { locale = locale } })
          read)

  unfoldable pub display_name_finish : NodePtr → Option Text → Nodeset ua → Nodeset ua
  display_name_finish p text nodeset =
      let node = nodeset.heap p in
      write_node p (record node { display_name = record (node.display_name) { text = text } })
        nodeset

  unfoldable pub set_description : NodePtr → List Attribute → Nodeset ua → Exec (Nodeset ua)
  set_description p attributes nodeset = do
    (read, locale) ← get_value ua attr_locale attributes nodeset
    let node = read.heap p
    ret (
        write_node p (record node { description = record (node.description) { locale = locale } })
          read)

  unfoldable pub description_finish : NodePtr → Option Text → Nodeset ua → Nodeset ua
  description_finish p text nodeset =
      let node = nodeset.heap p in
      write_node p (record node { description = record (node.description) { text = text } }) nodeset

  -- A write to the inverse name behind a cast to `NL_ReferenceTypeNode *`.
  unfoldable pub write_inverse_name :
      (LocalizedText → LocalizedText) → Node ua.NodeId → Exec (Node ua.NodeId)
  write_inverse_name change node = elim node.specific [
    | Specific.reference_type n ↦ ret (record node {
      specific = Specific.reference_type (record n { inverse_name = change n.inverse_name });
    })
    | _ ↦ fault
  ]

  abbrev pub is_reference_type : NodeClass → Bool
  is_reference_type c = class_index c == class_index NodeClass.reference_type

  -- The guard of the two functions for the inverse name; without it nothing is read either.
  unfoldable pub set_inverse_name : NodePtr → List Attribute → Nodeset ua → Exec (Nodeset ua)
  unfolding write_inverse_name
  set_inverse_name p attributes nodeset =
      if is_reference_type (nodeset.heap p).node_class
      then (get_value ua attr_locale attributes nodeset >>= λ r.
          write_inverse_name (λ name. record name { locale = r.1 }) (r.0.heap p) >>= λ node.
          ret (write_node p node r.0))
      else ret nodeset

  unfoldable pub inverse_name_finish : NodePtr → Option Text → Nodeset ua → Exec (Nodeset ua)
  unfolding write_inverse_name
  inverse_name_finish p text nodeset =
      if is_reference_type (nodeset.heap p).node_class
      then (write_inverse_name (λ name. record name { text = text }) (nodeset.heap p) >>= λ node.
          ret (write_node p node nodeset))
      else ret nodeset

  -- The callback has a state, and says whether to go on.
  unfoldable pub visit :
      {Context : Type 0}
      → (Context → Node ua.NodeId → Exec (Context × Bool))
      → Context
      → List (Node ua.NodeId)
      → Exec (Context × Bool)
  visit fn context [] = ret (context, true)
  visit fn context (node ∷ nodes) =
      fn context node >>= λ r. elim r.1 [ true ↦ visit fn r.0 nodes | false ↦ ret (r.0, false) ]

  -- `Nodeset_forEachNode`
  unfoldable pub for_each_node :
      {Context : Type 0}
      → (Context → Node ua.NodeId → Exec (Context × Bool))
      → Context
      → Nodeset ua
      → Exec (Context × Bool)
  unfolding visit
  for_each_node fn context nodeset =
      visit fn context (map nodeset.heap (contents nodeset.sorted_nodes))
