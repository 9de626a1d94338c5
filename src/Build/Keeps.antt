-- ===== src/Build/Keeps.antt =====
-- What the functions of Build leave of a nodeset: its containers are sound and nothing is sorted,
-- and every node has the struct of its class.
pub mod Types
pub mod Texts
use open62541_nodeset_loader.Base.{
  ℕ, suc, ◌≡◌, refl, sym, ap, ◌∙◌, subst, Bool, true, false, List, [], ◌∷◌, Option, none, some, ◌<◌,
  ◌++◌, ltb, count, count-append, ◌==◌, if◌then◌else◌, Bool-cases, ◌⊎◌, inl, inr, Exec, fault, ret,
  ◌>>=◌, deref, arith, Ensures, Ensures-ret, Ensures-fault, Ensures-bind, Ensures-rest, Ensures-if,
  Ensures-value,
}
use open62541_nodeset_loader.Ua.{Ua}
use open62541_nodeset_loader.Arena.{CharArenaAllocator}
use open62541_nodeset_loader.Nodeset.Sort.Conserve.{held}
use open62541_nodeset_loader.Build.Live.{live_below, live_below-suc, count-add, held-add}
use open62541_nodeset_loader.Container.{NodePtr, NodeContainer, contents, add}
use open62541_nodeset_loader.Container.Laws.{IsValid, add-contents}
use open62541_nodeset_loader.Node.{
  NodeClass, class_index, object, object_type, variable, data_type, method, reference_type,
  variable_type, view, Node, Specific, allocated_class, node_new,
}
use open62541_nodeset_loader.Nodeset.{Nodeset, update, set_class, null_id}
use open62541_nodeset_loader.Build.Attributes.{
  NodeAttribute, Attribute, field_name, field_value, field_data_type, field_is_optional,
  attr_value_rank, attr_node_id, attr_browse_name, attr_data_type, attr_minimum_sampling_interval,
  attr_array_dimensions, attr_access_level, attr_user_access_level, attr_historizing,
  attr_is_abstract, attr_executable, attr_user_executable, attr_contains_no_loops,
  attr_event_notifier, extract_specific, extract_attributes, alias_to_id, get_attribute_value,
}
use open62541_nodeset_loader.Build.Fields.{
  atoi, get_value, get_flag, as_data_type, set_definition, add_data_type_definition, read_field,
  add_data_type_field,
}
use open62541_nodeset_loader.Build.{new_node, write_node}

module _ (ua : Ua) where
  -- A node that is not sorted and has the struct of its class.
  abbrev pub IsUnsorted : Node ua.NodeId → Type 0
  IsUnsorted n = (n.is_done ≡ false) × (allocated_class n.specific ≡ n.node_class)

  -- A nodeset that is being read. Every node that was made stands once in `allNodes`, and once in
  -- one of the eight containers.
  pub record IsRead (s : Nodeset ua) : Type 0 where
    pub containers : (c : NodeClass) → IsValid (s.nodes c)
    pub all_nodes : IsValid s.all_nodes
    pub sorted_nodes : IsValid s.sorted_nodes
    pub nothing_sorted : s.sorted_nodes.size ≡ 0
    pub unsorted : (p : NodePtr) → IsUnsorted (s.heap p)
    pub live : (p : NodePtr) → count p (contents s.all_nodes) ≡ live_below s.next_ptr p
    pub classed : (p : NodePtr) → held s.nodes p ≡ live_below s.next_ptr p
    pub next_live : 0 < s.next_ptr

  -- The nodes and the containers are the same.
  pub record Same (s t : Nodeset ua) : Type 0 where
    pub heap : t.heap ≡ s.heap
    pub nodes : t.nodes ≡ s.nodes
    pub all_nodes : t.all_nodes ≡ s.all_nodes
    pub sorted_nodes : t.sorted_nodes ≡ s.sorted_nodes
    pub next_ptr : t.next_ptr ≡ s.next_ptr

  pub Same-trans : {s t u : Nodeset ua} → Same s t → Same t u → Same s u
  Same-trans a b = record {
    heap = b.heap ∙ a.heap;
    nodes = b.nodes ∙ a.nodes;
    all_nodes = b.all_nodes ∙ a.all_nodes;
    sorted_nodes = b.sorted_nodes ∙ a.sorted_nodes;
    next_ptr = b.next_ptr ∙ a.next_ptr;
  }

  pub IsRead-Same : {s t : Nodeset ua} → Same s t → IsRead s → IsRead t
  IsRead-Same a h = record {
    containers = λ c. rw a.nodes (h.containers c);
    all_nodes = rw a.all_nodes h.all_nodes;
    sorted_nodes = rw a.sorted_nodes h.sorted_nodes;
    nothing_sorted = rw a.sorted_nodes h.nothing_sorted;
    unsorted = λ p. rw a.heap (h.unsorted p);
    live = λ p. rw (a.all_nodes, a.next_ptr) (h.live p);
    classed = λ p. rw (a.nodes, a.next_ptr) (h.classed p);
    next_live = rw a.next_ptr h.next_live;
  }

  update-IsUnsorted :
      (heap : NodePtr → Node ua.NodeId) (p : NodePtr) (n : Node ua.NodeId)
      → ((q : NodePtr) → IsUnsorted (heap q))
      → IsUnsorted n
      → (q : NodePtr) → IsUnsorted (update heap p n q)
  update-IsUnsorted heap p n h k q = elim (Bool-cases (q == p)) [
    | inl e ↦ rw e k
    | inr e ↦ rw e (h q)
  ]

  pub write-IsRead :
      (p : NodePtr) (n : Node ua.NodeId) (s : Nodeset ua)
      → IsRead s
      → IsUnsorted n
      → IsRead (write_node ua p n s)
  write-IsRead p n s h k = record {
    containers = h.containers;
    all_nodes = h.all_nodes;
    sorted_nodes = h.sorted_nodes;
    nothing_sorted = h.nothing_sorted;
    unsorted = update-IsUnsorted s.heap p n h.unsorted k;
    live = h.live;
    classed = h.classed;
    next_live = h.next_live;
  }

  extract_specific_class :
      (nodeset : Nodeset ua) (c : NodeClass) (specific : Specific ua.NodeId)
      (attributes : List Attribute) (arena : CharArenaAllocator)
      → Ensures
          (λ r. allocated_class r.1 ≡ c)
          (extract_specific ua nodeset c specific attributes arena)
  unfolding extract_specific
  extract_specific_class s object_type (Specific.object_type n) attributes arena =
      Ensures-rest _ _ _ λ _. Ensures-ret _ _ refl
  extract_specific_class s object (Specific.object n) attributes arena =
      Ensures-rest _ _ _ λ _. Ensures-ret _ _ refl
  extract_specific_class s variable (Specific.variable n) attributes arena =
      Ensures-rest _ (get_attribute_value arena attr_data_type attributes) _ λ r1.
        Ensures-rest _ (alias_to_id ua s r1.1 >>= λ id. ret (r1.0, id)) _ λ r2.
          Ensures-rest _ (get_attribute_value r2.0 attr_value_rank attributes) _ λ r3.
            Ensures-rest _ (get_attribute_value r3.0 attr_minimum_sampling_interval attributes) _
              λ r4.
                Ensures-rest _ (get_attribute_value r4.0 attr_array_dimensions attributes) _ λ r5.
                  Ensures-rest _ (get_attribute_value r5.0 attr_access_level attributes) _ λ r6.
                    Ensures-rest _ (get_attribute_value r6.0 attr_user_access_level attributes) _
                      λ r7.
                        Ensures-rest _ (get_attribute_value r7.0 attr_historizing attributes) _
                          λ r8. Ensures-ret _ _ refl
  extract_specific_class s variable_type (Specific.variable_type n) attributes arena =
      Ensures-rest _ (get_attribute_value arena attr_value_rank attributes) _ λ r1.
        Ensures-rest _ (get_attribute_value r1.0 attr_data_type attributes) _ λ r2.
          Ensures-rest _ (alias_to_id ua s r2.1 >>= λ id. ret (r2.0, id)) _ λ r3.
            Ensures-rest _ (get_attribute_value r3.0 attr_array_dimensions attributes) _ λ r4.
              Ensures-rest _ (get_attribute_value r4.0 attr_is_abstract attributes) _
                λ r5. Ensures-ret _ _ refl
  extract_specific_class s data_type (Specific.data_type n) attributes arena =
      Ensures-rest _ _ _ λ _. Ensures-ret _ _ refl
  extract_specific_class s method (Specific.method n) attributes arena =
      Ensures-rest _ (get_attribute_value arena attr_executable attributes) _ λ r1.
        Ensures-rest _ (get_attribute_value r1.0 attr_user_executable attributes) _
          λ r2. Ensures-ret _ _ refl
  extract_specific_class s reference_type (Specific.reference_type n) attributes arena =
      Ensures-rest _ _ _ λ _. Ensures-ret _ _ refl
  extract_specific_class s view (Specific.view n) attributes arena =
      Ensures-rest _ (get_attribute_value arena attr_contains_no_loops attributes) _ λ r1.
        Ensures-rest _ (get_attribute_value r1.0 attr_event_notifier attributes) _
          λ r2. Ensures-ret _ _ refl
  extract_specific_class s _ _ attributes arena = Ensures-fault _

  extract_attributes-IsUnsorted :
      (nodeset : Nodeset ua) (node : Node ua.NodeId) (attributes : List Attribute)
      (arena : CharArenaAllocator)
      → node.is_done ≡ false
      → Ensures (λ r. IsUnsorted r.1) (extract_attributes ua nodeset node attributes arena)
  unfolding extract_attributes
  extract_attributes-IsUnsorted nodeset node attributes arena h =
      Ensures-rest _ (get_attribute_value arena attr_node_id attributes) _ λ id.
        Ensures-rest _ (get_attribute_value id.0 attr_browse_name attributes) _ λ name.
          Ensures-bind (λ r. allocated_class r.1 ≡ node.node_class) _
            (extract_specific ua nodeset node.node_class node.specific attributes name.0) _
            (extract_specific_class nodeset node.node_class node.specific attributes name.0)
            λ r k. Ensures-ret _ _ (h, k)

  set_class-IsValid :
      (s : Nodeset ua) (c : NodeClass) (p : NodePtr)
      → IsRead s
      → (d : NodeClass) → IsValid (set_class s.nodes c (add true (s.nodes c) p).0 d)
  set_class-IsValid s c p h d = elim (Bool-cases (class_index d == class_index c)) [
    | inl e ↦ rw e (add-contents (s.nodes c) p (h.containers c)).0
    | inr e ↦ rw e (h.containers d)
  ]

  pub new_node-IsRead :
      (c : NodeClass) (attributes : List Attribute) (s : Nodeset ua)
      → IsRead s
      → Ensures (λ r. IsRead r.0) (new_node ua c attributes s)
  unfolding new_node
  new_node-IsRead c attributes s h =
      let node = record (node_new (null_id ua) c) { node_class = c } in
      Ensures-bind (λ r. IsUnsorted r.1) _ _ _
        (extract_attributes-IsUnsorted s node attributes s.char_arena (unfold node_new in refl))
        λ r k. Ensures-ret _ _ (record {
          containers = set_class-IsValid s c s.next_ptr h;
          all_nodes = (add-contents s.all_nodes s.next_ptr h.all_nodes).0;
          sorted_nodes = h.sorted_nodes;
          nothing_sorted = h.nothing_sorted;
          unsorted = update-IsUnsorted s.heap s.next_ptr r.1 h.unsorted k;
          live = λ p. omega (
            arith,
            count-add s.all_nodes s.next_ptr p h.all_nodes,
            h.live p,
            live_below-suc s.next_ptr p h.next_live,
          );
          classed = λ p. omega (
            arith,
            held-add s.nodes c s.next_ptr p (h.containers c),
            h.classed p,
            live_below-suc s.next_ptr p h.next_live,
          );
          next_live = omega arith;
        })

  pub get_value-Same :
      (attr : NodeAttribute) (attributes : List Attribute) (s : Nodeset ua)
      → Ensures (λ r. Same s r.0) (get_value ua attr attributes s)
  unfolding get_value
  get_value-Same attr attributes s = Ensures-rest _ _ _ λ r.
      Ensures-ret _ _ (record {
        heap = refl;
        nodes = refl;
        all_nodes = refl;
        sorted_nodes = refl;
        next_ptr = refl;
      })

  pub get_flag-Same :
      (attr : NodeAttribute) (attributes : List Attribute) (s : Nodeset ua)
      → Ensures (λ r. Same s r.0) (get_flag ua attr attributes s)
  unfolding get_flag
  get_flag-Same attr attributes s =
      Ensures-bind (λ r. Same s r.0) _ (get_value ua attr attributes s) _
        (get_value-Same attr attributes s) λ r k. Ensures-rest _ _ _ λ text. Ensures-ret _ _ k
