-- ===== src/Samples/Nodesets.antt =====
-- Small nodesets over the sample ids.
use open62541_nodeset_loader.Base.{ℕ, Bool, true, false, List, [], ◌∷◌, none, ◌==◌, if◌then◌else◌}
use open62541_nodeset_loader.Container.{NodePtr, NodeContainer}
use open62541_nodeset_loader.Node.{
  NodeClass, object, variable, reference_type, Reference, Node, node_new,
}
use open62541_nodeset_loader.Nodeset.{Nodeset, set_class}
use open62541_nodeset_loader.Samples.Ids.{sample_ua}

abbrev link_to : Bool → ℕ → ℕ → Reference ℕ
link_to is_forward ref_type target = record {
  is_forward = is_forward;
  ref_type = ref_type;
  target = target;
  target_ptr = none;
}

abbrev node_with : ℕ → NodeClass → List (Reference ℕ) → Node ℕ
node_with id c refs = record (node_new 0 c) { node_class = c; id = id; refs = refs }

abbrev holding : List NodePtr → ℕ → NodeContainer
holding nodes size = record { nodes = nodes; size = size; capacity = 4 }

abbrev empty_room : NodeContainer
empty_room = holding (0 ∷ 0 ∷ 0 ∷ 0 ∷ []) 0

-- The variable at 1 (id 500) is a component of the object at 2 (id 300), which is organised by a
-- folder of the server (id 85) that is not in the nodeset.
abbrev part_heap : NodePtr → Node ℕ
part_heap p =
    if p == 1
    then node_with 500 variable (link_to false 47 300 ∷ link_to true 40 63 ∷ [])
    else node_with 300 object (link_to false 35 85 ∷ [])

abbrev nodeset_of :
    (NodePtr → Node ℕ) → (NodeClass → NodeContainer) → NodeContainer → Nodeset sample_ua
nodeset_of heap nodes all_nodes = record {
  char_arena = record {
    initial_size = 0;
    current = record { capacity = 0; size = 0; mem = []; user_ptr = 0; user_size = 0 };
    older = [];
  };
  alias_list = record { cells = [] };
  heap = heap;
  next_ptr = 3;
  nodes = nodes;
  all_nodes = all_nodes;
  sorted_nodes = empty_room;
  ns_mapping = record { namespace_uris = []; remote2local = [] };
  log = [];
}

abbrev no_nodes : NodeClass → NodeContainer
no_nodes c = empty_room

abbrev pub part_nodeset : Nodeset sample_ua
part_nodeset =
    nodeset_of part_heap
      (set_class (set_class no_nodes variable (holding (1 ∷ 0 ∷ 0 ∷ 0 ∷ []) 1)) object
        (holding (2 ∷ 0 ∷ 0 ∷ 0 ∷ []) 1))
      (holding (1 ∷ 2 ∷ 0 ∷ 0 ∷ []) 2)

-- Two reference types that are subtypes of one another (HasSubtype is 45).
abbrev circle_heap : NodePtr → Node ℕ
circle_heap p =
    if p == 1
    then node_with 500 reference_type (link_to false 45 300 ∷ [])
    else node_with 300 reference_type (link_to false 45 500 ∷ [])

abbrev pub circle_nodeset : Nodeset sample_ua
circle_nodeset =
    nodeset_of circle_heap (set_class no_nodes reference_type (holding (1 ∷ 2 ∷ 0 ∷ 0 ∷ []) 2))
      (holding (1 ∷ 2 ∷ 0 ∷ 0 ∷ []) 2)
