-- ===== src/Nodeset.antt =====
-- The loader's state, `Nodeset` of src/Nodeset.h.
pub mod Search
pub mod Sort
use open62541_nodeset_loader.Base.{ℕ, Bool, List, [], ◌++◌, ◌∷◌, ◌==◌, if◌then◌else◌, true, false}
use open62541_nodeset_loader.Ua.{NamespaceMapping, Ua}
use open62541_nodeset_loader.Arena.{CharArenaAllocator, arena_new}
use open62541_nodeset_loader.AliasList.{AliasList}
use open62541_nodeset_loader.Container.{NodePtr, NodeContainer}
use open62541_nodeset_loader.Container
use open62541_nodeset_loader.Node.{NodeClass, class_index, Node, node_new}

-- The errors that `Nodeset_sort` logs. `out_of_fuel` is no message of the code: a loop of the model
-- leaves it in the log if it has to stop before the loop of the code does.
pub data SortError : Type 0 where
  reference_type_hierarchy data_type_hierarchy variable_type_hierarchy views infinite_loop
        out_of_fuel :
      SortError

-- Nodes live on a heap and are named by their addresses; the containers hold addresses.
-- `ns_mapping` stands for `fc->nsMapping`, and `log` for what was passed to the logger.
pub record Nodeset (ua : Ua) : Type 0 where
  pub char_arena : CharArenaAllocator
  pub alias_list : AliasList ua.NodeId
  pub heap : NodePtr → Node ua.NodeId
  pub next_ptr : NodePtr
  pub nodes : NodeClass → NodeContainer
  pub all_nodes : NodeContainer
  pub sorted_nodes : NodeContainer
  pub ns_mapping : NamespaceMapping
  pub log : List SortError

-- A write to one cell of the heap.
abbrev pub update : {A : Type 0} → (NodePtr → A) → NodePtr → A → NodePtr → A
update heap p node q = if q == p then node else heap q

-- A write to one of the eight containers.
abbrev pub set_class :
    (NodeClass → NodeContainer) → NodeClass → NodeContainer → NodeClass → NodeContainer
set_class nodes c container d = if class_index d == class_index c then container else nodes d

-- The room that `Nodeset_new` gives each container at first.
abbrev pub initial_room : NodeClass → ℕ
initial_room NodeClass.object = 1000
initial_room NodeClass.variable = 1000
initial_room NodeClass.method = 1000
initial_room NodeClass.object_type = 100
initial_room NodeClass.data_type = 100
initial_room NodeClass.reference_type = 100
initial_room NodeClass.variable_type = 100
initial_room NodeClass.view = 10

abbrev pub null_id : (ua : Ua) → ua.NodeId
null_id ua = ua.numeric 0 0

-- `Nodeset_new`, with the mapping of the first file; all allocations succeed. Address 0 is NULL.
unfoldable pub nodeset_new : (ua : Ua) → NamespaceMapping → Nodeset ua
nodeset_new ua mapping = record {
  char_arena = arena_new 1_048_576;
  alias_list = record { cells = [] };
  heap = λ p. node_new (null_id ua) NodeClass.object;
  next_ptr = 1;
  nodes = λ c. (Container.init true (initial_room c)).0;
  all_nodes = (Container.init true 10000).0;
  sorted_nodes = (Container.init true 10000).0;
  ns_mapping = mapping;
  log = [];
}
