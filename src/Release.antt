-- ===== src/Release.antt =====
-- What is given back when a loader is deleted: `Node_delete`, `CharArenaAllocator_delete`,
-- `AliasList_delete`, `Nodeset_cleanup` and `NodesetLoader_delete`, as the sequence of the calls
-- that free memory. `free` of NULL does nothing and is left out. A block is named by its owner, so
-- that what is freed is told of the owner's last block only: a definition that a second Definition
-- element replaced is not named (the code never frees it), and a call that clears an id does not
-- tell whether an alias shares what the id points to (the code then clears it once more).
use open62541_nodeset_loader.Base.{
  ℕ, Bool, List, [], ◌∷◌, ◌++◌, Option, none, some, length, ◌==◌, if◌then◌else◌, Exec, fault, ret,
  ◌>>=◌, deref,
}
use open62541_nodeset_loader.Ua.{Text, QualifiedName, Ua}
use open62541_nodeset_loader.Arena.{Region, CharArenaAllocator}
use open62541_nodeset_loader.Container.{NodePtr, NodeContainer, contents}
use open62541_nodeset_loader.Node.{
  NodeClass, class_index, Reference, DataTypeDefinition, Specific, Node,
}
use open62541_nodeset_loader.Nodeset.{Nodeset}
use open62541_nodeset_loader.Loader.Import.{NodesetLoader}

-- A block of memory, by its owner: the structs of a node and of its references (counted from the
-- end of their list), a definition and its fields, the regions of the arena (counted from the
-- oldest), the arrays of the containers, and the single structs.
pub data Block : Type 0 where
  node_struct definition_struct fields_array : NodePtr → Block
  reference_struct : NodePtr → ℕ → Block
  region_struct region_mem : ℕ → Block
  class_array : NodeClass → Block
  all_nodes_array sorted_nodes_array : Block
  arena_struct alias_data alias_struct nodeset_struct loader_struct : Block

-- What a call gives back: a block, or what open62541 allocated inside an id, a name or a string.
pub data Release (NodeId : Type 0) : Type 0 where
  freed : Block → Release NodeId
  cleared_id : NodeId → Release NodeId
  cleared_name : QualifiedName → Release NodeId
  cleared_text : Text → Release NodeId

-- `free(container->nodes)` of `NodeContainer_clear`.
unfoldable pub free_array : {NodeId : Type 0} → Block → NodeContainer → List (Release NodeId)
free_array block container = if length container.nodes == 0 then [] else freed block ∷ []

-- The loop of `CharArenaAllocator_delete`, from the newest region.
unfoldable pub delete_regions : {NodeId : Type 0} → List Region → List (Release NodeId)
delete_regions [] = []
delete_regions (region ∷ older) =
    freed (region_mem (length older)) ∷ freed (region_struct (length older)) ∷ delete_regions older

unfoldable pub arena_delete : {NodeId : Type 0} → CharArenaAllocator → List (Release NodeId)
unfolding delete_regions
arena_delete arena = delete_regions (arena.current ∷ arena.older) ++ freed arena_struct ∷ []

-- `AliasList_delete`, which leaves the ids of the aliases alone.
unfoldable pub alias_list_delete : {NodeId : Type 0} → List (Release NodeId)
alias_list_delete = freed alias_data ∷ freed alias_struct ∷ []

-- The loop over the containers of the classes, in the order of the enum.
unfoldable pub clear_classes :
    {NodeId : Type 0} → (NodeClass → NodeContainer) → List NodeClass → List (Release NodeId)
unfolding free_array
clear_classes nodes [] = []
clear_classes nodes (c ∷ rest) = free_array (class_array c) (nodes c) ++ clear_classes nodes rest

abbrev pub node_classes : List NodeClass
node_classes =
    NodeClass.object ∷ NodeClass.object_type ∷ NodeClass.variable ∷ NodeClass.data_type
    ∷ NodeClass.method ∷ NodeClass.reference_type ∷ NodeClass.variable_type ∷ NodeClass.view ∷ []

module _ (ua : Ua) where
  -- `deleteRef`
  unfoldable pub delete_ref : NodePtr → List (Reference ua.NodeId) → List (Release ua.NodeId)
  delete_ref p [] = []
  delete_ref p (ref ∷ next) =
      cleared_id ref.target
      ∷ cleared_id ref.ref_type
      ∷ freed (reference_struct p (length next))
      ∷ delete_ref p next

  -- The part of `Node_delete` for variables, behind a cast.
  unfoldable pub clear_variable : NodeClass → Specific ua.NodeId → Exec (List (Release ua.NodeId))
  clear_variable c specific =
      if class_index c == class_index NodeClass.variable
      then elim specific [
        | Specific.variable n ↦ ret (cleared_text n.value ∷ cleared_id n.datatype ∷ [])
        | _ ↦ fault
      ]
      else ret []

  -- `free(definition->fields)` and `free(definition)`; without a field `fields` is NULL.
  unfoldable pub free_definition :
      NodePtr → Option (DataTypeDefinition ua.NodeId) → List (Release ua.NodeId)
  free_definition p none = []
  free_definition p (some definition) =
      (if length definition.fields == 0 then [] else freed (fields_array p) ∷ [])
      ++ freed (definition_struct p) ∷ []

  -- The part of `Node_delete` for data types, behind a cast.
  unfoldable pub clear_data_type :
      NodePtr → NodeClass → Specific ua.NodeId → Exec (List (Release ua.NodeId))
  unfolding free_definition
  clear_data_type p c specific =
      if class_index c == class_index NodeClass.data_type
      then elim specific [ Specific.data_type n ↦ ret (free_definition p n.definition) | _ ↦ fault ]
      else ret []

  unfoldable pub node_delete :
      (NodePtr → Node ua.NodeId) → NodePtr → Exec (List (Release ua.NodeId))
  unfolding delete_ref clear_variable clear_data_type
  node_delete heap p = do
    let node = heap p
    variable_part ← clear_variable node.node_class node.specific
    data_type_part ← clear_data_type p node.node_class node.specific
    ret (
        cleared_id node.id
        ∷ cleared_name node.browse_name
        ∷ (delete_ref p node.refs
            ++ (variable_part ++ (data_type_part ++ freed (node_struct p) ∷ []))))

  -- The loop over `allNodes` in `Nodeset_cleanup`.
  unfoldable pub nodes_delete :
      (NodePtr → Node ua.NodeId) → List NodePtr → Exec (List (Release ua.NodeId))
  unfolding node_delete
  nodes_delete heap [] = ret []
  nodes_delete heap (p ∷ rest) = do
    first ← node_delete heap p
    others ← nodes_delete heap rest
    ret (first ++ others)

  unfoldable pub nodeset_cleanup : Nodeset ua → Exec (List (Release ua.NodeId))
  unfolding arena_delete alias_list_delete clear_classes nodes_delete free_array
  nodeset_cleanup nodeset = do
    let before =
        arena_delete nodeset.char_arena
        ++ (alias_list_delete ++ clear_classes nodeset.nodes node_classes)
    deleted ← nodes_delete nodeset.heap (contents nodeset.all_nodes)
    ret (
        before
        ++ (deleted
            ++ (free_array all_nodes_array nodeset.all_nodes
                ++ (free_array sorted_nodes_array nodeset.sorted_nodes
                    ++ freed nodeset_struct ∷ []))))

  -- `NodesetLoader_new`: NULL without a logger or without memory.
  unfoldable pub loader_new : Bool → Bool → Option (NodesetLoader ua)
  loader_new has_logger alloc =
      if has_logger
      then (if alloc then some (record { nodeset = none; log = [] }) else none)
      else none

  -- `NodesetLoader_delete`; a loader that never made a nodeset passes NULL on.
  unfoldable pub loader_delete : NodesetLoader ua → Exec (List (Release ua.NodeId))
  unfolding nodeset_cleanup
  loader_delete loader = do
    nodeset ← deref loader.nodeset
    released ← nodeset_cleanup nodeset
    ret (released ++ freed loader_struct ∷ [])
