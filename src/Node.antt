-- ===== src/Node.antt =====
-- The node structs of include/NodesetLoader/NodesetLoader.h. `NL_Node` is the common head of eight
-- structs; which of them was allocated is `specific`, and a cast looks there.
use open62541_nodeset_loader.Base.{ℕ, Bool, false, List, [], Option, none}
use open62541_nodeset_loader.Ua.{Text, QualifiedName, LocalizedText}
use open62541_nodeset_loader.Container.{NodePtr}

pub data NodeClass : Type 0 where
  object object_type variable data_type method reference_type variable_type view : NodeClass

-- The enum's values, by which `Nodeset.nodes` is indexed.
abbrev pub class_index : NodeClass → ℕ
class_index object = 0
class_index object_type = 1
class_index variable = 2
class_index data_type = 3
class_index method = 4
class_index reference_type = 5
class_index variable_type = 6
class_index view = 7

-- `next` is the tail of the list that `refs` is.
pub record Reference (NodeId : Type 0) : Type 0 where
  pub is_forward : Bool
  pub ref_type : NodeId
  pub target : NodeId
  pub target_ptr : Option NodePtr

pub record ObjectNode : Type 0 where
  pub event_notifier : Option Text

pub record ObjectTypeNode : Type 0 where
  pub is_abstract : Option Text

pub record VariableTypeNode (NodeId : Type 0) : Type 0 where
  pub is_abstract : Option Text
  pub datatype : NodeId
  pub array_dimensions : Option Text
  pub value_rank : Option Text

pub record VariableNode (NodeId : Type 0) : Type 0 where
  pub datatype : NodeId
  pub array_dimensions : Option Text
  pub value_rank : Option Text
  pub access_level : Option Text
  pub user_access_level : Option Text
  pub historizing : Option Text
  pub minimum_sampling_interval : Option Text
  pub value : Text

-- An `int` keeps its sign: `negative` says whether it is below zero.
pub record CInt : Type 0 where
  pub negative : Bool
  pub magnitude : ℕ

pub record DataTypeDefinitionField (NodeId : Type 0) : Type 0 where
  pub name : Option Text
  pub data_type : NodeId
  pub value_rank : CInt
  pub value : CInt
  pub is_optional : Bool

-- `fieldCnt` is the length of `fields`.
pub record DataTypeDefinition (NodeId : Type 0) : Type 0 where
  pub fields : List (DataTypeDefinitionField NodeId)
  pub is_enum : Bool
  pub is_union : Bool
  pub is_option_set : Bool

pub record DataTypeNode (NodeId : Type 0) : Type 0 where
  pub definition : Option (DataTypeDefinition NodeId)
  pub is_abstract : Option Text

pub record MethodNode : Type 0 where
  pub executable : Option Text
  pub user_executable : Option Text

pub record ReferenceTypeNode : Type 0 where
  pub inverse_name : LocalizedText
  pub symmetric : Option Text

pub record ViewNode : Type 0 where
  pub contains_no_loops : Option Text
  pub event_notifier : Option Text

pub data Specific (NodeId : Type 0) : Type 0 where
  object : ObjectNode → Specific NodeId
  object_type : ObjectTypeNode → Specific NodeId
  variable : VariableNode NodeId → Specific NodeId
  data_type : DataTypeNode NodeId → Specific NodeId
  method : MethodNode → Specific NodeId
  reference_type : ReferenceTypeNode → Specific NodeId
  variable_type : VariableTypeNode NodeId → Specific NodeId
  view : ViewNode → Specific NodeId

-- The struct that was allocated.
abbrev pub allocated_class : {NodeId : Type 0} → Specific NodeId → NodeClass
allocated_class (Specific.object _) = NodeClass.object
allocated_class (Specific.object_type _) = NodeClass.object_type
allocated_class (Specific.variable _) = NodeClass.variable
allocated_class (Specific.data_type _) = NodeClass.data_type
allocated_class (Specific.method _) = NodeClass.method
allocated_class (Specific.reference_type _) = NodeClass.reference_type
allocated_class (Specific.variable_type _) = NodeClass.variable_type
allocated_class (Specific.view _) = NodeClass.view

-- `writeMask` is never set by the loader and has no field here.
pub record Node (NodeId : Type 0) : Type 0 where
  pub node_class : NodeClass
  pub id : NodeId
  pub browse_name : QualifiedName
  pub display_name : LocalizedText
  pub description : LocalizedText
  pub refs : List (Reference NodeId)
  pub extension : Option ℕ
  pub is_done : Bool
  pub specific : Specific NodeId

abbrev no_text : LocalizedText
no_text = record { locale = none; text = none }

-- `calloc` of the struct of a class; the argument is the id whose bytes are all zero.
unfoldable pub zeroed : {NodeId : Type 0} → NodeId → NodeClass → Specific NodeId
zeroed null NodeClass.object = Specific.object (record { event_notifier = none })
zeroed null NodeClass.object_type = Specific.object_type (record { is_abstract = none })
zeroed null NodeClass.variable = Specific.variable (record {
  datatype = null;
  array_dimensions = none;
  value_rank = none;
  access_level = none;
  user_access_level = none;
  historizing = none;
  minimum_sampling_interval = none;
  value = [];
})
zeroed null NodeClass.data_type =
    Specific.data_type (record { definition = none; is_abstract = none })
zeroed null NodeClass.method =
    Specific.method (record { executable = none; user_executable = none })
zeroed null NodeClass.reference_type =
    Specific.reference_type (record { inverse_name = no_text; symmetric = none })
zeroed null NodeClass.variable_type =
    Specific.variable_type
      (record { is_abstract = none; datatype = null; array_dimensions = none; value_rank = none })
zeroed null NodeClass.view =
    Specific.view (record { contains_no_loops = none; event_notifier = none })

-- `Node_new`: `nodeClass` is still the zero value, which is `NODECLASS_OBJECT`.
unfoldable pub node_new : {NodeId : Type 0} → NodeId → NodeClass → Node NodeId
node_new null node_class = record {
  node_class = NodeClass.object;
  id = null;
  browse_name = record { namespace_index = 0; name = [] };
  display_name = no_text;
  description = no_text;
  refs = [];
  extension = none;
  is_done = false;
  specific = zeroed null node_class;
}
