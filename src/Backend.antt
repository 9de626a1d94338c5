-- ===== src/Backend.antt =====
-- The open62541 backend, backends/open62541/src: sorted nodes become calls of a server.
-- This file states what the backend uses of the server and of open62541's types.
pub mod Namespaces
pub mod Parents
pub mod Dimensions
pub mod Encodings
pub mod Members
pub mod DataTypes
pub mod Handlers
pub mod AddNodes
pub mod Load
use open62541_nodeset_loader.Base.{ℕ, Bool, List, Option}
use open62541_nodeset_loader.Ua.{Text, NamespaceMapping, LocalizedText, QualifiedName, Ua}
use open62541_nodeset_loader.Node.{CInt}

-- `UA_StatusCode`, by the codes that the backend names.
pub data StatusCode : Type 0 where
  good bad_internal_error bad_out_of_memory bad_not_found : StatusCode
  bad_duplicate_reference_not_allowed : StatusCode
  other : ℕ → StatusCode

-- `UA_DataTypeMember`. For an enumeration the backend puts the value of a field into the pointer.
pub data MemberType (TypePtr : Type 0) : Type 0 where
  null : MemberType TypePtr
  pointer : TypePtr → MemberType TypePtr
  number : CInt → MemberType TypePtr

pub record DataTypeMember (TypePtr : Type 0) : Type 0 where
  pub member_name : Option Text
  pub member_type : MemberType TypePtr
  pub is_array : Bool
  pub is_optional : Bool

-- `UA_DataType`. `members_size` is an `unsigned char`, `members` the allocated array.
pub record DataType (NodeId TypePtr : Type 0) : Type 0 where
  pub type_name : Text
  pub type_id : NodeId
  pub binary_encoding_id : NodeId
  pub xml_encoding_id : NodeId
  pub mem_size : ℕ
  pub type_kind : ℕ
  pub pointer_free : Bool
  pub overlayable : Bool
  pub members : List (DataTypeMember TypePtr)
  pub members_size : ℕ

-- The attribute structs that are passed to the server; `Double` and `Variant` are its types.
pub record VariableAttributes (NodeId Double Variant : Type 0) : Type 0 where
  pub data_type : NodeId
  pub value_rank : CInt
  pub array_dimensions : List ℕ
  pub access_level : ℕ
  pub user_access_level : ℕ
  pub historizing : Bool
  pub minimum_sampling_interval : Double
  pub value : Variant

pub record VariableTypeAttributes (NodeId : Type 0) : Type 0 where
  pub data_type : NodeId
  pub value_rank : CInt
  pub is_abstract : Bool
  pub array_dimensions : List ℕ

-- What a class has besides the display name and the description, one constructor to a class.
pub data ClassAttributes (NodeId Double Variant : Type 0) : Type 0 where
  object : (event_notifier : ℕ) → ClassAttributes NodeId Double Variant
  view : (event_notifier : ℕ) (contains_no_loops : Bool) → ClassAttributes NodeId Double Variant
  method : (executable user_executable : Bool) → ClassAttributes NodeId Double Variant
  variable : VariableAttributes NodeId Double Variant → ClassAttributes NodeId Double Variant
  object_type : (is_abstract : Bool) → ClassAttributes NodeId Double Variant
  reference_type :
      (symmetric : Bool) (inverse_name : LocalizedText) → ClassAttributes NodeId Double Variant
  variable_type : VariableTypeAttributes NodeId → ClassAttributes NodeId Double Variant
  data_type : (is_abstract : Bool) → ClassAttributes NodeId Double Variant

-- The arguments of `UA_Server_addNode_begin` and of the functions that add a node of one class.
pub record NodeRequest (NodeId Double Variant : Type 0) : Type 0 where
  pub node_id : NodeId
  pub parent_id : NodeId
  pub parent_reference_id : NodeId
  pub browse_name : QualifiedName
  pub type_definition : NodeId
  pub display_name : LocalizedText
  pub description : LocalizedText
  pub attributes : ClassAttributes NodeId Double Variant
  pub extension : Option ℕ

-- The server and what belongs to it: data types behind pointers, values that are decoded from XML,
-- the numbers of the type kinds, and `atof`. A `calloc` of members may fail.
pub record Server (ua : Ua) : Type 1 where
  pub State : Type 0
  pub TypePtr : Type 0
  pub Variant : Type 0
  pub Double : Type 0
  pub Description : Type 0
  pub atof : Text → Double
  pub no_value : Variant
  pub array_length : Variant → ℕ
  pub decode_xml : State → NamespaceMapping → Text → StatusCode × Variant
  pub kind_double : ℕ
  pub kind_enum : ℕ
  pub kind_structure : ℕ
  pub kind_optstruct : ℕ
  pub kind_union : ℕ
  pub overlayable_integer : Bool
  pub calloc_succeeds : State → ℕ → Bool
  pub get_namespace_by_index : State → ℕ → Option Text
  pub add_namespace : Text → State → State × ℕ
  pub sub_reference_types : State → ua.NodeId → List ua.NodeId
  pub find_data_type : State → ua.NodeId → Option TypePtr
  pub read_type : State → TypePtr → DataType ua.NodeId TypePtr
  pub to_description : DataType ua.NodeId TypePtr → StatusCode × Description
  pub add_data_type : Description → State → State
  pub add_node : NodeRequest ua.NodeId Double Variant → State → State × StatusCode
  pub add_reference : ua.NodeId → ua.NodeId → ua.NodeId → Bool → State → State × StatusCode
  pub add_node_finish : ua.NodeId → State → State × StatusCode

-- What is logged by the backend itself.
pub data LogMessage (NodeId : Type 0) : Type 0 where
  value_failed : NodeId → LogMessage NodeId
  member_type_missing : NodeId → NodeId → LogMessage NodeId
  description_failed : NodeId → StatusCode → LogMessage NodeId

-- `AddNodeContext` of internal.h.
pub record AddNodeContext (ua : Ua) (S : Server ua) : Type 0 where
  pub server : S.State
  pub ns_mapping : NamespaceMapping
  pub parent_ref_types : List ua.NodeId
  pub log : List (LogMessage ua.NodeId)
