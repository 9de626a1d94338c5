-- ===== src/Build/Attributes.antt =====
-- `getAttributeValue`, `alias2Id` and `extractAttributes` of src/Nodeset.c.
use Prim.Native.String.{String}
use text.Mathlib.Text.{◌==◌ as str_eq}
use open62541_nodeset_loader.Base.{
  ◌+◌, List, [], ◌∷◌, Option, none, some, length, if◌then◌else◌, true, codes, Exec, fault, ret,
}
use open62541_nodeset_loader.Base.Faults
use open62541_nodeset_loader.Ua.{Text, Ua, QualifiedName}
use open62541_nodeset_loader.Arena.{CharArenaAllocator, CharPtr, malloc, write_user, c_string}
use open62541_nodeset_loader.AliasList.{get_node_id}
use open62541_nodeset_loader.Node.{
  NodeClass, object, object_type, variable, data_type, method, reference_type, variable_type, view,
  Specific, Node,
}
use open62541_nodeset_loader.Nodeset.{Nodeset}

-- Of the five strings of an attribute the loader reads the name and the value.
pub record Attribute : Type 0 where
  pub local_name : String
  pub value : Text

pub record NodeAttribute : Type 0 where
  pub name : String
  pub default_value : Option Text

abbrev required : String → NodeAttribute
required name = record { name = name; default_value = none }

abbrev optional : String → String → NodeAttribute
optional name value = record { name = name; default_value = some (codes value) }

abbrev pub attr_node_id : NodeAttribute
attr_node_id = required "NodeId"

abbrev pub attr_browse_name : NodeAttribute
attr_browse_name = required "BrowseName"

abbrev pub attr_event_notifier : NodeAttribute
attr_event_notifier = optional "EventNotifier" "0"

abbrev pub attr_data_type : NodeAttribute
attr_data_type = optional "DataType" "i=24"

abbrev pub attr_value_rank : NodeAttribute
attr_value_rank = optional "ValueRank" "-1"

abbrev pub attr_minimum_sampling_interval : NodeAttribute
attr_minimum_sampling_interval = optional "MinimumSamplingInterval" "-1"

abbrev pub attr_array_dimensions : NodeAttribute
attr_array_dimensions = optional "ArrayDimensions" ""

abbrev pub attr_is_abstract : NodeAttribute
attr_is_abstract = optional "IsAbstract" "false"

abbrev pub attr_is_forward : NodeAttribute
attr_is_forward = optional "IsForward" "true"

abbrev pub attr_reference_type : NodeAttribute
attr_reference_type = required "ReferenceType"

abbrev pub attr_alias : NodeAttribute
attr_alias = required "Alias"

abbrev pub attr_executable : NodeAttribute
attr_executable = optional "Executable" "true"

abbrev pub attr_user_executable : NodeAttribute
attr_user_executable = optional "UserExecutable" "true"

abbrev pub attr_access_level : NodeAttribute
attr_access_level = optional "AccessLevel" "1"

abbrev pub attr_user_access_level : NodeAttribute
attr_user_access_level = optional "UserAccessLevel" "1"

abbrev pub attr_symmetric : NodeAttribute
attr_symmetric = optional "Symmetric" "false"

abbrev pub definition_is_union : NodeAttribute
definition_is_union = optional "IsUnion" "false"

abbrev pub definition_is_option_set : NodeAttribute
definition_is_option_set = optional "IsOptionSet" "false"

abbrev pub field_name : NodeAttribute
field_name = required "Name"

abbrev pub field_data_type : NodeAttribute
field_data_type = optional "DataType" "i=24"

abbrev pub field_value : NodeAttribute
field_value = required "Value"

abbrev pub field_is_optional : NodeAttribute
field_is_optional = optional "IsOptional" "false"

abbrev pub attr_locale : NodeAttribute
attr_locale = required "Locale"

abbrev pub attr_historizing : NodeAttribute
attr_historizing = optional "Historizing" "false"

abbrev pub attr_contains_no_loops : NodeAttribute
attr_contains_no_loops = optional "ContainsNoLoops" "false"

-- What the caller will read through the pointer. The write before it needed the pointer.
unfoldable pub read_back : CharArenaAllocator → Option CharPtr → Exec (Option Text)
read_back arena none = fault
read_back arena (some p) = Faults.◌>>=◌ (c_string arena p) (λ text. ret (some text))

-- A copy of the text in the arena, with the zero behind it that fresh memory holds.
unfoldable pub store_text : CharArenaAllocator → Text → Exec (CharArenaAllocator × Option Text)
unfolding read_back
store_text arena text =
    let (grown, p) = malloc true arena (length text + 1) in
    Faults.◌>>=◌ (write_user grown 0 text)
      (λ after. Faults.◌>>=◌ (read_back after p) (λ value. ret (after, value)))

-- The first attribute with the name counts.
unfoldable pub get_attribute_value :
    CharArenaAllocator → NodeAttribute → List Attribute → Exec (CharArenaAllocator × Option Text)
get_attribute_value arena attr [] = ret (arena, attr.default_value)
get_attribute_value arena attr (a ∷ rest) =
    if str_eq a.local_name attr.name
    then store_text arena a.value
    else get_attribute_value arena attr rest

-- Runs that use the arena.
abbrev pub Build : Type 0 → Type 0
Build A = CharArenaAllocator → Exec (CharArenaAllocator × A)

infixl 5 ◌>>=◌
abbrev ◌>>=◌ : {A B : Type 0} → Build A → (A → Build B) → Build B
◌>>=◌ first rest arena = Faults.◌>>=◌ (first arena) (λ r. rest r.1 r.0)

abbrev pure : {A : Type 0} → A → Build A
pure a arena = ret (arena, a)

abbrev run : {A : Type 0} → Exec A → Build A
run e arena = Faults.◌>>=◌ e (λ a. ret (arena, a))

abbrev get : NodeAttribute → List Attribute → Build (Option Text)
get attr attributes arena = get_attribute_value arena attr attributes

module _ (ua : Ua) (nodeset : Nodeset ua) where
  abbrev or_parsed : Option Text → Option ua.NodeId → ua.NodeId
  or_parsed name none = ua.parse_node_id name nodeset.ns_mapping
  or_parsed name (some id) = id

  unfoldable pub alias_to_id : Option Text → Exec ua.NodeId
  alias_to_id name =
      Faults.◌>>=◌ (get_node_id nodeset.alias_list name) (λ alias. ret (or_parsed name alias))

  unfoldable pub parse_qualified_name : Option Text → QualifiedName
  parse_qualified_name s =
      let qn = ua.parse_qualified_name s nodeset.ns_mapping in
      record qn { namespace_index = ua.remote2local nodeset.ns_mapping qn.namespace_index }

  -- The `switch`. A node whose struct is not that of its class faults.
  unfoldable pub extract_specific :
      NodeClass → Specific ua.NodeId → List Attribute → Build (Specific ua.NodeId)
  extract_specific object_type (Specific.object_type n) attributes = do
    is_abstract ← get attr_is_abstract attributes
    pure (Specific.object_type (record n { is_abstract = is_abstract }))
  extract_specific object (Specific.object n) attributes = do
    event_notifier ← get attr_event_notifier attributes
    pure (Specific.object (record n { event_notifier = event_notifier }))
  extract_specific variable (Specific.variable n) attributes = do
    type_name ← get attr_data_type attributes
    datatype ← run (alias_to_id type_name)
    value_rank ← get attr_value_rank attributes
    minimum_sampling_interval ← get attr_minimum_sampling_interval attributes
    array_dimensions ← get attr_array_dimensions attributes
    access_level ← get attr_access_level attributes
    user_access_level ← get attr_user_access_level attributes
    historizing ← get attr_historizing attributes
    pure (
        Specific.variable (record n {
          datatype = datatype;
          value_rank = value_rank;
          minimum_sampling_interval = minimum_sampling_interval;
          array_dimensions = array_dimensions;
          access_level = access_level;
          user_access_level = user_access_level;
          historizing = historizing;
        }))
  extract_specific variable_type (Specific.variable_type n) attributes = do
    value_rank ← get attr_value_rank attributes
    type_name ← get attr_data_type attributes
    datatype ← run (alias_to_id type_name)
    array_dimensions ← get attr_array_dimensions attributes
    is_abstract ← get attr_is_abstract attributes
    pure (
        Specific.variable_type (record n {
          value_rank = value_rank;
          datatype = datatype;
          array_dimensions = array_dimensions;
          is_abstract = is_abstract;
        }))
  extract_specific data_type (Specific.data_type n) attributes = do
    is_abstract ← get attr_is_abstract attributes
    pure (Specific.data_type (record n { is_abstract = is_abstract }))
  extract_specific method (Specific.method n) attributes = do
    executable ← get attr_executable attributes
    user_executable ← get attr_user_executable attributes
    pure (Specific.method (record n { executable = executable; user_executable = user_executable }))
  extract_specific reference_type (Specific.reference_type n) attributes = do
    symmetric ← get attr_symmetric attributes
    pure (Specific.reference_type (record n { symmetric = symmetric }))
  extract_specific view (Specific.view n) attributes = do
    contains_no_loops ← get attr_contains_no_loops attributes
    event_notifier ← get attr_event_notifier attributes
    pure (
        Specific.view
          (record n { contains_no_loops = contains_no_loops; event_notifier = event_notifier }))
  extract_specific _ _ attributes = λ arena. fault

  unfoldable pub extract_attributes : Node ua.NodeId → List Attribute → Build (Node ua.NodeId)
  extract_attributes node attributes = do
    id_text ← get attr_node_id attributes
    name_text ← get attr_browse_name attributes
    specific ← extract_specific node.node_class node.specific attributes
    pure (record node {
      id = ua.parse_node_id id_text nodeset.ns_mapping;
      browse_name = parse_qualified_name name_text;
      specific = specific;
    })
