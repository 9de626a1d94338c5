-- ===== src/Backend/Handlers.antt =====
-- The handlers of the node classes, in backends/open62541/src/import.c: a node becomes a request.
use open62541_nodeset_loader.Base.{
  ℕ, ◌%◌, ◌^◌, Bool, ◌&&◌, not, List, [], ◌∷◌, ◌++◌, Option, length, ltb, ◌==◌, if◌then◌else◌,
  text_eq, Exec, ret, ◌>>=◌, deref,
}
use open62541_nodeset_loader.Ua.{Text, Ua}
use open62541_nodeset_loader.Node.{
  Node, CInt, ObjectNode, ObjectTypeNode, VariableNode, VariableTypeNode, MethodNode,
  ReferenceTypeNode, ViewNode, DataTypeNode,
}
use open62541_nodeset_loader.Build.Fields.{atoi}
use open62541_nodeset_loader.Backend.{
  StatusCode, good, ClassAttributes, NodeRequest, Server, value_failed, AddNodeContext,
}
use open62541_nodeset_loader.Backend.Parents.{is_val_true, get_parent_id}
use open62541_nodeset_loader.Backend.Dimensions.{atoi_byte, get_array_dimensions}

-- The number 1 as a value rank.
abbrev pub is_one : CInt → Bool
is_one n = not n.negative && (n.magnitude == 1)

-- The two corrections of the dimensions in `handleVariableNode`.
unfoldable pub variable_dimensions : List ℕ → CInt → ℕ → List ℕ
variable_dimensions dims value_rank value_length =
    let ranked = if length dims == 0 && is_one value_rank then 0 ∷ [] else dims in
    if length ranked == 0 && ltb 0 value_length then value_length % 2 ^ 32 ∷ [] else ranked

-- The dimensions in `handleVariableTypeNode`; the text is read only if the rank is not negative.
unfoldable pub variable_type_dimensions : Option Text → CInt → Exec (List ℕ)
variable_type_dimensions text value_rank =
    if value_rank.negative
    then ret []
    else (deref text >>= λ s. ret (if text_eq s [] then 0 ∷ [] else []))

module _ (ua : Ua) (S : Server ua) where
  abbrev pub Request : Type 0
  Request = NodeRequest ua.NodeId S.Double S.Variant

  abbrev pub Attributes : Type 0
  Attributes = ClassAttributes ua.NodeId S.Double S.Variant

  -- What the handlers have in common: the arguments that `addNodeImpl` prepares.
  abbrev pub request_for : List ua.NodeId → Node ua.NodeId → ua.NodeId → Attributes → Request
  request_for parent_types node type_definition attributes =
      let (parent, parent_ref) = get_parent_id ua parent_types node in
      record {
        node_id = node.id;
        parent_id = parent;
        parent_reference_id = parent_ref;
        browse_name = node.browse_name;
        type_definition = type_definition;
        display_name = node.display_name;
        description = node.description;
        attributes = attributes;
        extension = node.extension;
      }

  unfoldable pub object_attributes : ObjectNode → Exec Attributes
  object_attributes n =
      deref n.event_notifier >>= λ s. (atoi_byte s >>= λ b. ret (ClassAttributes.object b))

  unfoldable pub view_attributes : ViewNode → Exec Attributes
  view_attributes n = deref n.event_notifier >>= λ s.
      (atoi_byte s >>= λ b. ret (ClassAttributes.view b (is_val_true n.contains_no_loops)))

  unfoldable pub method_attributes : MethodNode → Attributes
  method_attributes n =
      ClassAttributes.method (is_val_true n.executable) (is_val_true n.user_executable)

  unfoldable pub object_type_attributes : ObjectTypeNode → Attributes
  object_type_attributes n = ClassAttributes.object_type (is_val_true n.is_abstract)

  unfoldable pub reference_type_attributes : ReferenceTypeNode → Attributes
  reference_type_attributes n =
      ClassAttributes.reference_type (is_val_true n.symmetric) n.inverse_name

  unfoldable pub data_type_attributes : DataTypeNode ua.NodeId → Attributes
  data_type_attributes n = ClassAttributes.data_type (is_val_true n.is_abstract)

  unfoldable pub variable_type_attributes : VariableTypeNode ua.NodeId → Exec Attributes
  unfolding variable_type_dimensions
  variable_type_attributes n = do
    rank_text ← deref n.value_rank
    value_rank ← atoi rank_text
    array_dimensions ← variable_type_dimensions n.array_dimensions value_rank
    ret (
        ClassAttributes.variable_type (record {
          data_type = n.datatype;
          value_rank = value_rank;
          is_abstract = is_val_true n.is_abstract;
          array_dimensions = array_dimensions;
        }))

  -- The value of a variable, and a warning if it cannot be decoded.
  unfoldable pub decode_value :
      AddNodeContext ua S → ua.NodeId → Text → AddNodeContext ua S × S.Variant
  decode_value ctx id [] = (ctx, S.no_value)
  decode_value ctx id (c ∷ text) =
      let (res, value) = S.decode_xml ctx.server ctx.ns_mapping (c ∷ text) in
      elim res [
        | good ↦ (ctx, value)
        | _ ↦ (record ctx { log = ctx.log ++ value_failed id ∷ [] }, value)
      ]

  unfoldable pub variable_attributes :
      AddNodeContext ua S
      → ua.NodeId
      → VariableNode ua.NodeId
      → Exec (AddNodeContext ua S × Attributes)
  unfolding decode_value variable_dimensions
  variable_attributes ctx id n = do
    rank_text ← deref n.value_rank
    value_rank ← atoi rank_text
    dimensions_text ← deref n.array_dimensions
    dims ← get_array_dimensions dimensions_text
    level_text ← deref n.access_level
    access_level ← atoi_byte level_text
    user_level_text ← deref n.user_access_level
    user_access_level ← atoi_byte user_level_text
    interval ← deref n.minimum_sampling_interval
    let (next, value) = decode_value ctx id n.value
    ret (
      next,
      ClassAttributes.variable (record {
        data_type = n.datatype;
        value_rank = value_rank;
        array_dimensions = variable_dimensions dims value_rank (S.array_length value);
        access_level = access_level;
        user_access_level = user_access_level;
        historizing = is_val_true n.historizing;
        minimum_sampling_interval = S.atof interval;
        value = value;
      }),
    )

  -- The call of the server.
  unfoldable pub send : Request → AddNodeContext ua S → AddNodeContext ua S × StatusCode
  send request ctx =
      let (state, res) = S.add_node request ctx.server in (record ctx { server = state }, res)
