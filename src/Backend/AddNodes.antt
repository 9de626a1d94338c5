-- ===== src/Backend/AddNodes.antt =====
-- `addNodeImpl`, `addAllRefs`, `addNodeFinish` and `addNodes` of backends/open62541/src/import.c.
pub mod References
use open62541_nodeset_loader.Base.{
  Bool, true, false, List, [], ◌∷◌, Option, none, some, if◌then◌else◌, Exec, fault, ret, ◌>>=◌,
}
use open62541_nodeset_loader.Ua.{Ua}
use open62541_nodeset_loader.Container.{NodePtr}
use open62541_nodeset_loader.Node.{NodeClass, Reference, Node, Specific}
use open62541_nodeset_loader.Nodeset.{Nodeset, null_id}
use open62541_nodeset_loader.Build.{for_each_node}
use open62541_nodeset_loader.Backend.{
  StatusCode, good, bad_duplicate_reference_not_allowed, Server, AddNodeContext,
}
use open62541_nodeset_loader.Backend.Parents.{get_type_def_id}
use open62541_nodeset_loader.Backend.DataTypes.{add_custom_data_type}
use open62541_nodeset_loader.Backend.Handlers.{
  Request, request_for, Attributes, object_attributes, view_attributes, method_attributes,
  object_type_attributes, reference_type_attributes, data_type_attributes, variable_type_attributes,
  variable_attributes, send,
}

abbrev pub is_good : StatusCode → Bool
is_good good = true
is_good _ = false

-- A reference that is there already is no error.
abbrev pub is_added : StatusCode → Bool
is_added good = true
is_added bad_duplicate_reference_not_allowed = true
is_added _ = false

module _ (ua : Ua) (S : Server ua) where
  abbrev pub Context : Type 0
  Context = AddNodeContext ua S

  -- The `switch` of `addNodeImpl`, up to the call of the server: the type definition and the
  -- attributes. A node whose struct is not that of its class faults.
  unfoldable pub class_attributes :
      (NodePtr → Node ua.NodeId)
      → Node ua.NodeId
      → NodeClass
      → Specific ua.NodeId
      → Context
      → Exec (Context × ua.NodeId × Attributes ua S)
  class_attributes heap node NodeClass.object (Specific.object n) ctx =
      object_attributes ua S n >>= λ a. ret (ctx, get_type_def_id ua node, a)
  class_attributes heap node NodeClass.method (Specific.method n) ctx =
      ret (ctx, null_id ua, method_attributes ua S n)
  class_attributes heap node NodeClass.object_type (Specific.object_type n) ctx =
      ret (ctx, null_id ua, object_type_attributes ua S n)
  class_attributes heap node NodeClass.reference_type (Specific.reference_type n) ctx =
      ret (ctx, null_id ua, reference_type_attributes ua S n)
  class_attributes heap node NodeClass.variable_type (Specific.variable_type n) ctx =
      variable_type_attributes ua S n >>= λ a. ret (ctx, null_id ua, a)
  class_attributes heap node NodeClass.variable (Specific.variable n) ctx =
      variable_attributes ua S ctx node.id n >>= λ r. ret (r.0, get_type_def_id ua node, r.1)
  class_attributes heap node NodeClass.data_type (Specific.data_type n) ctx =
      add_custom_data_type ua S heap ctx node n >>= λ next.
      ret (next, null_id ua, data_type_attributes ua S n)
  class_attributes heap node NodeClass.view (Specific.view n) ctx =
      view_attributes ua S n >>= λ a. ret (ctx, null_id ua, a)
  class_attributes heap node _ _ ctx = fault

  unfoldable pub add_node_impl :
      (NodePtr → Node ua.NodeId) → Context → Node ua.NodeId → Exec (Context × Bool)
  unfolding class_attributes send
  add_node_impl heap ctx node =
      class_attributes heap node node.node_class node.specific ctx >>= λ r.
      (let (next, res) = send ua S (request_for ua S ctx.parent_ref_types node r.1 r.2) r.0 in
        ret (next, is_good res))

  -- The loop of `addAllRefs`, which ends at the first reference that the server refuses.
  unfoldable pub add_refs : ua.NodeId → List (Reference ua.NodeId) → S.State → S.State × Bool
  add_refs id [] state = (state, true)
  add_refs id (ref ∷ refs) state =
      let (next, res) = S.add_reference id ref.ref_type ref.target ref.is_forward state in
      let rest = add_refs id refs next in if is_added res then rest else (next, false)

  unfoldable pub add_all_refs : Context → Node ua.NodeId → Exec (Context × Bool)
  unfolding add_refs
  add_all_refs ctx node =
      let (state, res) = add_refs node.id node.refs ctx.server in
      ret (record ctx { server = state }, res)

  unfoldable pub add_node_finish : Context → Node ua.NodeId → Exec (Context × Bool)
  add_node_finish ctx node =
      let (state, res) = S.add_node_finish node.id ctx.server in
      ret (record ctx { server = state }, is_good res)

  -- The results of the three passes are not looked at.
  unfoldable pub add_nodes : Nodeset ua → Context → Exec (Context × Bool)
  unfolding add_node_impl add_all_refs add_node_finish
  add_nodes nodeset ctx = do
    (added, all_added) ← for_each_node ua (add_node_impl nodeset.heap) ctx nodeset
    (linked, all_linked) ← for_each_node ua add_all_refs added nodeset
    (finished, all_finished) ← for_each_node ua add_node_finish linked nodeset
    ret (finished, true)
