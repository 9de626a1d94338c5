-- ===== src/Backend/Parents.antt =====
-- `getParentId`, `getTypeDefId` and `isValTrue` of backends/open62541/src/import.c.
pub mod First
use open62541_nodeset_loader.Base.{
  Bool, true, false, List, [], ◌∷◌, Option, none, some, if◌then◌else◌, codes, text_eq,
}
use open62541_nodeset_loader.Ua.{Text, Ua}
use open62541_nodeset_loader.Node.{Reference, Node}
use open62541_nodeset_loader.Nodeset.{null_id}
use open62541_nodeset_loader.Nodeset.Sort.{has_type_def}

unfoldable pub is_val_true : Option Text → Bool
is_val_true none = false
is_val_true (some s) = text_eq s (codes "true")

module _ (ua : Ua) where
  -- The inner loop of `getParentId`.
  unfoldable pub is_parent_type : ua.NodeId → List ua.NodeId → Bool
  is_parent_type ref_type [] = false
  is_parent_type ref_type (t ∷ types) =
      if ua.equal ref_type t then true else is_parent_type ref_type types

  -- The parent and the type of the reference to it, both null if there is none.
  unfoldable pub parent_in : List ua.NodeId → List (Reference ua.NodeId) → ua.NodeId × ua.NodeId
  unfolding is_parent_type
  parent_in types [] = (null_id ua, null_id ua)
  parent_in types (ref ∷ refs) =
      let rest = parent_in types refs in
      if ref.is_forward
      then rest
      else (if is_parent_type ref.ref_type types then (ref.target, ref.ref_type) else rest)

  unfoldable pub get_parent_id : List ua.NodeId → Node ua.NodeId → ua.NodeId × ua.NodeId
  unfolding parent_in
  get_parent_id types node = parent_in types node.refs

  unfoldable pub type_def_in : List (Reference ua.NodeId) → ua.NodeId
  type_def_in [] = null_id ua
  type_def_in (ref ∷ refs) =
      let rest = type_def_in refs in
      if ref.is_forward
      then (if ua.equal ref.ref_type (has_type_def ua) then ref.target else rest)
      else rest

  unfoldable pub get_type_def_id : Node ua.NodeId → ua.NodeId
  unfolding type_def_in
  get_type_def_id node = type_def_in node.refs
