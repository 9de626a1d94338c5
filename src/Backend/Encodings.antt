-- ===== src/Backend/Encodings.antt =====
-- `getBinaryEncodingId` and `getXmlEncodingId` of backends/open62541/src/DataTypeImporter.c.
use Prim.Native.String.{String}
use open62541_nodeset_loader.Base.{List, [], ◌∷◌, none, some, if◌then◌else◌, codes, text_eq}
use open62541_nodeset_loader.Ua.{Ua}
use open62541_nodeset_loader.Container.{NodePtr}
use open62541_nodeset_loader.Node.{Reference, Node}
use open62541_nodeset_loader.Nodeset.{null_id}

module _ (ua : Ua) where
  -- The target of the first HasEncoding reference to a node of the nodeset with the browse name.
  unfoldable pub encoding_in :
      (NodePtr → Node ua.NodeId) → String → List (Reference ua.NodeId) → ua.NodeId
  encoding_in heap name [] = null_id ua
  encoding_in heap name (ref ∷ refs) =
      let rest = encoding_in heap name refs in
      if ua.equal (ua.numeric 0 38) ref.ref_type
      then elim ref.target_ptr [
        | none ↦ rest
        | some p ↦ if text_eq (heap p).browse_name.name (codes name) then ref.target else rest
      ]
      else rest

  unfoldable pub get_binary_encoding_id : (NodePtr → Node ua.NodeId) → Node ua.NodeId → ua.NodeId
  unfolding encoding_in
  get_binary_encoding_id heap node = encoding_in heap "Default Binary" node.refs

  unfoldable pub get_xml_encoding_id : (NodePtr → Node ua.NodeId) → Node ua.NodeId → ua.NodeId
  unfolding encoding_in
  get_xml_encoding_id heap node = encoding_in heap "Default XML" node.refs
