-- ===== src/Backend/DataTypes.antt =====
-- Custom data types, backends/open62541/src/DataTypeImporter.c.
use open62541_nodeset_loader.Base.{
  true, false, ◌||◌, [], ◌∷◌, ◌++◌, Option, none, some, length, ltb, leb, ◌==◌, if◌then◌else◌, Exec,
  ret, ◌>>=◌, deref,
}
use open62541_nodeset_loader.Ua.{Ua}
use open62541_nodeset_loader.Container.{NodePtr}
use open62541_nodeset_loader.Node.{Node, DataTypeNode}
use open62541_nodeset_loader.Backend.{
  StatusCode, good, bad_internal_error, Server, description_failed, AddNodeContext,
}
use open62541_nodeset_loader.Backend.Parents.{get_parent_id}
use open62541_nodeset_loader.Backend.Encodings.{get_binary_encoding_id, get_xml_encoding_id}
use open62541_nodeset_loader.Backend.Members.{
  UaType, Outcome, add_data_type_members, add_enum_members,
}

module _ (ua : Ua) (S : Server ua) where
  unfoldable pub structure_data_type_init :
      AddNodeContext ua S
      → UaType ua S
      → Node ua.NodeId
      → DataTypeNode ua.NodeId
      → ua.NodeId
      → Exec (Outcome ua S)
  unfolding add_data_type_members
  structure_data_type_init ctx type head node parent = deref node.definition >>= λ definition.
      add_data_type_members ua S ctx
        (record type {
          type_kind = if definition.is_union then S.kind_union else S.kind_structure;
          type_id = head.id;
          pointer_free = true;
          overlayable = false;
        })
        node parent

  -- An option set takes kind, size and layout of a numeric parent.
  unfoldable pub as_option_set : S.State → Option S.TypePtr → UaType ua S → UaType ua S
  as_option_set state none type = type
  as_option_set state (some p) type =
      if leb (S.read_type state p).type_kind S.kind_double
      then record type {
        type_kind = (S.read_type state p).type_kind;
        overlayable = (S.read_type state p).overlayable;
        mem_size = (S.read_type state p).mem_size;
      }
      else type

  unfoldable pub enum_data_type_init :
      AddNodeContext ua S → UaType ua S → DataTypeNode ua.NodeId → ua.NodeId → Exec (Outcome ua S)
  unfolding add_enum_members as_option_set
  enum_data_type_init ctx type node parent = deref node.definition >>= λ definition.
      (let enum_type = record type {
        type_kind = S.kind_enum;
        pointer_free = true;
        overlayable = S.overlayable_integer;
        mem_size = 4;
      } in
        let sized =
          if definition.is_option_set
          then as_option_set ctx.server (S.find_data_type ctx.server parent) enum_type
          else enum_type in
        add_enum_members ua S ctx.server sized definition >>= λ r. ret (ctx, r.0, r.1))

  unfoldable pub subtype_of_base_init :
      AddNodeContext ua S → UaType ua S → DataTypeNode ua.NodeId → ua.NodeId → Exec (Outcome ua S)
  unfolding add_data_type_members
  subtype_of_base_init ctx type node parent = elim (S.find_data_type ctx.server parent) [
    | none ↦ ret (ctx, type, bad_internal_error)
    | some p ↦
        let base = S.read_type ctx.server p in
        let sized = record type {
          mem_size = base.mem_size;
          overlayable = base.overlayable;
          pointer_free = base.pointer_free;
          type_kind = base.type_kind;
        } in
        if (base.type_kind == S.kind_structure)
          || ((base.type_kind == S.kind_optstruct) || (base.type_kind == S.kind_union))
        then add_data_type_members ua S ctx sized node parent
        else ret (ctx, record sized { binary_encoding_id = base.binary_encoding_id }, good)
  ]

  -- Which of the three kinds of data type a node describes.
  unfoldable pub data_type_init :
      AddNodeContext ua S
      → UaType ua S
      → Node ua.NodeId
      → DataTypeNode ua.NodeId
      → ua.NodeId
      → Exec (Outcome ua S)
  unfolding enum_data_type_init structure_data_type_init subtype_of_base_init
  data_type_init ctx type head node parent = elim node.definition [
    | none ↦ subtype_of_base_init ctx type node parent
    | some definition ↦
        if definition.is_enum || definition.is_option_set
        then enum_data_type_init ctx type node parent
        else (if ltb 0 (length definition.fields)
            then structure_data_type_init ctx type head node parent
            else subtype_of_base_init ctx type node parent)
  ]

  -- `cleanup:` of `addCustomDataType`, where a bad status is logged.
  unfoldable pub log_status : AddNodeContext ua S → ua.NodeId → StatusCode → AddNodeContext ua S
  log_status ctx id good = ctx
  log_status ctx id res = record ctx { log = ctx.log ++ description_failed id res ∷ [] }

  -- The type goes to the server as a description.
  unfoldable pub submit_data_type :
      AddNodeContext ua S → UaType ua S → AddNodeContext ua S × StatusCode
  submit_data_type ctx type =
      let (res, description) = S.to_description type in
      elim res [
        | good ↦ (record ctx { server = S.add_data_type description ctx.server }, good)
        | bad ↦ (ctx, bad)
      ]

  unfoldable pub finish_data_type : ua.NodeId → Outcome ua S → AddNodeContext ua S
  unfolding submit_data_type log_status
  finish_data_type id (ctx, type, good) =
      let (next, res) = submit_data_type ctx type in log_status next id res
  finish_data_type id (ctx, type, res) = log_status ctx id res

  unfoldable pub add_custom_data_type :
      (NodePtr → Node ua.NodeId)
      → AddNodeContext ua S
      → Node ua.NodeId
      → DataTypeNode ua.NodeId
      → Exec (AddNodeContext ua S)
  unfolding data_type_init finish_data_type get_parent_id
  add_custom_data_type heap ctx head node =
      let type : UaType ua S = record {
        type_name = head.browse_name.name;
        type_id = head.id;
        binary_encoding_id = get_binary_encoding_id ua heap head;
        xml_encoding_id = get_xml_encoding_id ua heap head;
        mem_size = 0;
        type_kind = 0;
        pointer_free = false;
        overlayable = false;
        members = [];
        members_size = 0;
      } in
      data_type_init ctx type head node (get_parent_id ua ctx.parent_ref_types head).0
      >>= λ outcome. ret (finish_data_type head.id outcome)
