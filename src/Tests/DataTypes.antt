-- ===== src/Tests/DataTypes.antt =====
-- A custom data type over the small server.
use open62541_nodeset_loader.Base.{ℕ, ◌≡◌, refl, true, false, [], ◌∷◌, some, none, codes, Exec, ret}
use open62541_nodeset_loader.Container.{NodePtr}
use open62541_nodeset_loader.Node.{
  NodeClass, Node, DataTypeNode, DataTypeDefinitionField, node_new, zeroed,
}
use open62541_nodeset_loader.Backend.{AddNodeContext}
use open62541_nodeset_loader.Backend.Members.{
  put_member, put_parent_members, put_field_members, add_data_type_members,
}
use open62541_nodeset_loader.Backend.Parents.{get_parent_id, parent_in}
use open62541_nodeset_loader.Backend.Encodings.{
  get_binary_encoding_id, get_xml_encoding_id, encoding_in,
}
use open62541_nodeset_loader.Backend.DataTypes.{
  structure_data_type_init, data_type_init, log_status, submit_data_type, finish_data_type,
  add_custom_data_type,
}
use open62541_nodeset_loader.Samples.Ids.{sample_ua}
use open62541_nodeset_loader.Samples.Files.{result_or}
use open62541_nodeset_loader.Samples.Servers.{sample_server, sample_state}

importer : Unit {0}
unfolding put_member put_parent_members put_field_members add_data_type_members get_parent_id
    parent_in get_binary_encoding_id get_xml_encoding_id encoding_in structure_data_type_init
    data_type_init log_status submit_data_type finish_data_type add_custom_data_type node_new zeroed
importer = tt

abbrev first_field : DataTypeDefinitionField ℕ
first_field = record {
  name = some (codes "x");
  data_type = 6;
  value_rank = record { negative = true; magnitude = 1 };
  value = record { negative = false; magnitude = 0 };
  is_optional = false;
}

abbrev point_node : DataTypeNode ℕ
point_node = record {
  definition = some (record {
    fields = first_field ∷ [];
    is_enum = false;
    is_union = false;
    is_option_set = false;
  });
  is_abstract = none;
}

abbrev no_heap : NodePtr → Node ℕ
no_heap p = node_new 0 NodeClass.object

abbrev point_ctx : AddNodeContext sample_ua sample_server
point_ctx = record {
  server = sample_state;
  ns_mapping = record { namespace_uris = []; remote2local = [] };
  parent_ref_types = [];
  log = [];
}

abbrev point : Exec (AddNodeContext sample_ua sample_server)
point =
    add_custom_data_type sample_ua sample_server no_heap point_ctx (node_new 9 NodeClass.data_type)
      point_node

abbrev point_after : AddNodeContext sample_ua sample_server
point_after = result_or point_ctx point

point_ends : point ≡ ret point_after
unfolding importer
point_ends = refl

-- The server has one type more.
one_type : point_after.server.types ≡ 1
unfolding importer
one_type = refl
