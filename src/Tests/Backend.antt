-- ===== src/Tests/Backend.antt =====
-- The backend over the small server.
use Prim.Native.String.{String}
use open62541_nodeset_loader.Base.{
  ℕ, ◌≡◌, ◌≢◌, ◌⊎◌, refl, arith, Bool, true, false, [], ◌∷◌, Option, none, some, map, codes, ret,
  ◌>>=◌,
}
use open62541_nodeset_loader.Arena.{until_zero}
use open62541_nodeset_loader.Node.{
  CInt, DataTypeDefinition, DataTypeDefinitionField, DataTypeNode, Reference,
}
use open62541_nodeset_loader.Nodeset.{Nodeset}
use open62541_nodeset_loader.Build.{for_each_node}
use open62541_nodeset_loader.Build.Fields.{atoi, skip_spaces, signed, digits}
use open62541_nodeset_loader.Build.Visits.{Stops, for_each_node-Stops}
use open62541_nodeset_loader.Backend.{AddNodeContext, good}
use open62541_nodeset_loader.Backend.Dimensions.{
  to_unsigned, atoi_u32, dimensions_behind, get_array_dimensions,
}
use open62541_nodeset_loader.Backend.Dimensions.Split.{
  first_part, other_parts, get_array_dimensions-numbers,
}
use open62541_nodeset_loader.Backend.Members.{add_enum_members, add_data_type_members}
use open62541_nodeset_loader.Backend.Members.Enumerations.{enum_member, add_enum_members_lem}
use open62541_nodeset_loader.Backend.Members.Typed.{TypedMember, as_member}
use open62541_nodeset_loader.Backend.Members.Structures.{add_data_type_members_lem}
use open62541_nodeset_loader.Backend.AddNodes.{add_refs, add_node_finish}
use open62541_nodeset_loader.Backend.AddNodes.References.{Accepts, Refuses, add_refs-Refuses}
use open62541_nodeset_loader.Samples.Nodesets.{part_nodeset}
use open62541_nodeset_loader.Backend.Namespaces.{add_node_context_init, add_namespaces}
use open62541_nodeset_loader.Backend.Namespaces.Laws.{AllNames, Leads, foreign}
use open62541_nodeset_loader.Backend.Namespaces.Correct.{add_namespaces-Leads}
use open62541_nodeset_loader.Backend.Parents.{get_parent_id, get_type_def_id}
use open62541_nodeset_loader.Backend.Parents.First.{
  First, IsParentRef, IsTypeRef, parent_of, target_of, get_parent_id-First,
}
use open62541_nodeset_loader.Samples.Ids.{sample_ua}
use open62541_nodeset_loader.Samples.Servers.{
  sample_server, number_type, sample_KeepsNamespaces, ns0_uri, sample_state,
}

backend : Unit {0}
unfolding get_array_dimensions dimensions_behind atoi_u32 to_unsigned atoi skip_spaces signed digits
    first_part other_parts
backend = tt

-- Both nodes are sorted.
abbrev placed_nodeset : Nodeset sample_ua
placed_nodeset = record part_nodeset {
  sorted_nodes = record { nodes = 2 ∷ 1 ∷ 0 ∷ 0 ∷ []; size = 2; capacity = 4 };
}

sample_names : AllNames sample_state.table
unfolding until_zero
sample_names = ((omega arith, refl), ((omega arith, refl), tt))

file_names : AllNames (ns0_uri ∷ codes "urn:machine" ∷ [])
unfolding until_zero
file_names = ((omega arith, refl), ((omega arith, refl), tt))

add_namespaces-Leads_example :
    (after : AddNodeContext sample_ua sample_server) × ((add_node_context_init sample_ua
          sample_server 3 sample_state
        >>= λ ctx. add_namespaces sample_ua sample_server (ns0_uri ∷ codes "urn:machine" ∷ []) ctx)
      ≡ ret after)
    × Leads after.server.table after.ns_mapping.remote2local
        (ns0_uri ∷ foreign ns0_uri (ns0_uri ∷ codes "urn:machine" ∷ []))
add_namespaces-Leads_example =
    add_namespaces-Leads sample_ua sample_server sample_KeepsNamespaces 3 sample_state ns0_uri
      (ns0_uri ∷ codes "urn:machine" ∷ []) refl (omega arith) sample_names file_names

-- Two dimensions.
dims_text : codes "2,3" ≢ []
dims_text e = cc e

get_array_dimensions_example : get_array_dimensions (codes "2,3") ≡ ret (2 ∷ 3 ∷ [])
unfolding backend
get_array_dimensions_example = get_array_dimensions-numbers (codes "2,3") dims_text

abbrev enum_field : String → ℕ → DataTypeDefinitionField ℕ
enum_field name value = record {
  name = some (codes name);
  data_type = 0;
  value_rank = record { negative = true; magnitude = 1 };
  value = record { negative = false; magnitude = value };
  is_optional = false;
}

abbrev colors : DataTypeDefinition ℕ
colors = record {
  fields = enum_field "red" 0 ∷ enum_field "blue" 7 ∷ [];
  is_enum = true;
  is_union = false;
  is_option_set = false;
}

add_enum_members_example :
    add_enum_members sample_ua sample_server sample_state number_type colors
    ≡ ret (
      record number_type {
        members = map (enum_member sample_ua sample_server) colors.fields;
        members_size = 2;
      },
      good,
    )
add_enum_members_example =
    add_enum_members_lem sample_ua sample_server sample_state number_type colors (omega arith) refl
      ((codes "red", refl), ((codes "blue", refl), tt))

-- A field of the known number type behind the parent's member.
abbrev number_field : DataTypeDefinitionField ℕ
number_field = record (enum_field "b" 0) { data_type = 6; is_optional = true }

abbrev pair_node : DataTypeNode ℕ
pair_node = record {
  definition = some (record colors { fields = number_field ∷ []; is_enum = false });
  is_abstract = none;
}

abbrev typed : String → Bool → TypedMember ℕ
typed name is_optional = record {
  name = codes name;
  type = 0;
  is_array = false;
  is_optional = is_optional;
}

abbrev empty_ctx : AddNodeContext sample_ua sample_server
empty_ctx = record {
  server = sample_state;
  ns_mapping = record { namespace_uris = []; remote2local = [] };
  parent_ref_types = [];
  log = [];
}

add_data_type_members_example :
    add_data_type_members sample_ua sample_server empty_ctx number_type pair_node 22
    ≡ ret (
      empty_ctx,
      record number_type {
        members = map (as_member sample_ua sample_server) (typed "a" false ∷ typed "b" true ∷ []);
        members_size = 2;
        pointer_free = false;
        type_kind = 28;
      },
      good,
    )
add_data_type_members_example =
    add_data_type_members_lem sample_ua sample_server empty_ctx number_type pair_node 22
      (typed "a" false ∷ []) (typed "b" true ∷ []) refl refl refl
      (record { named = refl; found = refl; array = refl; option = refl }, tt)

-- Two references that are accepted.
abbrev ref_to : ℕ → Reference ℕ
ref_to target = record { is_forward = true; ref_type = 40; target = target; target_ptr = none }

add_refs-Refuses_example :
    (((add_refs sample_ua sample_server 5 (ref_to 61 ∷ ref_to 62 ∷ []) sample_state).1 ≡ true)
      × Accepts sample_ua sample_server 5 sample_state
          (ref_to 61 ∷ ref_to 62 ∷ [])
          (add_refs sample_ua sample_server 5 (ref_to 61 ∷ ref_to 62 ∷ []) sample_state).0)
    ⊎ (((add_refs sample_ua sample_server 5 (ref_to 61 ∷ ref_to 62 ∷ []) sample_state).1 ≡ false)
        × Refuses sample_ua sample_server 5 sample_state
            (ref_to 61 ∷ ref_to 62 ∷ [])
            (add_refs sample_ua sample_server 5 (ref_to 61 ∷ ref_to 62 ∷ []) sample_state).0)
add_refs-Refuses_example =
    add_refs-Refuses sample_ua sample_server 5 (ref_to 61 ∷ ref_to 62 ∷ []) sample_state

-- The nodes of the sorted part, handed to the last pass.
for_each_node-Stops_example :
    Stops sample_ua
      (add_node_finish sample_ua sample_server)
      empty_ctx
      (map part_nodeset.heap (2 ∷ 1 ∷ []))
      (for_each_node sample_ua (add_node_finish sample_ua sample_server) empty_ctx placed_nodeset)
for_each_node-Stops_example =
    for_each_node-Stops sample_ua (add_node_finish sample_ua sample_server) placed_nodeset empty_ctx

get_parent_id-First_example :
    ((o : Option (Reference ℕ)) × First
        (IsParentRef sample_ua (46 ∷ 47 ∷ []))
        (part_nodeset.heap 1).refs
        o
      × (get_parent_id sample_ua (46 ∷ 47 ∷ []) (part_nodeset.heap 1) ≡ parent_of sample_ua o))
    × ((o : Option (Reference ℕ)) × First (IsTypeRef sample_ua) (part_nodeset.heap 1).refs o
        × (get_type_def_id sample_ua (part_nodeset.heap 1) ≡ target_of sample_ua o))
get_parent_id-First_example = get_parent_id-First sample_ua (46 ∷ 47 ∷ []) (part_nodeset.heap 1)

-- A variable of rank 1 without dimensions, and one with two.
abbrev rank_one : CInt
rank_one = record { negative = false; magnitude = 1 }

two_dimensions : get_array_dimensions (codes "2,3") ≡ ret (2 ∷ 3 ∷ [])
unfolding backend
two_dimensions = refl
