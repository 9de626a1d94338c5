-- ===== src/Tests/Program.antt =====
-- The definitions that a run of the whole program unfolds.
use open62541_nodeset_loader.Arena.{
  arena_new, region_new, get_region_size, push_region, user_ptr, take_block, malloc, copy_to,
  user_bytes, move_block, extend_block, realloc, write_user, region_at, read_string, c_string,
}
use open62541_nodeset_loader.AliasList.{find_name, get_node_id}
use open62541_nodeset_loader.Container.{init, add, remove, put, grow, realloc_nodes, dec_size}
use open62541_nodeset_loader.Node.{node_new, zeroed}
use open62541_nodeset_loader.Nodeset.{nodeset_new}
use open62541_nodeset_loader.Nodeset.Sort.{
  must_wait, ref_ready, refs_ready, node_refs_ready, place, sort_pass, sort_retry, sort_node_class,
  log_error, sort_types, sort_round, sort_instances, rounds, link_ref, link_refs, link_nodes,
  reset_done, sort_all_nodes, link, sort_all_types, sort,
}
use open62541_nodeset_loader.Build.Attributes.{
  store_text, get_attribute_value, alias_to_id, parse_qualified_name, extract_specific,
  extract_attributes,
}
use open62541_nodeset_loader.Build.Fields.{get_value, atoi, digits, signed, skip_spaces}
use open62541_nodeset_loader.Build.{new_node, new_namespace_finish, visit, for_each_node}
use open62541_nodeset_loader.Loader.{the_node, collected}
use open62541_nodeset_loader.Loader.Start.{class_of, on_start_element, start_in, start_init}
use open62541_nodeset_loader.Loader.End.{on_end_element, end_in}
use open62541_nodeset_loader.Loader.Run.{handle_all, handle, on_characters, more_room, new_ctx}
use open62541_nodeset_loader.Loader.Import.{
  nodeset_of, parser_run, import_with, import_file, loader_sort,
}
use open62541_nodeset_loader.Backend.Namespaces.{extend_mapping, add_namespace, add_namespaces}
use open62541_nodeset_loader.Backend.AddNodes.{
  class_attributes, add_node_impl, add_refs, add_all_refs, add_node_finish, add_nodes,
}
use open62541_nodeset_loader.Backend.Handlers.{object_attributes, send}
use open62541_nodeset_loader.Backend.Parents.{get_parent_id, get_type_def_id}
use open62541_nodeset_loader.Backend.Dimensions.{atoi_byte, to_unsigned}
use open62541_nodeset_loader.Backend.Load.{
  context_of, add_sorted, sort_imported, load_nodes, load_with,
}
use open62541_nodeset_loader.Release.{
  free_array, delete_regions, arena_delete, alias_list_delete, clear_classes, delete_ref,
  clear_variable, free_definition, clear_data_type, node_delete, nodes_delete, nodeset_cleanup,
  loader_new, loader_delete,
}
use open62541_nodeset_loader.Samples.Sorting.{insert, insertion_sort}

unfoldable pub program : Unit {0}
unfolding arena_new region_new get_region_size push_region user_ptr take_block malloc copy_to
    user_bytes move_block extend_block realloc write_user region_at read_string c_string find_name
    get_node_id init add remove put grow realloc_nodes dec_size node_new zeroed nodeset_new
    must_wait ref_ready refs_ready node_refs_ready place sort_pass sort_retry sort_node_class
    log_error sort_types sort_round sort_instances rounds link_ref link_refs link_nodes reset_done
    sort_all_nodes link sort_all_types sort store_text get_attribute_value alias_to_id
    parse_qualified_name extract_specific extract_attributes get_value new_node new_namespace_finish
    visit for_each_node the_node collected class_of on_start_element start_in start_init
    on_end_element end_in handle_all handle on_characters more_room new_ctx nodeset_of parser_run
    import_with import_file loader_sort extend_mapping add_namespace add_namespaces class_attributes
    add_node_impl add_refs add_all_refs add_node_finish add_nodes send context_of add_sorted
    sort_imported load_nodes load_with insert insertion_sort object_attributes atoi_byte to_unsigned
    atoi digits signed skip_spaces get_parent_id get_type_def_id free_array delete_regions
    arena_delete alias_list_delete clear_classes delete_ref clear_variable free_definition
    clear_data_type node_delete nodes_delete nodeset_cleanup loader_new loader_delete
program = tt
