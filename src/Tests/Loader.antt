-- ===== src/Tests/Loader.antt =====
-- The XML handlers on a small file.
use open62541_nodeset_loader.Base.{◌≡◌, refl, [], true, false, Exec, ret}
use open62541_nodeset_loader.Arena.{
  arena_new, region_new, get_region_size, push_region, user_ptr, take_block, malloc, copy_to,
  user_bytes, move_block, extend_block, realloc, write_user, region_at, read_string, c_string,
}
use open62541_nodeset_loader.AliasList.{find_name, get_node_id}
use open62541_nodeset_loader.Container.{add, put, grow, realloc_nodes, dec_size}
use open62541_nodeset_loader.Node.{node_new, zeroed}
use open62541_nodeset_loader.Build.Attributes.{
  store_text, get_attribute_value, alias_to_id, parse_qualified_name, extract_specific,
  extract_attributes,
}
use open62541_nodeset_loader.Build.Fields.{get_value}
use open62541_nodeset_loader.Build.{new_node, set_display_name, display_name_finish}
use open62541_nodeset_loader.Samples.Ids.{sample_ua}
use open62541_nodeset_loader.Samples.Files.{
  counting_fc, small_ctx, node_ctx, small_item, nested_item, result_or,
}
use open62541_nodeset_loader.Loader.{Ctx, TParserState, the_node, collected}
use open62541_nodeset_loader.Loader.Start.{
  class_of, on_start_element, start_in, start_init, start_node, start_extensions, start_extension,
  value_start,
}
use open62541_nodeset_loader.Loader.End.{
  on_end_element, end_in, end_value, end_extension, leave_value, store_value, store_if_variable,
  store_into, value_text, set_value,
}
use open62541_nodeset_loader.Loader.Run.{handle_all, handle, on_characters, more_room, new_ctx}
use open62541_nodeset_loader.Loader.Items.{element, nothing, events_of, separate}
use open62541_nodeset_loader.Loader.Control.{control}
use open62541_nodeset_loader.Loader.Balance.{Fits, element_balanced}

program : Unit {0}
unfolding arena_new region_new get_region_size push_region user_ptr take_block malloc copy_to
    user_bytes move_block extend_block realloc write_user region_at read_string c_string find_name
    get_node_id add put grow realloc_nodes dec_size node_new zeroed store_text get_attribute_value
    alias_to_id parse_qualified_name extract_specific extract_attributes get_value new_node
    set_display_name display_name_finish the_node collected class_of on_start_element start_in
    start_init start_node start_extensions start_extension value_start on_end_element end_in
    end_value end_extension leave_value store_value store_if_variable store_into value_text
    set_value handle_all handle on_characters more_room new_ctx events_of separate Fits
program = tt

abbrev small_last : Ctx sample_ua counting_fc
small_last = result_or small_ctx (handle_all sample_ua counting_fc (events_of small_item) small_ctx)

runs : handle_all sample_ua counting_fc (events_of small_item) small_ctx ≡ ret small_last
unfolding program
runs = refl

is_separate : separate false small_item ≡ true
unfolding program
is_separate = refl

starts_well : Fits false TParserState.init 0
unfolding program
starts_well = refl

element_balanced_example : control small_last ≡ control small_ctx
unfolding new_ctx
element_balanced_example =
    element_balanced small_item false small_ctx small_last is_separate starts_well runs

-- An Extension inside an Extension ends the outer one early, and the end of the outer one ends
-- Extensions: at the end of Extensions the node is left.
abbrev state_of : Exec (Ctx sample_ua counting_fc) → TParserState
state_of e = (result_or small_ctx e).state

nested_extension :
    state_of (handle_all sample_ua counting_fc (events_of nested_item) node_ctx) ≡ TParserState.init
unfolding program
nested_extension = refl

one_extension :
    state_of
      (handle_all sample_ua counting_fc (events_of (element "Extensions" [] 0 nothing 0)) node_ctx)
    ≡ TParserState.node
unfolding program
one_extension = refl
