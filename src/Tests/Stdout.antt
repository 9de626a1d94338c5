-- ===== src/Tests/Stdout.antt =====
-- The printing program on a file with one object, and on a file that cannot be opened.
use open62541_nodeset_loader.Base.{
  ℕ, ◌%◌, ◌≡◌, refl, false, List, [], ◌∷◌, ◌++◌, length, none, some, codes, Exec, ret,
}
use open62541_nodeset_loader.Ua.{Text}
use open62541_nodeset_loader.Loader.{start_element, end_element}
use open62541_nodeset_loader.Loader.Import.{Parser}
use open62541_nodeset_loader.Stdout.{
  Argument, empty_mapping, any_equal, add_namespace, print_id, print_field, dump_variable,
  dump_object, dump_class, dump_refs, node_text, dump_node, print_nodes, print_loaded, import_files,
  main,
}
use open62541_nodeset_loader.Stdout.Namespaces.{add_all, indices_from, add_all_lem}
use open62541_nodeset_loader.Stdout.Prints.{all_text, Ends, main-Ends}
use open62541_nodeset_loader.Samples.Ids.{sample_ua}
use open62541_nodeset_loader.Samples.Files.{result_or}
use open62541_nodeset_loader.Samples.Sorting.{insertion_qsort}
use open62541_nodeset_loader.Tests.Program.{program}

printing : Unit {0}
unfolding program any_equal add_namespace print_id print_field dump_variable dump_object dump_class
    dump_refs node_text dump_node print_nodes print_loaded import_files main add_all all_text
printing = tt

-- <UAObject NodeId="x"/>
abbrev parse : Parser
parse bytes = (
  start_element "UAObject" (record { local_name = "NodeId"; value = codes "x" } ∷ []) 0
      ∷ end_element "UAObject" 0
      ∷ [],
  record { negative = false; magnitude = 0 },
)

abbrev print_sample : ℕ → Text
print_sample id = id % 256 ∷ []

abbrev good_file : Argument
good_file = record { path = codes "a.xml"; file = some [] }

abbrev missing_file : Argument
missing_file = record { path = codes "b.xml"; file = none }

abbrev run : List Argument → Exec (Text × ℕ)
run = main sample_ua print_sample parse (insertion_qsort sample_ua)

abbrev printed_once : Text × ℕ
printed_once = result_or ([], 7) (run (good_file ∷ []))

runs : run (good_file ∷ []) ≡ ret (printed_once.0, printed_once.1)
unfolding printing
runs = refl

runs_shown :
    run (good_file ∷ [])
    ≡ ret (
      codes "NodeId: x BrowseName:  DisplayName: " ++ 10 ∷ 9 ∷ codes "eventNotifier: 0" ++ 10 ∷ [],
      0,
    )
unfolding printing
runs_shown = refl

refuses :
    run (good_file ∷ missing_file ∷ [])
    ≡ ret (codes "Nodeset b.xml could not be loaded" ++ 10 ∷ [], 1)
unfolding printing
refuses = refl

main-Ends_example :
    Ends sample_ua print_sample parse
      (insertion_qsort sample_ua)
      (record { nodeset = none; log = [] })
      (good_file ∷ [])
      printed_once.0
      printed_once.1
main-Ends_example =
    main-Ends sample_ua print_sample parse (insertion_qsort sample_ua) good_file [] printed_once.0
      printed_once.1 runs

abbrev twice : List Text
twice = codes "u" ∷ codes "u" ∷ []

add_all_example :
    ((add_all twice empty_mapping).namespace_uris ≡ empty_mapping.namespace_uris ++ twice)
    × ((add_all twice empty_mapping).remote2local
        ≡ empty_mapping.remote2local
          ++ indices_from (length empty_mapping.namespace_uris) (length twice))
add_all_example = add_all_lem twice empty_mapping
