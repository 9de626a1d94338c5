-- ===== src/Stdout.antt =====
-- The program of backends/stdout/examples/main.c, which prints the sorted nodes of nodeset files.
-- What it prints is the list of its bytes; the messages of the loader's logger, which it prints
-- too, are kept in the logs of the loader and the nodeset instead.
pub mod Namespaces
pub mod Imports
pub mod Prints
use open62541_nodeset_loader.Base.{
  ℕ, ◌%◌, ◌^◌, Bool, true, false, List, [], ◌∷◌, ◌++◌, Option, none, some, length, take, drop, ltb,
  codes, text_eq, if◌then◌else◌, Exec, fault, ret, ◌>>=◌, deref,
}
use open62541_nodeset_loader.Ua.{Text, NamespaceMapping, Ua, ua_string}
use open62541_nodeset_loader.Arena.{until_zero}
use open62541_nodeset_loader.Node.{NodeClass, Reference, Specific, Node}
use open62541_nodeset_loader.Nodeset.{Nodeset}
use open62541_nodeset_loader.Nodeset.Sort.{QSort}
use open62541_nodeset_loader.Build.{for_each_node}
use open62541_nodeset_loader.Loader.{FileContext}
use open62541_nodeset_loader.Loader.Import.{
  Parser, NodesetLoader, FileHandler, Imported, import_file, loader_sort,
}
use open62541_nodeset_loader.Release.{loader_new, loader_delete}

-- The loop of `_addNamespace` over the uris that it looks at.
unfoldable pub any_equal : List Text → Text → Bool
any_equal [] uri = false
any_equal (known ∷ rest) uri = if text_eq uri known then true else any_equal rest uri

-- `_addNamespace` on the static mapping: the loop begins at the number of uris, as it is written.
-- An index is cut to 16 bits.
unfoldable pub add_namespace : Text → NamespaceMapping → NamespaceMapping
unfolding any_equal
add_namespace uri mapping =
    if any_equal (drop (length mapping.namespace_uris) mapping.namespace_uris) uri
    then mapping
    else record {
      namespace_uris = mapping.namespace_uris ++ uri ∷ [];
      remote2local = mapping.remote2local ++ length mapping.namespace_uris % 2 ^ 16 ∷ [];
    }

-- The static mapping at the start of the program.
abbrev pub empty_mapping : NamespaceMapping
empty_mapping = record { namespace_uris = []; remote2local = [] }

abbrev newline : Text
newline = 10 ∷ []

-- A line of `dumpNode` that begins with a tab.
abbrev pub field_line : Text → Text → Text
field_line label value = 9 ∷ label ++ (value ++ newline)

-- What the program prints for a file that was not imported.
abbrev pub refusal : Text → Text
refusal path = codes "Nodeset " ++ (until_zero path ++ (codes " could not be loaded" ++ newline))

module _ (ua : Ua) (print_node_id : ua.NodeId → Text) where
  -- `printId`: the buffer has room for 255 bytes and a zero, and is printed up to a zero.
  unfoldable pub print_id : ua.NodeId → Text
  print_id id = until_zero (
      if ltb (length (print_node_id id)) 256 then print_node_id id else take 255 (print_node_id id))

  -- `printf` with `%s` on a field of the node; NULL is not a string.
  unfoldable pub print_field : Text → Option Text → Exec Text
  print_field label value = deref value >>= λ text. ret (field_line label (until_zero text))

  -- The lines of a Variable; the third shows the value rank again.
  unfoldable pub dump_variable : Specific ua.NodeId → Exec Text
  unfolding print_id print_field
  dump_variable specific = elim specific [
    | Specific.variable n ↦ print_field (codes "valueRank: ") n.value_rank >>= λ rank.
        print_field (codes "arrayDimensions: ") n.value_rank >>= λ dimensions.
        print_field (codes "minimumSamplingInterval: ") n.minimum_sampling_interval >>= λ interval.
        ret (
          field_line (codes "datatype: ") (print_id n.datatype)
          ++ (rank ++ (dimensions ++ interval)))
    | _ ↦ fault
  ]

  unfoldable pub dump_object : Specific ua.NodeId → Exec Text
  unfolding print_field
  dump_object specific = elim specific [
    | Specific.object n ↦ print_field (codes "eventNotifier: ") n.event_notifier
    | _ ↦ fault
  ]

  -- The `switch` over the node class, with the casts.
  unfoldable pub dump_class : NodeClass → Specific ua.NodeId → Exec Text
  unfolding dump_variable dump_object
  dump_class NodeClass.object specific = dump_object specific
  dump_class NodeClass.variable specific = dump_variable specific
  dump_class _ specific = ret newline

  unfoldable pub dump_refs : List (Reference ua.NodeId) → Text
  unfolding print_id
  dump_refs [] = []
  dump_refs (ref ∷ next) =
      (codes "Reftype: "
        ++ (print_id ref.ref_type ++ (codes " target: " ++ (print_id ref.target ++ newline))))
      ++ dump_refs next

  -- What `dumpNode` prints.
  unfoldable pub node_text : Node ua.NodeId → Exec Text
  unfolding print_id dump_class dump_refs
  node_text node = do
    fields ← dump_class node.node_class node.specific
    ret (
        (codes "NodeId: "
          ++ (print_id node.id
              ++ (codes " BrowseName: "
                  ++ (until_zero node.browse_name.name
                      ++ (codes " DisplayName: "
                          ++ (until_zero (ua_string node.display_name.text) ++ newline))))))
        ++ (fields ++ dump_refs node.refs))

  -- `dumpNode` behind what was printed before; its result is always true.
  unfoldable pub dump_node : Text → Node ua.NodeId → Exec (Text × Bool)
  unfolding node_text
  dump_node printed node = node_text node >>= λ text. ret (printed ++ text, true)

  -- `NodesetLoader_forEachNode` with `dumpNode`.
  unfoldable pub print_nodes : NodesetLoader ua → Exec (Text × Bool)
  unfolding dump_node
  print_nodes loader = do nodeset ← deref loader.nodeset; for_each_node ua dump_node [] nodeset

-- A command line argument: the path, and the bytes of the file if it can be opened.
pub record Argument : Type 0 where
  pub path : Text
  pub file : Option (List ℕ)

module _ (ua : Ua) where
  -- The file context: `nsMapping` is the static mapping that `_addNamespace` writes.
  abbrev pub stdout_fc : FileContext ua
  stdout_fc = record {
    UserContext = Unit {0};
    add_namespace = λ uri context mapping. ret (context, add_namespace uri mapping);
    ext_if = false;
    Data = Unit {0};
    new_extension = λ state. (state, none);
    start = λ extension name attributes state. state;
    end = λ extension name text state. state;
    finish = λ extension state. state;
  }

  abbrev pub handler_for : NamespaceMapping → Argument → FileHandler ua stdout_fc
  handler_for mapping argument = record {
    has_add_namespace = true;
    file = argument.file;
    ns_mapping = mapping;
    user_context = tt;
    ext_state = tt;
  }

  -- The static mapping after an import.
  abbrev pub mapping_of : NamespaceMapping → Imported ua stdout_fc → NamespaceMapping
  mapping_of mapping imported = elim imported.handler [
    | none ↦ mapping
    | some handler ↦ handler.ns_mapping
  ]

module _ (ua : Ua) (parse : Parser) where
  -- The loop over the arguments; the second result is the path of a file that was not imported.
  unfoldable pub import_files :
      NodesetLoader ua → NamespaceMapping → List Argument → Exec (NodesetLoader ua × Option Text)
  import_files loader mapping [] = ret (loader, none)
  import_files loader mapping (argument ∷ rest) = do
    imported ← import_file ua (stdout_fc ua) parse loader (some (handler_for ua mapping argument))
    elim imported.status [
      | true ↦ import_files imported.loader (mapping_of ua mapping imported) rest
      | false ↦ ret (imported.loader, some argument.path)
    ]

module _ (ua : Ua) (print_node_id : ua.NodeId → Text) (parse : Parser) (q : QSort ua) where
  -- What follows the loop.
  unfoldable pub print_loaded : NodesetLoader ua → Option Text → Exec (Text × ℕ)
  unfolding print_nodes
  print_loaded loader (some path) = ret (refusal path, 1)
  print_loaded loader none = do
    (sorted, status) ← loader_sort ua q loader
    (printed, all) ← print_nodes ua print_node_id sorted
    released ← loader_delete ua sorted
    ret (printed, 0)

  abbrev usage : Text
  usage = codes "specify nodesetfile as argument. E.g. parserDemo text.xml" ++ newline

  -- What the program prints and its exit code, by its arguments.
  unfoldable pub main : List Argument → Exec (Text × ℕ)
  unfolding import_files print_loaded
  main [] = ret (usage, 1)
  main (argument ∷ rest) = do
    loader ← deref (loader_new ua true true)
    (last, refused) ← import_files ua parse loader empty_mapping (argument ∷ rest)
    print_loaded last refused
