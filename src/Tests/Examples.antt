-- ===== src/Tests/Examples.antt =====
-- The example programs on one file, and on a hierarchy of three types.
use open62541_nodeset_loader.Base.{
  text_eq, ℕ, ◌+◌, ◌≡◌, refl, subst, Bool, true, false, List, [], ◌∷◌, ◌++◌, Option, none, some,
  codes, ◌==◌, if◌then◌else◌, fault, ret, arith,
}
use open62541_nodeset_loader.Ua.{Text}
use open62541_nodeset_loader.Loader.{start_element, end_element}
use open62541_nodeset_loader.Loader.Import.{Parser}
use open62541_nodeset_loader.Backend.{good}
use open62541_nodeset_loader.Backend.Namespaces.{load_namespaces, add_node_context_init}
use open62541_nodeset_loader.Backend.Load.{load_file}
use open62541_nodeset_loader.Backend.Load.Files.{Outcome, load_file-Outcome}
use open62541_nodeset_loader.Examples.{
  ReferenceDescription, Browse, no_extension, iterate_references, iterate, load_files, iterate_main,
  refusal,
}
use open62541_nodeset_loader.Examples.Iterate.{Below, Shows, iterate-Shows}
use open62541_nodeset_loader.Examples.DataTypes.{
  Variables, add_value, add_point, add_struct_with_array, add_struct_with_point_array,
  data_type_main, data_type_main-Refuses,
}
use open62541_nodeset_loader.Examples.Files.{
  Ends, Refuses, load_files-Ends, MainEnds, iterate_main-MainEnds,
}
use open62541_nodeset_loader.Samples.Ids.{sample_ua}
use open62541_nodeset_loader.Samples.Files.{result_or}
use open62541_nodeset_loader.Samples.Sorting.{insertion_qsort}
use open62541_nodeset_loader.Samples.Servers.{enter, sample_server, sample_state}
use open62541_nodeset_loader.Tests.Program.{program}

loading : Unit {0}
unfolding program load_namespaces add_node_context_init load_file iterate_references iterate enter
    text_eq load_files iterate_main data_type_main add_point add_struct_with_array
    add_struct_with_point_array add_value
loading = tt

-- HierarchicalReferences has two subtypes, and the first of them has one.
abbrev first_level : List (ReferenceDescription sample_ua)
first_level =
    record { browse_name = codes "a"; node_id = 5 }
    ∷ record { browse_name = codes "b"; node_id = 6 }
    ∷ []

abbrev second_level : List (ReferenceDescription sample_ua)
second_level = record { browse_name = codes "c"; node_id = 7 } ∷ []

abbrev hierarchy : Browse sample_ua
hierarchy id = if id == 33 then some first_level else (if id == 5 then some second_level else none)

abbrev rank : ℕ → ℕ
rank id = if id == 33 then 2 else (if id == 5 then 1 else 0)

falls_at :
    (top middle : Bool) (references : List (ReferenceDescription sample_ua))
    → ◌≡◌ {A = Option (List (ReferenceDescription sample_ua))}
        (if top then some first_level else (if middle then some second_level else none))
        (some references)
    → Below sample_ua hierarchy rank (if top then 2 else (if middle then 1 else 0)) references
falls_at true middle references e =
    let same : first_level ≡ references = cc e in
    subst (Below sample_ua hierarchy rank 2) same (omega arith, (omega arith, tt))
falls_at false true references e =
    let same : second_level ≡ references = cc e in
    subst (Below sample_ua hierarchy rank 1) same (omega arith, tt)
falls_at false false references e = cc e

falls :
    (from : ℕ) (references : List (ReferenceDescription sample_ua))
    → hierarchy from ≡ some references
    → Below sample_ua hierarchy rank (rank from) references
falls from references e = falls_at (from == 33) (from == 5) references e

shown :
    iterate sample_ua 3 hierarchy 33
    ≡ ret (
        codes "found :printf a"
        ++ 10 ∷ codes "found :printf c"
        ++ 10 ∷ codes "found :printf b"
        ++ 10 ∷ [])
unfolding loading
shown = refl

iterate-Shows_example :
    (text : Text) × (iterate sample_ua 3 hierarchy 33 ≡ ret text)
    × Shows sample_ua hierarchy 33 text
iterate-Shows_example = iterate-Shows sample_ua hierarchy rank 3 33 falls (omega arith)

-- <UAObject NodeId="x"/>
abbrev parse : Parser
parse bytes = (
  start_element "UAObject" (record { local_name = "NodeId"; value = codes "x" } ∷ []) 0
      ∷ end_element "UAObject" 0
      ∷ [],
  record { negative = false; magnitude = 0 },
)

abbrev State : Type 0
State = sample_server.State

-- A server without a namespace.
abbrev empty_server : State
empty_server = record sample_state { table = [] }

abbrev files : List (Option (List ℕ))
files = some [] ∷ none ∷ []

-- The file is loaded; a file that cannot be opened is refused.
abbrev file_loaded : Option State × Bool
file_loaded =
    result_or (none, false)
      (load_file sample_ua sample_server (insertion_qsort sample_ua) (no_extension sample_ua) parse
        3 (some empty_server) (some []) tt)

loads_file :
    load_file sample_ua sample_server
      (insertion_qsort sample_ua)
      (no_extension sample_ua)
      parse
      3
      (some empty_server)
      (some [])
      tt
    ≡ ret (file_loaded.0, true)
unfolding loading
loads_file = refl

load_file-Outcome_example :
    Outcome sample_ua sample_server
      (insertion_qsort sample_ua)
      (no_extension sample_ua)
      parse
      3
      (some empty_server)
      (some [])
      tt
      file_loaded.0
      true
load_file-Outcome_example =
    load_file-Outcome sample_ua sample_server (insertion_qsort sample_ua) (no_extension sample_ua)
      parse 3 (some empty_server) (some []) tt file_loaded.0 true loads_file

abbrev files_loaded : State × Bool
files_loaded =
    result_or (empty_server, true)
      (load_files sample_ua sample_server (insertion_qsort sample_ua) parse 4 files empty_server)

loads_files :
    load_files sample_ua sample_server (insertion_qsort sample_ua) parse 4 files empty_server
    ≡ ret (files_loaded.0, false)
unfolding loading
loads_files = refl

load_files-Ends_example :
    Ends sample_ua sample_server
      (insertion_qsort sample_ua)
      parse
      4
      files
      empty_server
      files_loaded.0
      false
load_files-Ends_example =
    load_files-Ends sample_ua sample_server (insertion_qsort sample_ua) parse 4 files empty_server
      files_loaded.0 false loads_files

abbrev main_run : State × Text × Option ℕ
main_run =
    result_or (empty_server, [], some 7)
      (iterate_main sample_ua sample_server (insertion_qsort sample_ua) parse 4 3 (λ s. hierarchy)
        (some [] ∷ []) empty_server)

runs_main :
    iterate_main sample_ua sample_server
      (insertion_qsort sample_ua)
      parse
      4
      3
      (λ s. hierarchy)
      (some [] ∷ [])
      empty_server
    ≡ ret (main_run.0, main_run.1, none)
unfolding loading
runs_main = refl

iterate_main-MainEnds_example :
    MainEnds sample_ua sample_server
      (insertion_qsort sample_ua)
      parse
      4
      (λ s. hierarchy)
      (some [] ∷ [])
      empty_server
      main_run.0
      main_run.1
      none
iterate_main-MainEnds_example =
    iterate_main-MainEnds sample_ua sample_server (insertion_qsort sample_ua) parse 4 3
      (λ s. hierarchy) (some [] ∷ []) empty_server main_run.0 main_run.1 none runs_main

abbrev sample_variables : Variables sample_ua sample_server
sample_variables = record {
  ServerConfig = ℕ;
  add_variable_node = λ id name type s. record s { calls = s.calls + 1 };
  find_data_type = λ type config. some 0;
  set_scalar = λ value type. 0;
  write_value = λ id value s. (s, good);
}

abbrev import_run : State × Text × Option ℕ
import_run =
    result_or (empty_server, [], none)
      (data_type_main sample_ua sample_server sample_variables (insertion_qsort sample_ua) parse 4
        files empty_server)

runs_import :
    data_type_main sample_ua sample_server sample_variables
      (insertion_qsort sample_ua)
      parse
      4
      files
      empty_server
    ≡ ret (import_run.0, import_run.1, import_run.2)
unfolding loading
runs_import = refl

data_type_main-Refuses_example :
    Refuses sample_ua sample_server
      (insertion_qsort sample_ua)
      parse
      4
      files
      empty_server
      import_run.0
    × (import_run.1 ≡ refusal sample_ua sample_server (insertion_qsort sample_ua) parse)
    × (import_run.2 ≡ some 1)
data_type_main-Refuses_example =
    data_type_main-Refuses sample_ua sample_server sample_variables (insertion_qsort sample_ua)
      parse 4 files empty_server import_run.0 import_run.1 import_run.2 runs_import

-- With a file that is loaded the program faults.
faults :
    data_type_main sample_ua sample_server sample_variables
      (insertion_qsort sample_ua)
      parse
      4
      (some [] ∷ [])
      empty_server
    ≡ fault
unfolding loading
faults = refl
