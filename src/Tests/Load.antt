-- ===== src/Tests/Load.antt =====
-- The backend on a file with one namespace and one object.
use open62541_nodeset_loader.Base.{
  ◌≡◌, refl, Bool, true, false, List, [], ◌∷◌, none, some, codes, Exec, fault, ret,
}
use open62541_nodeset_loader.Loader.{FileContext, start_element, end_element, characters}
use open62541_nodeset_loader.Loader.Import.{
  Parser, FileHandler, Imported, import_file, loader_sort, NodesetLoader,
}
use open62541_nodeset_loader.Backend.{AddNodeContext}
use open62541_nodeset_loader.Backend.Load.{Fc, context_of, load_with}
use open62541_nodeset_loader.Loader.Reads.Files.{OptionRead, import_file-IsRead}
use open62541_nodeset_loader.Loader.Reads.Sorted.{ImportSorts, import_file-loader_sort}
use open62541_nodeset_loader.Release.{loader_new, loader_delete, Release}
use open62541_nodeset_loader.Backend.Load.Order.{Loads, load_with-Loads}
use open62541_nodeset_loader.Backend.Load.Guards.{Guarded, load_with-Guarded}
use open62541_nodeset_loader.Tests.Program.{program}
use open62541_nodeset_loader.Samples.Ids.{sample_ua}
use open62541_nodeset_loader.Samples.Files.{counting_fc, result_or}
use open62541_nodeset_loader.Samples.Sorting.{insertion_qsort}
use open62541_nodeset_loader.Samples.Servers.{sample_server, sample_state}

-- <NamespaceUris><Uri>u</Uri></NamespaceUris><UAObject NodeId="x"/>
abbrev parse : Parser
parse bytes = (
  start_element "NamespaceUris" [] 0
      ∷ start_element "Uri" [] 0
      ∷ characters (codes "u")
      ∷ end_element "Uri" 0
      ∷ end_element "NamespaceUris" 0
      ∷ start_element "UAObject" (record { local_name = "NodeId"; value = codes "x" } ∷ []) 0
      ∷ end_element "UAObject" 0
      ∷ [],
  record { negative = false; magnitude = 0 },
)

abbrev empty_ctx : AddNodeContext sample_ua sample_server
empty_ctx = record {
  server = sample_state;
  ns_mapping = record { namespace_uris = []; remote2local = [] };
  parent_ref_types = [];
  log = [];
}

abbrev BackendFc : FileContext sample_ua
BackendFc = Fc sample_ua sample_server (insertion_qsort sample_ua) counting_fc parse

abbrev handler : FileHandler sample_ua BackendFc
handler = record {
  has_add_namespace = true;
  file = some [];
  ns_mapping = empty_ctx.ns_mapping;
  user_context = empty_ctx;
  ext_state = 0;
}

abbrev load : Exec (AddNodeContext sample_ua sample_server × Bool × List (Release sample_ua.NodeId))
load = load_with sample_ua sample_server (insertion_qsort sample_ua) counting_fc parse handler

abbrev loaded : AddNodeContext sample_ua sample_server × Bool × List (Release sample_ua.NodeId)
loaded = result_or (empty_ctx, false, []) load

loads : load ≡ ret (loaded.0, loaded.1, loaded.2)
unfolding program
loads = refl

loads_true : load ≡ ret (loaded.0, true, loaded.2)
unfolding program
loads_true = refl

-- The object is given to the server, which refuses it, and then finished.
calls_two : (loaded.0.server.calls ≡ 2) × (loaded.1 ≡ true)
unfolding program
calls_two = (refl, refl)

load_with-Guarded_example :
    (imported : Imported sample_ua BackendFc) × (import_file sample_ua BackendFc parse
        (record { nodeset = none; log = [] })
        (some handler)
      ≡ ret imported)
    × (ctx : AddNodeContext sample_ua sample_server) × (context_of sample_ua sample_server
          (insertion_qsort sample_ua)
          counting_fc
          parse
          imported
        ≡ ret ctx)
    × Guarded sample_ua sample_server
        (insertion_qsort sample_ua)
        imported.loader
        imported.status
        ctx
        loaded.0
        loaded.1
load_with-Guarded_example =
    load_with-Guarded sample_ua sample_server (insertion_qsort sample_ua) counting_fc parse handler
      loaded.0 loaded.1 loaded.2 loads

load_with-Loads_example :
    Loads sample_ua sample_server (insertion_qsort sample_ua) counting_fc parse handler loaded.0
load_with-Loads_example =
    load_with-Loads sample_ua sample_server (insertion_qsort sample_ua) counting_fc parse handler
      loaded.0 loaded.2 loads_true

-- The import alone.
abbrev start : NodesetLoader sample_ua
start = record { nodeset = none; log = [] }

abbrev nothing_imported : Imported sample_ua BackendFc
nothing_imported = record { loader = start; handler = none; status = false }

abbrev imported_once : Imported sample_ua BackendFc
imported_once =
    result_or nothing_imported (import_file sample_ua BackendFc parse start (some handler))

imports : import_file sample_ua BackendFc parse start (some handler) ≡ ret imported_once
unfolding program
imports = refl

import_file-IsRead_example : OptionRead sample_ua imported_once.loader.nodeset
import_file-IsRead_example =
    import_file-IsRead sample_ua BackendFc parse start (some handler) imported_once tt imports

-- The import, and then the sort.
abbrev sorted_once : NodesetLoader sample_ua × Bool
sorted_once =
    result_or (start, false)
      (loader_sort sample_ua (insertion_qsort sample_ua) imported_once.loader)

sorts :
    loader_sort sample_ua (insertion_qsort sample_ua) imported_once.loader
    ≡ ret (sorted_once.0, sorted_once.1)
unfolding program
sorts = refl

import_file-loader_sort_example :
    ImportSorts sample_ua
      (insertion_qsort sample_ua)
      imported_once.loader
      sorted_once.0
      sorted_once.1
import_file-loader_sort_example =
    import_file-loader_sort sample_ua (insertion_qsort sample_ua) BackendFc parse start
      (some handler) imported_once sorted_once.0 sorted_once.1 tt imports sorts

-- A loader that is deleted before its first import dereferences NULL.
deleted_at_once :
    (loader_new sample_ua true true ≡ some start) × (loader_delete sample_ua start ≡ fault)
unfolding program
deleted_at_once = (refl, refl)
