-- ===== src/Loader/Import.antt =====
-- `NodesetLoader_importFile` and `NodesetLoader_sort` of src/NodesetLoader.c.
use open62541_nodeset_loader.Base.{
  ℕ, Bool, true, false, List, [], ◌∷◌, ◌++◌, Option, none, some, if◌then◌else◌, Exec, ret, ◌>>=◌,
  deref,
}
use open62541_nodeset_loader.Ua.{NamespaceMapping, Ua}
use open62541_nodeset_loader.Node.{CInt}
use open62541_nodeset_loader.Nodeset.{Nodeset, nodeset_new}
use open62541_nodeset_loader.Nodeset.Sort.{QSort, sort}
use open62541_nodeset_loader.Loader.{FileContext, Event}
use open62541_nodeset_loader.Loader.Run.{handle_all, new_ctx}

pub data ImportError : Type 0 where
  no_filehandler add_namespace_missing file_open_error xml_parsing_error : ImportError

pub record NodesetLoader (ua : Ua) : Type 0 where
  pub nodeset : Option (Nodeset ua)
  pub log : List ImportError

-- The file handler: the callbacks are in `fc`, `file` holds the bytes of the file if it can be
-- opened.
pub record FileHandler (ua : Ua) (fc : FileContext ua) : Type 0 where
  pub has_add_namespace : Bool
  pub file : Option (List ℕ)
  pub ns_mapping : NamespaceMapping
  pub user_context : fc.UserContext
  pub ext_state : fc.Data

pub record Imported (ua : Ua) (fc : FileContext ua) : Type 0 where
  pub loader : NodesetLoader ua
  pub handler : Option (FileHandler ua fc)
  pub status : Bool

-- The XML parser: the events that the bytes of a file give, and what `xmlParseChunk` returns.
abbrev pub Parser : Type 0
Parser = List ℕ → List Event × CInt

module _ (ua : Ua) (fc : FileContext ua) (parse : Parser) where
  abbrev failed : NodesetLoader ua → Option (FileHandler ua fc) → ImportError → Imported ua fc
  failed loader handler e = record {
    loader = record loader { log = loader.log ++ e ∷ [] };
    handler = handler;
    status = false;
  }

  -- `loader->nodeset`, which the first file makes.
  unfoldable pub nodeset_of : NodesetLoader ua → FileHandler ua fc → Nodeset ua
  nodeset_of loader handler = elim loader.nodeset [
    | none ↦ nodeset_new ua handler.ns_mapping
    | some nodeset ↦ nodeset
  ]

  -- `Parser_run` and what follows it.
  unfoldable pub parser_run :
      NodesetLoader ua → FileHandler ua fc → List ℕ → Nodeset ua → Exec (Imported ua fc)
  parser_run loader handler bytes nodeset =
      let (events, code) = parse bytes in
      handle_all ua fc events (
        new_ctx ua fc (record nodeset { ns_mapping = handler.ns_mapping }) handler.user_context
          handler.ext_state (bytes ++ 0 ∷ []))
      >>= λ last.
          (let after = record loader { nodeset = some last.nodeset } in
            let used = record handler {
              ns_mapping = last.nodeset.ns_mapping;
              user_context = last.user_context;
              ext_state = last.ext_state;
            } in
            ret (
              if code.negative
              then failed after (some used) xml_parsing_error
              else record { loader = after; handler = some used; status = true }))

  -- A handler that is there.
  unfoldable pub import_with : NodesetLoader ua → FileHandler ua fc → Exec (Imported ua fc)
  unfolding nodeset_of parser_run
  import_with loader handler =
      if handler.has_add_namespace
      then elim handler.file [
        | none ↦ ret (
            failed (record loader { nodeset = some (nodeset_of loader handler) }) (some handler)
              file_open_error)
        | some bytes ↦ parser_run loader handler bytes (nodeset_of loader handler)
      ]
      else ret (failed loader (some handler) add_namespace_missing)

  unfoldable pub import_file : NodesetLoader ua → Option (FileHandler ua fc) → Exec (Imported ua fc)
  unfolding import_with
  import_file loader none = ret (failed loader none no_filehandler)
  import_file loader (some handler) = import_with loader handler

module _ (ua : Ua) (q : QSort ua) where
  -- `NodesetLoader_sort`
  unfoldable pub loader_sort : NodesetLoader ua → Exec (NodesetLoader ua × Bool)
  loader_sort loader = deref loader.nodeset >>= λ nodeset.
      (let (sorted, status) = sort ua q nodeset in
        ret (record loader { nodeset = some sorted }, status))
