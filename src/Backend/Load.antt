-- ===== src/Backend/Load.antt =====
-- `NodesetLoader_loadFile` of backends/open62541/src/import.c.
pub mod Guards
pub mod Order
pub mod Files
use open62541_nodeset_loader.Base.{
  ℕ, Bool, true, false, List, [], ◌∷◌, Option, none, some, if◌then◌else◌, Exec, fault, ret, ◌>>=◌,
  deref,
}
use open62541_nodeset_loader.Ua.{Ua}
use open62541_nodeset_loader.Nodeset.{Nodeset}
use open62541_nodeset_loader.Nodeset.Sort.{QSort}
use open62541_nodeset_loader.Loader.{FileContext}
use open62541_nodeset_loader.Loader.Import.{
  Parser, NodesetLoader, FileHandler, Imported, import_file, loader_sort,
}
use open62541_nodeset_loader.Release.{Release, loader_delete}
use open62541_nodeset_loader.Backend.{Server, AddNodeContext}
use open62541_nodeset_loader.Backend.Namespaces.{add_namespaces, add_node_context_init}
use open62541_nodeset_loader.Backend.AddNodes.{add_nodes}

module _ (ua : Ua) (S : Server ua) where
  -- The file context of the backend: `userContext` is the `AddNodeContext`, whose mapping is the
  -- very one that the loader uses. The extension interface is that of `ext`.
  abbrev pub backend_fc : FileContext ua → FileContext ua
  backend_fc ext = record {
    UserContext = AddNodeContext ua S;
    add_namespace = λ uri ctx mapping.
        add_namespaces ua S (uri ∷ []) (record ctx { ns_mapping = mapping }) >>= λ next.
        ret (next, next.ns_mapping);
    ext_if = ext.ext_if;
    Data = ext.Data;
    new_extension = ext.new_extension;
    start = ext.start;
    end = ext.end;
    finish = ext.finish;
  }

  -- `if(status) status = addNodes(loader, &ctx)`
  unfoldable pub add_sorted :
      NodesetLoader ua → Bool → AddNodeContext ua S → Exec (AddNodeContext ua S × Bool)
  add_sorted loader false ctx = ret (ctx, false)
  add_sorted loader true ctx = deref loader.nodeset >>= λ nodeset. add_nodes ua S nodeset ctx

module _ (ua : Ua) (S : Server ua) (q : QSort ua) (ext : FileContext ua) (parse : Parser) where
  abbrev pub Fc : FileContext ua
  Fc = backend_fc ua S ext

  -- The context after the import, with the mapping as the loader left it.
  unfoldable pub context_of : Imported ua Fc → Exec (AddNodeContext ua S)
  context_of imported = deref imported.handler >>= λ handler.
      ret (record (handler.user_context) { ns_mapping = handler.ns_mapping })

  -- `if(status) status = NodesetLoader_sort(loader)`
  unfoldable pub sort_imported : Imported ua Fc → Exec (NodesetLoader ua × Bool)
  sort_imported imported =
      if imported.status then loader_sort ua q imported.loader else ret (imported.loader, false)

  -- The steps before the deletions, with the loader that they leave.
  unfoldable pub load_nodes :
      FileHandler ua Fc → Exec (NodesetLoader ua × AddNodeContext ua S × Bool)
  unfolding context_of sort_imported add_sorted
  load_nodes handler = do
    imported ← import_file ua Fc parse (record { nodeset = none; log = [] }) (some handler)
    ctx ← context_of imported
    (loader, status) ← sort_imported imported
    (after, done) ← add_sorted ua S loader status ctx
    ret (loader, after, done)

  -- The third result is what `NodesetLoader_delete(loader)` gives back.
  unfoldable pub load_with :
      FileHandler ua Fc → Exec (AddNodeContext ua S × Bool × List (Release ua.NodeId))
  unfolding load_nodes
  load_with handler = do
    (loader, after, status) ← load_nodes handler
    released ← loader_delete ua loader
    ret (after, status, released)

  -- `NodesetLoader_loadFile`: the server may be NULL, the file may not open. `fuel` bounds the
  -- rounds over the namespaces that the server has.
  unfoldable pub load_file :
      ℕ → Option S.State → Option (List ℕ) → ext.Data → Exec (Option S.State × Bool)
  unfolding load_with
  load_file fuel none file ext_state = ret (none, false)
  load_file fuel (some state) file ext_state = do
    ctx ← add_node_context_init ua S fuel state
    (after, status, released) ← load_with (record {
      has_add_namespace = true;
      file = file;
      ns_mapping = ctx.ns_mapping;
      user_context = ctx;
      ext_state = ext_state;
    })
    ret (some after.server, status)
