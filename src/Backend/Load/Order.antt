-- ===== src/Backend/Load/Order.antt =====
-- `NodesetLoader_loadFile` from the file to the order in which the server gets the nodes.
use open62541_nodeset_loader.Base.{◌≡◌, subst, inl, inr, true, List, [], none, some, ret}
use open62541_nodeset_loader.Ua.{Ua}
use open62541_nodeset_loader.Container.{contents}
use open62541_nodeset_loader.Nodeset.{Nodeset}
use open62541_nodeset_loader.Nodeset.Sort.{QSort, sort}
use open62541_nodeset_loader.Nodeset.Sort.Invariant.{refs_of, IsDependencyOrder}
use open62541_nodeset_loader.Nodeset.Sort.Rounds.{AllPlaced}
use open62541_nodeset_loader.Nodeset.Sort.Result.{sort-IsDependencyOrder, sort-Ends}
use open62541_nodeset_loader.Build.Keeps.{IsRead}
use open62541_nodeset_loader.Loader.{FileContext}
use open62541_nodeset_loader.Loader.Import.{Parser, FileHandler, Imported, import_file}
use open62541_nodeset_loader.Loader.Reads.Files.{OptionRead, IsFresh-IsRead, import_file-IsRead}
use open62541_nodeset_loader.Loader.Reads.Sorted.{SortsOnce, IsRead-SortsOnce}
use open62541_nodeset_loader.Release.{Release}
use open62541_nodeset_loader.Backend.{Server, AddNodeContext}
use open62541_nodeset_loader.Backend.AddNodes.{add_nodes}
use open62541_nodeset_loader.Backend.Load.{Fc, load_with}
use open62541_nodeset_loader.Backend.Load.Guards.{load_with-Guarded}

module _ (ua : Ua) (S : Server ua) (q : QSort ua) (ext : FileContext ua) (parse : Parser) where
  -- The nodeset that a file gave, sorted and passed to the server.
  pub record Loads (handler : FileHandler ua (Fc ua S q ext parse)) (after : AddNodeContext ua S)
      : Type 0 where
    pub imported : Imported ua (Fc ua S q ext parse)
    pub ran :
        import_file ua
          (Fc ua S q ext parse)
          parse
          (record { nodeset = none; log = [] })
          (some handler)
        ≡ ret imported
    pub succeeded : imported.status ≡ true
    pub nodeset : Nodeset ua
    pub kept : imported.loader.nodeset ≡ some nodeset
    pub read : IsRead ua nodeset
    pub all_placed : AllPlaced ua (sort ua q nodeset).0
    pub ordered :
        IsDependencyOrder ua
          (refs_of ua (sort ua q nodeset).0)
          []
          (contents (sort ua q nodeset).0.sorted_nodes)
    pub once : SortsOnce ua q nodeset (sort ua q nodeset).0 true
    pub ctx : AddNodeContext ua S
    pub added : add_nodes ua S (sort ua q nodeset).0 ctx ≡ ret (after, true)

  -- If `NodesetLoader_loadFile` returns true behind the set-up of its context, the file was imported
  -- without an error, and what the import left was sorted and passed to `addNodes`: a nodeset with
  -- sound containers whose nodes have the structs of their classes; the sort has put all its
  -- ObjectTypes, Objects, Methods and Variables into `sortedNodes`, exactly once each and no node
  -- twice, where every node stands behind the nodes that it has to wait for.
  pub load_with-Loads :
      (handler : FileHandler ua (Fc ua S q ext parse)) (after : AddNodeContext ua S)
      (released : List (Release ua.NodeId))
      → load_with ua S q ext parse handler ≡ ret (after, true, released)
      → Loads handler after
  load_with-Loads handler after released e =
      let (imported, ran, ctx, c, guarded) =
        load_with-Guarded ua S q ext parse handler after true released e in
      elim guarded [
        | inl (refused, same, rest) ↦ absurd (cc refused)
        | inr (t, succeeded, a) ↦
            (let read : IsRead ua a.nodeset = subst (OptionRead ua) a.kept (
                import_file-IsRead ua (Fc ua S q ext parse) parse _ (some handler) imported tt
                  ran) in
              let fresh = IsFresh-IsRead ua a.nodeset read in
              record {
                imported = imported;
                ran = ran;
                succeeded = succeeded;
                nodeset = a.nodeset;
                kept = a.kept;
                read = read;
                all_placed = (sort-Ends ua q a.nodeset fresh).0 a.sorted;
                ordered = sort-IsDependencyOrder ua q a.nodeset fresh;
                once =
                    subst (SortsOnce ua q a.nodeset (sort ua q a.nodeset).0) a.sorted
                      (IsRead-SortsOnce ua q a.nodeset read);
                ctx = ctx;
                added = a.added;
              })
      ]
