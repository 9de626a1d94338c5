-- ===== src/Loader/Reads/Files.antt =====
-- A nodeset that was imported can be sorted.
use open62541_nodeset_loader.Base.{
  ℕ, ◌<◌, ◌≡◌, refl, arith, List, [], ◌∷◌, ◌++◌, Option, none, some, Bool-cases, inl, inr, ret,
  Ensures, Ensures-ret, Ensures-bind, Ensures-if, Ensures-case, Ensures-value,
}
use open62541_nodeset_loader.Ua.{NamespaceMapping, Ua}
use open62541_nodeset_loader.Container.{init}
use open62541_nodeset_loader.Container.Laws.{init-IsValid}
use open62541_nodeset_loader.Node.{NodeClass, node_new, zeroed}
use open62541_nodeset_loader.Nodeset.{Nodeset, nodeset_new, initial_room}
use open62541_nodeset_loader.Nodeset.Sort.Result.{IsFresh}
use open62541_nodeset_loader.Build.Keeps.{IsRead, IsRead-Same}
use open62541_nodeset_loader.Loader.{FileContext}
use open62541_nodeset_loader.Loader.Run.{new_ctx, handle_all}
use open62541_nodeset_loader.Loader.Import.{
  Parser, NodesetLoader, FileHandler, Imported, nodeset_of, parser_run, import_with, import_file,
}
use open62541_nodeset_loader.Loader.Reads.{Reads}
use open62541_nodeset_loader.Loader.Reads.Stops.{handle_all-Reading}

module _ (ua : Ua) where
  some_room : (c : NodeClass) → 0 < initial_room c
  some_room c = ground arith

  nodeset_new-IsRead : (mapping : NamespaceMapping) → IsRead ua (nodeset_new ua mapping)
  unfolding nodeset_new
  nodeset_new-IsRead mapping = record {
    containers = λ c. init-IsValid (initial_room c) (some_room c);
    all_nodes = init-IsValid 10000 (omega arith);
    sorted_nodes = init-IsValid 10000 (omega arith);
    nothing_sorted = unfold init in refl;
    unsorted = λ p. unfold node_new zeroed in (refl, refl);
    live = λ p. unfold init in ground arith;
    classed = λ p. unfold init in ground arith;
    next_live = omega arith;
  }

  pub IsFresh-IsRead : (s : Nodeset ua) → IsRead ua s → IsFresh ua s
  IsFresh-IsRead s h = record {
    containers = h.containers;
    all_nodes = h.all_nodes;
    sorted_nodes = h.sorted_nodes;
    nothing_sorted = h.nothing_sorted;
    nothing_done = λ p. (h.unsorted p).0;
  }

  -- The loader has no nodeset yet, or one that is being read.
  abbrev pub OptionRead : Option (Nodeset ua) → Type 0
  OptionRead none = Unit {0}
  OptionRead (some s) = IsRead ua s

  nodeset_or_new :
      (o : Option (Nodeset ua)) (mapping : NamespaceMapping)
      → OptionRead o
      → IsRead ua (elim o [ none ↦ nodeset_new ua mapping | some s ↦ s ])
  nodeset_or_new none mapping h = nodeset_new-IsRead mapping
  nodeset_or_new (some s) mapping h = h

module _ (ua : Ua) (fc : FileContext ua) (parse : Parser) where
  abbrev Good : Imported ua fc → Type 0
  Good imported = OptionRead ua imported.loader.nodeset

  nodeset_of-IsRead :
      (loader : NodesetLoader ua) (handler : FileHandler ua fc)
      → OptionRead ua loader.nodeset
      → IsRead ua (nodeset_of ua fc parse loader handler)
  unfolding nodeset_of
  nodeset_of-IsRead loader handler h = nodeset_or_new ua loader.nodeset handler.ns_mapping h

  parser_run-IsRead :
      (loader : NodesetLoader ua) (handler : FileHandler ua fc) (bytes : List ℕ) (s : Nodeset ua)
      → IsRead ua s
      → Ensures Good (parser_run ua fc parse loader handler bytes s)
  unfolding parser_run
  parser_run-IsRead loader handler bytes s h =
      Ensures-bind (Reads ua fc) Good
        (handle_all ua fc (parse bytes).0 (
          new_ctx ua fc (record s { ns_mapping = handler.ns_mapping }) handler.user_context
            handler.ext_state (bytes ++ 0 ∷ [])))
        _
        (handle_all-Reading ua fc (parse bytes).0 _ (
          unfold new_ctx in
          IsRead-Same ua
            (record {
              heap = refl;
              nodes = refl;
              all_nodes = refl;
              sorted_nodes = refl;
              next_ptr = refl;
            })
            h))
        λ last k. elim (Bool-cases (parse bytes).1.negative) [
          | inl e ↦ rw e (Ensures-ret Good _ k)
          | inr e ↦ rw e (Ensures-ret Good _ k)
        ]

  import_with-IsRead :
      (loader : NodesetLoader ua) (handler : FileHandler ua fc)
      → OptionRead ua loader.nodeset
      → Ensures Good (import_with ua fc parse loader handler)
  unfolding import_with
  import_with-IsRead loader handler h =
      let read = nodeset_of-IsRead loader handler h in
      Ensures-if Good handler.has_add_namespace _ _
        (Ensures-case Good handler.file
          (λ bytes.
            parser_run ua fc parse loader handler bytes (nodeset_of ua fc parse loader handler))
          _
          (λ bytes.
            parser_run-IsRead loader handler bytes (nodeset_of ua fc parse loader handler) read)
          (Ensures-ret Good _ read))
        (Ensures-ret Good _ h)

  import_file-Ensures :
      (loader : NodesetLoader ua) (handler : Option (FileHandler ua fc))
      → OptionRead ua loader.nodeset
      → Ensures Good (import_file ua fc parse loader handler)
  unfolding import_file
  import_file-Ensures loader none h = Ensures-ret Good _ h
  import_file-Ensures loader (some handler) h = import_with-IsRead loader handler h

  -- An import into a loader without a nodeset, or with one that is being read, leaves a loader of
  -- this kind if it returns, whatever events come and whether it succeeds or not: the containers
  -- are sound, nothing is sorted, every node has the struct of its class, and the addresses in
  -- `allNodes` and those in the containers of the classes are the ones of the nodes that were made,
  -- once each.
  pub import_file-IsRead :
      (loader : NodesetLoader ua) (handler : Option (FileHandler ua fc)) (imported : Imported ua fc)
      → OptionRead ua loader.nodeset
      → import_file ua fc parse loader handler ≡ ret imported
      → OptionRead ua imported.loader.nodeset
  import_file-IsRead loader handler imported h e =
      Ensures-value Good (import_file ua fc parse loader handler) imported
        (import_file-Ensures loader handler h) e
