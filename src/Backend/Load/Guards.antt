-- ===== src/Backend/Load/Guards.antt =====
-- What `NodesetLoader_loadFile` does before it gives the server a node.
use open62541_nodeset_loader.Base.{
  ◌≡◌, refl, sym, ap, ◌∙◌, deref-some, if◌then◌else◌, ◌⊎◌, inl, inr, Bool, true, false, List, [],
  none, some, ret, >>=_ret, ret_injective, deref,
}
use open62541_nodeset_loader.Ua.{Ua}
use open62541_nodeset_loader.Nodeset.{Nodeset}
use open62541_nodeset_loader.Nodeset.Sort.{QSort, sort}
use open62541_nodeset_loader.Loader.{FileContext}
use open62541_nodeset_loader.Loader.Import.{
  Parser, NodesetLoader, FileHandler, Imported, import_file, loader_sort,
}
use open62541_nodeset_loader.Build.{for_each_node}
use open62541_nodeset_loader.Backend.{Server, AddNodeContext}
use open62541_nodeset_loader.Backend.AddNodes.{
  add_node_impl, add_all_refs, add_node_finish, add_nodes,
}
use open62541_nodeset_loader.Backend.Load.{
  Fc, context_of, add_sorted, sort_imported, load_nodes, load_with,
}
use open62541_nodeset_loader.Release.{Release, loader_delete}

-- What `NodesetLoader_new` returns.
abbrev pub no_loader : (ua : Ua) → NodesetLoader ua
no_loader ua = record { nodeset = none; log = [] }

module _ (ua : Ua) (S : Server ua) (q : QSort ua) where
  -- `addNodes` has no other result than true.
  pub add_nodes-true :
      (nodeset : Nodeset ua) (ctx after : AddNodeContext ua S) (status : Bool)
      → add_nodes ua S nodeset ctx ≡ ret (after, status)
      → status ≡ true
  unfolding add_nodes
  add_nodes-true nodeset ctx after status e =
      let (added, a, e1) =
        >>=_ret (for_each_node ua (add_node_impl ua S nodeset.heap) ctx nodeset) _ e in
      let (linked, b, e2) = >>=_ret (for_each_node ua (add_all_refs ua S) added.0 nodeset) _ e1 in
      let (finished, c, e3) =
        >>=_ret (for_each_node ua (add_node_finish ua S) linked.0 nodeset) _ e2 in
      cc e3

  -- All guards were passed: `addNodes` ran on the sorted nodeset that was read.
  pub record Added (loader : NodesetLoader ua) (ctx after : AddNodeContext ua S) : Type 0 where
    pub nodeset : Nodeset ua
    pub kept : loader.nodeset ≡ some nodeset
    pub sorted : (sort ua q nodeset).1 ≡ true
    pub added : add_nodes ua S (sort ua q nodeset).0 ctx ≡ ret (after, true)

  -- Some guard was not passed: the import or the sort returned false.
  abbrev pub Held : NodesetLoader ua → Bool → Type 0
  Held loader status =
      (status ≡ false)
      ⊎ ((nodeset : Nodeset ua) × (loader.nodeset ≡ some nodeset) × ((sort ua q nodeset).1 ≡ false))

  -- Either nothing was added, since a guard was not passed; or everything was asked for.
  abbrev pub Guarded :
      NodesetLoader ua → Bool → AddNodeContext ua S → AddNodeContext ua S → Bool → Type 0
  Guarded loader imported ctx after status =
      ((status ≡ false) × (after ≡ ctx) × Held loader imported)
      ⊎ ((status ≡ true) × (imported ≡ true) × Added loader ctx after)

  guard_sorted :
      (loader : NodesetLoader ua) (nodeset : Nodeset ua) (ctx after : AddNodeContext ua S)
      (finished status : Bool)
      → loader.nodeset ≡ some nodeset
      → (sort ua q nodeset).1 ≡ finished
      → add_sorted ua S (record loader { nodeset = some (sort ua q nodeset).0 }) finished ctx
        ≡ ret (after, status)
      → Guarded loader true ctx after status
  unfolding add_sorted
  guard_sorted loader nodeset ctx after false status k s e = inl (cc, cc, inr (nodeset, k, s))
  guard_sorted loader nodeset ctx after true status k s e =
      let all = add_nodes-true (sort ua q nodeset).0 ctx after status e in
      inr (
        all,
        refl,
        record {
          nodeset = nodeset;
          kept = k;
          sorted = s;
          added = e ∙ ap (λ b. ret (after, b)) all;
        },
      )

  guard_imported :
      (imported : Bool) (loader : NodesetLoader ua) (r : NodesetLoader ua × Bool)
      (ctx after : AddNodeContext ua S) (status : Bool)
      → (if imported then loader_sort ua q loader else ret (loader, false)) ≡ ret r
      → add_sorted ua S r.0 r.1 ctx ≡ ret (after, status)
      → Guarded loader imported ctx after status
  unfolding add_sorted loader_sort
  guard_imported false loader r ctx after status e h =
      let same : (loader, false) ≡ r = ret_injective e in
      let left : ret (ctx, false) ≡ ret (after, status) =
        ap (λ (s : NodesetLoader ua × Bool). add_sorted ua S s.0 s.1 ctx) same ∙ h in
      inl (cc left, cc left, inl refl)
  guard_imported true loader r ctx after status e h =
      let (nodeset, k, sorted) = >>=_ret (deref loader.nodeset) _ e in
      guard_sorted loader nodeset ctx after (sort ua q nodeset).1 status (deref-some k) refl (
        ap (λ (s : NodesetLoader ua × Bool). add_sorted ua S s.0 s.1 ctx) (ret_injective sorted)
        ∙ h)

module _ (ua : Ua) (S : Server ua) (q : QSort ua) (ext : FileContext ua) (parse : Parser) where
  -- What the steps before the deletions gave.
  pub record Steps (handler : FileHandler ua (Fc ua S q ext parse)) (loader : NodesetLoader ua)
      (after : AddNodeContext ua S) (status : Bool) : Type 0 where
    pub imported : Imported ua (Fc ua S q ext parse)
    pub ran :
        import_file ua (Fc ua S q ext parse) parse (no_loader ua) (some handler) ≡ ret imported
    pub ctx : AddNodeContext ua S
    pub context : context_of ua S q ext parse imported ≡ ret ctx
    pub finished : Bool
    pub sorted : sort_imported ua S q ext parse imported ≡ ret (loader, finished)
    pub added : add_sorted ua S loader finished ctx ≡ ret (after, status)

  pub load_nodes-Steps :
      (handler : FileHandler ua (Fc ua S q ext parse)) (loader : NodesetLoader ua)
      (after : AddNodeContext ua S) (status : Bool)
      → load_nodes ua S q ext parse handler ≡ ret (loader, after, status)
      → Steps handler loader after status
  unfolding load_nodes
  load_nodes-Steps handler loader after status e =
      let (imported, a, e1) =
        >>=_ret (import_file ua (Fc ua S q ext parse) parse (no_loader ua) (some handler)) _ e in
      let (ctx, b, e2) = >>=_ret (context_of ua S q ext parse imported) _ e1 in
      let (r, c, e3) = >>=_ret (sort_imported ua S q ext parse imported) _ e2 in
      let (added, d, e4) = >>=_ret (add_sorted ua S r.0 r.1 ctx) _ e3 in
      let same : (r.0, added.0, added.1) ≡ (loader, after, status) = ret_injective e4 in
      let kept = ap (λ (x : NodesetLoader ua × AddNodeContext ua S × Bool). x.0) same in
      record {
        imported = imported;
        ran = a;
        ctx = ctx;
        context = b;
        finished = r.1;
        sorted = c ∙ ap (λ l. ret (l, r.1)) kept;
        added =
            ap (λ l. add_sorted ua S l r.1 ctx) (sym kept)
            ∙ (d ∙ ap (λ (x : NodesetLoader ua × AddNodeContext ua S × Bool). ret (x.1, x.2)) same);
      }

  -- Where NodesetLoader_loadFile returns behind the set-up of its context: it returns false and has
  -- asked the server for no node if the import or the sort returned false; otherwise it has passed
  -- the sorted nodeset to addNodes, and returns true.
  pub load_with-Guarded :
      (handler : FileHandler ua (Fc ua S q ext parse)) (after : AddNodeContext ua S) (status : Bool)
      (released : List (Release ua.NodeId))
      → load_with ua S q ext parse handler ≡ ret (after, status, released)
      → (imported : Imported ua (Fc ua S q ext parse)) × (import_file ua
            (Fc ua S q ext parse)
            parse
            (record { nodeset = none; log = [] })
            (some handler)
          ≡ ret imported)
        × (ctx : AddNodeContext ua S) × (context_of ua S q ext parse imported ≡ ret ctx)
        × Guarded ua S q imported.loader imported.status ctx after status
  unfolding load_with sort_imported
  load_with-Guarded handler after status released e =
      let (loaded, a, e1) = >>=_ret (load_nodes ua S q ext parse handler) _ e in
      let (deleted, b, e2) = >>=_ret (loader_delete ua loaded.0) _ e1 in
      let same : (loaded.1, loaded.2, deleted) ≡ (after, status, released) = ret_injective e2 in
      let before : load_nodes ua S q ext parse handler ≡ ret (loaded.0, after, status) =
        a
        ∙ ap
            (λ (x : AddNodeContext ua S × Bool × List (Release ua.NodeId)).
              ret (loaded.0, x.0, x.1))
            same in
      let steps = load_nodes-Steps handler loaded.0 after status before in
      (
        steps.imported,
        steps.ran,
        steps.ctx,
        steps.context,
        guard_imported ua S q steps.imported.status steps.imported.loader (loaded.0, steps.finished)
            steps.ctx after status steps.sorted steps.added,
      )
