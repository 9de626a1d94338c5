-- ===== src/Backend/Load/Files.antt =====
-- `NodesetLoader_loadFile` from the server that it gets to the one that it leaves.
use open62541_nodeset_loader.Base.{
  ℕ, ◌≡◌, refl, sym, ap, ◌∙◌, subst, Bool, true, false, List, Option, none, some, ret, >>=_ret,
  ret_pair_injective,
}
use open62541_nodeset_loader.Ua.{Ua}
use open62541_nodeset_loader.Nodeset.Sort.{QSort}
use open62541_nodeset_loader.Loader.{FileContext}
use open62541_nodeset_loader.Loader.Import.{Parser, FileHandler}
use open62541_nodeset_loader.Release.{Release}
use open62541_nodeset_loader.Backend.{Server, AddNodeContext}
use open62541_nodeset_loader.Backend.Namespaces.{add_node_context_init}
use open62541_nodeset_loader.Backend.Load.{Fc, load_with, load_file}
use open62541_nodeset_loader.Backend.Load.Order.{Loads, load_with-Loads}

module _ (ua : Ua) (S : Server ua) (q : QSort ua) (ext : FileContext ua) (parse : Parser) where
  -- The file handler of `NodesetLoader_loadFile`.
  abbrev pub handler_of :
      AddNodeContext ua S → Option (List ℕ) → ext.Data → FileHandler ua (Fc ua S q ext parse)
  handler_of ctx file ext_state = record {
    has_add_namespace = true;
    file = file;
    ns_mapping = ctx.ns_mapping;
    user_context = ctx;
    ext_state = ext_state;
  }

  -- A file was loaded into a server in the state `state`, which `next` is afterwards.
  pub record LoadsInto (fuel : ℕ) (file : Option (List ℕ)) (ext_state : ext.Data)
      (state next : S.State) : Type 0 where
    pub ctx : AddNodeContext ua S
    pub initialised : add_node_context_init ua S fuel state ≡ ret ctx
    pub final : AddNodeContext ua S
    pub loads : Loads ua S q ext parse (handler_of ctx file ext_state) final
    pub left : next ≡ final.server

  -- What is known by the result.
  abbrev pub Outcome :
      ℕ → Option S.State → Option (List ℕ) → ext.Data → Option S.State → Bool → Type 0
  Outcome fuel state file ext_state after true =
      (before : S.State) × (state ≡ some before)
      × (next : S.State) × (after ≡ some next)
      × LoadsInto fuel file ext_state before next
  Outcome fuel none file ext_state after false = after ≡ none
  Outcome fuel (some state) file ext_state after false = (next : S.State) × (after ≡ some next)

  by_status :
      (fuel : ℕ) (state : S.State) (file : Option (List ℕ)) (ext_state : ext.Data)
      (ctx final : AddNodeContext ua S) (released : List (Release ua.NodeId)) (status : Bool)
      → add_node_context_init ua S fuel state ≡ ret ctx
      → load_with ua S q ext parse (handler_of ctx file ext_state) ≡ ret (final, status, released)
      → Outcome fuel (some state) file ext_state (some final.server) status
  by_status fuel state file ext_state ctx final released true a b = (
    state,
    refl,
    final.server,
    refl,
    record {
      ctx = ctx;
      initialised = a;
      final = final;
      loads = load_with-Loads ua S q ext parse (handler_of ctx file ext_state) final released b;
      left = refl;
    },
  )
  by_status fuel state file ext_state ctx final released false a b = (final.server, refl)

  -- If `NodesetLoader_loadFile` returns true, there was a server, and the file was loaded into it:
  -- it was imported under the mapping that the set-up of the context made from the server's
  -- namespaces, and the nodes of the nodeset that it gave were sorted, each behind those that it
  -- has to wait for and none twice, all its ObjectTypes, Objects, Methods and Variables among them,
  -- and passed to `addNodes`. If it returns false for a server, there still is one.
  pub load_file-Outcome :
      (fuel : ℕ) (state : Option S.State) (file : Option (List ℕ)) (ext_state : ext.Data)
      (after : Option S.State) (status : Bool)
      → load_file ua S q ext parse fuel state file ext_state ≡ ret (after, status)
      → Outcome fuel state file ext_state after status
  unfolding load_file
  load_file-Outcome fuel none file ext_state after status e =
      let (same, told) = ret_pair_injective e in
      subst (Outcome fuel none file ext_state after) told (sym same)
  load_file-Outcome fuel (some state) file ext_state after status e =
      let (ctx, a, e1) = >>=_ret (add_node_context_init ua S fuel state) _ e in
      let (r, b, e2) = >>=_ret (load_with ua S q ext parse (handler_of ctx file ext_state)) _ e1 in
      let (same, told) = ret_pair_injective e2 in
      subst (λ o. Outcome fuel (some state) file ext_state o status) same
        (by_status fuel state file ext_state ctx r.0 r.2 status a
          (b ∙ ap (λ t. ret (r.0, t, r.2)) told))
