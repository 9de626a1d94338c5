-- ===== src/Stdout/Imports.antt =====
-- The loop over the arguments of the printing program.
use open62541_nodeset_loader.Base.{
  ◌≡◌, refl, sym, ap, subst, ◌⊎◌, inl, inr, Bool, true, false, List, [], ◌∷◌, ◌++◌, Option, none,
  some, Exec, ret, ret_injective, >>=_ret,
}
use open62541_nodeset_loader.Ua.{Text, NamespaceMapping, Ua}
use open62541_nodeset_loader.Loader.Import.{Parser, NodesetLoader, Imported, import_file}
use open62541_nodeset_loader.Loader.Reads.Files.{OptionRead, import_file-IsRead}
use open62541_nodeset_loader.Stdout.{Argument, stdout_fc, handler_for, mapping_of, import_files}

module _ (ua : Ua) (parse : Parser) where
  -- The files of these arguments were imported one after the other.
  pub data Imports
      : NodesetLoader ua
        → NamespaceMapping
        → List Argument
        → NodesetLoader ua
        → NamespaceMapping
        → Type 0 where
    here :
        (loader : NodesetLoader ua) (mapping : NamespaceMapping)
        → Imports loader mapping [] loader mapping
    next :
        {loader last : NodesetLoader ua} {mapping final : NamespaceMapping} {argument : Argument}
        {rest : List Argument} (imported : Imported ua (stdout_fc ua))
        → import_file ua (stdout_fc ua) parse loader (some (handler_for ua mapping argument))
          ≡ ret imported
        → imported.status ≡ true
        → Imports imported.loader (mapping_of ua mapping imported) rest last final
        → Imports loader mapping (argument ∷ rest) last final

  -- An argument was refused behind others whose files were imported.
  pub record Refused (loader : NodesetLoader ua) (mapping : NamespaceMapping)
      (arguments : List Argument) (path : Text) : Type 0 where
    pub before : List Argument
    pub argument : Argument
    pub after : List Argument
    pub split : arguments ≡ before ++ argument ∷ after
    pub reached : NodesetLoader ua
    pub mapped : NamespaceMapping
    pub imports : Imports loader mapping before reached mapped
    pub imported : Imported ua (stdout_fc ua)
    pub ran :
        import_file ua (stdout_fc ua) parse reached (some (handler_for ua mapped argument))
        ≡ ret imported
    pub status : imported.status ≡ false
    pub named : path ≡ argument.path

  abbrev pub Outcome :
      NodesetLoader ua → NamespaceMapping → List Argument → NodesetLoader ua → Option Text → Type 0
  Outcome loader mapping arguments last none =
      (final : NamespaceMapping) × Imports loader mapping arguments last final
  Outcome loader mapping arguments last (some path) = Refused loader mapping arguments path

  Outcome-next :
      (loader : NodesetLoader ua) (mapping : NamespaceMapping) (argument : Argument)
      (rest : List Argument) (last : NodesetLoader ua) (refused : Option Text)
      (imported : Imported ua (stdout_fc ua))
      → import_file ua (stdout_fc ua) parse loader (some (handler_for ua mapping argument))
        ≡ ret imported
      → imported.status ≡ true
      → Outcome imported.loader (mapping_of ua mapping imported) rest last refused
      → Outcome loader mapping (argument ∷ rest) last refused
  Outcome-next loader mapping argument rest last none imported e s (final, r) =
      (final, next imported e s r)
  Outcome-next loader mapping argument rest last (some path) imported e s r = record {
    before = argument ∷ r.before;
    argument = r.argument;
    after = r.after;
    split = ap (λ l. argument ∷ l) r.split;
    reached = r.reached;
    mapped = r.mapped;
    imports = next imported e s r.imports;
    imported = r.imported;
    ran = r.ran;
    status = r.status;
    named = r.named;
  }

  by_status :
      (arguments : List Argument) (imported : Imported ua (stdout_fc ua))
      (mapping : NamespaceMapping) (path : Text) (last : NodesetLoader ua) (refused : Option Text)
      (b : Bool)
      → ◌≡◌ {A = Exec (NodesetLoader ua × Option Text)}
          (elim b [
            | true ↦ import_files ua parse imported.loader mapping arguments
            | false ↦ ret (imported.loader, some path)
          ])
          (ret (last, refused))
      → ((b ≡ true)
          × (import_files ua parse imported.loader mapping arguments ≡ ret (last, refused)))
        ⊎ ((b ≡ false) × (refused ≡ some path))
  by_status arguments imported mapping path last refused true e = inl (refl, e)
  by_status arguments imported mapping path last refused false e =
      inr (refl, ap (λ (r : NodesetLoader ua × Option Text). r.1) (sym (ret_injective e)))

  pub import_files-Outcome :
      (arguments : List Argument) (loader : NodesetLoader ua) (mapping : NamespaceMapping)
      (last : NodesetLoader ua) (refused : Option Text)
      → import_files ua parse loader mapping arguments ≡ ret (last, refused)
      → Outcome loader mapping arguments last refused
  unfolding import_files
  import_files-Outcome [] loader mapping last refused e =
      subst (λ (r : NodesetLoader ua × Option Text). Outcome loader mapping [] r.0 r.1)
        (ret_injective e) (mapping, here loader mapping)
  import_files-Outcome (argument ∷ rest) loader mapping last refused e =
      let (imported, a, e1) =
        >>=_ret
          (import_file ua (stdout_fc ua) parse loader (some (handler_for ua mapping argument))) _
          e in
      let mapping1 = mapping_of ua mapping imported in
      elim (by_status rest imported mapping1 argument.path last refused imported.status e1) [
        | inl (s, f) ↦
            Outcome-next loader mapping argument rest last refused imported a s
              (import_files-Outcome rest imported.loader mapping1 last refused f)
        | inr (s, named) ↦
            subst (λ r. Outcome loader mapping (argument ∷ rest) last r) (sym named)
              (record {
                before = [];
                argument = argument;
                after = rest;
                split = refl;
                reached = loader;
                mapped = mapping;
                imports = here loader mapping;
                imported = imported;
                ran = a;
                status = s;
                named = refl;
              })
      ]

  -- The loader stays one that reads.
  pub Imports-OptionRead :
      {loader last : NodesetLoader ua} {mapping final : NamespaceMapping}
      {arguments : List Argument}
      → Imports loader mapping arguments last final
      → OptionRead ua loader.nodeset
      → OptionRead ua last.nodeset
  Imports-OptionRead (here loader mapping) h = h
  Imports-OptionRead (next imported e s r) h =
      Imports-OptionRead r (import_file-IsRead ua (stdout_fc ua) parse _ _ imported h e)
