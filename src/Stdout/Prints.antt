-- ===== src/Stdout/Prints.antt =====
-- What the printing program prints, and when it fails.
use mathlib.Core.List.{append-nil, append_assoc}
use open62541_nodeset_loader.Base.{
  ℕ, ◌≡◌, refl, sym, ap, ◌∙◌, subst, Bool, true, false, List, [], ◌∷◌, ◌++◌, map, Option, none,
  some, Exec, fault, ret, ◌>>=◌, deref, deref-some, ret_injective, ret_pair_injective, >>=_ret,
}
use open62541_nodeset_loader.Ua.{Text, NamespaceMapping, Ua}
use open62541_nodeset_loader.Container.{contents}
use open62541_nodeset_loader.Node.{Node}
use open62541_nodeset_loader.Nodeset.{Nodeset}
use open62541_nodeset_loader.Nodeset.Sort.{QSort, sort}
use open62541_nodeset_loader.Nodeset.Sort.Invariant.{refs_of, IsDependencyOrder}
use open62541_nodeset_loader.Nodeset.Sort.Result.{sort-IsDependencyOrder}
use open62541_nodeset_loader.Build.Keeps.{IsRead}
use open62541_nodeset_loader.Build.{visit, for_each_node}
use open62541_nodeset_loader.Loader.Import.{Parser, NodesetLoader, loader_sort}
use open62541_nodeset_loader.Loader.Reads.Files.{OptionRead, IsFresh-IsRead}
use open62541_nodeset_loader.Loader.Reads.Sorted.{SortsOnce, IsRead-SortsOnce}
use open62541_nodeset_loader.Release.{loader_new, loader_delete}
use open62541_nodeset_loader.Stdout.{
  Argument, node_text, dump_node, refusal, print_nodes, print_loaded, empty_mapping, import_files,
  main,
}
use open62541_nodeset_loader.Stdout.Imports.{
  Imports, Refused, Outcome, import_files-Outcome, Imports-OptionRead,
}

module _ (ua : Ua) (print_node_id : ua.NodeId → Text) where
  -- The texts of nodes one after the other.
  unfoldable pub all_text : List (Node ua.NodeId) → Exec Text
  all_text [] = ret []
  all_text (n ∷ nodes) = do
    text ← node_text ua print_node_id n
    others ← all_text nodes
    ret (text ++ others)

  abbrev behind : Text → Exec Text → Exec (Text × Bool)
  behind printed e = e >>= λ text. ret (printed ++ text, true)

  abbrev go_on : List (Node ua.NodeId) → Text × Bool → Exec (Text × Bool)
  go_on nodes r = elim r.1 [
    | true ↦ visit ua (dump_node ua print_node_id) r.0 nodes
    | false ↦ ret (r.0, false)
  ]

  append_later :
      (printed text : Text) (others : Exec Text)
      → behind (printed ++ text) others ≡ behind printed (others >>= λ rest. ret (text ++ rest))
  append_later printed text fault = refl
  append_later printed text (ret rest) =
      ap (λ all. ret (all, true)) (append_assoc printed text rest)

  -- One node, by what its text is.
  visit_text :
      (nodes : List (Node ua.NodeId)) (printed : Text) (text : Exec Text)
      → ((longer : Text)
          → visit ua (dump_node ua print_node_id) longer nodes ≡ behind longer (all_text nodes))
      → (behind printed text >>= go_on nodes)
        ≡ behind printed (text >>= λ t. all_text nodes >>= λ rest. ret (t ++ rest))
  visit_text nodes printed fault h = refl
  visit_text nodes printed (ret text) h =
      h (printed ++ text) ∙ append_later printed text (all_text nodes)

  visit-all_text :
      (nodes : List (Node ua.NodeId)) (printed : Text)
      → visit ua (dump_node ua print_node_id) printed nodes ≡ behind printed (all_text nodes)
  unfolding visit dump_node all_text
  visit-all_text [] printed = ap (λ all. ret (all, true)) (sym (append-nil printed))
  visit-all_text (n ∷ nodes) printed =
      visit_text nodes printed (node_text ua print_node_id n)
        (λ longer. visit-all_text nodes longer)

module _ (ua : Ua) (print_node_id : ua.NodeId → Text) (parse : Parser) (q : QSort ua) where
  -- The files of all arguments were imported, and what they gave was sorted and printed.
  pub record Printed (loader : NodesetLoader ua) (arguments : List Argument) (printed : Text)
      : Type 0 where
    pub last : NodesetLoader ua
    pub final : NamespaceMapping
    pub imports : Imports ua parse loader empty_mapping arguments last final
    pub nodeset : Nodeset ua
    pub kept : last.nodeset ≡ some nodeset
    pub read : IsRead ua nodeset
    pub once : SortsOnce ua q nodeset (sort ua q nodeset).0 (sort ua q nodeset).1
    pub ordered :
        IsDependencyOrder ua
          (refs_of ua (sort ua q nodeset).0)
          []
          (contents (sort ua q nodeset).0.sorted_nodes)
    pub texts :
        all_text ua print_node_id
          (map (sort ua q nodeset).0.heap (contents (sort ua q nodeset).0.sorted_nodes))
        ≡ ret printed

  -- How the program ends, by its exit code.
  pub data Ends (loader : NodesetLoader ua) (arguments : List Argument) (printed : Text)
      : ℕ → Type 0 where
    refused :
        (path : Text)
        → Refused ua parse loader empty_mapping arguments path
        → printed ≡ refusal path
        → Ends loader arguments printed 1
    shown : Printed loader arguments printed → Ends loader arguments printed 0

  print_loaded-Ends :
      (loader last : NodesetLoader ua) (arguments : List Argument) (refused : Option Text)
      (printed : Text) (code : ℕ)
      → OptionRead ua loader.nodeset
      → Outcome ua parse loader empty_mapping arguments last refused
      → print_loaded ua print_node_id parse q last refused ≡ ret (printed, code)
      → Ends loader arguments printed code
  unfolding print_loaded print_nodes loader_sort for_each_node
  print_loaded-Ends loader last arguments (some path) printed code h o e =
      let (shows, ends) = ret_pair_injective e in
      subst (Ends loader arguments printed) ends (refused path o (sym shows))
  print_loaded-Ends loader last arguments none printed code h (final, imports) e =
      let (loaded, a, e1) = >>=_ret (loader_sort ua q last) _ e in
      let (s, k, e2) = >>=_ret (deref last.nodeset) _ a in
      let t = sort ua q s in
      let (out, b, e3) = >>=_ret (print_nodes ua print_node_id loaded.0) _ e1 in
      let (released, c, e4) = >>=_ret (loader_delete ua loaded.0) _ e3 in
      let nodes = map t.0.heap (contents t.0.sorted_nodes) in
      let kept = deref-some k in
      let read : IsRead ua s = subst (OptionRead ua) kept (Imports-OptionRead ua parse imports h) in
      let sorted : (record last { nodeset = some t.0 }, t.1) ≡ loaded = ret_injective e2 in
      let visited : visit ua (dump_node ua print_node_id) [] nodes ≡ ret out =
        ap (λ (r : NodesetLoader ua × Bool). print_nodes ua print_node_id r.0) sorted ∙ b in
      let (text, d, e5) =
        >>=_ret (all_text ua print_node_id nodes) _
          (sym (visit-all_text ua print_node_id nodes []) ∙ visited) in
      let (whole, all) = ret_pair_injective e5 in
      let (shows, ends) = ret_pair_injective e4 in
      subst (Ends loader arguments printed) ends (
        shown (record {
          last = last;
          final = final;
          imports = imports;
          nodeset = s;
          kept = kept;
          read = read;
          once = IsRead-SortsOnce ua q s read;
          ordered = sort-IsDependencyOrder ua q s (IsFresh-IsRead ua s read);
          texts = d ∙ ap ret (whole ∙ shows);
        }))

  -- If the program returns for one or more files, then either its exit code is 1, it has printed
  -- that the file of an argument could not be loaded, and the import of that file failed behind
  -- imports that did not; or its code is 0, all files were imported into one nodeset, and it has
  -- printed the texts of the nodes in `sortedNodes` after the sort of that nodeset, in their order:
  -- every node stands behind the nodes that it has to wait for, none stands there twice, and if
  -- the sort succeeded all ObjectTypes, Objects, Methods and Variables stand there.
  pub main-Ends :
      (argument : Argument) (rest : List Argument) (printed : Text) (code : ℕ)
      → main ua print_node_id parse q (argument ∷ rest) ≡ ret (printed, code)
      → Ends (record { nodeset = none; log = [] }) (argument ∷ rest) printed code
  unfolding main loader_new
  main-Ends argument rest printed code e =
      let (r, a, e1) =
        >>=_ret
          (import_files ua parse (record { nodeset = none; log = [] }) empty_mapping
            (argument ∷ rest))
          _ e in
      print_loaded-Ends _ r.0 (argument ∷ rest) r.1 printed code tt
        (import_files-Outcome ua parse (argument ∷ rest) _ empty_mapping r.0 r.1 a) e1
