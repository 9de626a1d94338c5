-- ===== src/Loader/Reads/Sorted.antt =====
-- `NodesetLoader_importFile` and then `NodesetLoader_sort`: what becomes of every node.
use open62541_nodeset_loader.Base.{
  ◌+◌, ◌<◌, ◌≡◌, sym, ap, ◌∙◌, subst, Bool, true, Option, some, deref, deref-some, ret,
  ret_injective, >>=_ret, count, arith,
}
use open62541_nodeset_loader.Ua.{Ua}
use open62541_nodeset_loader.Container.{NodePtr, contents}
use open62541_nodeset_loader.Nodeset.{Nodeset}
use open62541_nodeset_loader.Nodeset.Sort.{QSort, sort}
use open62541_nodeset_loader.Nodeset.Sort.Conserve.{held}
use open62541_nodeset_loader.Nodeset.Sort.Acyclic.{instances}
use open62541_nodeset_loader.Nodeset.Sort.Result.{sort-items, sort-Ends}
use open62541_nodeset_loader.Nodeset.Sort.Once.{sorted_once}
use open62541_nodeset_loader.Build.Live.{live_below, live_below_one}
use open62541_nodeset_loader.Build.Keeps.{IsRead}
use open62541_nodeset_loader.Loader.{FileContext}
use open62541_nodeset_loader.Loader.Import.{
  Parser, NodesetLoader, FileHandler, Imported, import_file, loader_sort,
}
use open62541_nodeset_loader.Loader.Reads.Files.{OptionRead, IsFresh-IsRead, import_file-IsRead}

module _ (ua : Ua) (q : QSort ua) where
  -- `t` has every node of `s` once: in a container of `s` or in `sortedNodes`. With the result true
  -- the latter has all ObjectTypes, Objects, Methods and Variables.
  pub record SortsOnce (s t : Nodeset ua) (status : Bool) : Type 0 where
    pub each_once :
        (p : NodePtr) → held t.nodes p + count p (contents t.sorted_nodes) ≡ live_below s.next_ptr p
    pub all_instances :
        status ≡ true
        → (p : NodePtr) → 0 < instances s.nodes p
        → count p (contents t.sorted_nodes) ≡ 1

  pub IsRead-SortsOnce :
      (s : Nodeset ua) → IsRead ua s → SortsOnce s (sort ua q s).0 (sort ua q s).1
  IsRead-SortsOnce s h =
      let fresh = IsFresh-IsRead ua s h in
      record {
        each_once = λ p. sort-items ua q s fresh p ∙ h.classed p;
        all_instances = λ e.
            sorted_once ua q s fresh (λ p. omega (arith, h.classed p, live_below_one s.next_ptr p))
              ((sort-Ends ua q s fresh).0 e);
      }

  -- A nodeset that was imported, and what its sort left.
  pub record ImportSorts (imported sorted : NodesetLoader ua) (status : Bool) : Type 0 where
    pub read : Nodeset ua
    pub kept : imported.nodeset ≡ some read
    pub result : Nodeset ua
    pub left : sorted.nodeset ≡ some result
    pub once : SortsOnce read result status

  module _ (fc : FileContext ua) (parse : Parser) where
    -- An import into a loader without a nodeset, or with one that is being read, and then a sort: if
    -- both return, every address at which a node was made is once in `sortedNodes` or in the
    -- container of a class, and no other address is in any of them; if the sort returns true, every
    -- ObjectType, Object, Method and Variable of the import is in `sortedNodes` exactly once.
    pub import_file-loader_sort :
        (loader : NodesetLoader ua) (handler : Option (FileHandler ua fc))
        (imported : Imported ua fc) (sorted : NodesetLoader ua) (status : Bool)
        → OptionRead ua loader.nodeset
        → import_file ua fc parse loader handler ≡ ret imported
        → loader_sort ua q imported.loader ≡ ret (sorted, status)
        → ImportSorts imported.loader sorted status
    unfolding loader_sort
    import_file-loader_sort loader handler imported sorted status h e f =
        let (s, k, rest) = >>=_ret (deref imported.loader.nodeset) _ f in
        let kept = deref-some k in
        let same = ret_injective rest in
        let read : IsRead ua s =
          subst (OptionRead ua) kept (import_file-IsRead ua fc parse loader handler imported h e) in
        record {
          read = s;
          kept = kept;
          result = (sort ua q s).0;
          left = ap (λ (r : NodesetLoader ua × Bool). r.0.nodeset) (sym same);
          once =
              subst (SortsOnce s (sort ua q s).0) (ap (λ (r : NodesetLoader ua × Bool). r.1) same)
                (IsRead-SortsOnce s read);
        }
