-- ===== src/Examples/Files.antt =====
-- The loop of the example programs over their arguments, and `main` of iterate.c.
use open62541_nodeset_loader.Base.{
  ℕ, ◌≡◌, refl, ap, ◌∙◌, subst, Bool, true, false, List, [], ◌∷◌, ◌++◌, Option, none, some,
  if◌then◌else◌, Exec, ret, ◌>>=◌, deref, deref-some, >>=_ret, ret_pair_injective,
  ret_triple_injective,
}
use open62541_nodeset_loader.Ua.{Ua, Text}
use open62541_nodeset_loader.Nodeset.Sort.{QSort}
use open62541_nodeset_loader.Loader.Import.{Parser}
use open62541_nodeset_loader.Backend.{Server}
use open62541_nodeset_loader.Backend.Load.{load_file}
use open62541_nodeset_loader.Backend.Load.Files.{LoadsInto, load_file-Outcome}
use open62541_nodeset_loader.Examples.Iterate.{Shows, iterate_shown}
use open62541_nodeset_loader.Examples.{
  no_extension, Browse, iterate, load_files, refusal, iterate_main,
}

module _ (ua : Ua) (S : Server ua) (q : QSort ua) (parse : Parser) (fuel : ℕ) where
  -- Files were loaded one after the other, each into the server that the ones before it left.
  pub data LoadsAll : List (Option (List ℕ)) → S.State → S.State → Type 0 where
    done : (state : S.State) → LoadsAll [] state state
    step :
        {file : Option (List ℕ)} {rest : List (Option (List ℕ))} {state next last : S.State}
        → LoadsInto ua S q (no_extension ua) parse fuel file tt state next
        → LoadsAll rest next last
        → LoadsAll (file ∷ rest) state last

  -- A file was refused behind others that were loaded.
  pub record Refuses (files : List (Option (List ℕ))) (state last : S.State) : Type 0 where
    pub before : List (Option (List ℕ))
    pub file : Option (List ℕ)
    pub after : List (Option (List ℕ))
    pub split : files ≡ before ++ file ∷ after
    pub reached : S.State
    pub loads : LoadsAll before state reached
    pub refused :
        load_file ua S q (no_extension ua) parse fuel (some reached) file tt
        ≡ ret (some last, false)

  abbrev pub Ends : List (Option (List ℕ)) → S.State → S.State → Bool → Type 0
  Ends files state last true = LoadsAll files state last
  Ends files state last false = Refuses files state last

  step-Ends :
      (file : Option (List ℕ)) (rest : List (Option (List ℕ))) (state next last : S.State)
      (status : Bool)
      → LoadsInto ua S q (no_extension ua) parse fuel file tt state next
      → Ends rest next last status
      → Ends (file ∷ rest) state last status
  step-Ends file rest state next last true l r = step l r
  step-Ends file rest state next last false l r = record {
    before = file ∷ r.before;
    file = r.file;
    after = r.after;
    split = ap (λ fs. file ∷ fs) r.split;
    reached = r.reached;
    loads = step l r.loads;
    refused = r.refused;
  }

  -- One file, by the result of its load.
  by_loaded :
      (file : Option (List ℕ)) (rest : List (Option (List ℕ))) (state next last : S.State)
      (loaded status : Bool)
      → load_file ua S q (no_extension ua) parse fuel (some state) file tt ≡ ret (some next, loaded)
      → ((last : S.State) (status : Bool)
          → load_files ua S q parse fuel rest next ≡ ret (last, status)
          → Ends rest next last status)
      → ◌≡◌ {A = Exec (S.State × Bool)}
          (if loaded then load_files ua S q parse fuel rest next else ret (next, false))
          (ret (last, status))
      → Ends (file ∷ rest) state last status
  by_loaded file rest state next last false status a h e =
      let (same, told) = ret_pair_injective e in
      subst (Ends (file ∷ rest) state last) told (record {
        before = [];
        file = file;
        after = rest;
        split = refl;
        reached = state;
        loads = done state;
        refused = a ∙ ap (λ x. ret (some x, false)) same;
      })
  by_loaded file rest state next last true status a h e =
      let (before, same, next1, same1, loads) =
        load_file-Outcome ua S q (no_extension ua) parse fuel (some state) file tt (some next) true
          a in
      let from : before ≡ state = cc same in
      let to : next1 ≡ next = cc same1 in
      step-Ends file rest state next last status
        (subst (λ x. LoadsInto ua S q (no_extension ua) parse fuel file tt x next) from
          (subst (LoadsInto ua S q (no_extension ua) parse fuel file tt before) to loads))
        (h last status e)

  -- If the loop ends with true, all files were loaded in their order, each into the server that the
  -- ones before it left; if it ends with false, a file was refused behind others that were loaded,
  -- and those behind it were not tried.
  pub load_files-Ends :
      (files : List (Option (List ℕ))) (state last : S.State) (status : Bool)
      → load_files ua S q parse fuel files state ≡ ret (last, status)
      → Ends files state last status
  unfolding load_files
  load_files-Ends [] state last status e =
      let (same, told) = ret_pair_injective e in
      subst (Ends [] state last) told (subst (LoadsAll [] state) same (done state))
  load_files-Ends (file ∷ rest) state last status e =
      let (r, a, e1) =
        >>=_ret (load_file ua S q (no_extension ua) parse fuel (some state) file tt) _ e in
      let (next, k, e2) = >>=_ret (deref r.0) _ e1 in
      by_loaded file rest state next last r.1 status (a ∙ ap (λ o. ret (o, r.1)) (deref-some k))
        (λ last1 status1. load_files-Ends rest next last1 status1) e2

  -- `main` of iterate.c up to the run of the server: all files are loaded, and it has printed the
  -- hierarchies of the two types of references; or it exits with 1.
  pub data MainEnds (browse : S.State → Browse ua) (files : List (Option (List ℕ)))
      (state last : S.State) : Text → Option ℕ → Type 0 where
    exits :
        Refuses files state last → MainEnds browse files state last (refusal ua S q parse) (some 1)
    shows :
        {hierarchical others : Text}
        → LoadsAll files state last
        → Shows ua (browse last) (ua.numeric 0 33) hierarchical
        → Shows ua (browse last) (ua.numeric 0 32) others
        → MainEnds browse files state last (hierarchical ++ others) none

  after_files :
      (depth : ℕ) (browse : S.State → Browse ua) (files : List (Option (List ℕ)))
      (state reached last : S.State) (loaded : Bool) (printed : Text) (code : Option ℕ)
      → Ends files state reached loaded
      → ◌≡◌ {A = Exec (S.State × Text × Option ℕ)}
          (if loaded
            then (iterate ua depth (browse reached) (ua.numeric 0 33) >>= λ hierarchical.
                iterate ua depth (browse reached) (ua.numeric 0 32) >>= λ others.
                ret (reached, hierarchical ++ others, none))
            else ret (reached, refusal ua S q parse, some 1))
          (ret (last, printed, code))
      → MainEnds browse files state last printed code
  after_files depth browse files state reached last false printed code ends e =
      let (same, shown, exit) = ret_triple_injective e in
      subst (MainEnds browse files state last printed) exit (
        subst (λ t. MainEnds browse files state last t (some 1)) shown
          (exits (subst (Refuses files state) same ends)))
  after_files depth browse files state reached last true printed code ends e =
      let (first, a, e1) = >>=_ret (iterate ua depth (browse reached) (ua.numeric 0 33)) _ e in
      let (second, b, e2) = >>=_ret (iterate ua depth (browse reached) (ua.numeric 0 32)) _ e1 in
      let (same, shown, exit) = ret_triple_injective e2 in
      subst (MainEnds browse files state last printed) exit (
        subst (λ t. MainEnds browse files state last t none) shown
          (subst (λ l. MainEnds browse files state l (first ++ second) none) same
            (shows ends (iterate_shown ua (browse reached) depth (ua.numeric 0 33) first a)
              (iterate_shown ua (browse reached) depth (ua.numeric 0 32) second b))))

  -- If `main` of iterate.c comes to the run of the server, all files were loaded, and it has printed
  -- the hierarchies of subtypes below HierarchicalReferences and NonHierarchicalReferences as the
  -- server knows them then; if it exits before, its code is 1, it has printed that a file could not
  -- be loaded, and a file was refused behind others that were loaded. It does one or the other if
  -- it returns.
  pub iterate_main-MainEnds :
      (depth : ℕ) (browse : S.State → Browse ua) (files : List (Option (List ℕ)))
      (state last : S.State) (printed : Text) (code : Option ℕ)
      → iterate_main ua S q parse fuel depth browse files state ≡ ret (last, printed, code)
      → MainEnds browse files state last printed code
  unfolding iterate_main
  iterate_main-MainEnds depth browse files state last printed code e =
      let (r, a, e1) = >>=_ret (load_files ua S q parse fuel files state) _ e in
      after_files depth browse files state r.0 last r.1 printed code
        (load_files-Ends files state r.0 r.1 a) e1
