-- ===== src/Examples.antt =====
-- The programs under backends/open62541/examples: all load their arguments into a server, and
-- iterate.c then prints the subtypes of two reference types. The server, how it is made and how it
-- runs are open62541's.
pub mod Iterate
pub mod Files
pub mod DataTypes
use open62541_nodeset_loader.Base.{
  ℕ, zero, suc, Bool, true, false, List, [], ◌∷◌, ◌++◌, Option, none, some, codes, if◌then◌else◌,
  Exec, fault, ret, ◌>>=◌, deref,
}
use open62541_nodeset_loader.Ua.{Text, Ua}
use open62541_nodeset_loader.Arena.{until_zero}
use open62541_nodeset_loader.Nodeset.Sort.{QSort}
use open62541_nodeset_loader.Loader.{FileContext}
use open62541_nodeset_loader.Loader.Import.{Parser}
use open62541_nodeset_loader.Backend.{Server}
use open62541_nodeset_loader.Backend.Load.{load_file}

module _ (ua : Ua) where
  -- What a browse tells of a node: `rd->browseName.name` and `rd->nodeId.nodeId`.
  pub record ReferenceDescription : Type 0 where
    pub browse_name : Text
    pub node_id : ua.NodeId

  -- No extension interface is passed on. The callbacks are not called.
  abbrev pub no_extension : FileContext ua
  no_extension = record {
    UserContext = Unit {0};
    add_namespace = λ uri context mapping. ret (context, mapping);
    ext_if = false;
    Data = Unit {0};
    new_extension = λ state. (state, none);
    start = λ extension name attributes state. state;
    end = λ extension name text state. state;
    finish = λ extension state. state;
  }

  abbrev newline : Text
  newline = 10 ∷ []

  -- The line for one reference.
  abbrev pub found_line : ReferenceDescription → Text
  found_line rd = codes "found :printf " ++ (until_zero rd.browse_name ++ newline)

  -- `UA_Server_browse` with the description of `iterate` for a node: the ReferenceTypes to which it
  -- has forward references of the type HasSubtype or a subtype, if the status is good.
  abbrev pub Browse : Type 0
  Browse = ua.NodeId → Option (List ReferenceDescription)

  -- The loop of `iterate`, where `inner` is the recursive call.
  unfoldable pub iterate_references :
      (ua.NodeId → Exec Text) → List ReferenceDescription → Exec Text
  iterate_references inner [] = ret []
  iterate_references inner (rd ∷ rest) = do
    below ← inner rd.node_id
    others ← iterate_references inner rest
    ret (found_line rd ++ (below ++ others))

  -- What `iterate` prints. `fuel` bounds the depth of the recursion, which does not end where it is
  -- deeper.
  unfoldable pub iterate : ℕ → Browse → ua.NodeId → Exec Text
  unfolding iterate_references
  iterate zero browse id = fault
  iterate (suc fuel) browse id = elim (browse id) [
    | none ↦ ret []
    | some references ↦ iterate_references (iterate fuel browse) references
  ]

module _ (ua : Ua) (S : Server ua) (q : QSort ua) (parse : Parser) where
  -- The loop over the arguments. A file is given by its bytes if it can be opened; the fuel is that
  -- of `load_file`.
  unfoldable pub load_files : ℕ → List (Option (List ℕ)) → S.State → Exec (S.State × Bool)
  load_files fuel [] state = ret (state, true)
  load_files fuel (file ∷ rest) state = do
    (after, loaded) ← load_file ua S q (no_extension ua) parse fuel (some state) file tt
    next ← deref after
    if loaded then load_files fuel rest next else ret (next, false)

  abbrev pub refusal : Text
  refusal = codes "nodeset could not be loaded, exit" ++ 10 ∷ []

  -- `main` of iterate.c up to the run of the server: what it prints, and the code with which it
  -- exits before. `depth` is the fuel of `iterate`; 33 and 32 are the numbers of
  -- HierarchicalReferences and NonHierarchicalReferences.
  unfoldable pub iterate_main :
      ℕ
      → ℕ
      → (S.State → Browse ua)
      → List (Option (List ℕ))
      → S.State
      → Exec (S.State × Text × Option ℕ)
  unfolding load_files
  iterate_main fuel depth browse files state = do
    (after, loaded) ← load_files fuel files state
    if loaded
        then (do
          hierarchical ← iterate ua depth (browse after) (ua.numeric 0 33)
          others ← iterate ua depth (browse after) (ua.numeric 0 32)
          ret (after, hierarchical ++ others, none))
        else ret (after, refusal, some 1)
