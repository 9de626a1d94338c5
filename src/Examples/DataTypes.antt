-- ===== src/Examples/DataTypes.antt =====
-- The program dataTypeImport.c, which adds three variables with values of imported data types.
-- Its `config` is never set: the pointer is `none`, and the read through it a fault.
use open62541_nodeset_loader.Base.{
  ℕ, ◌≡◌, sym, subst, Bool, true, false, List, [], ◌∷◌, Option, none, some, codes, if◌then◌else◌,
  Exec, fault, ret, ◌>>=◌, deref, >>=_ret, ret_triple_injective,
}
use open62541_nodeset_loader.Ua.{Text, Ua}
use open62541_nodeset_loader.Nodeset.Sort.{QSort}
use open62541_nodeset_loader.Loader.Import.{Parser}
use open62541_nodeset_loader.Backend.{StatusCode, good, Server}
use open62541_nodeset_loader.Examples.{load_files, refusal}
use open62541_nodeset_loader.Examples.Files.{Ends, Refuses, load_files-Ends}

-- `struct Point`
pub record Point : Type 0 where
  pub x : ℕ
  pub y : ℕ
  pub z : ℕ

-- The three structs whose values are written.
pub data Value : Type 0 where
  point : Point → Value
  struct_with_array : (valid : Bool) (size : ℕ) (items : List ℕ) → Value
  struct_with_point_array : (valid : Bool) (size : ℕ) (items : List Point) → Value

-- What the program uses of the server: `UA_Server_addVariableNode` below the Objects folder with
-- a data type, `UA_findDataTypeWithCustom`, `UA_Variant_setScalar` and `UA_Server_writeValue`.
pub record Variables (ua : Ua) (S : Server ua) : Type 1 where
  pub ServerConfig : Type 0
  pub add_variable_node : ua.NodeId → Text → ua.NodeId → S.State → S.State
  pub find_data_type : ua.NodeId → ServerConfig → Option S.TypePtr
  pub set_scalar : Value → Option S.TypePtr → S.Variant
  pub write_value : ua.NodeId → S.Variant → S.State → S.State × StatusCode

module _ (ua : Ua) (S : Server ua) (V : Variables ua S) where
  -- The steps that the three functions share; `config` is the pointer.
  unfoldable pub add_value :
      Option V.ServerConfig → ℕ → Text → ℕ → Value → S.State → Exec (S.State × StatusCode)
  add_value config id name type value state = do
    let data_type = ua.numeric 2 type
    let added = V.add_variable_node (ua.numeric 1 id) name data_type state
    types ← deref config
    ret (
        V.write_value (ua.numeric 1 id) (V.set_scalar value (V.find_data_type data_type types))
          added)

  unfoldable pub add_point : S.State → Exec S.State
  unfolding add_value
  add_point state =
      add_value none 1000 (codes "myVar") 3002 (point (record { x = 1; y = 2; z = 3 })) state
      >>= λ r. ret r.0

  unfoldable pub add_struct_with_array : S.State → Exec S.State
  unfolding add_value
  add_struct_with_array state =
      add_value none 1001 (codes "myVarWithArray") 3006 (struct_with_array true 3 (1 ∷ 2 ∷ 3 ∷ []))
        state
      >>= λ r. ret r.0

  -- The last one asserts that the value was written.
  unfoldable pub add_struct_with_point_array : S.State → Exec S.State
  unfolding add_value
  add_struct_with_point_array state =
      add_value none 1002 (codes "myVarWithPointArray") 3007
        (struct_with_point_array true 2
          (record { x = 1; y = 2; z = 3 } ∷ record { x = 11; y = 12; z = 13 } ∷ []))
        state
      >>= λ r. elim r.1 [ good ↦ ret r.0 | _ ↦ fault ]

  -- `main` up to the run of the server.
  unfoldable pub data_type_main :
      QSort ua → Parser → ℕ → List (Option (List ℕ)) → S.State → Exec (S.State × Text × Option ℕ)
  unfolding add_point add_struct_with_array add_struct_with_point_array
  data_type_main q parse fuel files state = do
    (after, loaded) ← load_files ua S q parse fuel files state
    if loaded
        then (do
          first ← add_point after
          second ← add_struct_with_array first
          third ← add_struct_with_point_array second
          ret (third, [], none))
        else ret (after, refusal ua S q parse, some 1)

module _ (ua : Ua) (S : Server ua) (V : Variables ua S) (q : QSort ua) (parse : Parser)
    (fuel : ℕ) where
  by_loaded :
      (files : List (Option (List ℕ))) (state reached last : S.State) (loaded : Bool)
      (printed : Text) (code : Option ℕ)
      → Ends ua S q parse fuel files state reached loaded
      → ◌≡◌ {A = Exec (S.State × Text × Option ℕ)}
          (if loaded then fault else ret (reached, refusal ua S q parse, some 1))
          (ret (last, printed, code))
      → Refuses ua S q parse fuel files state last
        × (printed ≡ refusal ua S q parse)
        × (code ≡ some 1)
  by_loaded files state reached last true printed code ends e = cc e
  by_loaded files state reached last false printed code ends e =
      let (same, shown, exit) = ret_triple_injective e in
      (subst (Refuses ua S q parse fuel files state) same ends, sym shown, sym exit)

  -- dataTypeImport.c never comes to the run of its server: where its `main` returns, a file was
  -- refused behind others that were loaded, it has printed so, and its exit code is 1. If all files
  -- are loaded, it reads through a pointer that was never set.
  pub data_type_main-Refuses :
      (files : List (Option (List ℕ))) (state last : S.State) (printed : Text) (code : Option ℕ)
      → data_type_main ua S V q parse fuel files state ≡ ret (last, printed, code)
      → Refuses ua S q parse fuel files state last
        × (printed ≡ refusal ua S q parse)
        × (code ≡ some 1)
  unfolding data_type_main add_point add_value
  data_type_main-Refuses files state last printed code e =
      let (r, a, e1) = >>=_ret (load_files ua S q parse fuel files state) _ e in
      by_loaded files state r.0 last r.1 printed code
        (load_files-Ends ua S q parse fuel files state r.0 r.1 a) e1
