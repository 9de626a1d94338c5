-- ===== src/Ua.antt =====
-- What the loader uses of open62541, which is not part of this repository: node ids with their
-- total order and equality, and the parsing of ids and names under a namespace mapping.
use open62541_nodeset_loader.Base.{ℕ, ◌≡◌, ◌↔◌, Bool, true, List, [], Option, none, some}

-- A `char *` text by its bytes.
abbrev pub Text : Type 0
Text = List ℕ

-- `UA_Order`
pub data Order : Type 0 where
  less eq more : Order

abbrev pub flip : Order → Order
flip less = more
flip eq = eq
flip more = less

-- `UA_QualifiedName`
pub record QualifiedName : Type 0 where
  pub namespace_index : ℕ
  pub name : Text

-- `UA_LocalizedText`; a string whose data is NULL is `none`.
pub record LocalizedText : Type 0 where
  pub locale : Option Text
  pub text : Option Text

-- `UA_NamespaceMapping`, with the arrays that the loader fills.
pub record NamespaceMapping : Type 0 where
  pub namespace_uris : List Text
  pub remote2local : List ℕ

-- `UA_STRING`: the string of a NULL pointer is empty.
abbrev pub ua_string : Option Text → Text
ua_string none = []
ua_string (some text) = text

-- The functions of open62541 and what is documented of them: `UA_NodeId_order` is a total order
-- whose equal ids are the same id, and `UA_NodeId_equal` decides that.
pub record Ua : Type 1 where
  pub NodeId : Type 0
  pub numeric : ℕ → ℕ → NodeId
  pub order : NodeId → NodeId → Order
  pub equal : NodeId → NodeId → Bool
  pub parse_node_id : Option Text → NamespaceMapping → NodeId
  pub parse_qualified_name : Option Text → NamespaceMapping → QualifiedName
  pub remote2local : NamespaceMapping → ℕ → ℕ
  pub order_refl : (a : NodeId) → order a a ≡ eq
  pub order_eq : (a b : NodeId) → order a b ≡ eq → a ≡ b
  pub order_flip : (a b : NodeId) → order b a ≡ flip (order a b)
  pub less_trans : (a b c : NodeId) → order a b ≡ less → order b c ≡ less → order a c ≡ less
  pub equal_iff : (a b : NodeId) → (equal a b ≡ true) ↔ (a ≡ b)
