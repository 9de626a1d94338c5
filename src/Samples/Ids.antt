-- ===== src/Samples/Ids.antt =====
-- Node ids as numbers, 2 ^ 32 to a namespace, in the place of open62541's.
use Prim.Native.Nat.{compare, Ordering}
use open62541_nodeset_loader.Base.{
  ℕ, ◌+◌, ◌*◌, ◌≡◌, List, [], ◌∷◌, Option, none, some, ◌==◌, ==_iff, arith,
}
use open62541_nodeset_loader.Ua.{Text, Order, less, eq, more, flip, Ua}

abbrev pub id_order : ℕ → ℕ → Order
id_order a b = elim (compare a b) [ Ordering.lt ↦ less | Ordering.eq ↦ eq | Ordering.gt ↦ more ]

pub id_order_eq : (a b : ℕ) → id_order a b ≡ eq → a ≡ b
id_order_eq a b h = ground arith

pub id_order-flip : (a b : ℕ) → id_order b a ≡ flip (id_order a b)
id_order-flip a b = ground arith

pub id_less_trans : (a b c : ℕ) → id_order a b ≡ less → id_order b c ≡ less → id_order a c ≡ less
id_less_trans a b c h k = ground arith

pub id_order_refl : (a : ℕ) → id_order a a ≡ eq
id_order_refl a = ground arith

-- A text of digits is read as its number, any other bytes count too.
abbrev pub number_of : List ℕ → ℕ
number_of [] = 0
number_of (c ∷ s) = c + 256 * number_of s

abbrev pub number_of_text : Option Text → ℕ
number_of_text none = 0
number_of_text (some s) = number_of s

abbrev pub bytes_of : Option Text → Text
bytes_of none = []
bytes_of (some s) = s

abbrev pub sample_ua : Ua
sample_ua = record {
  NodeId = ℕ;
  numeric = λ ns i. 4_294_967_296 * ns + i;
  order = id_order;
  equal = λ a b. a == b;
  parse_node_id = λ s mapping. number_of_text s;
  parse_qualified_name = λ s mapping. record { namespace_index = 0; name = bytes_of s };
  remote2local = λ mapping i. i;
  order_refl = id_order_refl;
  order_eq = id_order_eq;
  order_flip = id_order-flip;
  less_trans = id_less_trans;
  equal_iff = ==_iff;
}
