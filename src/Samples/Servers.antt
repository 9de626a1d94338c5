-- ===== src/Samples/Servers.antt =====
-- A small server: a table of namespaces, a few data types, and a count of the calls that add.
use open62541_nodeset_loader.Base.{
  ℕ, zero, suc, ◌+◌, ◌≡◌, refl, ap, true, false, List, [], ◌∷◌, none, some, length, get_elem?, ◌==◌,
  if◌then◌else◌, codes, text_eq, text_eq_iff, Bool-cases, inl, inr,
}
use open62541_nodeset_loader.Ua.{Text}
use open62541_nodeset_loader.Backend.{good, bad_not_found, pointer, DataType, Server}
use open62541_nodeset_loader.Backend.Namespaces.Laws.{KeepsNamespaces}
use open62541_nodeset_loader.Samples.Ids.{sample_ua}

pub record SampleState : Type 0 where
  pub table : List Text
  pub calls : ℕ
  pub types : ℕ

-- A uri takes its place in the table, or the next one.
unfoldable pub enter : Text → List Text → List Text × ℕ
enter uri [] = (uri ∷ [], 0)
enter uri (t ∷ table) =
    let rest = enter uri table in if text_eq uri t then (t ∷ table, 0) else (t ∷ rest.0, suc rest.1)

pub enter_stands :
    (table : List Text) (uri : Text) → get_elem? (enter uri table).0 (enter uri table).1 ≡ some uri
unfolding enter
enter_stands [] uri = refl
enter_stands (t ∷ table) uri = elim (Bool-cases (text_eq uri t)) [
  | inl e ↦ rw e (ap some (cc ((text_eq_iff uri t).0 e)))
  | inr e ↦ rw e (enter_stands table uri)
]

pub enter_stays :
    (table : List Text) (uri old : Text) (i : ℕ)
    → get_elem? table i ≡ some old
    → get_elem? (enter uri table).0 i ≡ some old
unfolding enter
enter_stays [] uri old i h = cc
enter_stays (t ∷ table) uri old zero h = elim (Bool-cases (text_eq uri t)) [
  | inl e ↦ rw e h
  | inr e ↦ rw e h
]
enter_stays (t ∷ table) uri old (suc i) h = elim (Bool-cases (text_eq uri t)) [
  | inl e ↦ rw e h
  | inr e ↦ rw e (enter_stays table uri old i h)
]

pub enter_known :
    (table : List Text) (uri : Text) (i : ℕ)
    → get_elem? table i ≡ some uri
    → (enter uri table).0 ≡ table
unfolding enter
enter_known [] uri i h = cc
enter_known (t ∷ table) uri zero h = rw ((text_eq_iff uri t).1 (cc)) refl
enter_known (t ∷ table) uri (suc i) h = elim (Bool-cases (text_eq uri t)) [
  | inl e ↦ rw e refl
  | inr e ↦ rw e (ap (λ l. t ∷ l) (enter_known table uri i h))
]

pub enter_first :
    (table : List Text) (uri : Text) → get_elem? table 0 ≡ some uri → (enter uri table).1 ≡ 0
unfolding enter
enter_first [] uri h = cc
enter_first (t ∷ table) uri h = rw ((text_eq_iff uri t).1 (cc)) refl

-- A numeric type, and a structure with one member of it.
abbrev pub number_type : DataType ℕ ℕ
number_type = record {
  type_name = codes "Int32";
  type_id = 6;
  binary_encoding_id = 0;
  xml_encoding_id = 0;
  mem_size = 4;
  type_kind = 5;
  pointer_free = true;
  overlayable = true;
  members = [];
  members_size = 0;
}

abbrev pub pair_type : DataType ℕ ℕ
pair_type = record number_type {
  type_name = codes "Base";
  type_id = 22;
  type_kind = 27;
  members =
      record {
        member_name = some (codes "a");
        member_type = pointer 0;
        is_array = false;
        is_optional = false;
      }
      ∷ [];
  members_size = 1;
}

abbrev pub sample_server : Server sample_ua
sample_server = record {
  State = SampleState;
  TypePtr = ℕ;
  Variant = ℕ;
  Double = Text;
  Description = ℕ;
  atof = λ s. s;
  no_value = 0;
  array_length = λ v. v;
  decode_xml = λ s mapping text. (good, length text);
  kind_double = 10;
  kind_enum = 26;
  kind_structure = 27;
  kind_optstruct = 28;
  kind_union = 29;
  overlayable_integer = true;
  calloc_succeeds = λ s n. true;
  get_namespace_by_index = λ s i. get_elem? s.table i;
  add_namespace = λ uri s. let r = enter uri s.table in (record s { table = r.0 }, r.1);
  sub_reference_types = λ s id. 47 ∷ 46 ∷ [];
  find_data_type = λ s id. if id == 6 then some 0 else (if id == 22 then some 1 else none);
  read_type = λ s p. if p == 0 then number_type else pair_type;
  to_description = λ t. (good, t.members_size);
  add_data_type = λ d s. record s { types = s.types + 1 };
  add_node = λ r s. (record s { calls = s.calls + 1 }, bad_not_found);
  add_reference = λ id t target f s. (record s { calls = s.calls + 1 }, good);
  add_node_finish = λ id s. (record s { calls = s.calls + 1 }, good);
}

abbrev pub sample_KeepsNamespaces : KeepsNamespaces sample_ua sample_server
sample_KeepsNamespaces = record {
  namespaces = λ s. s.table;
  by_index = λ s i. refl;
  stands = λ s uri. enter_stands s.table uri;
  stays = λ s uri old i. enter_stays s.table uri old i;
  known = λ s uri i. enter_known s.table uri i;
  first = λ s uri. enter_first s.table uri;
}

abbrev pub ns0_uri : Text
ns0_uri = codes "http://opcfoundation.org/UA/"

abbrev pub sample_state : SampleState
sample_state = record { table = ns0_uri ∷ codes "urn:app" ∷ []; calls = 0; types = 0 }
