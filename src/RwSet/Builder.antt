-- ===== src/RwSet/Builder.antt =====
-- core/ledger/kvledger/txmgmt/rwsetutil/rwset_builder.go: the read-write set that a simulation builds.
pub mod Everywhere
use fabric.Prelude.{
  Option, none, some, Bool, true, false, ◌&&◌, List, [], ◌∷◌, ◌++◌, if◌then◌else◌, arith, Eq, ◌≡◌,
  ◌↔◌, refl, Bool-cases, inl, inr,
}
use fabric.Prelude.Bytes.{Bytes, bytes_eq, bytes_eq_iff, bytes_Eq}
use fabric.Prelude.Assoc.{Assoc, lookup, insert, keys}
use fabric.Version.{Height}
use fabric.StateDb.SortedKeys.{get_sorted_keys}
use fabric.RwSet.{KvRead, KvWrite, RangeQueryInfo, NsRwSet, TxRwSet, new_kv_read, new_kv_write}

pub record RangeQueryKey : Type 0 where
  pub start_key : Bytes
  pub end_key : Bytes
  pub itr_exhausted : Bool

abbrev pub bool_eq : Bool → Bool → Bool
bool_eq true b = b
bool_eq false true = false
bool_eq false false = true

-- The equality of the struct.
abbrev pub query_key_eq : RangeQueryKey → RangeQueryKey → Bool
query_key_eq a b =
    bytes_eq a.start_key b.start_key
    && bytes_eq a.end_key b.end_key
    && bool_eq a.itr_exhausted b.itr_exhausted

pub query_key_eq_iff : (a b : RangeQueryKey) → (query_key_eq a b ≡ true) ↔ (a ≡ b)
query_key_eq_iff a b =
    ground (arith, bytes_eq_iff a.start_key b.start_key, bytes_eq_iff a.end_key b.end_key)

instance abbrev pub query_key_Eq : Eq RangeQueryKey
query_key_Eq = record { beq = query_key_eq; beq_iff = query_key_eq_iff }

pub record NsRws : Type 0 where
  pub read_map : Assoc Bytes KvRead
  pub write_map : Assoc Bytes KvWrite
  pub range_queries_map : Assoc RangeQueryKey RangeQueryInfo
  pub range_queries_keys : List RangeQueryKey

abbrev pub new_ns_rws : NsRws
new_ns_rws = record {
  read_map = [];
  write_map = [];
  range_queries_map = [];
  range_queries_keys = [];
}

abbrev pub RwSetBuilder : Type 0
RwSetBuilder = Assoc Bytes NsRws

abbrev pub new_rw_set_builder : RwSetBuilder
new_rw_set_builder = []

abbrev or_new : Option NsRws → NsRws
or_new none = new_ns_rws
or_new (some ns_rws) = ns_rws

-- The entry of the namespace, which the callers write back.
unfoldable pub get_or_create_ns_rw : RwSetBuilder → Bytes → NsRws
get_or_create_ns_rw rws ns = or_new (lookup ns rws)

unfoldable pub add_to_read_set : RwSetBuilder → Bytes → Bytes → Option Height → RwSetBuilder
unfolding get_or_create_ns_rw
add_to_read_set rws ns key version =
    let ns_rws = get_or_create_ns_rw rws ns in
    insert ns (record ns_rws { read_map = insert key (new_kv_read key version) ns_rws.read_map })
      rws

unfoldable pub add_to_write_set : RwSetBuilder → Bytes → Bytes → Option Bytes → RwSetBuilder
unfolding get_or_create_ns_rw new_kv_write
add_to_write_set rws ns key value =
    let ns_rws = get_or_create_ns_rw rws ns in
    insert ns (record ns_rws { write_map = insert key (new_kv_write key value) ns_rws.write_map })
      rws

abbrev pub key_of : RangeQueryInfo → RangeQueryKey
key_of rqi = record {
  start_key = rqi.start_key;
  end_key = rqi.end_key;
  itr_exhausted = rqi.itr_exhausted;
}

-- The first query of a key stays.
abbrev pub with_query : RangeQueryInfo → NsRws → NsRws
with_query rqi ns_rws = elim (lookup (key_of rqi) ns_rws.range_queries_map) [
  | some old ↦ ns_rws
  | none ↦ record ns_rws {
    range_queries_map = insert (key_of rqi) rqi ns_rws.range_queries_map;
    range_queries_keys = ns_rws.range_queries_keys ++ key_of rqi ∷ [];
  }
]

unfoldable pub add_to_range_query_set : RwSetBuilder → Bytes → RangeQueryInfo → RwSetBuilder
unfolding get_or_create_ns_rw
add_to_range_query_set rws ns rqi = insert ns (with_query rqi (get_or_create_ns_rw rws ns)) rws

-- The values at some keys of the map.
abbrev pub at_keys {ℓ κ} : {K : Type ℓ} {V : Type κ} ⦃e : Eq K⦄ → Assoc K V → List K → List V
at_keys m [] = []
at_keys m (k ∷ ks) = elim (lookup k m) [ none ↦ at_keys m ks | some v ↦ v ∷ at_keys m ks ]

unfoldable pub to_ns_rw_set : Bytes → NsRws → NsRwSet
to_ns_rw_set ns ns_rws = record {
  name_space = ns;
  reads = at_keys ns_rws.read_map (get_sorted_keys (keys ns_rws.read_map));
  range_queries_info = at_keys ns_rws.range_queries_map ns_rws.range_queries_keys;
  writes = at_keys ns_rws.write_map (get_sorted_keys (keys ns_rws.write_map));
}

abbrev pub ns_rw_sets : RwSetBuilder → List Bytes → TxRwSet
ns_rw_sets rws [] = []
ns_rw_sets rws (ns ∷ nss) = elim (lookup ns rws) [
  | none ↦ ns_rw_sets rws nss
  | some ns_rws ↦ to_ns_rw_set ns ns_rws ∷ ns_rw_sets rws nss
]

unfoldable pub get_tx_read_write_set : RwSetBuilder → TxRwSet
get_tx_read_write_set rws = ns_rw_sets rws (get_sorted_keys (keys rws))
