-- ===== src/LevelDb/Versioned.antt =====
-- core/ledger/kvledger/txmgmt/statedb/stateleveldb/stateleveldb.go: the versioned database over a
-- handle of LevelDB.
pub mod Reads
pub mod Namespaces
pub mod Updates
use fabric.Prelude.{◌≡◌, Option, none, some, List, [], ◌∷◌, ◌++◌, ◌⊎◌}
use fabric.Prelude.Bytes.{Bytes, codes, bytes_Eq}
use fabric.Prelude.Assoc.{insert}
use fabric.Prelude.Outcome.{Outcome, ok, err, panic, ◌>>=◌}
use fabric.Codec.{Varint}
use fabric.Version.{Height, to_bytes, new_height_from_bytes}
use fabric.StateDb.{VersionedValue, VersionedKv, NsUpdates, UpdateBatch}
use fabric.StateDb.VersionedDb.{VersionedDb}
use fabric.LevelDb.Store.{KvBatch, LevelStore}
use fabric.LevelDb.Prefix.{split_n}
use fabric.LevelDb.Values.{encode_value, decode_value}

abbrev pub save_point_key : Bytes
save_point_key = 0 ∷ []

unfoldable pub construct_composite_key : Bytes → Bytes → Bytes
construct_composite_key ns key = ns ++ 0 ∷ key

-- A key without a separator panics on the missing second part.
unfoldable pub split_composite_key : Bytes → Outcome (Bytes × Bytes)
unfolding split_n
split_composite_key composite_key = elim (split_n composite_key) [
  | none ↦ panic
  | some parts ↦ ok parts
]

-- The end of a scan: without an end key the separator becomes the byte 1.
abbrev pub scan_end : Bytes → Bytes → Bytes
scan_end ns [] = ns ++ 1 ∷ []
scan_end ns (b ∷ end_key) = ns ++ 0 ∷ b ∷ end_key

module _ (v : Varint) (db : LevelStore) where
  abbrev pub decode_found : Option Bytes → Outcome (Option VersionedValue)
  decode_found none = ok none
  decode_found (some db_val) = decode_value v db_val >>= λ vv. ok (some vv)

  unfoldable pub get_state : Bytes → Bytes → Outcome (Option VersionedValue)
  unfolding construct_composite_key
  get_state ns key = db.get (construct_composite_key ns key) >>= decode_found

  unfoldable pub get_state_multiple_keys :
      Bytes → List Bytes → Outcome (List (Option VersionedValue))
  unfolding get_state
  get_state_multiple_keys ns [] = ok []
  get_state_multiple_keys ns (key ∷ keys) =
      get_state ns key >>= λ val. get_state_multiple_keys ns keys >>= λ vals. ok (val ∷ vals)

  -- The scanner is the namespace and the iterator.
  unfoldable pub get_state_range_scan_iterator : Bytes → Bytes → Bytes → Outcome (Bytes × db.Itr)
  unfolding construct_composite_key
  get_state_range_scan_iterator ns start_key end_key =
      ok (ns, db.get_iterator (construct_composite_key ns start_key) (some (scan_end ns end_key)))

  abbrev pub scanned :
      Bytes → Option (Bytes × Bytes) × db.Itr → Outcome (Option VersionedKv × (Bytes × db.Itr))
  scanned ns (none, itr) = ok (none, (ns, itr))
  scanned ns (some (db_key, db_val), itr) = split_composite_key db_key >>= λ parts.
      decode_value v db_val >>= λ vv. ok (
        some (record { namespace = ns; key = parts.1; value = vv.value; version = vv.version }),
        (ns, itr),
      )

  unfoldable pub next : Bytes × db.Itr → Outcome (Option VersionedKv × (Bytes × db.Itr))
  next (ns, itr) = db.next itr >>= scanned ns

  -- The database as the rest of the ledger sees it.
  abbrev pub versioned_db : VersionedDb
  versioned_db = record {
    Itr = Bytes × db.Itr;
    get_state = get_state;
    get_state_range_scan_iterator = get_state_range_scan_iterator;
    next_item = next;
  }

module _ (v : Varint) where
  -- `Put` of the batch refuses a nil value, which `EncodeValue` never gives.
  abbrev pub put_of : VersionedValue → Outcome (Option Bytes)
  put_of vv = elim vv.value [
    | none ↦ ok none
    | some b ↦ encode_value v (some b) vv.version >>= λ e. ok (some e)
  ]

  unfoldable pub apply_ns : Bytes → NsUpdates → KvBatch → Outcome KvBatch
  unfolding construct_composite_key
  apply_ns ns [] kvs = ok kvs
  apply_ns ns ((k, vv) ∷ updates) kvs =
      put_of vv >>= λ value. apply_ns ns updates (insert (construct_composite_key ns k) value kvs)

  unfoldable pub apply_namespaces : UpdateBatch → KvBatch → Outcome KvBatch
  unfolding apply_ns
  apply_namespaces [] kvs = ok kvs
  apply_namespaces ((ns, updates) ∷ batch) kvs = apply_ns ns updates kvs >>= apply_namespaces batch

  -- The batch that is written, the savepoint last.
  unfoldable pub apply_updates : UpdateBatch → Height → Outcome KvBatch
  unfolding apply_namespaces
  apply_updates batch height = apply_namespaces batch [] >>= λ kvs.
      to_bytes v height >>= λ b. ok (insert save_point_key (some b) kvs)

module _ (v : Varint) (db : LevelStore) where
  abbrev height_of : Option Bytes → Outcome (Option Height)
  height_of none = ok none
  height_of (some version_bytes) =
      new_height_from_bytes v version_bytes >>= λ (version, n). ok (some version)

  unfoldable pub get_latest_save_point : Outcome (Option Height)
  get_latest_save_point = db.get save_point_key >>= height_of
