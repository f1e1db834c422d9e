-- ===== src/Examples/Database.antt =====
-- A database of one entry, as a concrete instance of the interface `VersionedDb`, and runs of the
-- batch of updates.
use fabric.Prelude.{
  ◌≡◌, refl, sym, Option, none, some, true, false, ◌&&◌, List, [], ◌∷◌, arith, if◌then◌else◌,
  Bool-cases, inl, inr,
}
use fabric.Prelude.Bytes.{Bytes, codes, bytes_eq, bytes_eq_iff}
use fabric.Prelude.Outcome.{ok}
use fabric.Prelude.Assoc.{insert, lookup}
use fabric.Version.{Height}
use fabric.StateDb.{
  VersionedValue, VersionedKv, UpdateBatch, put, delete, get, get_range_scan_iterator, next,
}
use fabric.StateDb.Scan.{in_range, IsScan, Yields, find}
use fabric.StateDb.VersionedDb.{VersionedDb, Serves, IsName}
use fabric.StateDb.Batch.{IsBatch, get-put, get-delete}
use fabric.StateDb.Iteration.{get_range_scan_iterator-IsScan}

abbrev pub chaincode : Bytes
chaincode = codes "imocc"

pub chaincode-IsName : IsName chaincode
chaincode-IsName = omega arith

abbrev pub key_a : Bytes
key_a = codes "a"

abbrev pub genesis : Height
genesis = record { block_num = 0; tx_num = 0 }

abbrev pub entry : VersionedValue
entry = record { value = some (codes "1"); version = some genesis }

abbrev pub item : VersionedKv
item = record {
  namespace = chaincode;
  key = key_a;
  value = some (codes "1");
  version = some genesis;
}

abbrev pub contents : Bytes → Bytes → Option VersionedValue
contents ns k = if bytes_eq chaincode ns && bytes_eq key_a k then some entry else none

abbrev take_first : List VersionedKv → Option VersionedKv × List VersionedKv
take_first [] = (none, [])
take_first (kv ∷ l) = (some kv, l)

abbrev pub one_entry : VersionedDb
one_entry = record {
  Itr = List VersionedKv;
  get_state = λ ns k. ok (contents ns k);
  get_state_range_scan_iterator = λ ns start_key end_key.
      ok (if bytes_eq chaincode ns && in_range start_key end_key key_a then item ∷ [] else []);
  next_item = λ l. ok (take_first l);
}

IsScan-item :
    (ns start_key end_key : Bytes)
    → (bytes_eq chaincode ns && in_range start_key end_key key_a) ≡ true
    → IsScan ns (in_range start_key end_key) (contents ns) (item ∷ [])
unfolding find
IsScan-item ns start_key end_key h = record {
  ascending = (tt, tt);
  in_ns = (ground (arith, h, bytes_eq_iff chaincode ns), tt);
  exact = λ k. elim (Bool-cases (bytes_eq key_a k)) [
    | inl e ↦ rw (sym ((bytes_eq_iff key_a k).0 e)) (ground (arith, h))
    | inr e ↦ ground (arith, h, e)
  ];
}

IsScan-nothing :
    (ns start_key end_key : Bytes)
    → (bytes_eq chaincode ns && in_range start_key end_key key_a) ≡ false
    → IsScan ns (in_range start_key end_key) (contents ns) []
unfolding find
IsScan-nothing ns start_key end_key h = record {
  ascending = tt;
  in_ns = tt;
  exact = λ k. elim (Bool-cases (bytes_eq key_a k)) [
    | inl e ↦ rw (sym ((bytes_eq_iff key_a k).0 e)) (ground (arith, h))
    | inr e ↦ ground (arith, h, e)
  ];
}

pub one_entry-Serves : Serves one_entry contents
one_entry-Serves = record {
  get_state_ok = λ ns k. refl;
  scan_ok = λ ns start_key end_key named. scan ns start_key end_key;
}
  where
    scan :
        (ns start_key end_key : Bytes)
        → (itr : List VersionedKv) × (l : List VersionedKv)
          × (one_entry.get_state_range_scan_iterator ns start_key end_key ≡ ok itr)
          × Yields one_entry.next_item itr l
          × IsScan ns (in_range start_key end_key) (contents ns) l
    scan ns start_key end_key =
        elim (Bool-cases (bytes_eq chaincode ns && in_range start_key end_key key_a)) [
          | inl h ↦ (
            item ∷ [],
            item ∷ [],
            rw h refl,
            ([], refl, ([], refl)),
            IsScan-item ns start_key end_key h,
          )
          | inr h ↦ ([], [], rw h refl, ([], refl), IsScan-nothing ns start_key end_key h)
        ]

abbrev batch : UpdateBatch
batch = (chaincode, (key_a, entry) ∷ []) ∷ []

abbrev removed : UpdateBatch
removed = (chaincode, (key_a, record { value = none; version = some genesis }) ∷ []) ∷ []

batch-IsBatch : IsBatch batch
batch-IsBatch = record { distinct = ((tt, tt), tt) }

get-put_example : get batch chaincode key_a ≡ some entry
unfolding put insert lookup bytes_eq
get-put_example = get-put [] batch chaincode key_a chaincode key_a (codes "1") (some genesis) refl

get-delete_example :
    get (delete batch chaincode key_a (some genesis)) chaincode key_a
    ≡ some (record { value = none; version = some genesis })
unfolding bytes_eq
get-delete_example = get-delete batch chaincode key_a chaincode key_a (some genesis)

get_range_scan_iterator-IsScan_example :
    (l : List VersionedKv) × Yields next (get_range_scan_iterator batch chaincode [] []) l
    × IsScan chaincode (in_range [] []) (get batch chaincode) l
get_range_scan_iterator-IsScan_example =
    get_range_scan_iterator-IsScan batch chaincode [] [] batch-IsBatch
