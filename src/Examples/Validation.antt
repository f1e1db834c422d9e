-- ===== src/Examples/Validation.antt =====
-- Concrete runs of the validation of a block, on a database of one entry.
use fabric.Prelude.{
  ℕ, ◌≡◌, ◌≢◌, ◌↔◌, arith, ◌<◌, refl, some, Bool, true, false, List, [], ◌∷◌, map, ◌⊎◌,
}
use fabric.Prelude.Bytes.{Bytes, codes, bytes_eq}
use fabric.Prelude.Assoc.{lookup, insert}
use fabric.Prelude.Outcome.{ok}
use fabric.Version.{Height, are_same}
use fabric.StateDb.{VersionedValue, VersionedKv, UpdateBatch, exists, put}
use fabric.StateDb.Scan.{IsScan, Yields}
use fabric.StateDb.Batch.{IsBatch}
use fabric.RwSet.{KvRead, TxRwSet, raw_reads}
use fabric.RwSet.QueryResults.{Hasher}
use fabric.Validator.Combined
use fabric.Validator.Combined.{CombinedIterator, new_combined_iterator}
use fabric.Validator.Combined.Merge.{visible}
use fabric.Validator.Combined.Overlay.{overlay, in_query}
use fabric.Validator.Combined.RangeQuery.{new_combined_iterator-IsScan}
use fabric.Validator.RangeQuery.{validate_results}
use fabric.Validator.RangeQuery.RawReads.{to_read, validate_results_iff}
use fabric.Validator.Mvcc.{valid, mvcc_read_conflict, phantom_read_conflict, validate_tx}
use fabric.Validator.Mvcc.Current.{TxIsCurrent, IsRaw}
use fabric.Validator.Mvcc.Correct.{validate_tx_iff}
use fabric.Validator.Block.{Decoder, Block, validate_and_prepare_batch}
use fabric.Validator.Block.Serial.{serial}
use fabric.Validator.Block.Loop.{validate_and_prepare_batch-serial}
use fabric.Examples.Database.{
  chaincode, key_a, genesis, item, contents, one_entry, one_entry-Serves, chaincode-IsName,
}

abbrev pub key_b : Bytes
key_b = codes "b"

key_b-ne-nil : key_b ≢ []
key_b-ne-nil = ground arith

abbrev pub later : Height
later = record { block_num = 1; tx_num = 0 }

abbrev pub value_b : VersionedValue
value_b = record { value = some (codes "2"); version = some later }

-- An earlier transaction of the block wrote `b`.
abbrev pub with_b : UpdateBatch
with_b = (chaincode, (key_b, value_b) ∷ []) ∷ []

with_b-IsBatch : IsBatch with_b
with_b-IsBatch = record { distinct = ((tt, tt), tt) }

abbrev pub identity_hasher : Hasher
identity_hasher = record { hash = λ b. some b; serialize_kv_reads = λ rs. some [] }

abbrev read_a : KvRead
read_a = record { key = key_a; version = some genesis }

abbrev read_b : KvRead
read_b = record { key = key_b; version = some later }

-- A read of `a`, a query up to `b` with `b`, and a write of `b`.
abbrev tx : TxRwSet
tx =
    record {
      name_space = chaincode;
      reads = read_a ∷ [];
      range_queries_info =
          record {
            start_key = [];
            end_key = key_b;
            itr_exhausted = false;
            reads_info = raw_reads (read_a ∷ read_b ∷ []);
          }
          ∷ [];
      writes = record { key = key_b; is_delete = false; value = some (codes "2") } ∷ [];
    }
    ∷ []

new_combined_iterator-IsScan_example :
    (itr : CombinedIterator one_entry) × (l : List VersionedKv) × (n : ℕ) × (new_combined_iterator
        one_entry with_b chaincode [] key_b true
      ≡ ok itr)
    × IsScan chaincode (in_query [] key_b true) (overlay contents with_b chaincode) l
    × ((fuel : ℕ) → n < fuel → Yields (Combined.next one_entry fuel) itr l)
new_combined_iterator-IsScan_example =
    new_combined_iterator-IsScan one_entry contents with_b chaincode [] key_b true one_entry-Serves
      with_b-IsBatch chaincode-IsName key_b-ne-nil

validate_results_iff_example :
    (b : Bool) × (validate_results one_entry.next_item (read_a ∷ []) (item ∷ []) ≡ ok b)
    × ((b ≡ true) ↔ (read_a ∷ [] ≡ map to_read (item ∷ [])))
validate_results_iff_example =
    validate_results_iff one_entry.next_item (read_a ∷ []) (item ∷ []) (item ∷ [])
      ((genesis, refl), tt) ([], refl, ([], refl))

tx_query : IsRaw (record {
  start_key = [];
  end_key = key_b;
  itr_exhausted = false;
  reads_info = raw_reads (read_a ∷ read_b ∷ []);
})
tx_query = record { raw = ((genesis, refl), ((later, refl), tt)); end_ok = key_b-ne-nil }

validate_tx_iff_example :
    (c n : ℕ) × ((fuel : ℕ)
      → n < fuel
      → validate_tx one_entry identity_hasher fuel tx with_b ≡ ok c)
    × ((c ≡ valid) ⊎ ((c ≡ mvcc_read_conflict) ⊎ (c ≡ phantom_read_conflict)))
    × ((c ≡ valid) ↔ TxIsCurrent contents with_b tx)
validate_tx_iff_example =
    validate_tx_iff one_entry contents one_entry-Serves with_b with_b-IsBatch identity_hasher tx
      ((chaincode-IsName, (tx_query, tt)), tt)

-- An envelope is its type, and the results are those of one transaction.
abbrev write_only : TxRwSet
write_only =
    record {
      name_space = chaincode;
      reads = read_a ∷ [];
      range_queries_info = [];
      writes = record { key = key_b; is_delete = false; value = some (codes "2") } ∷ [];
    }
    ∷ []

abbrev pub decoder : Decoder
decoder = record {
  channel_header_type = λ env. ok 3;
  action_results = λ env. ok env;
  from_proto_bytes = λ results. ok write_only;
}

abbrev pub block : Block
block = record { number = 1; envelopes = codes "x" ∷ []; txs_filter = [] }

abbrev pub block_done : Block
block_done = record { number = 1; envelopes = codes "x" ∷ []; txs_filter = 0 ∷ [] }

validate_and_prepare_batch-serial_example :
    overlay contents with_b
    ≡ serial decoder 1 0 (codes "x" ∷ []) (0 ∷ []) (λ ns k. visible (contents ns k))
unfolding validate_and_prepare_batch exists lookup are_same bytes_eq put insert
validate_and_prepare_batch-serial_example =
    validate_and_prepare_batch-serial one_entry identity_hasher decoder 5 true block block_done
      with_b contents refl
