-- ===== src/Simulator.antt =====
-- core/ledger/kvledger/txmgmt/txmgr/lockbasedtxmgr: a simulation of a transaction, which reads the
-- database and records what it read and is to write (helper.go and lockbased_tx_simulator.go).
pub mod Scans
pub mod Queries
pub mod Calls
pub mod Runs
pub mod Finished
use fabric.Prelude.{
  ℕ, Option, none, some, Bool, true, false, List, [], ◌∷◌, ◌++◌, length, get_elem?, set,
}
use fabric.Prelude.Bytes.{Bytes}
use fabric.Prelude.Assoc.{Assoc}
use fabric.Prelude.Outcome.{Outcome, ok, err, panic, ◌>>=◌, ◌>>◌}
use fabric.Version.{Height}
use fabric.StateDb.{VersionedValue, VersionedKv}
use fabric.StateDb.VersionedDb.{VersionedDb}
use fabric.RwSet.{
  KvRead, RangeQueryInfo, ReadsInfo, no_reads, raw_reads, reads_merkle_hashes,
  QueryReadsMerkleSummary, TxRwSet, new_kv_read,
}
use fabric.RwSet.QueryResults.{
  Hasher, RangeQueryResultsHelper, new_range_query_results_helper, add_result, done_results,
}
use fabric.RwSet.Builder.{
  RwSetBuilder, new_rw_set_builder, add_to_read_set, add_to_write_set, add_to_range_query_set,
  get_tx_read_write_set,
}

abbrev value_part : Option VersionedValue → Option Bytes
value_part none = none
value_part (some vv) = vv.value

abbrev version_part : Option VersionedValue → Option Height
version_part none = none
version_part (some vv) = vv.version

-- The message `KV` that a client of an iterator receives.
pub record Kv : Type 0 where
  pub namespace : Bytes
  pub key : Bytes
  pub value : Option Bytes

abbrev pub to_kv : Option VersionedKv → Option Kv
to_kv none = none
to_kv (some kv) = some (record { namespace = kv.namespace; key = kv.key; value = kv.value })

-- `SetRawReads` if there are results, and `SetMerkelSummary` if there is one.
abbrev pub with_reads : List KvRead → ReadsInfo → ReadsInfo
with_reads [] info = info
with_reads (r ∷ rs) info = raw_reads (r ∷ rs)

abbrev pub with_summary : Option QueryReadsMerkleSummary → ReadsInfo → ReadsInfo
with_summary none info = info
with_summary (some summary) info = reads_merkle_hashes summary

abbrev pub with_results :
    List KvRead × Option QueryReadsMerkleSummary → RangeQueryInfo → RangeQueryInfo
with_results (results, hash) rqi = record rqi {
  reads_info = with_summary hash (with_reads results rqi.reads_info);
}

-- The settings `IsQueryReadsHashingEnabled` and `GetMaxDegreeQueryReadsHashing`, the database's
-- `ValidateKey` and its scans.
pub record Settings : Type 0 where
  pub hashing_enabled : Bool
  pub max_degree : ℕ
  pub validate_key : Bytes → Outcome (Unit {0})

module _ (db : VersionedDb) (hasher : Hasher) (settings : Settings) where
  pub record ResultsItr : Type 0 where
    pub ns : Bytes
    pub end_key : Bytes
    pub db_itr : db.Itr
    pub range_query_info : RangeQueryInfo
    pub range_query_results_helper : RangeQueryResultsHelper

  -- The simulator with its query helper, whose builder is not nil.
  pub record Simulator : Type 0 where
    pub rwset_builder : RwSetBuilder
    pub itrs : List ResultsItr
    pub error : Option Bytes
    pub done_invoked : Bool

  abbrev pub new_simulator : Simulator
  new_simulator = record {
    rwset_builder = new_rw_set_builder;
    itrs = [];
    error = none;
    done_invoked = false;
  }

  unfoldable pub check_done : Simulator → Outcome (Unit {0})
  check_done s = elim s.done_invoked [ true ↦ panic | false ↦ ok tt ]

  unfoldable pub get_state : Simulator → Bytes → Bytes → Outcome (Option Bytes × Simulator)
  unfolding check_done add_to_read_set
  get_state s ns key =
      check_done s
      >> (db.get_state ns key >>= λ versioned_value. ok (
        value_part versioned_value,
        record s {
          rwset_builder = add_to_read_set s.rwset_builder ns key (version_part versioned_value);
        },
      ))

  unfoldable pub set_state : Simulator → Bytes → Bytes → Option Bytes → Outcome Simulator
  unfolding check_done add_to_write_set
  set_state s ns key value =
      check_done s
      >> (settings.validate_key key
          >> ok (record s { rwset_builder = add_to_write_set s.rwset_builder ns key value }))

  unfoldable pub delete_state : Simulator → Bytes → Bytes → Outcome Simulator
  unfolding set_state
  delete_state s ns key = set_state s ns key none

  -- The keys before one that is refused stay written.
  unfoldable pub set_state_multiple_keys :
      Simulator → Bytes → Assoc Bytes (Option Bytes) → Simulator × Outcome (Unit {0})
  unfolding set_state
  set_state_multiple_keys s ns [] = (s, ok tt)
  set_state_multiple_keys s ns ((k, v) ∷ kvs) = elim (set_state s ns k v) [
    | ok s' ↦ set_state_multiple_keys s' ns kvs
    | err message ↦ (s, err message)
    | panic ↦ (s, panic)
  ]

  unfoldable pub new_results_itr : Bytes → Bytes → Bytes → Outcome ResultsItr
  unfolding new_range_query_results_helper
  new_results_itr ns start_key end_key =
      db.get_state_range_scan_iterator ns start_key end_key >>= λ db_itr.
      new_range_query_results_helper settings.hashing_enabled settings.max_degree >>= λ helper.
      ok (record {
        ns = ns;
        end_key = end_key;
        db_itr = db_itr;
        range_query_info = record {
          start_key = start_key;
          end_key = [];
          itr_exhausted = false;
          reads_info = no_reads;
        };
        range_query_results_helper = helper;
      })

  -- An iterator is known by its position among the open ones.
  unfoldable pub get_state_range_scan_iterator :
      Simulator → Bytes → Bytes → Bytes → Outcome (ℕ × Simulator)
  unfolding check_done new_results_itr
  get_state_range_scan_iterator s ns start_key end_key =
      check_done s
      >> (new_results_itr ns start_key end_key >>= λ itr.
          ok (length s.itrs, record s { itrs = s.itrs ++ itr ∷ [] }))

  -- The error of `AddResult` is dropped.
  unfoldable pub update_range_query_info : ResultsItr → Option VersionedKv → Outcome ResultsItr
  unfolding add_result
  update_range_query_info itr none = ok (record itr {
    range_query_info = record itr.range_query_info { itr_exhausted = true; end_key = itr.end_key };
  })
  update_range_query_info itr (some kv) =
      add_result hasher itr.range_query_results_helper (new_kv_read kv.key kv.version)
      >>= λ (helper, fine). ok (record itr {
        range_query_results_helper = helper;
        range_query_info = record itr.range_query_info { end_key = kv.key };
      })

  unfoldable pub next_result : ResultsItr → Outcome (Option Kv × ResultsItr)
  unfolding update_range_query_info
  next_result itr = db.next_item itr.db_itr >>= λ (query_result, db_itr).
      update_range_query_info (record itr { db_itr = db_itr }) query_result >>= λ itr'.
      ok (to_kv query_result, itr')

  -- No caller has an iterator that was not opened.
  unfoldable pub next : Simulator → ℕ → Outcome (Option Kv × Simulator)
  unfolding next_result
  next s i = elim (get_elem? s.itrs i) [
    | none ↦ panic
    | some itr ↦ next_result itr >>= λ (kv, itr'). ok (kv, record s { itrs = set s.itrs i itr' })
  ]

  -- The loop of `done`: the first error is kept and ends it.
  unfoldable pub add_range_queries : Simulator → List ResultsItr → Outcome Simulator
  unfolding done_results add_to_range_query_set
  add_range_queries s [] = ok s
  add_range_queries s (itr ∷ itrs) = elim (done_results hasher itr.range_query_results_helper) [
    | ok results ↦
        add_range_queries
          (record s {
            rwset_builder =
                add_to_range_query_set s.rwset_builder itr.ns
                  (with_results results itr.range_query_info);
          })
          itrs
    | err message ↦ ok (record s { error = some message })
    | panic ↦ panic
  ]

  abbrev pub done_unless : Bool → Simulator → Outcome Simulator
  done_unless true s = ok s
  done_unless false s = add_range_queries (record s { done_invoked = true }) s.itrs

  unfoldable pub done : Simulator → Outcome Simulator
  done s = done_unless s.done_invoked s

  abbrev pub results_of : Option Bytes → Simulator → Outcome (TxRwSet × Simulator)
  results_of (some message) s = err message
  results_of none s = ok (get_tx_read_write_set s.rwset_builder, s)

  -- The encoding of the read-write set is left out.
  unfoldable pub get_tx_simulation_results : Simulator → Outcome (TxRwSet × Simulator)
  unfolding done
  get_tx_simulation_results s = done s >>= λ s'. results_of s'.error s'
