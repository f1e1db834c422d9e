-- ===== src/RwSet/QueryResults.antt =====
-- core/ledger/kvledger/txmgmt/rwsetutil/query_results_helper.go: the results of a range query are
-- kept, or are hashed into a tree as they arrive.
use fabric.Prelude.{
  ℕ, zero, suc, ◌-◌, ◌%◌, ◌^◌, Option, none, some, Bool, true, false, ◌&&◌, List, [], ◌∷◌, ◌++◌,
  ltb, leb, nat_eq, nat_Eq, length, if◌then◌else◌,
}
use fabric.Prelude.Bytes.{Bytes}
use fabric.Prelude.Assoc.{Assoc, lookup, insert, remove}
use fabric.Prelude.Outcome.{Outcome, ok, err, panic, ◌>>=◌}
use fabric.RwSet.{KvRead, QueryReadsMerkleSummary}

abbrev uint32 : ℕ → ℕ
uint32 n = n % 2 ^ 32

abbrev pub leaf_level : ℕ
leaf_level = 1

-- The hash of the default BCCSP and the encoding of `QueryReads`; `none` is an error.
pub record Hasher : Type 0 where
  pub hash : Bytes → Option Bytes
  pub serialize_kv_reads : List KvRead → Option Bytes

pub record MerkleTree : Type 0 where
  pub tree : Assoc ℕ (List Bytes)
  pub max_level : ℕ
  pub max_degree : ℕ

abbrev pub level_hashes : Option (List Bytes) → List Bytes
level_hashes none = []
level_hashes (some hs) = hs

-- `m.tree[level]`: a missing level has no hashes.
unfoldable pub at_level : MerkleTree → ℕ → List Bytes
at_level m level = level_hashes (lookup level m.tree)

-- The message of the error is left out.
unfoldable pub new_merkle_tree : ℕ → Outcome MerkleTree
new_merkle_tree max_degree =
    if ltb max_degree 2
    then err []
    else ok (record { tree = []; max_level = 1; max_degree = max_degree })

-- `m.tree[level] = append(m.tree[level], h)`
unfoldable pub append_at : MerkleTree → ℕ → Bytes → MerkleTree
unfolding at_level
append_at m level h = record m { tree = insert level (at_level m level ++ h ∷ []) m.tree }

unfoldable pub delete_level : MerkleTree → ℕ → MerkleTree
delete_level m level = record m { tree = remove level m.tree }

unfoldable pub get_summary : MerkleTree → QueryReadsMerkleSummary
unfolding at_level
get_summary m = record {
  max_degree = m.max_degree;
  max_level = m.max_level;
  max_level_hashes = at_level m m.max_level;
}

unfoldable pub is_empty : MerkleTree → Bool
unfolding at_level
is_empty m = nat_eq m.max_level 1 && nat_eq (length (at_level m m.max_level)) 0

concat : List Bytes → Bytes
concat [] = []
concat (h ∷ hs) = h ++ concat hs

abbrev pub raise_to : MerkleTree → ℕ → MerkleTree
raise_to m level = if ltb m.max_level level then record m { max_level = level } else m

module _ (hasher : Hasher) where
  open hasher use {hash, serialize_kv_reads}

  unfoldable pub compute_combined_hash : List Bytes → Option Bytes
  unfolding concat
  compute_combined_hash hashes = hash (concat hashes)

  -- The loop of `update`. An error ends it with the tree as it is then, and no caller reads it.
  unfoldable pub update_from : ℕ → ℕ → MerkleTree → MerkleTree
  unfolding at_level append_at delete_level
  update_from zero level m = m
  update_from (suc fuel) level m =
      let hashes = at_level m level in
      elim (leb (uint32 (length hashes)) m.max_degree) [
        | true ↦ m
        | false ↦ elim (compute_combined_hash hashes) [
          | some h ↦
              update_from fuel (suc level)
                (raise_to (append_at (delete_level m level) (suc level) h) (suc level))
          | none ↦ m
        ]
      ]

  -- Above the highest level there is nothing to combine.
  unfoldable pub update : MerkleTree → Bytes → MerkleTree
  unfolding update_from
  update m next_leaf_level_hash =
      update_from (suc m.max_level) leaf_level (append_at m leaf_level next_leaf_level_hash)

  abbrev single_or_combined : List Bytes → Option Bytes
  single_or_combined (h ∷ []) = some h
  single_or_combined hashes = compute_combined_hash hashes

  -- The loop of `done` from `level`, over `rounds` levels up to the highest. `false` is an error.
  unfoldable pub collapse : ℕ → ℕ → MerkleTree → MerkleTree × Bool
  unfolding at_level append_at delete_level
  collapse zero level m = (m, true)
  collapse (suc rounds) level m = elim (at_level m level) [
    | [] ↦ collapse rounds (suc level) m
    | h ∷ hs ↦ elim (single_or_combined (h ∷ hs)) [
      | some c ↦ collapse rounds (suc level) (append_at (delete_level m level) (suc level) c)
      | none ↦ (m, false)
    ]
  ]

  abbrev finish : MerkleTree → MerkleTree
  finish m =
      let final_hashes = at_level m m.max_level in
      if ltb m.max_degree (uint32 (length final_hashes))
      then elim (compute_combined_hash final_hashes) [
        | some c ↦ record {
          tree = insert (suc m.max_level) (c ∷ []) (remove m.max_level m.tree);
          max_level = suc m.max_level;
          max_degree = m.max_degree;
        }
        | none ↦ record (delete_level m m.max_level) { max_level = suc m.max_level }
      ]
      else m

  -- `Done` drops the error of `done`, so the tree alone is returned.
  unfoldable pub done : MerkleTree → MerkleTree
  unfolding collapse
  done m =
      let (m', fine) = collapse (m.max_level - leaf_level) leaf_level m in
      if fine then finish m' else m'

pub record RangeQueryResultsHelper : Type 0 where
  pub pending_results : List KvRead
  pub mt : Option MerkleTree
  pub max_degree : ℕ
  pub hashing_enabled : Bool

unfoldable pub new_range_query_results_helper : Bool → ℕ → Outcome RangeQueryResultsHelper
unfolding new_merkle_tree
new_range_query_results_helper false max_degree =
    ok
      (record { pending_results = []; mt = none; max_degree = max_degree; hashing_enabled = false })
new_range_query_results_helper true max_degree = do
  mt ← new_merkle_tree max_degree
  ok (record {
    pending_results = [];
    mt = some mt;
    max_degree = max_degree;
    hashing_enabled = true;
  })

module _ (hasher : Hasher) where
  open hasher use {hash, serialize_kv_reads}

  -- A nil tree is dereferenced by the update.
  abbrev update_tree : RangeQueryResultsHelper → Bytes → Outcome (RangeQueryResultsHelper × Bool)
  update_tree helper h = elim helper.mt [
    | none ↦ panic
    | some mt ↦ ok (record helper { pending_results = []; mt = some (update hasher mt h) }, true)
  ]

  -- The flag tells that there was no error.
  unfoldable pub process_pending_results :
      RangeQueryResultsHelper → Outcome (RangeQueryResultsHelper × Bool)
  unfolding update
  process_pending_results helper = elim (serialize_kv_reads helper.pending_results) [
    | none ↦ ok (helper, false)
    | some b ↦ elim (hash b) [
      | none ↦ ok (record helper { pending_results = [] }, false)
      | some h ↦ update_tree helper h
    ]
  ]

  unfoldable pub add_result :
      RangeQueryResultsHelper → KvRead → Outcome (RangeQueryResultsHelper × Bool)
  unfolding process_pending_results
  add_result helper kv_read =
      let helper' = record helper { pending_results = helper.pending_results ++ kv_read ∷ [] } in
      if helper.hashing_enabled && ltb helper.max_degree (uint32 (length helper'.pending_results))
      then process_pending_results helper'
      else ok (helper', true)

  abbrev summary_of : RangeQueryResultsHelper → Outcome (Option QueryReadsMerkleSummary)
  summary_of helper = elim helper.mt [ none ↦ panic | some mt ↦ ok (some (get_summary mt)) ]

  unfoldable pub get_merkle_summary :
      RangeQueryResultsHelper → Outcome (Option QueryReadsMerkleSummary)
  unfolding get_summary
  get_merkle_summary helper = if helper.hashing_enabled then summary_of helper else ok none

  abbrev finish_results :
      RangeQueryResultsHelper × Bool → Outcome (List KvRead × Option QueryReadsMerkleSummary)
  finish_results (helper, false) = err []
  finish_results (helper, true) = elim helper.mt [
    | none ↦ panic
    | some mt ↦ ok (helper.pending_results, some (get_summary (done hasher mt)))
  ]

  abbrev process_rest : RangeQueryResultsHelper → Outcome (RangeQueryResultsHelper × Bool)
  process_rest helper = elim helper.pending_results [
    | [] ↦ ok (helper, true)
    | r ∷ rs ↦ process_pending_results helper
  ]

  -- The final pending results and the summary of the hashes.
  unfoldable pub done_results :
      RangeQueryResultsHelper → Outcome (List KvRead × Option QueryReadsMerkleSummary)
  unfolding is_empty process_pending_results get_summary done
  done_results helper = elim helper.hashing_enabled [
    | false ↦ ok (helper.pending_results, none)
    | true ↦ elim helper.mt [
      | none ↦ panic
      | some mt ↦
          if is_empty mt
          then ok (helper.pending_results, none)
          else process_rest helper >>= finish_results
    ]
  ]
