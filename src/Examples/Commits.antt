-- ===== src/Examples/Commits.antt =====
-- A block that is validated and committed over a store of one entry.
use fabric.Prelude.{◌≡◌, refl, none, some, true, arith}
use fabric.Prelude.Bytes.{bytes_eq}
use fabric.Prelude.Assoc.{lookup, insert}
use fabric.Prelude.Outcome.{ok}
use fabric.Codec.BigEndian.{uint64}
use fabric.Codec.{decode_order_preserving_var_uint64}
use fabric.Version.{new_height_from_bytes, are_same}
use fabric.StateDb.{exists, put}
use fabric.LevelDb.Store.{KvBatch}
use fabric.LevelDb.Values.{decode_value}
use fabric.LevelDb.Versioned.{get_state}
use fabric.LevelDb.Versioned.Updates.{CanApply}
use fabric.TxMgr.{TxMgr, validate_and_prepare, commit}
use fabric.TxMgr.Commits.{IsCommitted, commit-IsCommitted}
use fabric.Examples.Encoding.{one_byte}
use fabric.Examples.Database.{chaincode-IsName}
use fabric.Examples.Levels.{one_level, stored, state_key, state_values, state_values-IsEncoded}
use fabric.Examples.Validation.{identity_hasher, decoder, with_b, block, block_done, later}

abbrev prepared : TxMgr
prepared = record { batch = some with_b; current_block = some block_done }

with_b-CanApply : CanApply with_b
with_b-CanApply = record {
  once = (tt, tt);
  named = (chaincode-IsName, tt);
  ns_ok = (
    (
      (tt, tt),
      ((λ b e. (later, refl, record { block_fits = omega arith; tx_fits = omega arith })), tt),
    ),
    tt,
  );
}

commit-IsCommitted_example :
    (kvs : KvBatch) × (commit one_byte
        (one_level state_key stored)
        identity_hasher
        decoder
        5
        prepared
      ≡ ok (kvs, record prepared { batch = none }))
    × IsCommitted one_byte
        (one_level state_key stored)
        identity_hasher
        decoder
        5
        state_values
        block
        block_done
        kvs
unfolding validate_and_prepare exists lookup are_same bytes_eq put insert get_state decode_value
    new_height_from_bytes decode_order_preserving_var_uint64 uint64
commit-IsCommitted_example =
    commit-IsCommitted one_byte (one_level state_key stored) identity_hasher decoder 5 state_values
      true block block_done with_b (record { batch = none; current_block = none }) prepared
      state_values-IsEncoded refl refl refl with_b-CanApply (omega arith)
