-- ===== src/LevelDb/Values.antt =====
-- The binary form of a versioned value: core/ledger/kvledger/txmgmt/statedb/util.go.
use fabric.Prelude.{
  ◌≡◌, refl, Option, none, some, [], ◌++◌, ltb, length, drop, drop-append, length-append, arith,
  if◌then◌else◌,
}
use fabric.Prelude.Bytes.{Bytes}
use fabric.Prelude.Outcome.{Outcome, ok, panic, ◌>>=◌}
use fabric.Codec.{Varint}
use fabric.Version.{Height, IsUint64, to_bytes, new_height_from_bytes}
use fabric.Version.Serialization.{from_bytes-to_bytes}
use fabric.StateDb.{VersionedValue}

abbrev of_slice : Option Bytes → Bytes
of_slice none = []
of_slice (some b) = b

module _ (v : Varint) where
  -- A nil version is dereferenced.
  unfoldable pub encode_value : Option Bytes → Option Height → Outcome Bytes
  encode_value value none = panic
  encode_value value (some version) = to_bytes v version >>= λ b. ok (b ++ of_slice value)

  -- Slicing past the end panics.
  unfoldable pub decode_value : Bytes → Outcome VersionedValue
  decode_value encoded_value = new_height_from_bytes v encoded_value >>= λ (version, n).
      if ltb (length encoded_value) n
      then panic
      else ok (record { value = some (drop n encoded_value); version = some version })

  -- A value of a height of uint64 is encoded, and decoding gives the value and the height back.
  pub decode_value-encode_value :
      (value : Bytes) (version : Height)
      → IsUint64 version
      → (b : Bytes) × (encode_value (some value) (some version) ≡ ok b)
        × (decode_value b ≡ ok (record { value = some value; version = some version }))
  unfolding encode_value decode_value
  decode_value-encode_value value version u =
      let (b, e, d) = from_bytes-to_bytes v version value u in
      (b ++ value, rw e refl, rw (d, drop-append b value) (ground (arith, length-append b value)))
