-- ===== src/Codec.antt =====
-- common/ledger/util/util.go: the order-preserving encoding of a uint64. The first byte holds the
-- number of significant bytes, which follow, most significant first.
pub mod BigEndian
pub mod RoundTrip
pub mod Order
use fabric.Prelude.{
  ℕ, zero, suc, ◌+◌, ◌-◌, ◌<◌, ◌≡◌, Bool, List, [], ◌∷◌, ◌++◌, ltb, nat_eq, ◌||◌, length, take,
  drop, replicate, if◌then◌else◌,
}
use fabric.Prelude.Bytes.{Bytes}
use fabric.Prelude.Outcome.{Outcome, ok, panic, ◌>>=◌}
use BigEndian.{put_uint64, uint64}

-- `EncodeVarint` and `DecodeVarint` of github.com/golang/protobuf: a number below 128 is one byte.
-- `decode_varint` returns the number and how many bytes it took.
pub record Varint : Type 0 where
  pub encode_varint : ℕ → Bytes
  pub decode_varint : Bytes → ℕ × ℕ
  pub encode_small : (n : ℕ) → n < 128 → encode_varint n ≡ n ∷ []
  pub decode_small : (n : ℕ) (rest : Bytes) → n < 128 → decode_varint (n ∷ rest) ≡ (n, 1)

-- The loop over the eight bytes: `(startingIndex, size)` at the first byte that is not zero.
unfoldable pub first_nonzero : ℕ → Bytes → ℕ × ℕ
first_nonzero i [] = (0, 0)
first_nonzero i (b ∷ bs) = if nat_eq b 0 then first_nonzero (i + 1) bs else (i, 8 - i)

-- `sizeBytes[0]` with what follows it.
abbrev with_size : Bytes → Bytes → Outcome Bytes
with_size [] body = panic
with_size (s ∷ []) body = ok (s ∷ body)
with_size (s ∷ t ∷ r) body = panic

module _ (v : Varint) where
  open v use {encode_varint, decode_varint}

  unfoldable pub encode_order_preserving_var_uint64 : ℕ → Outcome Bytes
  unfolding first_nonzero
  encode_order_preserving_var_uint64 number =
      let bytes = put_uint64 number in
      let found = first_nonzero 0 bytes in
      with_size (encode_varint found.1) (take found.1 (drop found.0 bytes))

  -- Slicing out of bounds panics. Capacity beyond the length of a slice is not counted on.
  unfoldable pub decode_order_preserving_var_uint64 : Bytes → Outcome (ℕ × ℕ)
  decode_order_preserving_var_uint64 bytes =
      let size = (decode_varint bytes).0 in
      if ltb 8 size || ltb (length bytes) (size + 1)
      then panic
      else ok (uint64 (replicate (8 - size) 0 ++ take size (drop 1 bytes)), size + 1)
