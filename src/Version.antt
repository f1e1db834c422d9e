-- ===== src/Version.antt =====
-- core/ledger/kvledger/txmgmt/version/version.go: the height of a transaction, a block number and
-- the transaction's index in the block, and its serialized form.
pub mod Comparison
pub mod Serialization
use fabric.Prelude.{
  ℕ, ◌+◌, ◌-◌, ◌%◌, ◌^◌, ◌<◌, Ordering, Option, none, some, Bool, true, false, ◌&&◌, ◌++◌, ltb,
  nat_eq, drop, if◌then◌else◌,
}
use fabric.Prelude.Bytes.{Bytes}
use fabric.Prelude.Outcome.{Outcome, ok, ◌>>=◌}
use fabric.Codec.{Varint, encode_order_preserving_var_uint64, decode_order_preserving_var_uint64}

pub record Height : Type 0 where
  pub block_num : ℕ
  pub tx_num : ℕ

-- Both fields are values of a uint64.
pub record IsUint64 (h : Height) : Type 0 where
  pub block_fits : h.block_num < 2 ^ 64
  pub tx_fits : h.tx_num < 2 ^ 64

-- The subtraction of two uint64 wraps around.
abbrev pub sub_uint64 : ℕ → ℕ → ℕ
sub_uint64 a b = (a + 2 ^ 64 - b) % 2 ^ 64

-- `int(x) > 0` for a uint64 `x`: the conversion reads `x` as a two's complement number.
abbrev pub int_pos : ℕ → Bool
int_pos x = ltb 0 x && ltb x (2 ^ 63)

abbrev sign : ℕ → Ordering
sign res = if int_pos res then Ordering.gt else Ordering.lt

-- -1, 0 and 1 are `lt`, `eq` and `gt`.
unfoldable pub compare_height : Height → Height → Ordering
compare_height h h1 =
    if nat_eq h.block_num h1.block_num
    then if nat_eq h.tx_num h1.tx_num then Ordering.eq else sign (sub_uint64 h.tx_num h1.tx_num)
    else sign (sub_uint64 h.block_num h1.block_num)

abbrev pub is_eq : Ordering → Bool
is_eq Ordering.eq = true
is_eq _ = false

unfoldable pub are_same : Option Height → Option Height → Bool
unfolding compare_height
are_same none none = true
are_same none (some h2) = false
are_same (some h1) none = false
are_same (some h1) (some h2) = is_eq (compare_height h1 h2)

module _ (v : Varint) where
  unfoldable pub to_bytes : Height → Outcome Bytes
  to_bytes h = do
    block_num_bytes ← encode_order_preserving_var_uint64 v h.block_num
    tx_num_bytes ← encode_order_preserving_var_uint64 v h.tx_num
    ok (block_num_bytes ++ tx_num_bytes)

  -- The height, and how many bytes it took. `n1` is never past the end of `b`.
  unfoldable pub new_height_from_bytes : Bytes → Outcome (Height × ℕ)
  new_height_from_bytes b = do
    (block_num, n1) ← decode_order_preserving_var_uint64 v b
    (tx_num, n2) ← decode_order_preserving_var_uint64 v (drop n1 b)
    ok (record { block_num = block_num; tx_num = tx_num }, n1 + n2)
