-- ===== src/Version/Serialization.antt =====
-- Serialized heights: nothing is lost, and the order of bytes is the order of heights.
use fabric.Prelude.{
  ℕ, ◌<◌, ◌^◌, ◌≡◌, ◌⊎◌, inl, inr, ◌++◌, arith, length, [], length-append, drop-append, ap,
  Ordering,
}
use mathlib.Core.List.{append_assoc}
use fabric.Prelude.Bytes.{Bytes, Before, compare_bytes-append_left}
use fabric.Prelude.Outcome.{ok}
use fabric.Codec.{Varint, encode_order_preserving_var_uint64}
use fabric.Codec.RoundTrip.{decode-encode}
use fabric.Codec.Order.{encode-Before}
use fabric.Version.Comparison.{compare_lex}
use fabric.Version.{Height, IsUint64, to_bytes, new_height_from_bytes}

-- Reading a height of uint64 from its serialized form, whatever follows it, gives the height and
-- the count of its bytes.
pub from_bytes-to_bytes :
    (v : Varint) (h : Height) (rest : Bytes)
    → IsUint64 h
    → (bs : Bytes) × (to_bytes v h ≡ ok bs)
      × (new_height_from_bytes v (bs ++ rest) ≡ ok (h, length bs))
unfolding to_bytes new_height_from_bytes
from_bytes-to_bytes v h rest u =
    let (y, ey, dy) = decode-encode v h.tx_num rest u.tx_fits in
    let (x, ex, dx) = decode-encode v h.block_num (y ++ rest) u.block_fits in
    (
      x ++ y,
      ground (arith, ex, ey),
      rw (append_assoc, dx, drop-append x (y ++ rest), dy, length-append x y),
    )

lex_cases :
    (a b : Height)
    → compare_lex a b ≡ Ordering.lt
    → (a.block_num < b.block_num) ⊎ ((a.block_num ≡ b.block_num) × (a.tx_num < b.tx_num))
lex_cases a b h = ground arith

ok-injective : (x y : Bytes) → ok x ≡ ok y → x ≡ y
ok-injective x y h = cc

same_block :
    (v : Varint) (a b : ℕ) (x y z r s : Bytes)
    → a < b
    → b < 2 ^ 64
    → encode_order_preserving_var_uint64 v a ≡ ok x
    → encode_order_preserving_var_uint64 v b ≡ ok y
    → Before ((z ++ x) ++ r) ((z ++ y) ++ s)
same_block v a b x y z r s h hb ex ey =
    rw (append_assoc z x r, append_assoc z y s, compare_bytes-append_left z)
      (encode-Before v a b r s x y h hb ex ey)

-- Of two heights of uint64 the one that is lower in the lexicographic order has the serialized
-- form that comes first in the order of bytes, whatever follows either form.
pub to_bytes-Before :
    (v : Varint) (a b : Height) (r s x y : Bytes)
    → IsUint64 a
    → IsUint64 b
    → compare_lex a b ≡ Ordering.lt
    → to_bytes v a ≡ ok x
    → to_bytes v b ≡ ok y
    → Before (x ++ r) (y ++ s)
unfolding to_bytes
to_bytes-Before v a b r s x y ua ub l ea eb =
    let (pa, epa, _) = decode-encode v a.block_num [] ua.block_fits in
    let (ta, eta, _) = decode-encode v a.tx_num [] ua.tx_fits in
    let (pb, epb, _) = decode-encode v b.block_num [] ub.block_fits in
    let (tb, etb, _) = decode-encode v b.tx_num [] ub.tx_fits in
    let ex : x ≡ pa ++ ta = ground (arith, epa, eta, ea) in
    let ey : y ≡ pb ++ tb = ground (arith, epb, etb, eb) in
    elim (lex_cases a b l) [
      | inl blocks ↦
          rw (ex, ey)
            (rw (append_assoc pa ta r, append_assoc pb tb s)
              (encode-Before v a.block_num b.block_num (ta ++ r) (tb ++ s) pa pb blocks
                ub.block_fits epa epb))
      | inr (blocks, txs) ↦
          let e : pa ≡ pb =
            ok-injective pa pb (cc (epa, epb, ap (encode_order_preserving_var_uint64 v) blocks)) in
          rw (ex, ey, e) (same_block v a.tx_num b.tx_num ta tb pb r s txs ub.tx_fits eta etb)
    ]
