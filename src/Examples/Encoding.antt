-- ===== src/Examples/Encoding.antt =====
-- Concrete runs of common/ledger/util/util.go and of version.go.
use fabric.Prelude.{
  length, ℕ, ◌≡◌, refl, [], ◌∷◌, ◌++◌, arith, some, none, Ordering, ◌+◌, ◌^◌, ◌↔◌, true,
}
use fabric.Prelude.Bytes.{Bytes, Before}
use fabric.Prelude.Outcome.{ok}
use fabric.Codec.{Varint, encode_order_preserving_var_uint64, decode_order_preserving_var_uint64}
use fabric.Codec.BigEndian.{put_uint64}
use fabric.Codec.RoundTrip.{decode-encode}
use fabric.Codec.Order.{encode-Before}
use fabric.Version.{Height, to_bytes, new_height_from_bytes, compare_height, are_same}
use fabric.Version.Comparison.{compare_lex, compare_height-lex, compare_height_far, are_same_iff}
use fabric.Version.Serialization.{from_bytes-to_bytes, to_bytes-Before}

-- A varint of one byte, as every number below 128 has.
abbrev head_of : Bytes → ℕ × ℕ
head_of [] = (0, 0)
head_of (n ∷ rest) = (n, 1)

abbrev pub one_byte : Varint
one_byte = record {
  encode_varint = λ n. n ∷ [];
  decode_varint = head_of;
  encode_small = λ n h. refl;
  decode_small = λ n rest h. refl;
}

abbrev low : Height
low = record { block_num = 2; tx_num = 300 }

abbrev high : Height
high = record { block_num = 70000; tx_num = 1 }

abbrev far : Height
far = record { block_num = 2 ^ 63 + 2; tx_num = 0 }

encode_300 : encode_order_preserving_var_uint64 one_byte 300 ≡ ok (2 ∷ 1 ∷ 44 ∷ [])
unfolding encode_order_preserving_var_uint64 put_uint64
encode_300 = refl

decode-encode_example :
    (bs : Bytes) × (encode_order_preserving_var_uint64 one_byte 300 ≡ ok bs)
    × (decode_order_preserving_var_uint64 one_byte (bs ++ (7 ∷ [])) ≡ ok (300, length bs))
decode-encode_example = decode-encode one_byte 300 (7 ∷ []) (omega arith)

encode-Before_example : Before ((1 ∷ 9 ∷ []) ++ (5 ∷ [])) ((2 ∷ 1 ∷ 44 ∷ []) ++ [])
unfolding encode_order_preserving_var_uint64 put_uint64
encode-Before_example =
    encode-Before one_byte 9 300 (5 ∷ []) [] (1 ∷ 9 ∷ []) (2 ∷ 1 ∷ 44 ∷ []) (omega arith)
      (omega arith) refl refl

from_bytes-to_bytes_example :
    (bs : Bytes) × (to_bytes one_byte low ≡ ok bs)
    × (new_height_from_bytes one_byte (bs ++ (1 ∷ [])) ≡ ok (low, length bs))
from_bytes-to_bytes_example =
    from_bytes-to_bytes one_byte low (1 ∷ [])
      (record { block_fits = omega arith; tx_fits = omega arith })

to_bytes-Before_example :
    Before ((1 ∷ 2 ∷ 2 ∷ 1 ∷ 44 ∷ []) ++ []) ((3 ∷ 1 ∷ 17 ∷ 112 ∷ 1 ∷ 1 ∷ []) ++ [])
unfolding to_bytes encode_order_preserving_var_uint64 put_uint64
to_bytes-Before_example =
    to_bytes-Before one_byte low high [] [] (1 ∷ 2 ∷ 2 ∷ 1 ∷ 44 ∷ [])
      (3 ∷ 1 ∷ 17 ∷ 112 ∷ 1 ∷ 1 ∷ []) (record { block_fits = omega arith; tx_fits = omega arith })
      (record { block_fits = omega arith; tx_fits = omega arith }) refl refl refl

compare_height-lex_example : compare_height low high ≡ compare_lex low high
compare_height-lex_example =
    compare_height-lex low high (record { block_fits = omega arith; tx_fits = omega arith })
      (record { block_fits = omega arith; tx_fits = omega arith })
      (record { above = omega arith; below = omega arith })
      (record { above = omega arith; below = omega arith })

compare_height_far_example : compare_height far low ≡ Ordering.lt
compare_height_far_example =
    compare_height_far far low (record { block_fits = omega arith; tx_fits = omega arith })
      (omega arith)

are_same_iff_example : (are_same (some low) none ≡ true) ↔ (some low ≡ none)
are_same_iff_example = are_same_iff (some low) none
