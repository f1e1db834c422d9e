-- ===== src/Codec/RoundTrip.antt =====
-- Decoding what was encoded gives the number back, and takes as many bytes as were written.
use native.Mathlib.Numerals.{add-one}
use fabric.Prelude.{
  ℕ, zero, suc, ◌+◌, ◌-◌, ◌<◌, ◌^◌, ◌≡◌, refl, [], ◌∷◌, ◌++◌, arith, length, take, drop,
  take-append, length-append, ap,
}
use fabric.Prelude.Bytes.{Bytes}
use fabric.Prelude.Outcome.{ok}
use fabric.Codec.{
  Varint, first_nonzero, encode_order_preserving_var_uint64, decode_order_preserving_var_uint64,
}
use fabric.Codec.BigEndian.{
  put_uint64, uint64-put_uint64, trim, uint64-trim, length-put_uint64, length-trim-put_uint64,
  uint64-zeros,
}

-- What the loop finds, from index `i`, over the bytes that are left.
first_nonzero-length :
    (i : ℕ) (bs : Bytes) → i + length bs ≡ 8 → (first_nonzero i bs).1 ≡ length (trim bs)
unfolding first_nonzero trim
first_nonzero-length i [] h = refl
first_nonzero-length i (b ∷ bs) h = ground (arith, first_nonzero-length (i + 1) bs)

take-length : (bs : Bytes) → take (length bs) bs ≡ bs
take-length [] = refl
take-length (b ∷ bs) = ap (◌∷◌ b) (take-length bs)

drop-suc : (i : ℕ) (all : Bytes) (b : ℕ) (bs : Bytes) → drop i all ≡ b ∷ bs → drop (suc i) all ≡ bs
drop-suc zero [] b bs h = cc
drop-suc zero (x ∷ xs) b bs h = ground arith
drop-suc (suc i) [] b bs h = cc
drop-suc (suc i) (x ∷ xs) b bs h = drop-suc i xs b bs h

-- The loop stands at index `i` of `all`, before `bs`.
first_nonzero-trim :
    (i : ℕ) (bs all : Bytes)
    → i + length bs ≡ 8
    → drop i all ≡ bs
    → take (first_nonzero i bs).1 (drop (first_nonzero i bs).0 all) ≡ trim bs
unfolding first_nonzero trim
first_nonzero-trim i [] all h d = refl
first_nonzero-trim i (zero ∷ bs) all h d =
    first_nonzero-trim (i + 1) bs all (omega arith) (rw add-one (drop-suc i all 0 bs d))
first_nonzero-trim i (suc b ∷ bs) all h d =
    let e : 8 - i ≡ suc (length bs) = omega arith in
    ground (arith, take-length (suc b ∷ bs), ap (λ (n : ℕ). take n (drop i all)) e)

module _ (v : Varint) where
  open v use {encode_varint, decode_varint, encode_small, decode_small}

  -- The bytes that are written: the count of the significant bytes, and these.
  pub encode-trim :
      (n : ℕ)
      → encode_order_preserving_var_uint64 v n
        ≡ ok (length (trim (put_uint64 n)) ∷ trim (put_uint64 n))
  unfolding encode_order_preserving_var_uint64
  encode-trim n = rw (
    first_nonzero-trim 0 (put_uint64 n) (put_uint64 n) (omega (arith, length-put_uint64 n)) refl,
    first_nonzero-length 0 (put_uint64 n) (omega (arith, length-put_uint64 n)),
    encode_small (length (trim (put_uint64 n))) (omega (arith, length-trim-put_uint64 n)),
  )

  pub decode-trim :
      (n : ℕ) (rest : Bytes)
      → n < 2 ^ 64
      → decode_order_preserving_var_uint64 v
          (length (trim (put_uint64 n)) ∷ trim (put_uint64 n) ++ rest)
        ≡ ok (n, suc (length (trim (put_uint64 n))))
  unfolding decode_order_preserving_var_uint64
  decode-trim n rest h =
      let t = trim (put_uint64 n) in
      rw (decode_small (length t) (t ++ rest) (omega (arith, length-trim-put_uint64 n))) (
        ground (
          arith,
          length-trim-put_uint64 n,
          length-append t rest,
          take-append t rest,
          uint64-zeros (8 - length t) t,
          uint64-trim (put_uint64 n),
          uint64-put_uint64 n h,
        ))

  -- Decoding a number below 2^64 that was encoded, whatever bytes follow it, gives the number back
  -- and the count of the bytes written.
  pub decode-encode :
      (n : ℕ) (rest : Bytes)
      → n < 2 ^ 64
      → (bs : Bytes) × (encode_order_preserving_var_uint64 v n ≡ ok bs)
        × (decode_order_preserving_var_uint64 v (bs ++ rest) ≡ ok (n, length bs))
  decode-encode n rest h =
      let t = trim (put_uint64 n) in (length t ∷ t, encode-trim n, decode-trim n rest h)
