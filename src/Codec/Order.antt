-- ===== src/Codec/Order.antt =====
-- The encoding keeps the order of numbers, whatever bytes follow.
use fabric.Prelude.{
  ℕ, zero, suc, ◌≤◌, ◌<◌, ◌^◌, ◌≡◌, ◌++◌, ◌∷◌, arith, length, refl, ◌∙◌, Bool-cases, leb, leb→le,
  inl, inr,
}
use fabric.Prelude.Bytes.{Bytes, Before, compare_bytes}
use fabric.Prelude.Outcome.{ok}
use fabric.Codec.{Varint, encode_order_preserving_var_uint64}
use fabric.Codec.RoundTrip.{encode-trim}
use fabric.Codec.BigEndian.{
  IsBytes, place_mono, put_uint64, uint64, put_uint64-IsBytes, uint64-put_uint64, trim, uint64-trim,
  trim-IsBytes, uint64-lt-place, place-le-trim, compare_bytes-uint64,
}

-- More significant bytes stand for a larger number.
size_mono :
    (xs ys : Bytes) (n : ℕ)
    → IsBytes ys
    → length (trim xs) ≡ suc n
    → length ys ≤ n
    → uint64 ys < uint64 (trim xs)
size_mono xs ys n h e l =
    omega (arith, place-le-trim xs n e, uint64-lt-place ys h, place_mono (length ys) n l)

-- The value of the significant bytes.
uint64-trim-put_uint64 : (n : ℕ) → n < 2 ^ 64 → uint64 (trim (put_uint64 n)) ≡ n
uint64-trim-put_uint64 n h = uint64-trim (put_uint64 n) ∙ uint64-put_uint64 n h

trim-put_uint64-IsBytes : (n : ℕ) → IsBytes (trim (put_uint64 n))
trim-put_uint64-IsBytes n = trim-IsBytes (put_uint64 n) (put_uint64-IsBytes n)

-- A smaller number has no more significant bytes.
sizes_mono :
    (a b k : ℕ)
    → a < b
    → b < 2 ^ 64
    → length (trim (put_uint64 a)) ≡ k
    → k ≤ length (trim (put_uint64 b))
sizes_mono a b zero h hb e = omega arith
sizes_mono a b (suc k) h hb e = elim (Bool-cases (leb (length (trim (put_uint64 b))) k)) [
  | inl le ↦ absurd (
      omega (
        arith,
        size_mono (put_uint64 a) (trim (put_uint64 b)) k (trim-put_uint64-IsBytes b) e
            (leb→le _ _ le),
        uint64-trim-put_uint64 a (omega arith),
        uint64-trim-put_uint64 b hb,
      ))
  | inr gt ↦ ground arith
]

trim-Before :
    (a b : ℕ) (r s : Bytes)
    → a < b
    → b < 2 ^ 64
    → Before
        (length (trim (put_uint64 a)) ∷ (trim (put_uint64 a) ++ r))
        (length (trim (put_uint64 b)) ∷ (trim (put_uint64 b) ++ s))
unfolding compare_bytes
trim-Before a b r s h hb = ground (
  arith,
  sizes_mono a b (length (trim (put_uint64 a))) h hb refl,
  uint64-trim-put_uint64 a (omega arith),
  uint64-trim-put_uint64 b hb,
  λ (e : length (trim (put_uint64 a)) ≡ length (trim (put_uint64 b))).
      compare_bytes-uint64 (trim (put_uint64 a)) (trim (put_uint64 b)) r s e
        (trim-put_uint64-IsBytes a) (trim-put_uint64-IsBytes b),
)

-- Of two numbers below 2^64 the smaller has the encoding that comes first in the order of bytes,
-- whatever follows either encoding.
pub encode-Before :
    (v : Varint) (a b : ℕ) (r s x y : Bytes)
    → a < b
    → b < 2 ^ 64
    → encode_order_preserving_var_uint64 v a ≡ ok x
    → encode_order_preserving_var_uint64 v b ≡ ok y
    → Before (x ++ r) (y ++ s)
encode-Before v a b r s x y h hb ea eb =
    ground (arith, encode-trim v a, encode-trim v b, trim-Before a b r s h hb)
