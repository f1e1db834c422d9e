-- ===== src/Codec/BigEndian.antt =====
-- `binary.BigEndian`: eight bytes for a uint64, most significant first.
use fabric.Prelude.{
  ℕ, zero, suc, ◌+◌, ◌*◌, ◌/◌, ◌%◌, ◌≤◌, ◌<◌, ◌^◌, ◌≡◌, refl, [], ◌∷◌, ◌++◌, arith, nat_eq, length,
  replicate, All, if◌then◌else◌, Ordering, ap,
}
use fabric.Prelude.Bytes.{Bytes, compare_bytes}

-- The value of one unit in front of `n` bytes.
abbrev pub place : ℕ → ℕ
place zero = 1
place (suc n) = 256 * place n

unfoldable pub put_uint64 : ℕ → Bytes
put_uint64 n =
    (n / 2 ^ 56 % 256)
    ∷ (n / 2 ^ 48 % 256)
    ∷ (n / 2 ^ 40 % 256)
    ∷ (n / 2 ^ 32 % 256)
    ∷ (n / 2 ^ 24 % 256)
    ∷ (n / 2 ^ 16 % 256)
    ∷ (n / 2 ^ 8 % 256)
    ∷ (n % 256)
    ∷ []

unfoldable pub uint64 : Bytes → ℕ
uint64 [] = 0
uint64 (b ∷ bs) = b * place (length bs) + uint64 bs

abbrev pub IsBytes : Bytes → Type 0
IsBytes = All (λ b. b < 256)

pub put_uint64-IsBytes : (n : ℕ) → IsBytes (put_uint64 n)
unfolding put_uint64
put_uint64-IsBytes n = omega arith

pub length-put_uint64 : (n : ℕ) → length (put_uint64 n) ≡ 8
unfolding put_uint64
length-put_uint64 n = refl

pub uint64-put_uint64 : (n : ℕ) → n < 2 ^ 64 → uint64 (put_uint64 n) ≡ n
unfolding put_uint64 uint64
uint64-put_uint64 n h = omega arith

pub place-pos : (n : ℕ) → 0 < place n
place-pos zero = omega arith
place-pos (suc n) = omega (arith, place-pos n)

pub place_mono : (m n : ℕ) → m ≤ n → place m ≤ place n
place_mono zero n h = omega (arith, place-pos n)
place_mono (suc m) zero h = absurd (omega arith)
place_mono (suc m) (suc n) h = omega (arith, place_mono m n (omega arith))

pub uint64-lt-place : (bs : Bytes) → IsBytes bs → uint64 bs < place (length bs)
unfolding uint64
uint64-lt-place [] h = omega arith
uint64-lt-place (b ∷ bs) h = grind (arith, uint64-lt-place bs h.1)

-- The bytes behind the leading zeros.
unfoldable pub trim : Bytes → Bytes
trim [] = []
trim (b ∷ bs) = if nat_eq b 0 then trim bs else b ∷ bs

pub uint64-trim : (bs : Bytes) → uint64 (trim bs) ≡ uint64 bs
unfolding uint64 trim
uint64-trim [] = refl
uint64-trim (b ∷ bs) = ground (arith, uint64-trim bs)

pub trim-IsBytes : (bs : Bytes) → IsBytes bs → IsBytes (trim bs)
unfolding trim
trim-IsBytes [] h = h
trim-IsBytes (b ∷ bs) h = ground (arith, trim-IsBytes bs h.1)

pub length-trim : (bs : Bytes) → length (trim bs) ≤ length bs
unfolding trim
length-trim [] = omega arith
length-trim (b ∷ bs) = ground (arith, length-trim bs)

pub length-trim-put_uint64 : (n : ℕ) → length (trim (put_uint64 n)) ≤ 8
length-trim-put_uint64 n = omega (arith, length-trim (put_uint64 n), length-put_uint64 n)

-- Trimmed bytes are none, or the first of them is not zero.
pub place-le-trim : (bs : Bytes) (n : ℕ) → length (trim bs) ≡ suc n → place n ≤ uint64 (trim bs)
unfolding trim uint64
place-le-trim [] n h = absurd (omega arith)
place-le-trim (zero ∷ bs) n h = place-le-trim bs n h
place-le-trim (suc b ∷ bs) n h = let e : length bs ≡ n = ground arith in grind (arith, ap place e)

pub uint64-zeros : (n : ℕ) (bs : Bytes) → uint64 (replicate n 0 ++ bs) ≡ uint64 bs
unfolding uint64
uint64-zeros zero bs = refl
uint64-zeros (suc n) bs = omega (arith, uint64-zeros n bs)

leading-le : (x y p a b : ℕ) → x * p + a < y * p + b → b < p → x ≤ y
leading-le x y p a b h l = grind arith

-- Bytes of one length compare as the numbers that they stand for.
pub compare_bytes-uint64 :
    (xs ys r s : Bytes)
    → length xs ≡ length ys
    → IsBytes xs
    → IsBytes ys
    → uint64 xs < uint64 ys
    → compare_bytes (xs ++ r) (ys ++ s) ≡ Ordering.lt
unfolding uint64 compare_bytes
compare_bytes-uint64 [] [] r s e hx hy h = absurd (omega arith)
compare_bytes-uint64 [] (y ∷ ys) r s e hx hy h = absurd (omega arith)
compare_bytes-uint64 (x ∷ xs) [] r s e hx hy h = absurd (omega arith)
compare_bytes-uint64 (x ∷ xs) (y ∷ ys) r s e hx hy h =
    let e' : length xs ≡ length ys = omega arith in
    let ps : place (length xs) ≡ place (length ys) = ap place e' in
    let h' : x * place (length ys) + uint64 xs < y * place (length ys) + uint64 ys =
      omega (arith, ap (λ (t : ℕ). x * t) ps) in
    ground (
      arith,
      leading-le x y (place (length ys)) (uint64 xs) (uint64 ys) h' (uint64-lt-place ys hy.1),
      ap (λ (t : ℕ). t * place (length ys)),
      compare_bytes-uint64 xs ys r s e' hx.1 hy.1,
    )
