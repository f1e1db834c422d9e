-- ===== src/Prelude/Bytes.antt =====
-- Go strings and byte slices: lists of bytes, compared as `strings.Compare` and `bytes.Compare` do.
use Prim.Native.Nat.{ℕ, compare, Ordering}
use Prim.Native.Char.{code}
use Prim.Native.String.{String}
use mathlib.Core.Path.{◌≡◌, refl, ap}
use mathlib.Core.Logic.{◌↔◌, ◌≢◌}
use mathlib.Core.Bool.{Bool, true, false, ◌&&◌}
use mathlib.Core.List.{List, [], ◌∷◌, ◌++◌}
use native.Mathlib.Omega.{arith}
use fabric.Prelude.Tests.{Eq, nat_eq}

abbrev pub Bytes : Type 0
Bytes = List ℕ

-- The bytes of an ASCII literal.
abbrev pub codes : String → Bytes
codes String.[] = []
codes (String.◌∷◌ c s) = code c ∷ codes s

unfoldable pub bytes_eq : Bytes → Bytes → Bool
bytes_eq [] [] = true
bytes_eq [] (y ∷ ys) = false
bytes_eq (x ∷ xs) [] = false
bytes_eq (x ∷ xs) (y ∷ ys) = nat_eq x y && bytes_eq xs ys

pub bytes_eq_iff : (a b : Bytes) → (bytes_eq a b ≡ true) ↔ (a ≡ b)
unfolding bytes_eq
bytes_eq_iff [] [] = ground arith
bytes_eq_iff [] (y ∷ ys) = ground arith
bytes_eq_iff (x ∷ xs) [] = ground arith
bytes_eq_iff (x ∷ xs) (y ∷ ys) = ground (arith, bytes_eq_iff xs ys)

instance abbrev pub bytes_Eq : Eq Bytes
bytes_Eq = record { beq = bytes_eq; beq_iff = bytes_eq_iff }

-- The order of the first difference; a proper prefix comes first.
unfoldable pub compare_bytes : Bytes → Bytes → Ordering
compare_bytes [] [] = Ordering.eq
compare_bytes [] (y ∷ ys) = Ordering.lt
compare_bytes (x ∷ xs) [] = Ordering.gt
compare_bytes (x ∷ xs) (y ∷ ys) = elim (compare x y) [
  | Ordering.lt ↦ Ordering.lt
  | Ordering.gt ↦ Ordering.gt
  | Ordering.eq ↦ compare_bytes xs ys
]

pub compare_bytes_refl : (a : Bytes) → compare_bytes a a ≡ Ordering.eq
unfolding compare_bytes
compare_bytes_refl [] = refl
compare_bytes_refl (x ∷ xs) = ground (arith, compare_bytes_refl xs)

pub compare_bytes_eq : (a b : Bytes) → compare_bytes a b ≡ Ordering.eq → a ≡ b
unfolding compare_bytes
compare_bytes_eq [] [] h = refl
compare_bytes_eq [] (y ∷ ys) h = cc
compare_bytes_eq (x ∷ xs) [] h = cc
compare_bytes_eq (x ∷ xs) (y ∷ ys) h = ground (arith, compare_bytes_eq xs ys)

-- The strict order of keys.
abbrev pub Before : Bytes → Bytes → Type 0
Before a b = compare_bytes a b ≡ Ordering.lt

pub compare_bytes_swap : (a b : Bytes) → (compare_bytes a b ≡ Ordering.gt) ↔ Before b a
unfolding compare_bytes
compare_bytes_swap [] [] = ground arith
compare_bytes_swap [] (y ∷ ys) = ground arith
compare_bytes_swap (x ∷ xs) [] = ground arith
compare_bytes_swap (x ∷ xs) (y ∷ ys) = ground (arith, compare_bytes_swap xs ys)

pub Before-trans : (a b c : Bytes) → Before a b → Before b c → Before a c
unfolding compare_bytes
Before-trans [] [] c p q = cc
Before-trans [] (y ∷ ys) [] p q = cc
Before-trans [] (y ∷ ys) (z ∷ zs) p q = refl
Before-trans (x ∷ xs) [] c p q = cc
Before-trans (x ∷ xs) (y ∷ ys) [] p q = cc
Before-trans (x ∷ xs) (y ∷ ys) (z ∷ zs) p q = ground (arith, Before-trans xs ys zs)

pub Before-ne : (a b : Bytes) → Before a b → a ≢ b
Before-ne a b h e = cc (h, compare_bytes_refl a, ap (compare_bytes a) e)

pub compare_bytes-append_left :
    (p a b : Bytes) → compare_bytes (p ++ a) (p ++ b) ≡ compare_bytes a b
unfolding compare_bytes
compare_bytes-append_left [] a b = refl
compare_bytes-append_left (x ∷ p) a b = ground (arith, compare_bytes-append_left p a b)
