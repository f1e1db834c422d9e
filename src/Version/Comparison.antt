-- ===== src/Version/Comparison.antt =====
-- `Compare` and `AreSame` against the lexicographic order of heights.
use fabric.Prelude.{
  ℕ, ◌+◌, ◌≤◌, ◌<◌, ◌^◌, ◌≡◌, ◌↔◌, Ordering, compare, Option, none, some, true, arith,
}
use fabric.Version.{Height, IsUint64, compare_height, are_same}

-- The block numbers decide, and in one block the indices do.
abbrev pub compare_lex : Height → Height → Ordering
compare_lex a b = elim (compare a.block_num b.block_num) [
  | Ordering.lt ↦ Ordering.lt
  | Ordering.gt ↦ Ordering.gt
  | Ordering.eq ↦ compare a.tx_num b.tx_num
]

-- Two numbers that are less than 2^63 apart.
pub record IsNear (m n : ℕ) : Type 0 where
  pub above : m < n + 2 ^ 63
  pub below : n < m + 2 ^ 63

-- For heights of uint64 whose block numbers and whose indices are less than 2^63 apart, `Compare`
-- is the lexicographic order.
pub compare_height-lex :
    (a b : Height)
    → IsUint64 a
    → IsUint64 b
    → IsNear a.block_num b.block_num
    → IsNear a.tx_num b.tx_num
    → compare_height a b ≡ compare_lex a b
unfolding compare_height
compare_height-lex a b ua ub nb nt = ground arith

-- For heights of uint64 with `a` at least 2^63 blocks past `b`, `Compare` answers that `a` is the lower one.
pub compare_height_far :
    (a b : Height)
    → IsUint64 a
    → b.block_num + 2 ^ 63 ≤ a.block_num
    → compare_height a b ≡ Ordering.lt
unfolding compare_height
compare_height_far a b ua far = ground arith

-- `Compare` never mistakes two different heights for equal ones.
compare_height_eq : (a b : Height) → (compare_height a b ≡ Ordering.eq) ↔ (a ≡ b)
unfolding compare_height
compare_height_eq a b = ground arith

-- `AreSame` holds exactly of equal heights, and of two that are nil.
pub are_same_iff : (a b : Option Height) → (are_same a b ≡ true) ↔ (a ≡ b)
unfolding are_same
are_same_iff none none = ground arith
are_same_iff none (some b) = ground arith
are_same_iff (some a) none = ground arith
are_same_iff (some a) (some b) = ground (arith, compare_height_eq a b)
