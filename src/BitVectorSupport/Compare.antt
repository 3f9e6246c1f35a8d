-- ===== src/BitVectorSupport/Compare.antt =====
-- Comparisons of Sawyer/BitVectorSupport.h. The results -1, 0 and 1 of the source are `less`,
-- `same` and `greater`.
use Prim.Native.Nat.{bit_and}
use sawyer.Prelude.{
  ℕ, ◌+◌, ◌-◌, Bool, true, false, not, ◌&&◌, ltb, ◌==◌, if◌then◌else◌, Option, none, some, ◌>>=◌,
  List,
}
use sawyer.Interval.{Interval, is_empty, size, base_size, hull_of}
use sawyer.BitVectorSupport.{bit_mask}
use sawyer.BitVectorSupport.Pairs.{traverse2_high}
use sawyer.BitVectorSupport.Access.{get}
use sawyer.BitVectorSupport.Search.{
  is_all_clear, most_significant_set_bit, most_significant_difference, n_set,
}

pub data Comparison : Type 0 where
  less : Comparison
  same : Comparison
  greater : Comparison

-- -1 * r
unfoldable pub opposite : Comparison → Comparison
opposite less = greater
opposite same = same
opposite greater = less

module _ (width : ℕ) where
  unfoldable pub compare_bits : Comparison → ℕ → ℕ → ℕ → Option (Comparison × Bool)
  unfolding bit_mask
  compare_bits result w1 w2 nbits = do
    m ← bit_mask width 0 nbits
    let tmp1 = bit_and w1 m
    let tmp2 = bit_and w2 m
    some (
        if ltb tmp1 tmp2
        then (less, true)
        else if ltb tmp2 tmp1
        then (greater, true)
        else (result, false))

module _ (top width : ℕ) where
  unfoldable pub is_equal_to_zero : List ℕ → Interval → Option Bool
  unfolding is_all_clear
  is_equal_to_zero vec1 range1 = is_all_clear top width vec1 range1

  -- `compare` of ranges of one size,
  unfoldable pub compare_same : List ℕ → Interval → List ℕ → Interval → Option Comparison
  unfolding traverse2_high compare_bits
  compare_same vec1 range1 vec2 range2 =
      traverse2_high top width (compare_bits width) same vec1 range1 vec2 range2

  -- and of any two ranges. Its recursive calls are on ranges of one size.
  unfoldable pub compare : List ℕ → Interval → List ℕ → Interval → Option Comparison
  unfolding is_empty size base_size hull_of is_equal_to_zero compare_same
  compare vec1 range1 vec2 range2 =
      if is_empty range1 && is_empty range2
      then some same
      else if is_empty range1
      then (is_equal_to_zero vec2 range2 >>= λ z. some (if z then same else less))
      else if is_empty range2
      then (is_equal_to_zero vec1 range1 >>= λ z. some (if z then same else greater))
      else if ltb (size top range1) (size top range2)
      then (do
        zero_high ← is_equal_to_zero vec2 (hull_of (range2.lo + size top range1) range2.hi)
        low ← base_size top range2.lo (size top range1)
        (if not zero_high then some less else compare_same vec1 range1 vec2 low))
      else if ltb (size top range2) (size top range1)
      then (do
        zero_high ← is_equal_to_zero vec1 (hull_of (range1.lo + size top range2) range1.hi)
        low ← base_size top range1.lo (size top range2)
        (if not zero_high then some greater else compare_same vec1 low vec2 range2))
      else compare_same vec1 range1 vec2 range2

  -- `compareSigned` with an empty range on the left: the sign of the second number is turned.
  unfoldable pub compare_zero : List ℕ → Interval → Option Comparison
  unfolding most_significant_set_bit
  compare_zero vec2 range2 = do
    mssb ← most_significant_set_bit top width vec2 range2
    some (elim mssb [ none ↦ same | some i ↦ if i == range2.hi then greater else less ])

  -- `compareSigned` of two ranges of one size, which are not empty,
  unfoldable pub compare_signed_same : List ℕ → Interval → List ℕ → Interval → Option Comparison
  unfolding get compare most_significant_difference
  compare_signed_same vec1 range1 vec2 range2 = do
    neg1 ← get top width vec1 range1.hi
    neg2 ← get top width vec2 range2.hi
    (if not neg1 && not neg2
        then compare vec1 range1 vec2 range2
        else if neg1 && neg2
        then (do
          diff ← most_significant_difference top width vec1 range1 vec2 range2
          elim diff [
            | none ↦ some same
            | some i ↦
                get top width vec1 (range1.lo + i) >>= λ b. some (if b then greater else less)
          ])
        else if neg1
        then some less
        else some greater)

  -- where the first is the shorter one,
  unfoldable pub compare_signed_shorter : List ℕ → Interval → List ℕ → Interval → Option Comparison
  unfolding size base_size hull_of get compare n_set compare_signed_same
  compare_signed_shorter vec1 range1 vec2 range2 = do
    let hi = hull_of (range2.lo + size top range1) range2.hi
    neg1 ← get top width vec1 range1.hi
    neg2 ← get top width vec2 range2.hi
    (if not neg1 && not neg2
        then compare vec1 range1 vec2 range2
        else if neg1 && neg2
        then (do
          n ← n_set top width vec2 hi
          b ← (if n == size top hi then get top width vec2 (hi.lo - 1) else some false)
          low ← base_size top range2.lo (size top range1)
          (if b then compare_signed_same vec1 range1 vec2 low else some greater))
        else if neg1
        then some less
        else some greater)

  -- and of any two. The recursive calls of the source are on the cases above.
  unfoldable pub compare_signed : List ℕ → Interval → List ℕ → Interval → Option Comparison
  unfolding is_empty size opposite compare_zero compare_signed_same compare_signed_shorter
  compare_signed vec1 range1 vec2 range2 =
      if is_empty range1 && is_empty range2
      then some same
      else if is_empty range1
      then compare_zero vec2 range2
      else if is_empty range2
      then (compare_zero vec1 range1 >>= λ r. some (opposite r))
      else if ltb (size top range1) (size top range2)
      then compare_signed_shorter vec1 range1 vec2 range2
      else if ltb (size top range2) (size top range1)
      then (compare_signed_shorter vec2 range2 vec1 range1 >>= λ r. some (opposite r))
      else compare_signed_same vec1 range1 vec2 range2
