-- ===== src/BitVectorSupport/Search.antt =====
-- Counting and searching of Sawyer/BitVectorSupport.h. The offsets of the visitors count bits of
-- the range, so that they do not wrap around.
use Prim.Native.Nat.{bit_and, bit_xor}
use sawyer.Prelude.{
  ℕ, zero, suc, ◌+◌, ◌-◌, Bool, true, false, not, leb, ◌==◌, if◌then◌else◌, Option, none, some,
  ◌>>=◌, ◌>>◌, require, List,
}
use sawyer.Interval.{Interval, size}
use sawyer.BitVectorSupport.{bit_mask, process_const, process_const2}
use sawyer.BitVectorSupport.Traverse.{traverse, traverse_high}
use sawyer.BitVectorSupport.Pairs.{traverse2, traverse2_high}

-- for (i; n more; ++i) if (test(i)) return i
unfoldable pub scan_up : (ℕ → Option Bool) → ℕ → ℕ → Option (Option ℕ)
scan_up test i zero = some none
scan_up test i (suc n) =
    test i >>= λ b. elim b [ true ↦ some (some i) | false ↦ scan_up test (suc i) n ]

-- for (i = n; i > 0; --i) if (test(i - 1)) return i - 1
unfoldable pub scan_down : (ℕ → Option Bool) → ℕ → Option (Option ℕ)
scan_down test zero = some none
scan_down test (suc i) = test i >>= λ b. elim b [ true ↦ some (some i) | false ↦ scan_down test i ]

-- for (i; n more; ++i) if (test(i)) ++result
unfoldable pub count_up : (ℕ → Option Bool) → ℕ → ℕ → ℕ → Option ℕ
count_up test result i zero = some result
count_up test result i (suc n) =
    test i >>= λ b. count_up test (if b then suc result else result) (suc i) n

-- A visitor that searches upwards: `offset` and `result`.
abbrev pub Searching : Type 0
Searching = ℕ × Option ℕ

module _ (width : ℕ) where
  -- 0 != (word & bitMask(i, 1)), and its negation
  unfoldable pub is_set : ℕ → ℕ → Option Bool
  unfolding bit_mask
  is_set word i = bit_mask width i 1 >>= λ m. some (not (0 == bit_and word m))

  unfoldable pub is_clear : ℕ → ℕ → Option Bool
  unfolding bit_mask
  is_clear word i = bit_mask width i 1 >>= λ m. some (0 == bit_and word m)

  -- The answer of a visitor that has scanned a word upwards.
  unfoldable pub found_up : Searching → ℕ → Option ℕ → Searching × Bool
  found_up p nbits none = ((p.0 + nbits, p.1), false)
  found_up p nbits (some i) = ((p.0, some (p.0 + i)), true)

  -- The answer of one that has scanned it downwards. The offset is reduced already.
  unfoldable pub found_down : Searching → Option ℕ → Searching × Bool
  found_down p none = (p, false)
  found_down p (some i) = ((p.0, some (p.0 + i)), true)

  unfoldable pub least_set : Searching → ℕ → ℕ → Option (Searching × Bool)
  unfolding bit_mask scan_up is_set found_up
  least_set p word nbits = do
    m ← bit_mask width 0 nbits
    r ← (if not (0 == bit_and word m) then scan_up (is_set word) 0 nbits else some none)
    some (found_up p nbits r)

  unfoldable pub least_clear : Searching → ℕ → ℕ → Option (Searching × Bool)
  unfolding bit_mask scan_up is_clear found_up
  least_clear p word nbits = do
    m ← bit_mask width 0 nbits
    r ← (if not (m == bit_and word m) then scan_up (is_clear word) 0 nbits else some none)
    some (found_up p nbits r)

  unfoldable pub most_set : Searching → ℕ → ℕ → Option (Searching × Bool)
  unfolding bit_mask scan_down is_set found_down
  most_set p word nbits = do
    require (leb nbits p.0)
    m ← bit_mask width 0 nbits
    r ← (if not (0 == bit_and word m) then scan_down (is_set word) nbits else some none)
    some (found_down (p.0 - nbits, p.1) r)

  unfoldable pub most_clear : Searching → ℕ → ℕ → Option (Searching × Bool)
  unfolding bit_mask scan_down is_clear found_down
  most_clear p word nbits = do
    require (leb nbits p.0)
    m ← bit_mask width 0 nbits
    r ← (if not (m == bit_and word m) then scan_down (is_clear word) nbits else some none)
    some (found_down (p.0 - nbits, p.1) r)

  unfoldable pub count_set : ℕ → ℕ → ℕ → Option (ℕ × Bool)
  unfolding bit_mask count_up is_set
  count_set result word nbits = do
    m ← bit_mask width 0 nbits
    n ← (if not (0 == bit_and word m) then count_up (is_set word) result 0 nbits else some result)
    some (n, false)

  unfoldable pub count_clear : ℕ → ℕ → ℕ → Option (ℕ × Bool)
  unfolding bit_mask count_up is_clear
  count_clear result word nbits = do
    m ← bit_mask width 0 nbits
    n ← (if not (m == bit_and word m) then count_up (is_clear word) result 0 nbits else some result)
    some (n, false)

  unfoldable pub least_difference : Searching → ℕ → ℕ → ℕ → Option (Searching × Bool)
  unfolding bit_mask scan_up is_set found_up
  least_difference p w1 w2 nbits = do
    m ← bit_mask width 0 nbits
    r ←
        (if not (bit_and w1 m == bit_and w2 m)
          then scan_up (is_set (bit_xor w1 w2)) 0 nbits
          else some none)
    some (found_up p nbits r)

  unfoldable pub most_difference : Searching → ℕ → ℕ → ℕ → Option (Searching × Bool)
  unfolding bit_mask scan_down is_set found_down
  most_difference p w1 w2 nbits = do
    require (leb nbits p.0)
    m ← bit_mask width 0 nbits
    r ←
        (if not (bit_and w1 m == bit_and w2 m)
          then scan_down (is_set (bit_xor w1 w2)) nbits
          else some none)
    some (found_down (p.0 - nbits, p.1) r)

-- if (visitor.result) return range.least() + *visitor.result; return Nothing();
unfoldable pub position : Interval → Option ℕ → Option ℕ
position range none = none
position range (some i) = some (range.lo + i)

module _ (top width : ℕ) where
  unfoldable pub least_significant_set_bit : List ℕ → Interval → Option (Option ℕ)
  unfolding traverse least_set process_const position
  least_significant_set_bit words range = do
    r ← traverse top width (process_const width (least_set width)) (0, none) words range
    some (position range r.0.1)

  unfoldable pub least_significant_clear_bit : List ℕ → Interval → Option (Option ℕ)
  unfolding traverse least_clear process_const position
  least_significant_clear_bit words range = do
    r ← traverse top width (process_const width (least_clear width)) (0, none) words range
    some (position range r.0.1)

  unfoldable pub most_significant_set_bit : List ℕ → Interval → Option (Option ℕ)
  unfolding traverse_high most_set position size
  most_significant_set_bit words range = do
    p ← traverse_high top width (most_set width) (size top range, none) words range
    some (position range p.1)

  unfoldable pub most_significant_clear_bit : List ℕ → Interval → Option (Option ℕ)
  unfolding traverse_high most_clear position size
  most_significant_clear_bit words range = do
    p ← traverse_high top width (most_clear width) (size top range, none) words range
    some (position range p.1)

  unfoldable pub is_all_set : List ℕ → Interval → Option Bool
  unfolding least_significant_clear_bit
  is_all_set words range = least_significant_clear_bit words range >>= λ r.
      some (elim r [ none ↦ true | some i ↦ false ])

  unfoldable pub is_all_clear : List ℕ → Interval → Option Bool
  unfolding least_significant_set_bit
  is_all_clear words range =
      least_significant_set_bit words range >>= λ r. some (elim r [ none ↦ true | some i ↦ false ])

  unfoldable pub n_set : List ℕ → Interval → Option ℕ
  unfolding traverse count_set process_const
  n_set words range =
      traverse top width (process_const width (count_set width)) 0 words range >>= λ r. some r.0

  unfoldable pub n_clear : List ℕ → Interval → Option ℕ
  unfolding traverse count_clear process_const
  n_clear words range =
      traverse top width (process_const width (count_clear width)) 0 words range >>= λ r. some r.0

  unfoldable pub least_significant_difference :
      List ℕ → Interval → List ℕ → Interval → Option (Option ℕ)
  unfolding traverse2 least_difference process_const2
  least_significant_difference vec1 range1 vec2 range2 = do
    r ←
        traverse2 top width (process_const2 width (least_difference width)) (0, none) vec1 range1
          vec2 range2
    some r.0.1

  unfoldable pub most_significant_difference :
      List ℕ → Interval → List ℕ → Interval → Option (Option ℕ)
  unfolding traverse2_high most_difference size
  most_significant_difference vec1 range1 vec2 range2 = do
    p ←
        traverse2_high top width (most_difference width) (size top range1, none) vec1 range1 vec2
          range2
    some p.1

  unfoldable pub are_equal : List ℕ → Interval → List ℕ → Interval → Option Bool
  unfolding size least_significant_difference
  are_equal vec1 range1 vec2 range2 =
      if not (size top range1 == size top range2)
      then some false
      else (least_significant_difference vec1 range1 vec2 range2 >>= λ r.
          some (elim r [ none ↦ true | some i ↦ false ]))
