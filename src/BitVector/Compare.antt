-- ===== src/BitVector/Compare.antt =====
-- The comparisons of `BitVector` (Sawyer/BitVector.h). A name with `_all` is an overload for whole
-- vectors, one with `_within` for two ranges of one vector.
use sawyer.Prelude.{ℕ, Bool, Option, ◌>>◌}
use sawyer.Interval.{Interval}
use sawyer.BitVectorSupport.Compare
use sawyer.BitVectorSupport.Compare.{Comparison}
use sawyer.BitVector.{BitVector, hull, check_range}

module _ (top width : ℕ) where
  unfoldable pub is_equal_to_zero : BitVector → Interval → Option Bool
  unfolding hull check_range Compare.is_equal_to_zero
  is_equal_to_zero v range = check_range v range >> Compare.is_equal_to_zero top width v.words range

  unfoldable pub is_equal_to_zero_all : BitVector → Option Bool
  unfolding hull Compare.is_equal_to_zero
  is_equal_to_zero_all v = Compare.is_equal_to_zero top width v.words (hull v)

  unfoldable pub compare : BitVector → Interval → BitVector → Interval → Option Comparison
  unfolding hull check_range Compare.compare
  compare v range1 other range2 =
      check_range v range1
      >> check_range other range2
      >> Compare.compare top width v.words range1 other.words range2

  unfoldable pub compare_within : BitVector → Interval → Interval → Option Comparison
  unfolding hull check_range Compare.compare
  compare_within v range1 range2 =
      check_range v range1
      >> check_range v range2
      >> Compare.compare top width v.words range1 v.words range2

  unfoldable pub compare_all : BitVector → BitVector → Option Comparison
  unfolding hull Compare.compare
  compare_all v other = Compare.compare top width v.words (hull v) other.words (hull other)

  unfoldable pub compare_signed : BitVector → Interval → BitVector → Interval → Option Comparison
  unfolding hull check_range Compare.compare_signed
  compare_signed v range1 other range2 =
      check_range v range1
      >> check_range other range2
      >> Compare.compare_signed top width v.words range1 other.words range2

  unfoldable pub compare_signed_within : BitVector → Interval → Interval → Option Comparison
  unfolding hull check_range Compare.compare_signed
  compare_signed_within v range1 range2 =
      check_range v range1
      >> check_range v range2
      >> Compare.compare_signed top width v.words range1 v.words range2

  unfoldable pub compare_signed_all : BitVector → BitVector → Option Comparison
  unfolding hull Compare.compare_signed
  compare_signed_all v other =
      Compare.compare_signed top width v.words (hull v) other.words (hull other)
