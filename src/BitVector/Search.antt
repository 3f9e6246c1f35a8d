-- ===== src/BitVector/Search.antt =====
-- The counting and searching of `BitVector` (Sawyer/BitVector.h). A name with `_all` is an overload
-- for whole vectors, one with `_within` for two ranges of one vector.
use sawyer.Prelude.{ℕ, Bool, Option, ◌>>◌}
use sawyer.Interval.{Interval}
use sawyer.BitVectorSupport.Search
use sawyer.BitVector.{BitVector, hull, check_range}

module _ (top width : ℕ) where
  unfoldable pub least_significant_set_bit : BitVector → Interval → Option (Option ℕ)
  unfolding hull check_range Search.least_significant_set_bit
  least_significant_set_bit v range =
      check_range v range >> Search.least_significant_set_bit top width v.words range

  unfoldable pub least_significant_set_bit_all : BitVector → Option (Option ℕ)
  unfolding hull Search.least_significant_set_bit
  least_significant_set_bit_all v = Search.least_significant_set_bit top width v.words (hull v)

  unfoldable pub least_significant_clear_bit : BitVector → Interval → Option (Option ℕ)
  unfolding hull check_range Search.least_significant_clear_bit
  least_significant_clear_bit v range =
      check_range v range >> Search.least_significant_clear_bit top width v.words range

  unfoldable pub least_significant_clear_bit_all : BitVector → Option (Option ℕ)
  unfolding hull Search.least_significant_clear_bit
  least_significant_clear_bit_all v = Search.least_significant_clear_bit top width v.words (hull v)

  unfoldable pub most_significant_set_bit : BitVector → Interval → Option (Option ℕ)
  unfolding hull check_range Search.most_significant_set_bit
  most_significant_set_bit v range =
      check_range v range >> Search.most_significant_set_bit top width v.words range

  unfoldable pub most_significant_set_bit_all : BitVector → Option (Option ℕ)
  unfolding hull Search.most_significant_set_bit
  most_significant_set_bit_all v = Search.most_significant_set_bit top width v.words (hull v)

  unfoldable pub most_significant_clear_bit : BitVector → Interval → Option (Option ℕ)
  unfolding hull check_range Search.most_significant_clear_bit
  most_significant_clear_bit v range =
      check_range v range >> Search.most_significant_clear_bit top width v.words range

  unfoldable pub most_significant_clear_bit_all : BitVector → Option (Option ℕ)
  unfolding hull Search.most_significant_clear_bit
  most_significant_clear_bit_all v = Search.most_significant_clear_bit top width v.words (hull v)

  unfoldable pub is_all_set : BitVector → Interval → Option Bool
  unfolding hull check_range Search.is_all_set
  is_all_set v range = check_range v range >> Search.is_all_set top width v.words range

  unfoldable pub is_all_set_all : BitVector → Option Bool
  unfolding hull Search.is_all_set
  is_all_set_all v = Search.is_all_set top width v.words (hull v)

  unfoldable pub is_all_clear : BitVector → Interval → Option Bool
  unfolding hull check_range Search.is_all_clear
  is_all_clear v range = check_range v range >> Search.is_all_clear top width v.words range

  unfoldable pub is_all_clear_all : BitVector → Option Bool
  unfolding hull Search.is_all_clear
  is_all_clear_all v = Search.is_all_clear top width v.words (hull v)

  unfoldable pub n_set : BitVector → Interval → Option ℕ
  unfolding hull check_range Search.n_set
  n_set v range = check_range v range >> Search.n_set top width v.words range

  unfoldable pub n_set_all : BitVector → Option ℕ
  unfolding hull Search.n_set
  n_set_all v = Search.n_set top width v.words (hull v)

  unfoldable pub n_clear : BitVector → Interval → Option ℕ
  unfolding hull check_range Search.n_clear
  n_clear v range = check_range v range >> Search.n_clear top width v.words range

  unfoldable pub n_clear_all : BitVector → Option ℕ
  unfolding hull Search.n_clear
  n_clear_all v = Search.n_clear top width v.words (hull v)

  unfoldable pub most_significant_difference :
      BitVector → Interval → BitVector → Interval → Option (Option ℕ)
  unfolding hull check_range Search.most_significant_difference
  most_significant_difference v range1 other range2 =
      check_range v range1
      >> check_range other range2
      >> Search.most_significant_difference top width v.words range1 other.words range2

  unfoldable pub most_significant_difference_within :
      BitVector → Interval → Interval → Option (Option ℕ)
  unfolding hull check_range Search.most_significant_difference
  most_significant_difference_within v range1 range2 =
      check_range v range1
      >> check_range v range2
      >> Search.most_significant_difference top width v.words range1 v.words range2

  unfoldable pub most_significant_difference_all : BitVector → BitVector → Option (Option ℕ)
  unfolding hull Search.most_significant_difference
  most_significant_difference_all v other =
      Search.most_significant_difference top width v.words (hull v) other.words (hull other)

  unfoldable pub least_significant_difference :
      BitVector → Interval → BitVector → Interval → Option (Option ℕ)
  unfolding hull check_range Search.least_significant_difference
  least_significant_difference v range1 other range2 =
      check_range v range1
      >> check_range other range2
      >> Search.least_significant_difference top width v.words range1 other.words range2

  unfoldable pub least_significant_difference_within :
      BitVector → Interval → Interval → Option (Option ℕ)
  unfolding hull check_range Search.least_significant_difference
  least_significant_difference_within v range1 range2 =
      check_range v range1
      >> check_range v range2
      >> Search.least_significant_difference top width v.words range1 v.words range2

  unfoldable pub least_significant_difference_all : BitVector → BitVector → Option (Option ℕ)
  unfolding hull Search.least_significant_difference
  least_significant_difference_all v other =
      Search.least_significant_difference top width v.words (hull v) other.words (hull other)
