-- ===== src/BitVectorSupport/Shift.antt =====
-- Shifts and rotations of Sawyer/BitVectorSupport.h. The sums of positions stay inside the array.
use sawyer.Prelude.{
  ℕ, ◌+◌, ◌-◌, ◌%◌, Bool, false, ltb, ◌==◌, if◌then◌else◌, Option, some, ◌>>=◌, List,
}
use sawyer.Interval.{Interval, is_empty, size, base_size}
use sawyer.BitVectorSupport.{zeros, number_of_words}
use sawyer.BitVectorSupport.Access.{get, copy, set_value}

module _ (top width : ℕ) where
  unfoldable pub shift_left : List ℕ → Interval → ℕ → Bool → Option (List ℕ)
  unfolding size base_size copy set_value
  shift_left words range n_shift new_bits =
      if ltb n_shift (size top range)
      then (do
        let nbits = size top range - n_shift
        shifted_from ← base_size top range.lo nbits
        shifted_to ← base_size top (range.lo + n_shift) nbits
        introduced ← base_size top range.lo n_shift
        words ← copy top width words shifted_from words shifted_to
        set_value top width words introduced new_bits)
      else set_value top width words range new_bits

  unfoldable pub shift_right : List ℕ → Interval → ℕ → Bool → Option (List ℕ)
  unfolding size base_size copy set_value
  shift_right words range n_shift new_bits =
      if ltb n_shift (size top range)
      then (do
        let nbits = size top range - n_shift
        shifted_from ← base_size top (range.lo + n_shift) nbits
        shifted_to ← base_size top range.lo nbits
        introduced ← base_size top (range.lo + nbits) n_shift
        words ← copy top width words shifted_from words shifted_to
        set_value top width words introduced new_bits)
      else set_value top width words range new_bits

  unfoldable pub shift_right_arithmetic : List ℕ → Interval → ℕ → Option (List ℕ)
  unfolding is_empty get shift_right
  shift_right_arithmetic words range n_shift =
      if is_empty range
      then some words
      else (get top width words range.hi >>= λ b. shift_right words range n_shift b)

  -- The part of `rotateRight` that follows its tests, by fewer bits than the range has.
  unfoldable pub rotate_some : List ℕ → Interval → ℕ → Option (List ℕ)
  unfolding size base_size copy shift_right zeros number_of_words
  rotate_some words range n_shift = do
    saved_range ← base_size top 0 n_shift
    low ← base_size top range.lo n_shift
    saved ← copy top width words low (zeros (number_of_words width top n_shift)) saved_range
    words ← shift_right words range n_shift false
    introduced ← base_size top (range.lo + size top range - n_shift) n_shift
    copy top width saved saved_range words introduced

  unfoldable pub rotate_right : List ℕ → Interval → ℕ → Option (List ℕ)
  unfolding is_empty size rotate_some
  rotate_right words range n_shift =
      if is_empty range
      then some words
      else if n_shift % size top range == 0
      then some words
      else rotate_some words range (n_shift % size top range)

  unfoldable pub rotate_left : List ℕ → Interval → ℕ → Option (List ℕ)
  unfolding is_empty size rotate_right
  rotate_left words range n_shift =
      if is_empty range
      then some words
      else rotate_right words range (size top range - n_shift % size top range)
