-- ===== src/BitVector/Shift.antt =====
-- The shifts and rotations of `BitVector` (Sawyer/BitVector.h). A name with `_all` is an overload for
-- the whole vector.
use sawyer.Prelude.{ℕ, Bool, Option, some, ◌>>=◌, ◌>>◌}
use sawyer.Interval.{Interval}
use sawyer.BitVectorSupport.Shift
use sawyer.BitVector.{BitVector, hull, check_range}

module _ (top width : ℕ) where
  unfoldable pub shift_left : BitVector → Interval → ℕ → Bool → Option BitVector
  unfolding hull check_range Shift.shift_left
  shift_left v range n_shift new_bits = do
    check_range v range
    words ← Shift.shift_left top width v.words range n_shift new_bits
    some (record { words = words; size = v.size })

  unfoldable pub shift_left_all : BitVector → ℕ → Bool → Option BitVector
  unfolding hull Shift.shift_left
  shift_left_all v n_shift new_bits = do
    words ← Shift.shift_left top width v.words (hull v) n_shift new_bits
    some (record { words = words; size = v.size })

  unfoldable pub shift_right : BitVector → Interval → ℕ → Bool → Option BitVector
  unfolding hull check_range Shift.shift_right
  shift_right v range n_shift new_bits = do
    check_range v range
    words ← Shift.shift_right top width v.words range n_shift new_bits
    some (record { words = words; size = v.size })

  unfoldable pub shift_right_all : BitVector → ℕ → Bool → Option BitVector
  unfolding hull Shift.shift_right
  shift_right_all v n_shift new_bits = do
    words ← Shift.shift_right top width v.words (hull v) n_shift new_bits
    some (record { words = words; size = v.size })

  unfoldable pub shift_right_arithmetic : BitVector → Interval → ℕ → Option BitVector
  unfolding hull check_range Shift.shift_right_arithmetic
  shift_right_arithmetic v range n_shift = do
    check_range v range
    words ← Shift.shift_right_arithmetic top width v.words range n_shift
    some (record { words = words; size = v.size })

  unfoldable pub shift_right_arithmetic_all : BitVector → ℕ → Option BitVector
  unfolding hull Shift.shift_right_arithmetic
  shift_right_arithmetic_all v n_shift = do
    words ← Shift.shift_right_arithmetic top width v.words (hull v) n_shift
    some (record { words = words; size = v.size })

  unfoldable pub rotate_right : BitVector → Interval → ℕ → Option BitVector
  unfolding hull check_range Shift.rotate_right
  rotate_right v range n_shift = do
    check_range v range
    words ← Shift.rotate_right top width v.words range n_shift
    some (record { words = words; size = v.size })

  unfoldable pub rotate_right_all : BitVector → ℕ → Option BitVector
  unfolding hull Shift.rotate_right
  rotate_right_all v n_shift = do
    words ← Shift.rotate_right top width v.words (hull v) n_shift
    some (record { words = words; size = v.size })

  unfoldable pub rotate_left : BitVector → Interval → ℕ → Option BitVector
  unfolding hull check_range Shift.rotate_left
  rotate_left v range n_shift = do
    check_range v range
    words ← Shift.rotate_left top width v.words range n_shift
    some (record { words = words; size = v.size })

  unfoldable pub rotate_left_all : BitVector → ℕ → Option BitVector
  unfolding hull Shift.rotate_left
  rotate_left_all v n_shift = do
    words ← Shift.rotate_left top width v.words (hull v) n_shift
    some (record { words = words; size = v.size })
