-- ===== src/BitVector/Access.antt =====
-- The access, copies and Boolean logic of `BitVector` (Sawyer/BitVector.h). A name with `_all` is an
-- overload for whole vectors, one with `_within` for two ranges of one vector.
use sawyer.Prelude.{ℕ, Bool, false, not, ◌==◌, if◌then◌else◌, Option, some, ◌>>=◌, ◌>>◌}
use sawyer.Interval.{Interval}
use sawyer.BitVectorSupport.Access
use sawyer.BitVector.{BitVector, hull, check_range}

module _ (top width : ℕ) where
  unfoldable pub clear : BitVector → Interval → Option BitVector
  unfolding hull check_range Access.clear
  clear v range = do
    check_range v range
    words ← Access.clear top width v.words range
    some (record { words = words; size = v.size })

  unfoldable pub clear_all : BitVector → Option BitVector
  unfolding hull Access.clear
  clear_all v = do
    words ← Access.clear top width v.words (hull v)
    some (record { words = words; size = v.size })

  unfoldable pub set : BitVector → Interval → Option BitVector
  unfolding hull check_range Access.set
  set v range = do
    check_range v range
    words ← Access.set top width v.words range
    some (record { words = words; size = v.size })

  unfoldable pub set_all : BitVector → Option BitVector
  unfolding hull Access.set
  set_all v = do
    words ← Access.set top width v.words (hull v)
    some (record { words = words; size = v.size })

  unfoldable pub set_value : BitVector → Interval → Bool → Option BitVector
  unfolding hull check_range Access.set_value
  set_value v range value = do
    check_range v range
    words ← Access.set_value top width v.words range value
    some (record { words = words; size = v.size })

  unfoldable pub set_value_all : BitVector → Bool → Option BitVector
  unfolding hull Access.set_value
  set_value_all v value = do
    words ← Access.set_value top width v.words (hull v) value
    some (record { words = words; size = v.size })

  unfoldable pub copy : BitVector → Interval → BitVector → Interval → Option BitVector
  unfolding check_range Access.copy
  copy v to other from = do
    check_range v to
    check_range other from
    words ← Access.copy top width other.words from v.words to
    some (record { words = words; size = v.size })

  unfoldable pub copy_within : BitVector → Interval → Interval → Option BitVector
  unfolding check_range Access.copy
  copy_within v to from = do
    check_range v to
    check_range v from
    words ← Access.copy top width v.words from v.words to
    some (record { words = words; size = v.size })

  -- The answer has both vectors.
  unfoldable pub swap : BitVector → Interval → BitVector → Interval → Option (BitVector × BitVector)
  unfolding check_range Access.swap
  swap v range1 other range2 = do
    check_range v range1
    check_range other range2
    (mine, others) ← Access.swap top width v.words range1 other.words range2
    some (record { words = mine; size = v.size }, record { words = others; size = other.size })

  unfoldable pub swap_within : BitVector → Interval → Interval → Option BitVector
  unfolding check_range Access.swap_within
  swap_within v range1 range2 = do
    check_range v range1
    check_range v range2
    words ← Access.swap_within top width v.words range1 range2
    some (record { words = words; size = v.size })

  unfoldable pub equal_to : BitVector → Interval → BitVector → Interval → Option Bool
  unfolding hull check_range Access.equal_to
  equal_to v range1 other range2 =
      check_range v range1
      >> check_range other range2
      >> Access.equal_to top width v.words range1 other.words range2

  unfoldable pub equal_to_within : BitVector → Interval → Interval → Option Bool
  unfolding hull check_range Access.equal_to
  equal_to_within v range1 range2 =
      check_range v range1
      >> check_range v range2
      >> Access.equal_to top width v.words range1 v.words range2

  unfoldable pub equal_to_all : BitVector → BitVector → Option Bool
  unfolding hull Access.equal_to
  equal_to_all v other =
      if not (v.size == other.size)
      then some false
      else Access.equal_to top width v.words (hull v) other.words (hull other)

  unfoldable pub invert : BitVector → Interval → Option BitVector
  unfolding hull check_range Access.invert
  invert v range = do
    check_range v range
    words ← Access.invert top width v.words range
    some (record { words = words; size = v.size })

  unfoldable pub invert_all : BitVector → Option BitVector
  unfolding hull Access.invert
  invert_all v = do
    words ← Access.invert top width v.words (hull v)
    some (record { words = words; size = v.size })

  unfoldable pub bitwise_and : BitVector → Interval → BitVector → Interval → Option BitVector
  unfolding hull check_range Access.bitwise_and
  bitwise_and v range1 other range2 = do
    check_range v range1
    check_range other range2
    words ← Access.bitwise_and top width other.words range2 v.words range1
    some (record { words = words; size = v.size })

  unfoldable pub bitwise_and_within : BitVector → Interval → Interval → Option BitVector
  unfolding hull check_range Access.bitwise_and
  bitwise_and_within v range1 range2 = do
    check_range v range1
    check_range v range2
    words ← Access.bitwise_and top width v.words range2 v.words range1
    some (record { words = words; size = v.size })

  unfoldable pub bitwise_and_all : BitVector → BitVector → Option BitVector
  unfolding hull Access.bitwise_and
  bitwise_and_all v other = do
    words ← Access.bitwise_and top width other.words (hull other) v.words (hull v)
    some (record { words = words; size = v.size })

  unfoldable pub bitwise_or : BitVector → Interval → BitVector → Interval → Option BitVector
  unfolding hull check_range Access.bitwise_or
  bitwise_or v range1 other range2 = do
    check_range v range1
    check_range other range2
    words ← Access.bitwise_or top width other.words range2 v.words range1
    some (record { words = words; size = v.size })

  unfoldable pub bitwise_or_within : BitVector → Interval → Interval → Option BitVector
  unfolding hull check_range Access.bitwise_or
  bitwise_or_within v range1 range2 = do
    check_range v range1
    check_range v range2
    words ← Access.bitwise_or top width v.words range2 v.words range1
    some (record { words = words; size = v.size })

  unfoldable pub bitwise_or_all : BitVector → BitVector → Option BitVector
  unfolding hull Access.bitwise_or
  bitwise_or_all v other = do
    words ← Access.bitwise_or top width other.words (hull other) v.words (hull v)
    some (record { words = words; size = v.size })

  unfoldable pub bitwise_xor : BitVector → Interval → BitVector → Interval → Option BitVector
  unfolding hull check_range Access.bitwise_xor
  bitwise_xor v range1 other range2 = do
    check_range v range1
    check_range other range2
    words ← Access.bitwise_xor top width other.words range2 v.words range1
    some (record { words = words; size = v.size })

  unfoldable pub bitwise_xor_within : BitVector → Interval → Interval → Option BitVector
  unfolding hull check_range Access.bitwise_xor
  bitwise_xor_within v range1 range2 = do
    check_range v range1
    check_range v range2
    words ← Access.bitwise_xor top width v.words range2 v.words range1
    some (record { words = words; size = v.size })

  unfoldable pub bitwise_xor_all : BitVector → BitVector → Option BitVector
  unfolding hull Access.bitwise_xor
  bitwise_xor_all v other = do
    words ← Access.bitwise_xor top width other.words (hull other) v.words (hull v)
    some (record { words = words; size = v.size })
