-- ===== src/BitVector/Arithmetic.antt =====
-- The arithmetic of `BitVector` (Sawyer/BitVector.h). A name with `_all` is an overload for whole
-- vectors, one with `_within` for two ranges of one vector. The Boolean answers are carries.
use sawyer.Prelude.{
  ℕ, zero, suc, ◌-◌, Bool, true, false, not, if◌then◌else◌, ltb, Option, some, ◌>>=◌, ◌>>◌,
}
use sawyer.Interval.{Interval}
use sawyer.BitVectorSupport.Arithmetic
use sawyer.Prelude.Word.{add_wrap}
use sawyer.BitVector.{get, resize, make}
use sawyer.BitVector.Shift.{shift_left_all}
use sawyer.BitVector.{BitVector, hull, check_range}

module _ (top width : ℕ) where
  unfoldable pub negate : BitVector → Interval → Option BitVector
  unfolding hull check_range Arithmetic.negate
  negate v range = do
    check_range v range
    words ← Arithmetic.negate top width v.words range
    some (record { words = words; size = v.size })

  unfoldable pub negate_all : BitVector → Option BitVector
  unfolding hull Arithmetic.negate
  negate_all v = do
    words ← Arithmetic.negate top width v.words (hull v)
    some (record { words = words; size = v.size })

  unfoldable pub increment : BitVector → Interval → Option (Bool × BitVector)
  unfolding hull check_range Arithmetic.increment
  increment v range = do
    check_range v range
    (carry, words) ← Arithmetic.increment top width v.words range
    some (carry, record { words = words; size = v.size })

  unfoldable pub increment_all : BitVector → Option (Bool × BitVector)
  unfolding hull Arithmetic.increment
  increment_all v = do
    (carry, words) ← Arithmetic.increment top width v.words (hull v)
    some (carry, record { words = words; size = v.size })

  unfoldable pub decrement : BitVector → Interval → Option (Bool × BitVector)
  unfolding hull check_range Arithmetic.decrement
  decrement v range = do
    check_range v range
    (carry, words) ← Arithmetic.decrement top width v.words range
    some (carry, record { words = words; size = v.size })

  unfoldable pub decrement_all : BitVector → Option (Bool × BitVector)
  unfolding hull Arithmetic.decrement
  decrement_all v = do
    (carry, words) ← Arithmetic.decrement top width v.words (hull v)
    some (carry, record { words = words; size = v.size })

  unfoldable pub add : BitVector → Interval → BitVector → Interval → Option (Bool × BitVector)
  unfolding hull check_range Arithmetic.add
  add v range1 other range2 = do
    check_range v range1
    check_range other range2
    (carry, words) ← Arithmetic.add top width other.words range2 v.words range1 false
    some (carry, record { words = words; size = v.size })

  unfoldable pub add_within : BitVector → Interval → Interval → Option (Bool × BitVector)
  unfolding hull check_range Arithmetic.add
  add_within v range1 range2 = do
    check_range v range1
    check_range v range2
    (carry, words) ← Arithmetic.add top width v.words range2 v.words range1 false
    some (carry, record { words = words; size = v.size })

  unfoldable pub add_all : BitVector → BitVector → Option (Bool × BitVector)
  unfolding hull Arithmetic.add
  add_all v other = do
    (carry, words) ← Arithmetic.add top width other.words (hull other) v.words (hull v) false
    some (carry, record { words = words; size = v.size })

  unfoldable pub subtract : BitVector → Interval → BitVector → Interval → Option (Bool × BitVector)
  unfolding hull check_range Arithmetic.subtract
  subtract v range1 other range2 = do
    check_range v range1
    check_range other range2
    (carry, words) ← Arithmetic.subtract top width other.words range2 v.words range1
    some (carry, record { words = words; size = v.size })

  unfoldable pub subtract_within : BitVector → Interval → Interval → Option (Bool × BitVector)
  unfolding hull check_range Arithmetic.subtract
  subtract_within v range1 range2 = do
    check_range v range1
    check_range v range2
    (carry, words) ← Arithmetic.subtract top width v.words range2 v.words range1
    some (carry, record { words = words; size = v.size })

  unfoldable pub subtract_all : BitVector → BitVector → Option (Bool × BitVector)
  unfolding hull Arithmetic.subtract
  subtract_all v other = do
    (carry, words) ← Arithmetic.subtract top width other.words (hull other) v.words (hull v)
    some (carry, record { words = words; size = v.size })

  unfoldable pub sign_extend : BitVector → Interval → BitVector → Interval → Option BitVector
  unfolding hull check_range Arithmetic.sign_extend
  sign_extend v range1 other range2 = do
    check_range v range1
    check_range other range2
    (sign, words) ← Arithmetic.sign_extend top width other.words range2 v.words range1
    some (record { words = words; size = v.size })

  unfoldable pub sign_extend_within : BitVector → Interval → Interval → Option BitVector
  unfolding hull check_range Arithmetic.sign_extend
  sign_extend_within v range1 range2 = do
    check_range v range1
    check_range v range2
    (sign, words) ← Arithmetic.sign_extend top width v.words range2 v.words range1
    some (record { words = words; size = v.size })

  unfoldable pub sign_extend_all : BitVector → BitVector → Option BitVector
  unfolding hull Arithmetic.sign_extend
  sign_extend_all v other = do
    (sign, words) ← Arithmetic.sign_extend top width other.words (hull other) v.words (hull v)
    some (record { words = words; size = v.size })

  unfoldable pub multiply10 : BitVector → Interval → Option BitVector
  unfolding hull Arithmetic.multiply10
  multiply10 v range = do
    words ← Arithmetic.multiply10 top width v.words range
    some (record { words = words; size = v.size })

  unfoldable pub multiply10_all : BitVector → Option BitVector
  unfolding hull Arithmetic.multiply10
  multiply10_all v = do
    words ← Arithmetic.multiply10 top width v.words (hull v)
    some (record { words = words; size = v.size })

  -- The loops of `multiply` and `multiplySigned`, for n bits of `v` from i on.
  unfoldable pub multiply_loop : BitVector → BitVector → BitVector → ℕ → ℕ → Option BitVector
  unfolding get add_all shift_left_all
  multiply_loop v product addend i zero = some product
  multiply_loop v product addend i (suc n) = get top width v i >>= λ b.
      (if b then (add_all product addend >>= λ r. some r.1) else some product) >>= λ product.
      shift_left_all top width addend 1 false >>= λ addend. multiply_loop v product addend (suc i) n

  unfoldable pub multiply : BitVector → BitVector → Option BitVector
  unfolding resize make multiply_loop
  multiply v other = do
    product ← make top width (add_wrap top v.size other.size) false
    addend ← resize top width other product.size false
    multiply_loop v product addend 0 v.size

  -- The absolute value of a number, and whether it was negative.
  unfoldable pub absolute : BitVector → Option (Bool × BitVector)
  unfolding get negate_all
  absolute a =
      if ltb 1 a.size
      then (get top width a (a.size - 1) >>= λ negative.
          if negative then (negate_all a >>= λ a. some (true, a)) else some (false, a))
      else some (false, a)

  unfoldable pub multiply_signed : BitVector → BitVector → Option BitVector
  unfolding resize make multiply_loop absolute negate_all
  multiply_signed v other = do
    product ← make top width (add_wrap top v.size other.size) false
    (a_is_neg, a) ← absolute v
    (b_is_neg, b) ← absolute other
    b ← resize top width b product.size false
    product ← multiply_loop a product b 0 a.size
    (if (if a_is_neg then not b_is_neg else b_is_neg) then negate_all product else some product)
