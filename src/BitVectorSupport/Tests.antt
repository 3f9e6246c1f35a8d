-- ===== src/BitVectorSupport/Tests.antt =====
-- Runs of the operations of Sawyer/BitVectorSupport.h on arrays of bytes.
use sawyer.Prelude.{
  ℕ, ◌+◌, ◌-◌, ◌*◌, ◌%◌, ◌^◌, ◌≡◌, ◌&&◌, ◌||◌, Bool, true, false, leb, some, List, [], ◌∷◌, arith,
  inr, refl,
}
use sawyer.Prelude.Bits.{xor, complement, shift_left, shift_right}
use sawyer.Prelude.Word.{add_wrap, sub_wrap}
use sawyer.BitVectorSupport.{mask}
use sawyer.Interval.{Interval, has}
use sawyer.BitVectorSupport.Access.{set_value, copy, bitwise_and, bitwise_or, bitwise_xor}
use sawyer.BitVectorSupport.Shift
use sawyer.BitVectorSupport.Arithmetic.{add, subtract, negate}
use sawyer.BitVectorSupport.Meaning.{bit, capacity, IsVector, Gives, Inside}
use sawyer.BitVectorSupport.Number.{bit_value}
use sawyer.BitVectorSupport.Added.{number_at}
use sawyer.BitVectorSupport.Bitwise2.{Paired}
use sawyer.BitVectorSupport.Combine.{first_bit, combined, copy_lem, bitwise_lem}
use sawyer.BitVectorSupport.Shifted.{left_shifted, right_shifted, shift_left_lem, shift_right_lem}
use sawyer.BitVectorSupport.Rotated.{rotated, rotated_up, rotate_right_lem, rotate_left_lem}
use sawyer.BitVectorSupport.Addition.{add_lem}
use sawyer.BitVectorSupport.Negation.{negate_lem}
use sawyer.BitVectorSupport.Subtraction.{subtract_lem}

abbrev size_max : ℕ
size_max = 2 ^ 64 - 1

-- 172, 53 and 240 from the lowest word on.
abbrev three_bytes : List ℕ
three_bytes = 172 ∷ 53 ∷ 240 ∷ []

abbrev two_bytes : List ℕ
two_bytes = 255 ∷ 1 ∷ []

-- A range that starts and ends inside words, and one of its size.
abbrev middle : Interval
middle = record { lo = 3; hi = 17 }

abbrev lower : Interval
lower = record { lo = 1; hi = 15 }

three_bytes-IsVector : IsVector 8 three_bytes
three_bytes-IsVector = (omega arith, (omega arith, (omega arith, tt)))

two_bytes-IsVector : IsVector 8 two_bytes
two_bytes-IsVector = (omega arith, (omega arith, tt))

middle-Inside : Inside (capacity 8 three_bytes) middle
unfolding capacity
middle-Inside = inr (omega arith, omega arith)

lower-Paired : Paired (capacity 8 two_bytes) (capacity 8 three_bytes) lower middle
unfolding capacity
lower-Paired = inr ((omega arith, omega arith), (omega arith, omega arith), omega arith)

set_value_run : set_value size_max 8 three_bytes middle true ≡ some (252 ∷ 255 ∷ 243 ∷ [])
unfolding set_value add_wrap sub_wrap complement mask shift_left shift_right
set_value_run = refl

copy_lem_example :
    Gives 8
      (combined 8 two_bytes lower three_bytes middle first_bit)
      (capacity 8 three_bytes)
      (copy size_max 8 two_bytes lower three_bytes middle)
unfolding capacity
copy_lem_example =
    copy_lem size_max 8 (omega arith) two_bytes lower three_bytes middle two_bytes-IsVector
      three_bytes-IsVector lower-Paired (omega arith) (omega arith)

bitwise_lem_example :
    Gives 8
      (combined 8 two_bytes lower three_bytes middle (λ a b. b && a))
      (capacity 8 three_bytes)
      (bitwise_and size_max 8 two_bytes lower three_bytes middle)
    × Gives 8
        (combined 8 two_bytes lower three_bytes middle (λ a b. b || a))
        (capacity 8 three_bytes)
        (bitwise_or size_max 8 two_bytes lower three_bytes middle)
    × Gives 8
        (combined 8 two_bytes lower three_bytes middle (λ a b. xor b a))
        (capacity 8 three_bytes)
        (bitwise_xor size_max 8 two_bytes lower three_bytes middle)
unfolding capacity
bitwise_lem_example =
    bitwise_lem size_max 8 (omega arith) two_bytes lower three_bytes middle two_bytes-IsVector
      three_bytes-IsVector lower-Paired (omega arith) (omega arith)

shift_left_lem_example :
    Gives 8
      (left_shifted 8 three_bytes middle 5 true)
      (capacity 8 three_bytes)
      (Shift.shift_left size_max 8 three_bytes middle 5 true)
unfolding capacity
shift_left_lem_example =
    shift_left_lem size_max 8 (omega arith) three_bytes middle three_bytes-IsVector (omega arith)
      (omega arith) (omega arith) 5 true

shift_right_lem_example :
    Gives 8
      (right_shifted 8 three_bytes middle 5 true)
      (capacity 8 three_bytes)
      (Shift.shift_right size_max 8 three_bytes middle 5 true)
unfolding capacity
shift_right_lem_example =
    shift_right_lem size_max 8 (omega arith) three_bytes middle three_bytes-IsVector (omega arith)
      (omega arith) (omega arith) 5 true

rotate_right_lem_example :
    Gives 8
      (rotated 8 three_bytes middle (20 % (middle.hi + 1 - middle.lo)))
      (capacity 8 three_bytes)
      (Shift.rotate_right size_max 8 three_bytes middle 20)
unfolding capacity
rotate_right_lem_example =
    rotate_right_lem size_max 8 (omega arith) three_bytes middle three_bytes-IsVector (omega arith)
      (omega arith) (omega arith) 20

rotate_left_lem_example :
    Gives 8
      (rotated_up 8 three_bytes middle (20 % (middle.hi + 1 - middle.lo)))
      (capacity 8 three_bytes)
      (Shift.rotate_left size_max 8 three_bytes middle 20)
unfolding capacity
rotate_left_lem_example =
    rotate_left_lem size_max 8 (omega arith) three_bytes middle three_bytes-IsVector (omega arith)
      (omega arith) (omega arith) 20

add_lem_example :
    (c : Bool) × (ws : List ℕ) × (add size_max 8 two_bytes lower three_bytes middle true
      ≡ some (c, ws))
    × IsVector 8 ws
    × (capacity 8 ws ≡ capacity 8 three_bytes)
    × ((i : ℕ) → has middle i ≡ false → bit 8 ws i ≡ bit 8 three_bytes i)
    × (number_at 8 ws middle.lo (middle.hi + 1 - middle.lo)
          + bit_value c * 2 ^ (middle.hi + 1 - middle.lo)
        ≡ bit_value true
          + number_at 8 two_bytes lower.lo (middle.hi + 1 - middle.lo)
          + number_at 8 three_bytes middle.lo (middle.hi + 1 - middle.lo))
unfolding capacity
add_lem_example =
    add_lem size_max 8 (omega arith) two_bytes lower three_bytes middle two_bytes-IsVector
      three_bytes-IsVector (omega arith) (omega arith) (omega arith) (omega arith) (omega arith)
      (omega arith) (omega arith) true

subtract_lem_example :
    (c : Bool) × (ws : List ℕ) × (subtract size_max 8 two_bytes lower three_bytes middle
      ≡ some (c, ws))
    × IsVector 8 ws
    × (capacity 8 ws ≡ capacity 8 three_bytes)
    × ((i : ℕ) → has middle i ≡ false → bit 8 ws i ≡ bit 8 three_bytes i)
    × (number_at 8 ws middle.lo (middle.hi + 1 - middle.lo)
          + bit_value c * 2 ^ (middle.hi + 1 - middle.lo)
          + number_at 8 two_bytes lower.lo (middle.hi + 1 - middle.lo)
        ≡ number_at 8 three_bytes middle.lo (middle.hi + 1 - middle.lo)
          + 2 ^ (middle.hi + 1 - middle.lo))
    × (c
        ≡ leb
            (number_at 8 two_bytes lower.lo (middle.hi + 1 - middle.lo))
            (number_at 8 three_bytes middle.lo (middle.hi + 1 - middle.lo)))
unfolding capacity
subtract_lem_example =
    subtract_lem size_max 8 (omega arith) two_bytes lower three_bytes middle two_bytes-IsVector
      three_bytes-IsVector (omega arith) (omega arith) (omega arith) (omega arith) (omega arith)
      (omega arith) (omega arith)

negate_lem_example :
    (out : List ℕ) × (negate size_max 8 three_bytes middle ≡ some out)
    × IsVector 8 out
    × (capacity 8 out ≡ capacity 8 three_bytes)
    × ((i : ℕ) → has middle i ≡ false → bit 8 out i ≡ bit 8 three_bytes i)
    × (number_at 8 out middle.lo (middle.hi + 1 - middle.lo)
        ≡ (2 ^ (middle.hi + 1 - middle.lo)
            - number_at 8 three_bytes middle.lo (middle.hi + 1 - middle.lo))
          % 2 ^ (middle.hi + 1 - middle.lo))
unfolding capacity
negate_lem_example =
    negate_lem size_max 8 (omega arith) three_bytes middle three_bytes-IsVector (omega arith)
      (omega arith) (omega arith) (omega arith)
