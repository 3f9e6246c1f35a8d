-- ===== src/BitVector/Tests.antt =====
-- Runs and examples for the bit vectors of Sawyer/BitVector.h, with words of eight bits.
use sawyer.Prelude.{
  ℕ, ◌-◌, ◌*◌, ◌^◌, ◌<◌, ◌≡◌, refl, true, false, ltb, if◌then◌else◌, some, none, arith, inl, [],
  ◌∷◌,
}
use sawyer.Prelude.Word.{add_wrap, sub_wrap}
use sawyer.Interval.{Interval, has, contains}
use sawyer.Prelude.Bits.{complement, shift_left, shift_right}
use sawyer.BitVectorSupport.Traverse.{left_word}
use sawyer.BitVectorSupport.{number_of_words, get_word, mask}
use sawyer.BitVectorSupport.Meaning.{bit, capacity}
use sawyer.BitVector.{BitVector, hull, resize, get}
use sawyer.BitVector.Access.{set_value}
use sawyer.BitVector.Arithmetic.{multiply}
use sawyer.BitVector.Parse.{parse}
use sawyer.BitVector.Meaning.{IsBitVector, resize_lem}
use sawyer.BitVector.Values.{value}
use sawyer.BitVector.Multiply.{multiply_lem}
use sawyer.BitVector.Checked.{set_value-get}

abbrev size_max : ℕ
size_max = 2 ^ 64 - 1

-- Nine bits, of the number 428, with one stale bit beyond them.
abbrev nine : BitVector
nine = record { words = 172 ∷ 5 ∷ []; size = 9 }

abbrev other_nine : BitVector
other_nine = record { words = 255 ∷ 1 ∷ []; size = 9 }

-- Five bits, of the number 19.
abbrev five : BitVector
five = record { words = 19 ∷ []; size = 5 }

abbrev middle : Interval
middle = record { lo = 3; hi = 8 }

nine-IsBitVector : IsBitVector size_max 8 nine
unfolding capacity number_of_words add_wrap sub_wrap
nine-IsBitVector = ((omega arith, (omega arith, tt)), refl)

other_nine-IsBitVector : IsBitVector size_max 8 other_nine
unfolding capacity number_of_words add_wrap sub_wrap
other_nine-IsBitVector = ((omega arith, (omega arith, tt)), refl)

five-IsBitVector : IsBitVector size_max 8 five
unfolding capacity number_of_words add_wrap sub_wrap
five-IsBitVector = ((omega arith, tt), refl)

resize_lem_example :
    (r : BitVector) × (resize size_max 8 nine 20 true ≡ some r)
    × IsBitVector size_max 8 r
    × (r.size ≡ 20)
    × ((i : ℕ) → i < 20 → bit 8 r.words i ≡ (if ltb i 9 then bit 8 nine.words i else true))
resize_lem_example =
    resize_lem size_max 8 (omega arith) nine 20 true nine-IsBitVector (omega arith) (omega arith)

multiply_lem_example :
    (r : BitVector) × (multiply size_max 8 nine five ≡ some r)
    × IsBitVector size_max 8 r
    × (r.size ≡ 14)
    × (value 8 r ≡ value 8 nine * value 8 five)
multiply_lem_example =
    multiply_lem size_max 8 (omega arith) nine five nine-IsBitVector five-IsBitVector (omega arith)

set_value-get_example :
    (contains (hull nine) middle ≡ true
      → (r : BitVector) × (set_value size_max 8 nine middle true ≡ some r)
        × IsBitVector size_max 8 r
        × (r.size ≡ 9)
        × ((i : ℕ)
            → i < 9
            → get size_max 8 r i ≡ (if has middle i then some true else get size_max 8 nine i)))
    × (contains (hull nine) middle ≡ false → set_value size_max 8 nine middle true ≡ none)
set_value-get_example =
    set_value-get size_max 8 (omega arith) nine nine-IsBitVector (omega arith) middle true
      (inl (omega arith))

-- A literal in base 2 is refused, and the octal 11 is read in base 2.
parse_binary : parse size_max 8 (48 ∷ 98 ∷ 49 ∷ []) ≡ none
unfolding parse add_wrap sub_wrap
parse_binary = refl

parse_octal : parse size_max 8 (48 ∷ 49 ∷ 49 ∷ []) ≡ some (record { words = 3 ∷ []; size = 4 })
unfolding parse add_wrap sub_wrap shift_left get_word left_word complement mask shift_right
parse_octal = refl
