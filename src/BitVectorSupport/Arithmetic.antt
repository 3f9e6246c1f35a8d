-- ===== src/BitVectorSupport/Arithmetic.antt =====
-- Integers in bit vectors, of Sawyer/BitVectorSupport.h. A `boost::uint64_t` is a number below
-- 2 ^ 64; a signed result is given by its unsigned representation.
use Prim.Native.Nat.{bit_and, bit_or}
use sawyer.Prelude.Bits.{complement, shift_right, shift_left}
use sawyer.Prelude.{
  ℕ, zero, suc, ◌+◌, ◌-◌, ◌*◌, ◌%◌, ◌^◌, min, Bool, true, false, not, ◌&&◌, ◌||◌, leb, ltb, ◌==◌,
  if◌then◌else◌, Option, none, some, ◌>>=◌, ◌>>◌, require, List, [], ◌∷◌,
}
use sawyer.Interval.{Interval, is_empty, size, base_size, hull_of}
use sawyer.BitVectorSupport.{zeros, number_of_words, bit_mask, merge, process_word, process_source}
use sawyer.BitVectorSupport.Traverse.{traverse}
use sawyer.BitVectorSupport.Pairs.{traverse2}
use sawyer.BitVectorSupport.Access.{get, clear, set_value, copy, invert}
use sawyer.BitVectorSupport.Shift

module _ (width : ℕ) where
  unfoldable pub increment_bits : Bool → ℕ → ℕ → Option (Bool × ℕ × Bool)
  unfolding bit_mask merge
  increment_bits carry word nbits = do
    require carry
    m ← bit_mask width 0 nbits
    let arg1 = bit_and word m
    let sum = (arg1 + 1) % 2 ^ width
    let carry = ltb (bit_and sum m) arg1
    some (carry, merge width m word sum, not carry)

  unfoldable pub decrement_bits : Bool → ℕ → ℕ → Option (Bool × ℕ × Bool)
  unfolding bit_mask
  decrement_bits borrowed word nbits = do
    require borrowed
    m ← bit_mask width 0 nbits
    let arg1 = bit_and word m
    let borrowed = 0 == arg1
    let difference = bit_and ((arg1 + 2 ^ width - 1) % 2 ^ width) m
    some (borrowed, bit_or (bit_and word (complement width m)) difference, not borrowed)

  unfoldable pub add_bits : Bool → ℕ → ℕ → ℕ → Option (Bool × ℕ × Bool)
  unfolding bit_mask merge
  add_bits carry w1 w2 nbits = do
    m ← bit_mask width 0 nbits
    let addend1 = if carry then 1 else 0
    let addend2 = bit_and w1 m
    let addend3 = bit_and w2 m
    let sum = (addend1 + addend2 + addend3) % 2 ^ width
    let word = merge width m w2 sum
    (if nbits == width
        then some ((ltb sum addend2 || (sum == addend2 && carry)), word, false)
        else (bit_mask width nbits 1 >>= λ k. some (not (0 == bit_and sum k), word, false)))

  -- The words of `value`: tmp[i], n words of them.
  unfoldable pub value_words : ℕ → ℕ → ℕ → List ℕ
  value_words value i zero = []
  value_words value i (suc n) =
      bit_and (shift_right value (i * width)) (2 ^ width - 1) % 2 ^ width
      ∷ value_words value (suc i) n

  -- result |= (uint64_t)words[i] << (i * width), for n words from i on.
  unfoldable pub join_words : List ℕ → ℕ → ℕ → ℕ → Option ℕ
  join_words words result i zero = some result
  join_words [] result i (suc n) = none
  join_words (x ∷ words) result i (suc n) =
      join_words words (bit_or result (shift_left 64 x (i * width))) (suc i) n

module _ (top width : ℕ) where
  unfoldable pub from_integer : List ℕ → Interval → ℕ → Option (List ℕ)
  unfolding is_empty size base_size number_of_words value_words copy clear
  from_integer words range value = if is_empty range then some words else (do
    let nbits = min (size top range) 64
    let tmp = value_words width value 0 (number_of_words width top nbits)
    low ← base_size top 0 nbits
    target ← base_size top range.lo nbits
    words ← copy top width tmp low words target
    (if leb 64 (size top range)
        then (base_size top (range.lo + 64) (size top range - 64) >>= λ hi.
            clear top width words hi)
        else some words))

  -- uint64_t toInteger(const Word *words, const BitRange &range)
  unfoldable pub to_integer : List ℕ → Interval → Option ℕ
  unfolding size base_size number_of_words zeros copy join_words
  to_integer words range = do
    let nbits = min (size top range) 64
    let n = number_of_words width top nbits
    low ← base_size top range.lo nbits
    target ← base_size top 0 nbits
    tmp ← copy top width words low (zeros n) target
    join_words width tmp 0 0 n

  -- uint64_t toInteger(const Word *words, size_t nbits)
  unfoldable pub low_integer : List ℕ → ℕ → Option ℕ
  unfolding number_of_words join_words
  low_integer words nbits = do
    require (leb nbits 64)
    result ← join_words width words 0 0 (number_of_words width top nbits)
    some (
        if ltb nbits 64
        then bit_and result (complement 64 (shift_left 64 (2 ^ 64 - 1) nbits))
        else result)

  -- The sign extension that both `toSignedInteger` end with.
  unfoldable pub signed_value : ℕ → ℕ → ℕ
  signed_value u nbits =
      if ltb 1 nbits && (ltb nbits 64 && not (0 == bit_and u (shift_left 64 1 (nbits - 1))))
      then bit_or u (shift_left 64 (2 ^ 64 - 1) nbits)
      else u

  unfoldable pub to_signed_integer : List ℕ → Interval → Option ℕ
  unfolding to_integer size signed_value
  to_signed_integer words range =
      to_integer words range >>= λ u. some (signed_value u (size top range))

  unfoldable pub low_signed_integer : List ℕ → ℕ → Option ℕ
  unfolding low_integer signed_value
  low_signed_integer words nbits = low_integer words nbits >>= λ u. some (signed_value u nbits)

  -- The answers are the carry or borrow and the array.
  unfoldable pub increment : List ℕ → Interval → Option (Bool × List ℕ)
  unfolding traverse increment_bits process_word
  increment vec1 range1 =
      traverse top width (process_word width (increment_bits width)) true vec1 range1

  unfoldable pub decrement : List ℕ → Interval → Option (Bool × List ℕ)
  unfolding traverse decrement_bits process_word
  decrement vec1 range1 =
      traverse top width (process_word width (decrement_bits width)) true vec1 range1

  unfoldable pub negate : List ℕ → Interval → Option (List ℕ)
  unfolding invert increment
  negate vec1 range = do vec1 ← invert top width vec1 range; r ← increment vec1 range; some r.1

  unfoldable pub add : List ℕ → Interval → List ℕ → Interval → Bool → Option (Bool × List ℕ)
  unfolding traverse2 add_bits process_source
  add vec1 range1 vec2 range2 carry_in = do
    r ← traverse2 top width (process_source width (add_bits width)) carry_in vec1 range1 vec2 range2
    some (r.0, r.1)

  unfoldable pub subtract : List ℕ → Interval → List ℕ → Interval → Option (Bool × List ℕ)
  unfolding size base_size number_of_words zeros copy invert add
  subtract vec1 range1 vec2 range2 = do
    temp_range ← base_size top 0 (size top range1)
    temp ←
        copy top width vec1 range1 (zeros (number_of_words width top (size top range1))) temp_range
    temp ← invert top width temp temp_range
    add temp temp_range vec2 range2 true

  unfoldable pub sign_extend : List ℕ → Interval → List ℕ → Interval → Option (Bool × List ℕ)
  unfolding is_empty size base_size hull_of get copy clear set_value
  sign_extend vec1 range1 vec2 range2 =
      if is_empty range2
      then some (false, vec2)
      else if is_empty range1
      then (clear top width vec2 range2 >>= λ vec2. some (false, vec2))
      else if ltb (size top range1) (size top range2)
      then (do
        old_sign ← get top width vec1 range1.hi
        target ← base_size top range2.lo (size top range1)
        vec2 ← copy top width vec1 range1 vec2 target
        vec2 ← set_value top width vec2 (hull_of (range2.lo + size top range1) range2.hi) old_sign
        some (old_sign, vec2))
      else (do
        copy_from ← base_size top range1.lo (size top range2)
        vec2 ← copy top width vec1 copy_from vec2 range2
        sign ← get top width vec2 range2.hi
        some (sign, vec2))

  unfoldable pub multiply10 : List ℕ → Interval → Option (List ℕ)
  unfolding size base_size number_of_words zeros copy Shift.shift_left add
  multiply10 vec range = do
    part_range ← base_size top 0 (size top range)
    part ← copy top width vec range (zeros (number_of_words width top (size top range))) part_range
    vec ← Shift.shift_left top width vec range 3 false
    part ← Shift.shift_left top width part part_range 1 false
    r ← add part part_range vec range false
    some r.1
