-- ===== src/BitVectorSupport.antt =====
-- `Sawyer::Container::BitVectorSupport` (Sawyer/BitVectorSupport.h): vectors of bits in arrays of
-- words. `width` is the number of bits of a word, `top` the greatest `size_t`, an array the list
-- of its words. `none` is a failed assertion or an access outside an array.
pub mod Traverse
pub mod Pairs
pub mod Access
pub mod Search
pub mod Shift
pub mod Arithmetic
pub mod Compare
pub mod Text
pub mod Meaning
pub mod Words
pub mod Sizes
pub mod Bitwise
pub mod Changes
pub mod Copied
pub mod Copy
pub mod Overwrite
pub mod Bitwise2
pub mod Combine
pub mod Shifted
pub mod Rotated
pub mod Number
pub mod Sum
pub mod Added
pub mod Whole
pub mod Addition
pub mod Subtraction
pub mod Incremented
pub mod Negation
mod Tests
use Prim.Native.Nat.{bit_and, bit_or}
use sawyer.Prelude.Bits.{complement, shift_left, shift_right}
use sawyer.Prelude.Word.{add_wrap, sub_wrap}
use sawyer.Prelude.{
  ℕ, zero, suc, ◌+◌, ◌-◌, ◌/◌, ◌%◌, ◌^◌, Bool, leb, ltb, ◌==◌, if◌then◌else◌, Option, none, some,
  ◌>>=◌, ◌>>◌, require, List, [], ◌∷◌,
}

-- words[i]
unfoldable pub get_word : List ℕ → ℕ → Option ℕ
get_word [] i = none
get_word (x ∷ xs) zero = some x
get_word (x ∷ xs) (suc i) = get_word xs i

-- words + k, as the place that `f` changes.
unfoldable pub at_word {ℓ} :
    {R : Type ℓ} → ℕ → (List ℕ → Option (R × List ℕ)) → List ℕ → Option (R × List ℕ)
at_word zero f xs = f xs
at_word (suc k) f [] = none
at_word (suc k) f (x ∷ xs) = at_word k f xs >>= λ r. some (r.0, x ∷ r.1)

-- SAWYER_VARIABLE_LENGTH_ARRAY
unfoldable pub zeros : ℕ → List ℕ
zeros zero = []
zeros (suc n) = 0 ∷ zeros n

module _ (width : ℕ) where
  unfoldable pub word_index : ℕ → ℕ
  word_index idx = idx / width

  unfoldable pub bit_index : ℕ → ℕ
  bit_index idx = idx % width

  unfoldable pub number_of_words : ℕ → ℕ → ℕ
  number_of_words top nbits = sub_wrap top (add_wrap top nbits width) 1 / width

  -- The value that `bitMask` returns.
  unfoldable pub mask : ℕ → ℕ → ℕ
  mask offset nbits =
      shift_left width (if nbits == width then 2 ^ width - 1 else shift_left width 1 nbits - 1)
        offset

  unfoldable pub bit_mask : ℕ → ℕ → Option ℕ
  bit_mask offset nbits = do require (leb (offset + nbits) width); some (mask offset nbits)

  -- word &= ~m; word |= bits & m
  unfoldable pub merge : ℕ → ℕ → ℕ → ℕ
  merge m word bits = bit_or (bit_and word (complement width m)) (bit_and bits m)

  module _ {ℓ} {P : Type ℓ} where
    -- The overloads of `processWord` for one vector: of constant words, and of words to change.
    -- The answer is the processor, the word it leaves and whether the traversal may stop.
    unfoldable pub process_const :
        (P → ℕ → ℕ → Option (P × Bool)) → P → ℕ → ℕ → ℕ → Option (P × ℕ × Bool)
    process_const processor p word shift nbits = do
      require (ltb shift width)
      require (leb nbits width)
      (p, retval) ← processor p (shift_right word shift) nbits
      some (p, word, retval)

    unfoldable pub process_word :
        (P → ℕ → ℕ → Option (P × ℕ × Bool)) → P → ℕ → ℕ → ℕ → Option (P × ℕ × Bool)
    process_word processor p word shift nbits = do
      require (ltb shift width)
      (p, tmp, retval) ← processor p (shift_right word shift) nbits
      m ← bit_mask shift nbits
      low ← bit_mask 0 nbits
      some (
        p,
        bit_or (bit_and word (complement width m)) (shift_left width (bit_and tmp low) shift),
        retval,
      )

    -- The overloads for two vectors. The answer has both words.
    unfoldable pub process_const2 :
        (P → ℕ → ℕ → ℕ → Option (P × Bool)) → P → ℕ → ℕ → ℕ → ℕ → Option (P × (ℕ × ℕ) × Bool)
    process_const2 processor p w1 w2 shift nbits = do
      require (ltb shift width)
      require (leb nbits width)
      (p, retval) ← processor p (shift_right w1 shift) (shift_right w2 shift) nbits
      some (p, (w1, w2), retval)

    unfoldable pub process_source :
        (P → ℕ → ℕ → ℕ → Option (P × ℕ × Bool)) → P → ℕ → ℕ → ℕ → ℕ → Option (P × (ℕ × ℕ) × Bool)
    process_source processor p src dst shift nbits = do
      require (ltb shift width)
      require (leb nbits width)
      (p, tmp_dst, retval) ← processor p (shift_right src shift) (shift_right dst shift) nbits
      m ← bit_mask shift nbits
      low ← bit_mask 0 nbits
      some (
        p,
        (
          src,
          bit_or (bit_and dst (complement width m)) (shift_left width (bit_and tmp_dst low) shift),
        ),
        retval,
      )

    unfoldable pub process_both :
        (P → ℕ → ℕ → ℕ → Option (P × (ℕ × ℕ) × Bool))
        → P
        → ℕ
        → ℕ
        → ℕ
        → ℕ
        → Option (P × (ℕ × ℕ) × Bool)
    process_both processor p w1 w2 shift nbits = do
      require (ltb shift width)
      require (leb nbits width)
      (p, (tmp1, tmp2), retval) ← processor p (shift_right w1 shift) (shift_right w2 shift) nbits
      m ← bit_mask shift nbits
      some (
        p,
        (merge m w1 (shift_left width tmp1 shift), merge m w2 (shift_left width tmp2 shift)),
        retval,
      )
