-- ===== src/BitVectorSupport/Text.antt =====
-- Bytes and strings of Sawyer/BitVectorSupport.h. A string is the list of its character codes.
-- Here `none` is an exception of the parsers too.
use Prim.Native.Nat.{bit_and, bit_or}
use sawyer.Prelude.Bits.{shift_right, shift_left}
use sawyer.Prelude.{
  ℕ, zero, suc, ◌+◌, ◌-◌, ◌*◌, ◌%◌, ◌^◌, min, Bool, true, false, not, ◌&&◌, ◌||◌, leb, ltb, ◌==◌,
  if◌then◌else◌, Option, none, some, ◌>>=◌, ◌>>◌, require, List, [], ◌∷◌, ◌++◌, reverse,
}
use sawyer.Interval.{Interval, size, base_size, hull_of}
use sawyer.BitVectorSupport.{zeros, number_of_words, bit_mask, process_const}
use sawyer.BitVectorSupport.Traverse.{traverse}
use sawyer.BitVectorSupport.Access.{clear, copy}
use sawyer.BitVectorSupport.Arithmetic.{from_integer, add, multiply10}

-- The state of `ToBytes` and `ToString`. `output` is `bytes` or `reversed`.
pub record Chunks : Type 0 where
  pub remaining : ℕ
  pub nremaining : ℕ
  pub output : List ℕ

-- Chunks()
abbrev pub no_chunks : Chunks
no_chunks = record { remaining = 0; nremaining = 0; output = [] }

-- digits[digit]
unfoldable pub digit_char : ℕ → ℕ
digit_char digit = if ltb digit 10 then 48 + digit else 97 + (digit - 10)

-- Codes of '0'..'9', 'a'..'f' and 'A'..'F'. 16 signals an invalid character.
unfoldable pub char_to_digit : ℕ → ℕ
char_to_digit ch =
    if leb 48 ch && leb ch 57
    then ch - 48
    else if leb 97 ch && leb ch 102
    then ch - 97 + 10
    else if leb 65 ch && leb ch 70
    then ch - 65 + 10
    else 16

module _ (width : ℕ) where
  -- The loop of both visitors, which takes `chunk` bits at a time: `emit` is what is appended for
  -- them. Every round takes at least one bit of the word, so `nbits` + 1 rounds are enough.
  unfoldable pub take_chunks : ℕ → (ℕ → ℕ) → ℕ → Chunks → ℕ → ℕ → Option Chunks
  unfolding bit_mask
  take_chunks chunk emit zero c tmp nbits = none
  take_chunks chunk emit (suc fuel) c tmp nbits = elim (leb chunk (c.nremaining + nbits)) [
    | false ↦ some (record { remaining = tmp; nremaining = nbits; output = c.output })
    | true ↦ bit_mask width 0 c.nremaining >>= λ old.
        bit_mask width 0 (chunk - c.nremaining) >>= λ new.
        take_chunks chunk emit fuel
          (record {
            remaining = c.remaining;
            nremaining = 0;
            output =
                c.output
                ++ (emit (
                      bit_or (bit_and c.remaining old)
                        (shift_left width (bit_and tmp new) c.nremaining))
                    ∷ []);
          })
          (shift_right tmp (chunk - c.nremaining)) (nbits - (chunk - c.nremaining))
  ]

  unfoldable pub byte_bits : Chunks → ℕ → ℕ → Option (Chunks × Bool)
  unfolding take_chunks
  byte_bits c word nbits = do
    require (ltb c.nremaining 8)
    c ← take_chunks 8 (λ byte. byte % 256) (suc nbits) c word nbits
    some (c, false)

  unfoldable pub bytes_result : Chunks → Option (List ℕ)
  unfolding bit_mask
  bytes_result c =
      if ltb 0 c.nremaining
      then (do
        require (leb c.nremaining 7)
        m ← bit_mask width 0 c.nremaining
        some (c.output ++ ((bit_and c.remaining m % 256) ∷ [])))
      else some c.output

  unfoldable pub digit_bits : ℕ → Chunks → ℕ → ℕ → Option (Chunks × Bool)
  unfolding take_chunks digit_char bit_mask
  digit_bits chunk c word nbits = do
    m ← bit_mask width 0 nbits
    require (ltb c.nremaining chunk)
    c ← take_chunks chunk digit_char (suc nbits) c (bit_and word m) nbits
    some (c, false)

  unfoldable pub string_result : Chunks → Option (List ℕ)
  unfolding bit_mask
  string_result c =
      if ltb 0 c.nremaining
      then (do
        require (leb c.nremaining 3)
        m ← bit_mask width 0 c.nremaining
        some (reverse (c.output ++ ((48 + bit_and c.remaining m) ∷ []))))
      else some (reverse c.output)

  -- '_' != ch && charToDigit(ch) >= Word(1) << bitsPerDigit
  unfoldable pub is_bad : ℕ → ℕ → Bool
  unfolding char_to_digit
  is_bad chunk ch = not (95 == ch) && leb (shift_left width 1 chunk) (char_to_digit ch)

  unfoldable pub any_bad : ℕ → List ℕ → Bool
  unfolding is_bad
  any_bad chunk [] = false
  any_bad chunk (ch ∷ input) = is_bad chunk ch || any_bad chunk input

module _ (top width : ℕ) where
  unfoldable pub to_bytes : List ℕ → Interval → Option (List ℕ)
  unfolding traverse byte_bits bytes_result process_const
  to_bytes vec range = do
    r ← traverse top width (process_const width (byte_bits width)) no_chunks vec range
    bytes_result width r.0

  -- if (offset < range.size()) clear(vec, hull(range.least() + offset, range.greatest()))
  unfoldable pub clear_from : List ℕ → Interval → ℕ → Option (List ℕ)
  unfolding size hull_of clear
  clear_from vec range offset =
      if ltb offset (size top range)
      then clear top width vec (hull_of (range.lo + offset) range.hi)
      else some vec

  unfoldable pub copy_bytes : List ℕ → Interval → ℕ → List ℕ → Option (ℕ × List ℕ)
  unfolding size base_size copy
  copy_bytes vec range offset [] = some (offset, vec)
  copy_bytes vec range offset (byte ∷ input) = elim (ltb offset (size top range)) [
    | false ↦ some (offset, vec)
    | true ↦ base_size top 0 (min 8 (size top range - offset)) >>= λ from.
        base_size top (range.lo + offset) (min 8 (size top range - offset)) >>= λ to.
        copy top width (byte ∷ []) from vec to >>= λ vec.
        copy_bytes vec range (offset + min 8 (size top range - offset)) input
  ]

  unfoldable pub from_bytes : List ℕ → Interval → List ℕ → Option (List ℕ)
  unfolding copy_bytes clear_from
  from_bytes vec range input = do
    (offset, vec) ← copy_bytes vec range 0 input
    clear_from vec range offset

  unfoldable pub to_string : ℕ → List ℕ → Interval → Option (List ℕ)
  unfolding traverse digit_bits string_result process_const
  to_string chunk vec range = do
    require (leb 1 chunk && leb chunk 4)
    require (leb chunk width)
    r ← traverse top width (process_const width (digit_bits width chunk)) no_chunks vec range
    string_result width r.0

  unfoldable pub to_hex : List ℕ → Interval → Option (List ℕ)
  unfolding to_string
  to_hex vec range = to_string 4 vec range

  unfoldable pub to_octal : List ℕ → Interval → Option (List ℕ)
  unfolding to_string
  to_octal vec range = to_string 3 vec range

  unfoldable pub to_binary : List ℕ → Interval → Option (List ℕ)
  unfolding to_string
  to_binary vec range = to_string 1 vec range

  -- The loop over the input from its end: `reversed` is what is left of it, in that order.
  unfoldable pub copy_digits : ℕ → List ℕ → Interval → ℕ → List ℕ → Option (ℕ × List ℕ)
  unfolding size base_size copy char_to_digit
  copy_digits chunk vec range offset [] = some (offset, vec)
  copy_digits chunk vec range offset (ch ∷ reversed) = elim (ltb offset (size top range)) [
    | false ↦ some (offset, vec)
    | true ↦ elim (95 == ch) [
      | true ↦ copy_digits chunk vec range offset reversed
      | false ↦ base_size top 0 (min chunk (min chunk (size top range - offset))) >>= λ from.
          base_size top (range.lo + offset) (min chunk (size top range - offset)) >>= λ to.
          copy top width (char_to_digit ch ∷ []) from vec to >>= λ vec.
          copy_digits chunk vec range (offset + chunk) reversed
    ]
  ]

  unfoldable pub from_string : ℕ → List ℕ → Interval → List ℕ → Option (List ℕ)
  unfolding any_bad copy_digits clear_from
  from_string chunk vec range input = do
    require (leb 1 chunk && leb chunk 4)
    require (leb chunk width)
    require (not (any_bad width chunk input))
    (offset, vec) ← copy_digits chunk vec range 0 (reverse input)
    clear_from vec range offset

  unfoldable pub from_hex : List ℕ → Interval → List ℕ → Option (List ℕ)
  unfolding from_string
  from_hex vec range input = from_string 4 vec range input

  unfoldable pub from_octal : List ℕ → Interval → List ℕ → Option (List ℕ)
  unfolding from_string
  from_octal vec range input = from_string 3 vec range input

  unfoldable pub from_binary : List ℕ → Interval → List ℕ → Option (List ℕ)
  unfolding from_string
  from_binary vec range input = from_string 1 vec range input

  -- The first loop of `fromDecimal`: the value in 64 bits, or `none` in the sum where the
  -- addition was seen to overflow.
  unfoldable pub decimal_value : ℕ → List ℕ → Option (Option ℕ)
  decimal_value v [] = some (some v)
  decimal_value v (ch ∷ input) = elim (leb 48 ch && leb ch 57) [
    | true ↦ elim (ltb ((v * 10 + (ch - 48)) % 2 ^ 64) v) [
      | true ↦ some none
      | false ↦ decimal_value ((v * 10 + (ch - 48)) % 2 ^ 64) input
    ]
    | false ↦ elim (ch == 95) [ true ↦ decimal_value v input | false ↦ none ]
  ]

  -- The second loop. ch - '0' is an `int`, which becomes a `uint64_t`.
  unfoldable pub decimal_digits : List ℕ → List ℕ → Interval → List ℕ → Option (List ℕ)
  unfolding multiply10 from_integer add
  decimal_digits digit accumulator range [] = some accumulator
  decimal_digits digit accumulator range (ch ∷ input) =
      multiply10 top width accumulator range >>= λ accumulator.
      from_integer top width digit range ((ch + 2 ^ 64 - 48) % 2 ^ 64) >>= λ digit.
      add top width digit range accumulator range false >>= λ r.
      decimal_digits digit r.1 range input

  unfoldable pub from_decimal : List ℕ → Interval → List ℕ → Option (List ℕ)
  unfolding decimal_value decimal_digits from_integer size base_size zeros number_of_words copy
  from_decimal vec range input = decimal_value 0 input >>= λ v. elim v [
    | some v ↦ from_integer top width vec range v
    | none ↦
        let words = zeros (number_of_words width top (size top range)) in
        base_size top 0 (size top range) >>= λ accumulator_range.
        decimal_digits words words accumulator_range input >>= λ accumulator.
        copy top width accumulator accumulator_range vec range
  ]
