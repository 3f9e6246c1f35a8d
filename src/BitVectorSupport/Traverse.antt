-- ===== src/BitVectorSupport/Traverse.antt =====
-- The traversals of Sawyer/BitVectorSupport.h.
use Prim.Native.Nat.{bit_and, bit_or}
use sawyer.Prelude.Bits.{complement, shift_left, shift_right}
use sawyer.Prelude.Word.{add_wrap, sub_wrap}
use sawyer.Prelude.{
  ℕ, zero, suc, ◌+◌, ◌-◌, ◌*◌, min, Bool, true, false, leb, ltb, ◌==◌, if◌then◌else◌, Option, none,
  some, ◌>>=◌, ◌>>◌, require, List, [], ◌∷◌,
}
use sawyer.Interval.{Interval, is_empty, size}
use sawyer.BitVectorSupport.{get_word, at_word, word_index, bit_index, bit_mask, process_const}

module _ (top width : ℕ) where
  -- The word that `nonoverlappingCopy` computes from the words around src[at]: by a left shift,
  unfoldable pub left_word : List ℕ → ℕ → ℕ → ℕ → ℕ → Option ℕ
  left_word src first last at amount = do
    a ←
        (if ltb first at
          then (get_word src (at - 1) >>= λ x. some (shift_right x (width - amount)))
          else some 0)
    b ← (if ltb last at then some 0 else get_word src at >>= λ x. some (shift_left width x amount))
    some (bit_or a b)

  -- or by a right shift,
  unfoldable pub right_word : List ℕ → ℕ → ℕ → ℕ → Option ℕ
  right_word src last at amount = do
    x ← get_word src at
    b ←
        (if leb (add_wrap top at 1) last
          then (get_word src (add_wrap top at 1) >>= λ y.
              some (shift_left width y (width - amount)))
          else some 0)
    some (bit_or (shift_right x amount) b)

  -- as the offsets in the words ask.
  unfoldable pub copied_word : List ℕ → Interval → Interval → ℕ → Option ℕ
  unfolding word_index bit_index
  copied_word src src_range dst_range i =
      let first = word_index width src_range.lo in
      let last = word_index width src_range.hi in
      let src_bit = bit_index width src_range.lo in
      let dst_bit = bit_index width dst_range.lo in
      let at = add_wrap top i (sub_wrap top first (word_index width dst_range.lo)) in
      if ltb src_bit dst_bit
      then left_word src first last at (dst_bit - src_bit)
      else if ltb dst_bit src_bit
      then right_word src last at (src_bit - dst_bit)
      else get_word src at

  -- The bits of dst[i] that belong to the range.
  unfoldable pub copy_mask : Interval → ℕ → Option ℕ
  unfolding word_index bit_index bit_mask
  copy_mask range i = do
    m ← bit_mask width 0 width
    m ←
        (if i == word_index width range.lo
          then (bit_mask width 0 (bit_index width range.lo) >>= λ k.
              some (bit_and m (complement width k)))
          else some m)
    (if i == word_index width range.hi
        then (bit_mask width 0 (bit_index width range.hi + 1) >>= λ k. some (bit_and m k))
        else some m)

  -- for (i; count more words; ++i), where `dst` starts at dst[i]
  unfoldable pub copy_words : List ℕ → Interval → Interval → ℕ → ℕ → List ℕ → Option (List ℕ)
  unfolding copied_word copy_mask
  copy_words src src_range dst_range i zero dst = some dst
  copy_words src src_range dst_range i (suc count) [] = none
  copy_words src src_range dst_range i (suc count) (d ∷ dst) = do
    tmp ← copied_word src src_range dst_range i
    m ← copy_mask dst_range i
    rest ← copy_words src src_range dst_range (suc i) count dst
    some (bit_or (bit_and d (complement width m)) (bit_and tmp m) ∷ rest)

  -- The ranges are not empty.
  unfoldable pub nonoverlapping_copy : List ℕ → Interval → List ℕ → Interval → Option (List ℕ)
  unfolding size word_index copy_words at_word
  nonoverlapping_copy src src_range dst dst_range = do
    require (size top src_range == size top dst_range)
    let first = word_index width dst_range.lo
    let count = word_index width dst_range.hi + 1 - first
    at_word first
          (λ ws. copy_words src src_range dst_range first count ws >>= λ ws. some (tt {0}, ws)) dst
        >>= λ r. some r.1

  -- The number of bits of words[wordIdx] that a traversal with HighToLow visits.
  unfoldable pub high_bits : ℕ → ℕ → ℕ → ℕ → ℕ → Option ℕ
  high_bits first last offset remaining word_idx =
      if word_idx == first
      then (require (leb remaining width) >> some remaining)
      else if ltb word_idx last
      then (require (ltb width remaining) >> some width)
      else do
        require (word_idx == last)
        require (ltb first word_idx)
        let left = (width - offset) + (last - first - 1) * width
        require (ltb left remaining)
        require (leb (remaining - left) width)
        some (remaining - left)

  module _ {ℓ} {P : Type ℓ} where
    -- The loop of `traverse` with LowToHigh, where the list starts at words[wordIdx]. `process` is
    -- `processWord` with the processor.
    unfoldable pub low_to_high :
        (P → ℕ → ℕ → ℕ → Option (P × ℕ × Bool)) → P → ℕ → ℕ → List ℕ → Option (P × List ℕ)
    low_to_high process p offset zero words = some (p, words)
    low_to_high process p offset (suc remaining) [] = none
    low_to_high process p offset (suc remaining) (x ∷ words) = do
      let nbits = min (width - offset) (suc remaining)
      require (ltb 0 nbits)
      (p, y, done) ← process p x offset nbits
      elim done [
        | true ↦ some (p, y ∷ words)
        | false ↦ low_to_high process p 0 (suc remaining - nbits) words >>= λ r. some (r.0, y ∷ r.1)
      ]

    unfoldable pub traverse :
        (P → ℕ → ℕ → ℕ → Option (P × ℕ × Bool)) → P → List ℕ → Interval → Option (P × List ℕ)
    unfolding is_empty size word_index bit_index at_word low_to_high
    traverse process p words range =
        if is_empty range
        then some (p, words)
        else at_word (word_index width range.lo)
            (low_to_high process p (bit_index width range.lo) (size top range)) words

    -- The loop with HighToLow from words[first + n] down. `visit` is `processWord` on constant
    -- words, with the index in place of the words.
    unfoldable pub high_to_low :
        (P → ℕ → ℕ → ℕ → Option (P × Bool)) → ℕ → ℕ → ℕ → P → ℕ → ℕ → Option P
    unfolding high_bits
    high_to_low visit first last offset p remaining zero = if remaining == 0 then some p else do
      nbits ← high_bits first last offset remaining first
      r ← visit p first offset nbits
      some r.0
    high_to_low visit first last offset p remaining (suc n) = if remaining == 0 then some p else do
      nbits ← high_bits first last offset remaining (first + suc n)
      (p, done) ← visit p (first + suc n) 0 nbits
      elim done [
        | true ↦ some p
        | false ↦ high_to_low visit first last offset p (remaining - nbits) n
      ]

    unfoldable pub traverse_high :
        (P → ℕ → ℕ → Option (P × Bool)) → P → List ℕ → Interval → Option P
    unfolding is_empty size word_index bit_index get_word process_const high_to_low
    traverse_high processor p words range =
        if is_empty range
        then some p
        else high_to_low
            (λ p i shift nbits. get_word words i >>= λ x.
              process_const width processor p x shift nbits >>= λ r. some (r.0, r.2))
            (word_index width range.lo) (word_index width range.hi) (bit_index width range.lo) p
            (size top range) (word_index width range.hi - word_index width range.lo)
