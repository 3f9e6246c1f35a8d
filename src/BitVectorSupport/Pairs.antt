-- ===== src/BitVectorSupport/Pairs.antt =====
-- The traversals of two vectors of Sawyer/BitVectorSupport.h.
use sawyer.Prelude.{
  ℕ, zero, suc, ◌+◌, ◌-◌, min, Bool, true, false, not, ◌&&◌, ◌||◌, ltb, ◌==◌, if◌then◌else◌, Option,
  none, some, ◌>>=◌, ◌>>◌, require, List, [], ◌∷◌,
}
use sawyer.Interval.{Interval, is_empty, size, base_size}
use sawyer.BitVectorSupport.{
  get_word, at_word, zeros, word_index, bit_index, number_of_words, process_const2,
}
use sawyer.BitVectorSupport.Traverse.{nonoverlapping_copy, high_to_low}

module _ (top width : ℕ) where
  -- The copy of the first range at the alignment of the second, and its range.
  unfoldable pub aligned_copy : List ℕ → Interval → Interval → Option (List ℕ × Interval)
  unfolding base_size size bit_index number_of_words zeros nonoverlapping_copy
  aligned_copy vec1 range1 range2 = do
    let offset = bit_index width range2.lo
    tmp_range ← base_size top offset (size top range1)
    tmp ←
        nonoverlapping_copy top width vec1 range1
          (zeros (number_of_words width top (offset + size top range2))) tmp_range
    some (tmp, tmp_range)

  -- The assertions on the ranges.
  unfoldable pub same_emptiness : Interval → Interval → Bool
  unfolding is_empty
  same_emptiness range1 range2 =
      (is_empty range1 && is_empty range2) || (not (is_empty range1) && not (is_empty range2))

  module _ {ℓ} {P : Type ℓ} where
    -- The loop with LowToHigh. The lists start at tmp[wordIdx] and at the word of the second vector.
    unfoldable pub low_to_high2 :
        (P → ℕ → ℕ → ℕ → ℕ → Option (P × (ℕ × ℕ) × Bool))
        → P
        → ℕ
        → ℕ
        → List ℕ
        → List ℕ
        → Option ((P × List ℕ) × List ℕ)
    low_to_high2 process p offset zero tmp words = some ((p, tmp), words)
    low_to_high2 process p offset (suc remaining) [] words = none
    low_to_high2 process p offset (suc remaining) (t ∷ tmp) [] = none
    low_to_high2 process p offset (suc remaining) (t ∷ tmp) (x ∷ words) = do
      let nbits = min (width - offset) (suc remaining)
      require (ltb 0 nbits)
      (p, (u, y), done) ← process p t x offset nbits
      elim done [
        | true ↦ some ((p, u ∷ tmp), y ∷ words)
        | false ↦ low_to_high2 process p 0 (suc remaining - nbits) tmp words >>= λ r.
            some ((r.0.0, u ∷ r.0.1), y ∷ r.1)
      ]

    -- `traverse2` with LowToHigh, as far as the second vector: the answer has the processor, the
    -- second vector and, unless the ranges are empty, the temporary vector and its range.
    unfoldable pub traverse2 :
        (P → ℕ → ℕ → ℕ → ℕ → Option (P × (ℕ × ℕ) × Bool))
        → P
        → List ℕ
        → Interval
        → List ℕ
        → Interval
        → Option (P × List ℕ × Option (List ℕ × Interval))
    unfolding is_empty size same_emptiness word_index bit_index aligned_copy at_word low_to_high2
    traverse2 process p vec1 range1 vec2 range2 =
        require (same_emptiness range1 range2)
        >> (if is_empty range1 then some (p, vec2, none) else do
          require (size top range1 == size top range2)
          (tmp, tmp_range) ← aligned_copy vec1 range1 range2
          ((p, tmp), vec2) ←
              at_word (word_index width range2.lo)
                (low_to_high2 process p (bit_index width range2.lo) (size top range2) tmp) vec2
          some (p, vec2, some (tmp, tmp_range)))

    -- `traverse2` with HighToLow, on constant vectors.
    unfoldable pub traverse2_high :
        (P → ℕ → ℕ → ℕ → Option (P × Bool)) → P → List ℕ → Interval → List ℕ → Interval → Option P
    unfolding is_empty size same_emptiness word_index bit_index number_of_words aligned_copy
        get_word process_const2 high_to_low
    traverse2_high processor p vec1 range1 vec2 range2 =
        require (same_emptiness range1 range2)
        >> (if is_empty range1 then some p else do
          require (size top range1 == size top range2)
          (tmp, tmp_range) ← aligned_copy vec1 range1 range2
          let offset = bit_index width range2.lo
          let words = number_of_words width top (offset + size top range2)
          high_to_low top width
              (λ p i shift nbits. get_word tmp i >>= λ x.
                get_word vec2 (i + word_index width range2.lo) >>= λ y.
                process_const2 width processor p x y shift nbits >>= λ r. some (r.0, r.2))
              0 (words - 1) offset p (size top range2) (words - 1))
