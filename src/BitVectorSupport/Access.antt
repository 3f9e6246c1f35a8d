-- ===== src/BitVectorSupport/Access.antt =====
-- Access, copies and Boolean logic of Sawyer/BitVectorSupport.h. `vec1` and `vec2` are different
-- arrays, except where a name says otherwise.
use Prim.Native.Nat.{bit_and, bit_or, bit_xor}
use sawyer.Prelude.Bits.{complement}
use sawyer.Prelude.{
  ℕ, Bool, true, false, not, ◌==◌, if◌then◌else◌, Option, none, some, ◌>>=◌, ◌>>◌, require, List,
}
use sawyer.Interval.{Interval, size, overlaps}
use sawyer.BitVectorSupport.{
  get_word, word_index, bit_index, bit_mask, merge, process_word, process_const2, process_source,
  process_both,
}
use sawyer.BitVectorSupport.Traverse.{traverse, nonoverlapping_copy}
use sawyer.BitVectorSupport.Pairs.{traverse2}

-- The visitors of one word without a state of their own. The answer is (tt, word, false).
module _ (width : ℕ) where
  unfoldable pub clear_bits : Unit {0} → ℕ → ℕ → Option (Unit {0} × ℕ × Bool)
  unfolding bit_mask
  clear_bits p word nbits =
      bit_mask width 0 nbits >>= λ m. some (tt, bit_and word (complement width m), false)

  unfoldable pub set_bits : Unit {0} → ℕ → ℕ → Option (Unit {0} × ℕ × Bool)
  unfolding bit_mask
  set_bits p word nbits = bit_mask width 0 nbits >>= λ m. some (tt, bit_or word m, false)

  unfoldable pub invert_bits : Unit {0} → ℕ → ℕ → Option (Unit {0} × ℕ × Bool)
  unfolding bit_mask
  invert_bits p word nbits = bit_mask width 0 nbits >>= λ m. some (tt, bit_xor word m, false)

  -- The visitors of a source word and a word to change.
  unfoldable pub copy_bits : Unit {0} → ℕ → ℕ → ℕ → Option (Unit {0} × ℕ × Bool)
  unfolding bit_mask merge
  copy_bits p src dst nbits =
      bit_mask width 0 nbits >>= λ m. some (tt, merge width m dst src, false)

  unfoldable pub and_bits : Unit {0} → ℕ → ℕ → ℕ → Option (Unit {0} × ℕ × Bool)
  unfolding bit_mask
  and_bits p w1 w2 nbits =
      bit_mask width 0 nbits >>= λ m. some (tt, bit_and w2 (bit_or w1 (complement width m)), false)

  unfoldable pub or_bits : Unit {0} → ℕ → ℕ → ℕ → Option (Unit {0} × ℕ × Bool)
  unfolding bit_mask
  or_bits p w1 w2 nbits = bit_mask width 0 nbits >>= λ m. some (tt, bit_or w2 (bit_and w1 m), false)

  unfoldable pub xor_bits : Unit {0} → ℕ → ℕ → ℕ → Option (Unit {0} × ℕ × Bool)
  unfolding bit_mask
  xor_bits p w1 w2 nbits =
      bit_mask width 0 nbits >>= λ m. some (tt, bit_xor w2 (bit_and w1 m), false)

  -- The visitor of two words to change.
  unfoldable pub swap_bits : Unit {0} → ℕ → ℕ → ℕ → Option (Unit {0} × (ℕ × ℕ) × Bool)
  unfolding bit_mask merge
  swap_bits p w1 w2 nbits =
      bit_mask width 0 nbits >>= λ m. some (tt, (merge width m w1 w2, merge width m w2 w1), false)

  -- The visitor of `equalTo`, whose state is `wasEqv`.
  unfoldable pub compare_equal : Bool → ℕ → ℕ → ℕ → Option (Bool × Bool)
  unfolding bit_mask
  compare_equal was_eqv w1 w2 nbits =
      if was_eqv
      then (bit_mask width 0 nbits >>= λ m. some ((bit_and w1 m == bit_and w2 m), false))
      else some (was_eqv, false)

module _ (top width : ℕ) where
  unfoldable pub get : List ℕ → ℕ → Option Bool
  unfolding get_word word_index bit_index bit_mask
  get words idx = do
    x ← get_word words (word_index width idx)
    m ← bit_mask width (bit_index width idx) 1
    some (not (0 == bit_and x m))

  unfoldable pub clear : List ℕ → Interval → Option (List ℕ)
  unfolding traverse clear_bits process_word
  clear words range =
      traverse top width (process_word width (clear_bits width)) tt words range >>= λ r. some r.1

  unfoldable pub set : List ℕ → Interval → Option (List ℕ)
  unfolding traverse set_bits process_word
  set words range =
      traverse top width (process_word width (set_bits width)) tt words range >>= λ r. some r.1

  unfoldable pub set_value : List ℕ → Interval → Bool → Option (List ℕ)
  unfolding set clear
  set_value words range value = if value then set words range else clear words range

  unfoldable pub invert : List ℕ → Interval → Option (List ℕ)
  unfolding traverse invert_bits process_word
  invert words range =
      traverse top width (process_word width (invert_bits width)) tt words range >>= λ r. some r.1

  -- `src` and `dst` may be the same array, and the ranges may overlap.
  unfoldable pub copy : List ℕ → Interval → List ℕ → Interval → Option (List ℕ)
  unfolding traverse2 copy_bits process_source
  copy src src_range dst dst_range =
      traverse2 top width (process_source width (copy_bits width)) tt src src_range dst dst_range
      >>= λ r. some r.1

  unfoldable pub bitwise_and : List ℕ → Interval → List ℕ → Interval → Option (List ℕ)
  unfolding traverse2 and_bits process_source
  bitwise_and vec1 range1 vec2 range2 =
      traverse2 top width (process_source width (and_bits width)) tt vec1 range1 vec2 range2
      >>= λ r. some r.1

  unfoldable pub bitwise_or : List ℕ → Interval → List ℕ → Interval → Option (List ℕ)
  unfolding traverse2 or_bits process_source
  bitwise_or vec1 range1 vec2 range2 =
      traverse2 top width (process_source width (or_bits width)) tt vec1 range1 vec2 range2 >>= λ r.
      some r.1

  unfoldable pub bitwise_xor : List ℕ → Interval → List ℕ → Interval → Option (List ℕ)
  unfolding traverse2 xor_bits process_source
  bitwise_xor vec1 range1 vec2 range2 =
      traverse2 top width (process_source width (xor_bits width)) tt vec1 range1 vec2 range2
      >>= λ r. some r.1

  -- `conditionalCopy` of the temporary vector back into the first one.
  unfoldable pub copy_back : Option (List ℕ × Interval) → List ℕ → Interval → Option (List ℕ)
  unfolding nonoverlapping_copy
  copy_back none vec1 range1 = some vec1
  copy_back (some t) vec1 range1 = nonoverlapping_copy top width t.0 t.1 vec1 range1

  -- `swap` of bits of two arrays,
  unfoldable pub swap : List ℕ → Interval → List ℕ → Interval → Option (List ℕ × List ℕ)
  unfolding traverse2 swap_bits process_both copy_back
  swap vec1 range1 vec2 range2 = do
    r ← traverse2 top width (process_both width (swap_bits width)) tt vec1 range1 vec2 range2
    vec1 ← copy_back r.2 vec1 range1
    some (vec1, r.1)

  -- and of bits of one array.
  unfoldable pub swap_within : List ℕ → Interval → Interval → Option (List ℕ)
  unfolding traverse2 swap_bits process_both copy_back overlaps
  swap_within vec range1 range2 = do
    require (not (overlaps range1 range2))
    r ← traverse2 top width (process_both width (swap_bits width)) tt vec range1 vec range2
    copy_back r.2 r.1 range1

  unfoldable pub equal_to : List ℕ → Interval → List ℕ → Interval → Option Bool
  unfolding size traverse2 compare_equal process_const2
  equal_to vec1 range1 vec2 range2 =
      if not (size top range1 == size top range2)
      then some false
      else (traverse2 top width (process_const2 width (compare_equal width)) true vec1 range1 vec2
            range2
          >>= λ r. some r.0)
