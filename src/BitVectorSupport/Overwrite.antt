-- ===== src/BitVectorSupport/Overwrite.antt =====
-- The loop of `nonoverlappingCopy` of Sawyer/BitVectorSupport.h: the bits of the destination.
use Prim.Native.Nat.{bit_and}
use sawyer.Prelude.Bits.{test_bit, complement, test_bit-bit_and, bit_and-lt}
use sawyer.Prelude.Bits.Shift.{test_bit-complement}
use sawyer.Prelude.{
  ℕ, zero, suc, ◌+◌, ◌-◌, ◌*◌, ◌/◌, ◌%◌, ◌^◌, ◌≤◌, ◌<◌, ◌≡◌, refl, sym, ap, ◌∙◌, inl, inr, Bool,
  true, false, not, ◌&&◌, ◌||◌, ltb, ◌==◌, if◌then◌else◌, some, ◌>>=◌, arith, Bool-cases, lt→ltb,
  List, [], ◌∷◌,
}
use native.Mathlib.Nat.{add-mul, mul-le-mul_right}
use sawyer.Interval.{Interval, has, size}
use sawyer.BitVectorSupport.{word_index, bit_index, mask, bit_mask, merge}
use sawyer.BitVectorSupport.Traverse.{copy_mask, copy_words, copied_word, nonoverlapping_copy}
use sawyer.BitVectorSupport.Meaning.{
  bit, bit-head, bit-plus, bit-cons, capacity, IsVector, Gives, split_index, at_word-Makes,
}
use sawyer.BitVectorSupport.Words.{test_bit-low, mask-lt, low_mask-within, test_bit-merge, merge-lt}
use sawyer.BitVectorSupport.Copy.{times_lt, times_suc}

module _ (width : ℕ) where
  -- A mask without the low n bits, if `c` says so, and one with no others.
  low_part :
      (c : Bool) (n m : ℕ)
      → n ≤ width
      → m < 2 ^ width
      → (x : ℕ) × ((if c
            then (bit_mask width 0 n >>= λ k. some (bit_and m (complement width k)))
            else some m)
          ≡ some x)
        × (x < 2 ^ width)
        × ((j : ℕ) → j < width → test_bit x j ≡ (test_bit m j && not (c && ltb j n)))
  low_part true n m h l =
      let k = mask width 0 n in
      (
        bit_and m (complement width k),
        rw (low_mask-within width n h),
        bit_and-lt width m (complement width k) l,
        λ j q.
            let e : ltb j width ≡ true = lt→ltb j width q in
            test_bit-bit_and m (complement width k) j
            ∙ rw (test_bit-complement width k j (mask-lt width 0 n), e, test_bit-low width n j h),
      )
  low_part false n m h l = (m, refl, l, λ j q. ground arith)

  high_part :
      (c : Bool) (n m : ℕ)
      → n ≤ width
      → m < 2 ^ width
      → (x : ℕ) × ((if c then (bit_mask width 0 n >>= λ k. some (bit_and m k)) else some m)
          ≡ some x)
        × (x < 2 ^ width)
        × ((j : ℕ) → test_bit x j ≡ (test_bit m j && (not c || ltb j n)))
  high_part true n m h l =
      let k = mask width 0 n in
      (
        bit_and m k,
        rw (low_mask-within width n h),
        bit_and-lt width m k l,
        λ j. test_bit-bit_and m k j ∙ rw (test_bit-low width n j h),
      )
  high_part false n m h l = (m, refl, l, λ j. ground arith)

  -- The mask of a word of the range selects the bits of the range.
  copy_mask-has :
      (top : ℕ) (range : Interval) (i : ℕ)
      → 1 ≤ width
      → range.lo / width ≤ i
      → i ≤ range.hi / width
      → (m : ℕ) × (copy_mask top width range i ≡ some m)
        × (m < 2 ^ width)
        × ((j : ℕ) → j < width → test_bit m j ≡ has range (j + i * width))
  unfolding copy_mask word_index bit_index
  copy_mask-has top range i w p q =
      let (lb, lo) = split_index width range.lo w in
      let (hb, hi) = split_index width range.hi w in
      let (a, ea, la, ba) =
        low_part (i == range.lo / width) (range.lo % width) (mask width 0 width) (omega arith)
          (mask-lt width 0 width) in
      let (b, eb, l, bb) =
        high_part (i == range.hi / width) (range.hi % width + 1) a (omega arith) la in
      (
        b,
        rw (low_mask-within width width (omega arith), ea, eb),
        l,
        λ j r.
            bb j
            ∙ rw (ba j r, test_bit-low width width j (omega arith))
                (ground (
                  arith,
                  mul-le-mul_right width p,
                  mul-le-mul_right width q,
                  mul-le-mul_right {m = suc (range.lo / width)} {n = i} width,
                  mul-le-mul_right {m = suc i} {n = range.hi / width} width,
                  times_suc width (range.lo / width),
                  times_suc width i,
                  lo,
                  hi,
                )),
      )

-- `copied` is the bit that goes to each place of the destination.
module _ (top width : ℕ) (wide : 1 ≤ width) (src : List ℕ) (sr dr : Interval) (copied : ℕ → Bool)
    (words_copied : (i : ℕ)
      → dr.lo / width ≤ i
      → i ≤ dr.hi / width
      → (t : ℕ) × (copied_word top width src sr dr i ≡ some t)
        × (t < 2 ^ width)
        × ((j : ℕ)
            → j < width
            → has dr (j + i * width) ≡ true
            → test_bit t j ≡ copied (j + i * width))) where
  -- The bits of the destination's words from the word `i` on, `count` words of them changed.
  abbrev overwritten : ℕ → ℕ → List ℕ → ℕ → Bool
  overwritten i count dst x =
      if has dr (x + i * width) && ltb x (count * width)
      then copied (x + i * width)
      else bit width dst x

  copy_words-overwritten :
      (i count : ℕ) (dst : List ℕ)
      → IsVector width dst
      → dr.lo / width ≤ i
      → i + count ≤ suc (dr.hi / width)
      → count * width < capacity width dst + width
      → Gives width
          (overwritten i count dst)
          (capacity width dst)
          (copy_words top width src sr dr i count dst)
  unfolding copy_words capacity complement merge
  copy_words-overwritten i zero dst v p q r =
      let e : (x : ℕ) → (has dr (x + i * width) && ltb x (0 * width)) ≡ false = λ x. ground arith in
      (dst, refl, v, refl, λ x. rw (e x))
  copy_words-overwritten i (suc count) [] v p q r = absurd (omega (arith, times_suc width count))
  copy_words-overwritten i (suc count) (d ∷ dst) v p q r =
      let (t, et, lt, bt) = words_copied i p (omega arith) in
      let (m, em, lm, bm) = copy_mask-has width top dr i wide p (omega arith) in
      let (ws, e, u, c, b) =
        copy_words-overwritten (suc i) count dst v.1 (omega arith) (omega arith)
          (omega (arith, times_suc width count)) in
      (
        merge width m d t ∷ ws,
        rw (et, em, e),
        (merge-lt width m d t v.0 lt, u),
        ap (λ k. width + k) c,
        bit-cons width (merge width m d t) ws (overwritten i (suc count) (d ∷ dst))
            (λ j l.
              test_bit-merge width m d t j lm v.0
              ∙ rw (bm j l, bit-head width d dst j l)
                  (let e2 : ltb j (suc count * width) ≡ true =
                      ground (arith, times_suc width count) in
                    elim (Bool-cases (has dr (j + i * width))) [
                      | inl g ↦ rw (g, e2) (bt j l g)
                      | inr g ↦ rw g
                    ]))
            (λ x.
              b x
              ∙ rw (sym (bit-plus width d dst x)) (
                  let s : x + suc i * width ≡ x + width + i * width =
                    omega (arith, times_suc width i) in
                  let e2 : ltb x (count * width) ≡ ltb (x + width) (suc count * width) =
                    ground (arith, times_suc width count) in
                  rw (s, e2))),
      )

  -- The bits of the range are the ones copied, the others stay.
  pub nonoverlapping_copy-overwritten :
      (dst : List ℕ)
      → IsVector width dst
      → dr.lo ≤ dr.hi
      → dr.hi < capacity width dst
      → size top sr ≡ size top dr
      → Gives width
          (λ y. if has dr y then copied y else bit width dst y)
          (capacity width dst)
          (nonoverlapping_copy top width src sr dst dr)
  unfolding nonoverlapping_copy word_index
  nonoverlapping_copy-overwritten dst v le lt sizes =
      let first = dr.lo / width in
      let count = dr.hi / width + 1 - first in
      let (lb, lo) = split_index width dr.lo wide in
      let (hb, hi) = split_index width dr.hi wide in
      let ordered : first < suc (dr.hi / width) =
        times_lt width first (suc (dr.hi / width))
          (omega (arith, times_suc width (dr.hi / width))) in
      let counted : count * width + first * width ≡ dr.hi / width * width + width =
        sym (add-mul count first width)
        ∙ ap (λ k. k * width) (omega arith)
        ∙ (times_suc width (dr.hi / width) ∙ omega arith) in
      let e : (size top sr == size top dr) ≡ true = ground arith in
      let (p, ws, made, q, u, c, b) =
        at_word-Makes width (λ p. Unit {0})
          (λ ws. copy_words top width src sr dr first count ws >>= λ ws. some (tt {0}, ws))
          (λ y. if has dr y then copied y else bit width dst y) first dst v (omega arith)
          (λ i l. let h : has dr i ≡ false = ground arith in rw h)
          (λ rest u c b.
            let (ws, made, v2, c2, b2) =
              copy_words-overwritten first count rest u (omega arith) (omega arith) (omega arith) in
            (
              tt,
              ws,
              rw made,
              tt,
              v2,
              c2,
              λ i.
                  let g : (has dr (i + first * width) && ltb i (count * width))
                      ≡ has dr (i + first * width) =
                    ground arith in
                  b2 i ∙ rw (b i, g),
            )) in
      (ws, rw (e, made), u, c, b)
