-- ===== src/BitVectorSupport/Negation.antt =====
-- What `increment` and `negate` of Sawyer/BitVectorSupport.h make of the number of a range.
use native.Mathlib.Nat.{mod-eq_of_lt}
use sawyer.Prelude.{
  ℕ, zero, suc, ◌+◌, ◌-◌, ◌*◌, ◌/◌, ◌%◌, ◌^◌, ◌≤◌, ◌<◌, ◌≡◌, refl, sym, ap, ◌∙◌, inr, Bool, true,
  false, not, if◌then◌else◌, some, arith, List,
}
use sawyer.Interval.{Interval, is_empty, has, size}
use sawyer.BitVectorSupport.{process_word, at_word, word_index, bit_index}
use sawyer.BitVectorSupport.Traverse.{low_to_high, traverse}
use sawyer.BitVectorSupport.Access.{invert}
use sawyer.BitVectorSupport.Arithmetic.{increment_bits, increment, negate}
use sawyer.BitVectorSupport.Meaning.{
  bit, capacity, IsVector, Inside-size, split_index, at_word-step,
}
use sawyer.BitVectorSupport.Number.{number, bit_value, number_cong}
use sawyer.BitVectorSupport.Whole.{kept, from_word}
use sawyer.BitVectorSupport.Added.{number_at}
use sawyer.BitVectorSupport.Incremented.{low_to_high-incremented}
use sawyer.BitVectorSupport.Changes.{invert_lem}
use sawyer.BitVectorSupport.Number.{number_lt}
use sawyer.BitVectorSupport.Subtraction.{number-not}
use native.Mathlib.Nat.{mod_self}

recounted :
    (f g : ℕ → ℕ) (c n m : ℕ) → n ≡ m → f n + c * 2 ^ n ≡ 1 + g n → f m + c * 2 ^ m ≡ 1 + g m
recounted f g c n m e sum = rw (sym e) sum

-- The number 2 ^ n - b below p = 2 ^ n.
negated : (p out c old : ℕ) → out < p → out + c * p + old ≡ p → out ≡ (p - old) % p
negated p out zero old l e = let d : p - old ≡ out = omega arith in rw d (sym (mod-eq_of_lt l))
negated p out (suc c) old l e =
    let t : suc c * p ≡ p + c * p = grind arith in
    let d : p - old ≡ p = omega arith in
    let z : out ≡ 0 = omega arith in rw (d, z) (sym (mod_self p))

module _ (top width : ℕ) (wide : 1 ≤ width) (ws : List ℕ) (range : Interval) (v : IsVector width ws)
    (le : range.lo ≤ range.hi) (lt : range.hi < capacity width ws) (fits : capacity width ws ≤ top)
    (wide_type : 1 ≤ top) where
  increment_of :
      (r : Bool × List ℕ)
      → is_empty range ≡ false
      → at_word
          (range.lo / width)
          (low_to_high top width
            (process_word width (increment_bits width))
            true
            (range.lo % width)
            (size top range))
          ws
        ≡ some r
      → increment top width ws range ≡ some r
  unfolding increment traverse word_index bit_index
  increment_of r e h =
      ap
        (λ b.
          if b
          then some (true, ws)
          else at_word (range.lo / width)
              (low_to_high top width (process_word width (increment_bits width)) true
                (range.lo % width) (size top range))
              ws)
        e
      ∙ h

  -- `increment` of a range of n bits inside an array succeeds and changes no bit outside the range; the
  -- new number and the carry, times 2 ^ n, are one more than the number before.
  pub increment_lem :
      (c : Bool) × (out : List ℕ) × (increment top width ws range ≡ some (c, out))
      × IsVector width out
      × (capacity width out ≡ capacity width ws)
      × ((i : ℕ) → has range i ≡ false → bit width out i ≡ bit width ws i)
      × (number_at width out range.lo (range.hi + 1 - range.lo)
            + bit_value c * 2 ^ (range.hi + 1 - range.lo)
          ≡ 1 + number_at width ws range.lo (range.hi + 1 - range.lo))
  unfolding bit_value
  increment_lem =
      let (e, s) = Inside-size top (capacity width ws) range wide_type fits le lt in
      let (o, d) = split_index width range.lo wide in
      let n = size top range in
      let (rest, rv, rc, rb, place) =
        at_word-step width
          (low_to_high top width (process_word width (increment_bits width)) true (range.lo % width)
            n)
          (range.lo / width) ws v (omega arith) in
      let (c, rs, done, (wv, wc, outside_, sum)) =
        low_to_high-incremented width top wide (range.lo % width) n rest rv o (omega arith) in
      let (out, set, sv, sc, low, high) = place c rs done wv wc in
      let a = from_word width wide ws range le rs out n high in
      let b = from_word width wide ws range le rest ws n (λ i. sym (rb i)) in
      (
        c,
        out,
        increment_of (c, out) e set,
        sv,
        sc,
        λ i h. kept width wide ws range le rest rs out n i s rb outside_ low high h,
        recounted (number_at width out range.lo) (number_at width ws range.lo) (bit_value c) n
            (range.hi + 1 - range.lo) s (omega (arith, a, b, sum)),
      )

module _ (top width : ℕ) (wide : 1 ≤ width) (ws : List ℕ) (range : Interval) (v : IsVector width ws)
    (le : range.lo ≤ range.hi) (lt : range.hi < capacity width ws) (fits : capacity width ws ≤ top)
    (wide_type : 1 ≤ top) where
  negate_of :
      (turned out : List ℕ) (c : Bool)
      → invert top width ws range ≡ some turned
      → increment top width turned range ≡ some (c, out)
      → negate top width ws range ≡ some out
  unfolding negate
  negate_of turned out c e1 e2 = rw (e1, e2)

  -- `negate` of a range of n bits inside an array succeeds and changes no bit outside the range; the
  -- new number is 2 ^ n less the number before, and 0 for 0.
  pub negate_lem :
      (out : List ℕ) × (negate top width ws range ≡ some out)
      × IsVector width out
      × (capacity width out ≡ capacity width ws)
      × ((i : ℕ) → has range i ≡ false → bit width out i ≡ bit width ws i)
      × (number_at width out range.lo (range.hi + 1 - range.lo)
          ≡ (2 ^ (range.hi + 1 - range.lo) - number_at width ws range.lo (range.hi + 1 - range.lo))
            % 2 ^ (range.hi + 1 - range.lo))
  negate_lem =
      let (turned, e1, tv, tc, tb) = invert_lem top width wide ws range v (inr (le, lt)) fits in
      let (c, out, e2, ov, oc, kept_, sum) =
        increment_lem top width wide turned range tv le (omega arith) (omega arith) wide_type in
      let n = range.hi + 1 - range.lo in
      let t : number_at width turned range.lo n
          ≡ number (λ i. not (bit width ws (i + range.lo))) n =
        number_cong (λ i. bit width turned (i + range.lo)) (λ i. not (bit width ws (i + range.lo)))
          n
          (λ i l.
            let h : has range (i + range.lo) ≡ true = ground arith in
            tb (i + range.lo) ∙ rw h refl) in
      let whole = number-not (λ i. bit width ws (i + range.lo)) n in
      (
        out,
        negate_of turned out c e1 e2,
        ov,
        oc ∙ tc,
        λ i h. kept_ i h ∙ (tb i ∙ rw h refl),
        negated (2 ^ n) (number_at width out range.lo n) (bit_value c)
            (number_at width ws range.lo n) (number_lt (λ i. bit width out (i + range.lo)) n)
            (omega (arith, sum, t, whole)),
      )
