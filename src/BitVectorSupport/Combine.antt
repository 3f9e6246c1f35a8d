-- ===== src/BitVectorSupport/Combine.antt =====
-- What `copy`, `bitwiseAnd`, `bitwiseOr` and `bitwiseXor` of Sawyer/BitVectorSupport.h do to the bits.
use Prim.Native.Nat.{bit_and, bit_or, bit_xor}
use sawyer.Prelude.Bits.{
  complement, xor, test_bit-bit_and, test_bit-bit_or, test_bit-bit_xor, bit_and-lt, bit_or-lt,
  bit_xor-lt,
}
use sawyer.Prelude.Bits.Shift.{test_bit-complement}
use sawyer.Prelude.{
  ℕ, ◌+◌, ◌-◌, ◌*◌, ◌≤◌, ◌≡◌, ◌∙◌, Bool, true, ◌&&◌, ◌||◌, ltb, if◌then◌else◌, arith, lt→ltb, List,
}
use sawyer.Interval.{Interval, has}
use sawyer.BitVectorSupport.{mask, merge}
use sawyer.BitVectorSupport.Access.{
  copy, bitwise_and, bitwise_or, bitwise_xor, copy_bits, and_bits, or_bits, xor_bits,
}
use sawyer.BitVectorSupport.Meaning.{bit, capacity, IsVector, Gives}
use sawyer.BitVectorSupport.Words.{
  IsBitwise2, test_bit-low, mask-lt, low_mask-within, test_bit-merge, merge-lt,
}
use sawyer.BitVectorSupport.Bitwise2.{Paired, traverse2-changed}

-- The first of two bits.
abbrev pub first_bit : Bool → Bool → Bool
first_bit a b = a

module _ (width : ℕ) where
  copy_bits-IsBitwise2 : IsBitwise2 width first_bit (copy_bits width)
  unfolding copy_bits
  copy_bits-IsBitwise2 u x n hu h l =
      let m = mask width 0 n in
      (
        merge width m x u,
        rw (low_mask-within width n l),
        merge-lt width m x u h hu,
        λ j r.
            let e : ltb j n ≡ true = lt→ltb j n r in
            test_bit-merge width m x u j (mask-lt width 0 n) h ∙ rw (test_bit-low width n j l, e),
      )

  and_bits-IsBitwise2 : IsBitwise2 width (λ a b. b && a) (and_bits width)
  unfolding and_bits
  and_bits-IsBitwise2 u x n hu h l =
      let m = mask width 0 n in
      (
        bit_and x (bit_or u (complement width m)),
        rw (low_mask-within width n l),
        bit_and-lt width x (bit_or u (complement width m)) h,
        λ j r.
            let e : ltb j n ≡ true = lt→ltb j n r in
            test_bit-bit_and x (bit_or u (complement width m)) j
            ∙ rw
                (
                  test_bit-bit_or u (complement width m) j,
                  test_bit-complement width m j (mask-lt width 0 n),
                  test_bit-low width n j l,
                  e,
                )
                (ground arith),
      )

  or_bits-IsBitwise2 : IsBitwise2 width (λ a b. b || a) (or_bits width)
  unfolding or_bits
  or_bits-IsBitwise2 u x n hu h l =
      let m = mask width 0 n in
      (
        bit_or x (bit_and u m),
        rw (low_mask-within width n l),
        bit_or-lt width x (bit_and u m) h (bit_and-lt width u m hu),
        λ j r.
            let e : ltb j n ≡ true = lt→ltb j n r in
            test_bit-bit_or x (bit_and u m) j
            ∙ rw (test_bit-bit_and u m j, test_bit-low width n j l, e) (ground arith),
      )

  xor_bits-IsBitwise2 : IsBitwise2 width (λ a b. xor b a) (xor_bits width)
  unfolding xor_bits
  xor_bits-IsBitwise2 u x n hu h l =
      let m = mask width 0 n in
      (
        bit_xor x (bit_and u m),
        rw (low_mask-within width n l),
        bit_xor-lt width x (bit_and u m) h (bit_and-lt width u m hu),
        λ j r.
            let e : ltb j n ≡ true = lt→ltb j n r in
            test_bit-bit_xor x (bit_and u m) j
            ∙ rw (test_bit-bit_and u m j, test_bit-low width n j l, e) (ground arith),
      )

-- The bits of the second array, where those of the range are combined by `g`.
abbrev pub combined : ℕ → List ℕ → Interval → List ℕ → Interval → (Bool → Bool → Bool) → ℕ → Bool
combined width vec1 r1 vec2 r2 g i =
    if has r2 i then g (bit width vec1 (i - r2.lo + r1.lo)) (bit width vec2 i) else bit width vec2 i

module _ (top width : ℕ) (wide : 1 ≤ width) (vec1 : List ℕ) (r1 : Interval) (vec2 : List ℕ)
    (r2 : Interval) (v1 : IsVector width vec1) (v2 : IsVector width vec2)
    (paired : Paired (capacity width vec1) (capacity width vec2) r1 r2)
    (fits1 : capacity width vec1 + 2 * width ≤ top) (fits2 : capacity width vec2 ≤ top) where
  -- For two ranges of one size inside their arrays `copy` succeeds: the bits of the second range
  -- become those that the first range has before, the others stay. The arrays may be one array and
  -- the ranges may overlap.
  pub copy_lem :
      Gives width
        (combined width vec1 r1 vec2 r2 first_bit)
        (capacity width vec2)
        (copy top width vec1 r1 vec2 r2)
  unfolding copy
  copy_lem =
      let (ws, t, e, v, c, b) =
        traverse2-changed top width wide first_bit (copy_bits width) (copy_bits-IsBitwise2 width)
          vec1 r1 vec2 r2 v1 v2 paired fits1 fits2 in
      (ws, rw e, v, c, b)

  bitwise_and_lem :
      Gives width
        (combined width vec1 r1 vec2 r2 (λ a b. b && a))
        (capacity width vec2)
        (bitwise_and top width vec1 r1 vec2 r2)
  unfolding bitwise_and
  bitwise_and_lem =
      let (ws, t, e, v, c, b) =
        traverse2-changed top width wide (λ a b. b && a) (and_bits width)
          (and_bits-IsBitwise2 width) vec1 r1 vec2 r2 v1 v2 paired fits1 fits2 in
      (ws, rw e, v, c, b)

  bitwise_or_lem :
      Gives width
        (combined width vec1 r1 vec2 r2 (λ a b. b || a))
        (capacity width vec2)
        (bitwise_or top width vec1 r1 vec2 r2)
  unfolding bitwise_or
  bitwise_or_lem =
      let (ws, t, e, v, c, b) =
        traverse2-changed top width wide (λ a b. b || a) (or_bits width) (or_bits-IsBitwise2 width)
          vec1 r1 vec2 r2 v1 v2 paired fits1 fits2 in
      (ws, rw e, v, c, b)

  bitwise_xor_lem :
      Gives width
        (combined width vec1 r1 vec2 r2 (λ a b. xor b a))
        (capacity width vec2)
        (bitwise_xor top width vec1 r1 vec2 r2)
  unfolding bitwise_xor
  bitwise_xor_lem =
      let (ws, t, e, v, c, b) =
        traverse2-changed top width wide (λ a b. xor b a) (xor_bits width)
          (xor_bits-IsBitwise2 width) vec1 r1 vec2 r2 v1 v2 paired fits1 fits2 in
      (ws, rw e, v, c, b)

  -- For two ranges of one size inside their arrays `bitwiseAnd`, `bitwiseOr` and `bitwiseXor`
  -- succeed: each bit of the second range is combined with the bit of the first range at its place,
  -- and no other bit changes.
  pub bitwise_lem :
      Gives width
        (combined width vec1 r1 vec2 r2 (λ a b. b && a))
        (capacity width vec2)
        (bitwise_and top width vec1 r1 vec2 r2)
      × Gives width
          (combined width vec1 r1 vec2 r2 (λ a b. b || a))
          (capacity width vec2)
          (bitwise_or top width vec1 r1 vec2 r2)
      × Gives width
          (combined width vec1 r1 vec2 r2 (λ a b. xor b a))
          (capacity width vec2)
          (bitwise_xor top width vec1 r1 vec2 r2)
  bitwise_lem = (bitwise_and_lem, bitwise_or_lem, bitwise_xor_lem)
