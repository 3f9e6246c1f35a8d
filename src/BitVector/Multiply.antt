-- ===== src/BitVector/Multiply.antt =====
-- What `add`, `shiftLeft` by one and `multiply` of Sawyer/BitVector.h make of the numbers of whole
-- vectors.
use sawyer.Prelude.Word.{add_wrap, add_wrap-cases}
use sawyer.Prelude.{
  ℕ, zero, suc, ◌+◌, ◌-◌, ◌*◌, ◌≤◌, ◌^◌, ◌≡◌, refl, sym, ap, ◌∙◌, Bool, true, false, ltb,
  if◌then◌else◌, some, ◌>>=◌, arith,
}
use sawyer.Interval.{has}
use sawyer.BitVectorSupport.Meaning.{bit}
use sawyer.BitVectorSupport.Number.{number, bit_value, number_cong, number_split}
use sawyer.BitVectorSupport.Added.{number_at, pow_sum}
use sawyer.BitVectorSupport.Addition.{add_lem}
use sawyer.BitVectorSupport.Shifted.{shift_left_lem}
use sawyer.BitVector.{BitVector, no_bits, resize, make}
use sawyer.BitVector.Arithmetic.{add_all, multiply_loop, multiply}
use sawyer.BitVector.Shift.{shift_left_all}
use sawyer.BitVector.Meaning.{
  IsBitVector, IsBitVector-capacity, no_bits-IsBitVector, hull-some, resize_lem, get-bit,
}
use sawyer.BitVector.Values.{counted, doubled, step_total, value, value_lt, number_none, no_carry}

module _ (top width : ℕ) (wide : 1 ≤ width) where
  -- `add` of whole vectors of one size keeps the size, and the new number and the carry, times 2 to the
  -- size, are the sum of both numbers.
  pub add_all_lem :
      (v other : BitVector)
      → IsBitVector top width v
      → IsBitVector top width other
      → other.size ≡ v.size
      → 1 ≤ v.size
      → v.size + 3 * width ≤ top
      → (c : Bool) × (r : BitVector) × (add_all top width v other ≡ some (c, r))
        × IsBitVector top width r
        × (r.size ≡ v.size)
        × (value width r + bit_value c * 2 ^ v.size ≡ value width v + value width other)
  unfolding add_all value bit_value
  add_all_lem v other (u, c) (ou, oc) same some_bits fits =
      let (enough, room) = IsBitVector-capacity top width wide v (u, c) fits in
      let (enough2, room2) = IsBitVector-capacity top width wide other (ou, oc) (omega arith) in
      let (carry, ws, made, wu, wc, out, sum) =
        add_lem top width wide other.words (record { lo = 0; hi = other.size - 1 }) v.words
          (record { lo = 0; hi = v.size - 1 }) ou u (omega arith) (omega arith) (omega arith)
          (omega arith) (omega arith) room2 (omega arith) false in
      let total =
        counted (number_at width ws 0) (number_at width other.words 0) (number_at width v.words 0)
          (bit_value carry) (v.size - 1 + 1 - 0) v.size other.size (omega arith) same sum in
      let e = hull-some v some_bits in
      let e2 = hull-some other (omega arith) in
      (carry, record { words = ws; size = v.size }, rw (e, e2, made), (wu, wc ∙ c), refl, total)

  -- `shiftLeft` of a whole vector by one bit doubles its number, less the bit that is shifted out.
  shifted_one :
      (v : BitVector)
      → IsBitVector top width v
      → 1 ≤ v.size
      → v.size + 3 * width ≤ top
      → (t : ℕ) × (r : BitVector) × (shift_left_all top width v 1 false ≡ some r)
        × IsBitVector top width r
        × (r.size ≡ v.size)
        × (value width r + t * 2 ^ v.size ≡ 2 * value width v)
  unfolding shift_left_all value
  shifted_one v (u, c) some_bits fits =
      let (enough, room) = IsBitVector-capacity top width wide v (u, c) fits in
      let n = v.size - 1 in
      let (ws, made, wu, wc, bits) =
        shift_left_lem top width wide v.words (record { lo = 0; hi = n }) u (omega arith)
          (omega arith) room 1 false in
      let e = hull-some v some_bits in
      (
        number (λ i. bit width v.words (i + n + 0)) 1,
        record { words = ws; size = v.size },
        rw (e, made),
        (wu, wc ∙ c),
        refl,
        doubled (λ i. bit width ws (i + 0)) (λ i. bit width v.words (i + 0)) n v.size (omega arith)
            (bits (0 + 0) ∙ ground arith)
            (λ i l.
              let a : has (record { lo = 0; hi = n }) (suc i + 0) ≡ true = ground arith in
              let b : ltb (suc i + 0) (0 + 1) ≡ false = ground arith in
              bits (suc i + 0) ∙ rw (a, b) (ap (bit width v.words) (omega arith))),
      )

  -- The number of the digits of `f` from i on.
  next_digits :
      (f : ℕ → Bool) (i n : ℕ)
      → number (λ j. f (j + i)) (suc n) ≡ bit_value (f i) + 2 * number (λ j. f (j + suc i)) n
  unfolding number
  next_digits f i n =
      let a : f (0 + i) ≡ f i = ap f (omega arith) in
      let b = number_cong (λ j. f (suc j + i)) (λ j. f (j + suc i)) n (λ j l. ap f (omega arith)) in
      rw (a, b)

  -- The product after one bit of the multiplier.
  added_if :
      (b : Bool) (product addend : BitVector)
      → IsBitVector top width product
      → IsBitVector top width addend
      → addend.size ≡ product.size
      → 1 ≤ product.size
      → product.size + 3 * width ≤ top
      → (c : ℕ) × (p : BitVector) × ((if b
            then (add_all top width product addend >>= λ r. some r.1)
            else some product)
          ≡ some p)
        × IsBitVector top width p
        × (p.size ≡ product.size)
        × (value width p + c * 2 ^ product.size
            ≡ value width product + bit_value b * value width addend)
  unfolding bit_value
  added_if false product addend pv av same some_bits fits =
      (0, product, refl, pv, refl, omega arith)
  added_if true product addend pv av same some_bits fits =
      let (c, p, made, v, s, total) = add_all_lem product addend pv av same some_bits fits in
      (bit_value c, p, rw made, v, s, omega (arith, total))

  multiply_loop_lem :
      (v product addend : BitVector) (i n : ℕ)
      → IsBitVector top width v
      → v.size + 3 * width ≤ top
      → i + n ≡ v.size
      → IsBitVector top width product
      → IsBitVector top width addend
      → addend.size ≡ product.size
      → v.size ≤ product.size
      → product.size + 3 * width ≤ top
      → (k : ℕ) × (r : BitVector) × (multiply_loop top width v product addend i n ≡ some r)
        × IsBitVector top width r
        × (r.size ≡ product.size)
        × (value width r + k * 2 ^ product.size
            ≡ value width product + value width addend * number (λ j. bit width v.words (j + i)) n)
  unfolding multiply_loop number
  multiply_loop_lem v product addend i zero vv vfits e pv av same le fits =
      (0, product, refl, pv, refl, omega arith)
  multiply_loop_lem v product addend i (suc n) vv vfits e pv av same le fits =
      let got = get-bit top width v i wide vv vfits (omega arith) in
      let (t, d, shifted, dv, ds, twice) = shifted_one addend av (omega arith) (omega arith) in
      let (c, p, made, pv', ps, sum) =
        added_if (bit width v.words i) product addend pv av same (omega arith) fits in
      let (k, r, rest, rv, rs, total) =
        multiply_loop_lem v p d (suc i) n vv vfits (omega arith) pv' dv (omega arith) (omega arith)
          (omega arith) in
      let digits = next_digits (bit width v.words) i n in
      (
        k + c + t * number (λ j. bit width v.words (j + suc i)) n,
        r,
        rw (got, made, shifted) rest,
        rv,
        rs ∙ ps,
        step_total (value width r) k (2 ^ product.size) (2 ^ p.size) (2 ^ addend.size)
            (value width p) (value width d) (number (λ j. bit width v.words (j + suc i)) n)
            (value width product) (value width addend) (bit_value (bit width v.words i)) c t
            (number (λ j. bit width v.words (j + i)) (suc n)) (ap (λ z. 2 ^ z) ps)
            (ap (λ z. 2 ^ z) same) digits total sum twice,
      )

  -- A vector of the number zero.
  make-zero :
      (n : ℕ)
      → n + 3 * width ≤ top
      → (r : BitVector) × (make top width n false ≡ some r)
        × IsBitVector top width r
        × (r.size ≡ n)
        × (value width r ≡ 0)
  unfolding make value
  make-zero n fits =
      let (r, made, rv, s, bits) =
        resize_lem top width wide no_bits n false (no_bits-IsBitVector top width wide (omega arith))
          (omega arith) fits in
      (
        r,
        made,
        rv,
        s,
        number_none (λ i. bit width r.words (i + 0)) r.size
            (λ i l. bits (i + 0) (omega arith) ∙ ground arith),
      )

  -- A vector grown by zeros.
  resize-value :
      (v : BitVector) (m : ℕ)
      → IsBitVector top width v
      → v.size + m + 3 * width ≤ top
      → (r : BitVector) × (resize top width v (v.size + m) false ≡ some r)
        × IsBitVector top width r
        × (r.size ≡ v.size + m)
        × (value width r ≡ value width v)
  unfolding value
  resize-value v m vv fits =
      let (r, made, rv, s, bits) =
        resize_lem top width wide v (v.size + m) false vv (omega arith) fits in
      let f : ℕ → Bool = λ i. bit width r.words (i + 0) in
      let low =
        number_cong f (λ i. bit width v.words (i + 0)) v.size
          (λ i l.
            let t : ltb (i + 0) v.size ≡ true = ground arith in
            bits (i + 0) (omega arith) ∙ rw t) in
      let high =
        number_none (λ i. f (i + v.size)) m
          (λ i l.
            let t : ltb (i + v.size + 0) v.size ≡ false = ground arith in
            bits (i + v.size + 0) (omega arith) ∙ rw t) in
      let parts = ap (number f) s ∙ number_split f v.size m in
      (r, made, rv, s, parts ∙ rw (low, high) (omega arith))

  multiply_of :
      (v other product addend r : BitVector)
      → add_wrap top v.size other.size ≡ v.size + other.size
      → make top width (v.size + other.size) false ≡ some product
      → resize top width other product.size false ≡ some addend
      → multiply_loop top width v product addend 0 v.size ≡ some r
      → multiply top width v other ≡ some r
  unfolding multiply
  multiply_of v other product addend r sum made grown loop = rw (sum, made, grown) loop

  -- `multiply` of any two vectors gives the product of their numbers, in as many bits as both have.
  pub multiply_lem :
      (v other : BitVector)
      → IsBitVector top width v
      → IsBitVector top width other
      → v.size + other.size + 3 * width ≤ top
      → (r : BitVector) × (multiply top width v other ≡ some r)
        × IsBitVector top width r
        × (r.size ≡ v.size + other.size)
        × (value width r ≡ value width v * value width other)
  unfolding value
  multiply_lem v other vv ov fits =
      let sum : add_wrap top v.size other.size ≡ v.size + other.size =
        ground (arith, add_wrap-cases top v.size other.size) in
      let (product, made, pv, ps, none_yet) = make-zero (v.size + other.size) fits in
      let (addend, grown, av, as_, same) = resize-value other v.size ov (omega arith) in
      let target : other.size + v.size ≡ product.size = omega arith in
      let grown : resize top width other product.size false ≡ some addend =
        ap (λ n. resize top width other n false) (sym target) ∙ grown in
      let (k, r, loop, rv, rs, total) =
        multiply_loop_lem v product addend 0 v.size vv (omega arith) (omega arith) pv av
          (omega arith) (omega arith) (omega arith) in
      (
        r,
        multiply_of v other product addend r sum made grown loop,
        rv,
        rs ∙ ps,
        no_carry k (value width r) (2 ^ product.size) (value width product) (value width addend)
            (value width other) (value width v) (2 ^ other.size) (2 ^ v.size) none_yet same total
            (value_lt width other) (value_lt width v)
            (ap (λ n. 2 ^ n) (sym target) ∙ pow_sum other.size v.size),
      )
