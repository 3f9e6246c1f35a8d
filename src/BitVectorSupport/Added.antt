-- ===== src/BitVectorSupport/Added.antt =====
-- The loop of `add` of Sawyer/BitVectorSupport.h: the numbers of two aligned vectors.
use sawyer.Prelude.Bits.{test_bit, shift_right, pow_double}
use sawyer.Prelude.Bits.Shift.{test_bit-shift_right, shift_right-le}
use sawyer.Prelude.{
  ℕ, zero, suc, ◌+◌, ◌-◌, ◌*◌, ◌%◌, ◌^◌, ◌≤◌, ◌<◌, min, ◌≡◌, refl, sym, ap, ◌∙◌, ◌⊎◌, inl, inr,
  Bool, true, false, ltb, some, arith, Bool-cases, List, [], ◌∷◌,
}
use sawyer.BitVectorSupport.{process_source}
use sawyer.BitVectorSupport.Pairs.{low_to_high2}
use sawyer.BitVectorSupport.Arithmetic.{add_bits}
use sawyer.BitVectorSupport.Meaning.{bit, bit-head, bit-tail, capacity, IsVector, within}
use sawyer.BitVectorSupport.Words.{placed, placed-lt, test_bit-placed, process_source-placed}
use sawyer.BitVectorSupport.Number.{number, bit_value, number_cong, number_split, number-test_bit}
use sawyer.BitVectorSupport.Sum.{add_bits_lem}

pub pow_sum : (k m : ℕ) → 2 ^ (k + m) ≡ 2 ^ k * 2 ^ m
pow_sum zero m = let e : 0 + m ≡ m = omega arith in rw e (omega arith)
pow_sum (suc k) m =
    let e : suc k + m ≡ suc (k + m) = omega arith in
    rw (e, pow_double (k + m), pow_double k, pow_sum k m) (grind arith)

-- The sums of the low and of the high digits give that of all digits. p = 2 ^ k, q = 2 ^ m.
joined :
    (p q t u x r a b v c1 c : ℕ)
    → t + c1 * p ≡ v + u + x
    → r + c * q ≡ c1 + a + b
    → t + p * r + c * (p * q) ≡ v + (u + p * a) + (x + p * b)
joined p q t u x r a b v c1 c low high =
    let scaled : p * (r + c * q) ≡ p * (c1 + a + b) = ap (λ k. p * k) high in
    grind (arith, scaled, low)

module _ (width : ℕ) where
  -- The first k bits come from the first word, the others from the words behind it.
  number_cons :
      (x : ℕ) (xs : List ℕ) (offset k m low : ℕ)
      → k + offset ≤ width
      → (m ≡ 0) ⊎ (k + offset ≡ width)
      → number (λ i. test_bit x (i + offset)) k ≡ low
      → number (λ i. bit width (x ∷ xs) (i + offset)) (k + m)
        ≡ low + 2 ^ k * number (λ i. bit width xs (i + 0)) m
  number_cons x xs offset k m low h c e =
      let f : ℕ → Bool = λ i. bit width (x ∷ xs) (i + offset) in
      let head : number f k ≡ low =
        number_cong f (λ i. test_bit x (i + offset)) k
          (λ i l. bit-head width x xs (i + offset) (omega arith))
        ∙ e in
      let tail : number (λ i. f (i + k)) m ≡ number (λ i. bit width xs (i + 0)) m =
        number_cong (λ i. f (i + k)) (λ i. bit width xs (i + 0)) m
          (λ i l. elim c [
            | inl z ↦ absurd (omega arith)
            | inr z ↦
                bit-tail width x xs (i + k + offset) (omega arith) ∙ ap (bit width xs) (omega arith)
          ]) in
      number_split f k m ∙ rw (head, tail)

  shifted_number :
      (x offset k : ℕ) → number (λ i. test_bit x (i + offset)) k ≡ shift_right x offset % 2 ^ k
  shifted_number x offset k =
      number_cong (λ i. test_bit x (i + offset)) (test_bit (shift_right x offset)) k
        (λ i l. sym (test_bit-shift_right x offset i))
      ∙ number-test_bit (shift_right x offset) k

  number-placed :
      (x t offset k : ℕ)
      → x < 2 ^ width
      → offset + k ≤ width
      → number (λ i. test_bit (placed width offset k x t) (i + offset)) k ≡ t % 2 ^ k
  number-placed x t offset k h l =
      number_cong (λ i. test_bit (placed width offset k x t) (i + offset)) (test_bit t) k
        (λ i q.
          let e : within offset k (i + offset) ≡ true = ground arith in
          test_bit-placed width offset k x t (i + offset) h l
          ∙ rw e (ap (test_bit t) (omega arith)))
      ∙ number-test_bit t k

  -- The number of the `n` bits of an array from `offset` on.
  abbrev pub number_at : List ℕ → ℕ → ℕ → ℕ
  number_at ws offset n = number (λ i. bit width ws (i + offset)) n

  -- The bits outside the range stay.
  pub outside :
      (x : ℕ) (ws : List ℕ) (y : ℕ) (rs : List ℕ) (offset all n i : ℕ)
      → x < 2 ^ width
      → offset + n ≤ width
      → n ≡ min (width - offset) all
      → ((i : ℕ) → within 0 (all - n) i ≡ false → bit width rs i ≡ bit width ws i)
      → within offset all i ≡ false
      → bit width (placed width offset n x y ∷ rs) i ≡ bit width (x ∷ ws) i
  outside x ws y rs offset all n i h l s out e = elim (Bool-cases (ltb i width)) [
    | inl q ↦
        let p : i < width = ground arith in
        let w : within offset n i ≡ false = ground arith in
        bit-head width (placed width offset n x y) rs i p
        ∙ (test_bit-placed width offset n x y i h l ∙ rw w (sym (bit-head width x ws i p)))
    | inr q ↦
        let p : width ≤ i = ground arith in
        let w : within 0 (all - n) (i - width) ≡ false = ground arith in
        bit-tail width (placed width offset n x y) rs i p
        ∙ (out (i - width) w ∙ sym (bit-tail width x ws i p))
  ]

  -- The numbers of the first word and of those behind it give those of both.
  pub sums :
      (t : ℕ) (tmp : List ℕ) (x : ℕ) (ws : List ℕ) (y : ℕ) (rs : List ℕ) (offset n m all : ℕ)
      (carry c1 c : Bool)
      → all ≡ n + m
      → offset + n ≤ width
      → (m ≡ 0) ⊎ (n + offset ≡ width)
      → x < 2 ^ width
      → y % 2 ^ n + bit_value c1 * 2 ^ n
        ≡ bit_value carry + shift_right t offset % 2 ^ n + shift_right x offset % 2 ^ n
      → number_at rs 0 m + bit_value c * 2 ^ m ≡ bit_value c1 + number_at tmp 0 m + number_at ws 0 m
      → number_at (placed width offset n x y ∷ rs) offset all + bit_value c * 2 ^ all
        ≡ bit_value carry + number_at (t ∷ tmp) offset all + number_at (x ∷ ws) offset all
  sums t tmp x ws y rs offset n m all carry c1 c s l d h word rest =
      let o : n + offset ≤ width = omega arith in
      let a =
        number_cons (placed width offset n x y) rs offset n m (y % 2 ^ n) o d
          (number-placed x y offset n h l) in
      let b =
        number_cons t tmp offset n m (shift_right t offset % 2 ^ n) o d
          (shifted_number t offset n) in
      let e =
        number_cons x ws offset n m (shift_right x offset % 2 ^ n) o d
          (shifted_number x offset n) in
      rw (s, a, b, e, pow_sum n m)
        (joined (2 ^ n) (2 ^ m) (y % 2 ^ n) (shift_right t offset % 2 ^ n)
          (shift_right x offset % 2 ^ n) (number_at rs 0 m) (number_at tmp 0 m) (number_at ws 0 m)
          (bit_value carry) (bit_value c1) (bit_value c) word rest)

  pub low_to_high2-added :
      (top : ℕ)
      → 1 ≤ width
      → (offset n : ℕ) (carry : Bool) (tmp ws : List ℕ) → IsVector width tmp
      → IsVector width ws
      → offset < width
      → offset + n ≤ capacity width tmp
      → offset + n ≤ capacity width ws
      → (c : Bool) × (t : List ℕ) × (rs : List ℕ) × (low_to_high2 top width
            (process_source width (add_bits width))
            carry
            offset
            n
            tmp
            ws
          ≡ some ((c, t), rs))
        × IsVector width rs
        × (capacity width rs ≡ capacity width ws)
        × ((i : ℕ) → within offset n i ≡ false → bit width rs i ≡ bit width ws i)
        × (number_at rs offset n + bit_value c * 2 ^ n
            ≡ bit_value carry + number_at tmp offset n + number_at ws offset n)
  unfolding low_to_high2 capacity number
  low_to_high2-added top wide offset zero carry tmp ws u v h k l =
      (carry, tmp, ws, refl, v, refl, λ i e. refl, omega arith)
  low_to_high2-added top wide offset (suc r) carry [] ws u v h k l = absurd (omega arith)
  low_to_high2-added top wide offset (suc r) carry (t ∷ tmp) [] u v h k l = absurd (omega arith)
  low_to_high2-added top wide offset (suc r) carry (t ∷ tmp) (x ∷ ws) u v h k l =
      let n = min (width - offset) (suc r) in
      let m = suc r - n in
      let n1 : offset + n ≤ width = omega arith in
      let (c1, y, e1, ly, word) =
        add_bits_lem width carry (shift_right t offset) (shift_right x offset) n
          (omega (arith, shift_right-le t offset)) (omega (arith, shift_right-le x offset))
          (omega arith) in
      let (c, t2, rs, e2, v2, cap, out, rest) =
        low_to_high2-added top wide 0 m c1 tmp ws u.1 v.1 wide (omega arith) (omega arith) in
      let z = placed width offset n x y in
      let e3 : process_source width (add_bits width) carry t x offset n ≡ some (c1, (t, z), false) =
        process_source-placed width (add_bits width) carry c1 t x offset n y false e1 h n1 in
      let pos : ltb 0 n ≡ true = ground arith in
      let ends : (m ≡ 0) ⊎ (n + offset ≡ width) = ground arith in
      (
        c,
        t ∷ t2,
        z ∷ rs,
        rw (pos, e3, e2),
        (placed-lt width offset n x y v.0, v2),
        ap (λ k. width + k) cap,
        λ i e. outside x ws y rs offset (suc r) n i v.0 n1 refl out e,
        sums t tmp x ws y rs offset n m (suc r) carry c1 c (omega arith) n1 ends v.0 word rest,
      )
