-- ===== src/BitVectorSupport/Incremented.antt =====
-- The loop of `increment` of Sawyer/BitVectorSupport.h: the number of a range that grows by one.
use Prim.Native.Nat.{bit_and}
use native.Mathlib.Nat.{mod-lt, mod-eq_of_lt, pow-le-pow_right}
use sawyer.Prelude.Bits.{pow_pos, shift_right}
use sawyer.Prelude.Bits.Shift.{shift_right-le}
use sawyer.Prelude.{
  ℕ, zero, suc, ◌+◌, ◌-◌, ◌*◌, ◌%◌, ◌^◌, ◌≤◌, ◌<◌, min, ◌≡◌, refl, ap, ◌∙◌, ◌⊎◌, inl, inr, Bool,
  true, false, not, ltb, Option, some, ◌>>=◌, arith, Bool-cases, List, [], ◌∷◌,
}
use sawyer.BitVectorSupport.{mask, merge, process_word, zeros}
use sawyer.BitVectorSupport.Traverse.{low_to_high}
use sawyer.BitVectorSupport.Arithmetic.{increment_bits}
use sawyer.BitVectorSupport.Meaning.{bit, capacity, IsVector, within}
use sawyer.BitVectorSupport.Words.{
  placed, placed-lt, process_word-placed, low_mask-within, merge-lt,
}
use sawyer.BitVectorSupport.Number.{number, bit_value, number_cong, low_bits}
use sawyer.BitVectorSupport.Sum.{mod_cases, merged_low}
use sawyer.BitVectorSupport.Sizes.{bit-zeros}
use sawyer.BitVectorSupport.Added.{number_at, outside, sums}

-- The carry of a number of n ≤ width digits: p = 2 ^ n, w = 2 ^ width.
one_more :
    (p w a sum : ℕ)
    → 2 ≤ p
    → p ≤ w
    → a < p
    → sum ≡ (a + 1) % w
    → sum % p + bit_value (ltb (sum % p) a) * p ≡ 1 + a
unfolding bit_value
one_more p w a sum two le l e =
    let m = mod_cases w (a + 1) (omega arith) (omega arith) in
    let k : sum ≤ p = ground arith in
    let n = mod_cases p sum (omega arith) (omega arith) in
    elim (Bool-cases (ltb (sum % p) a)) [
      | inl q ↦ rw q (ground arith)
      | inr q ↦ rw q (ground arith)
    ]

number-none : (n : ℕ) → number (λ i. false) n ≡ 0
unfolding number bit_value
number-none zero = refl
number-none (suc n) = rw (number-none n) refl

module _ (width : ℕ) where
  increment_bits_lem :
      (x n : ℕ)
      → x < 2 ^ width
      → 1 ≤ n
      → n ≤ width
      → (c : Bool) × (y : ℕ) × (increment_bits width true x n ≡ some (c, y, not c))
        × (y < 2 ^ width)
        × (y % 2 ^ n + bit_value c * 2 ^ n ≡ 1 + x % 2 ^ n)
  unfolding increment_bits merge
  increment_bits_lem x n h p l =
      let m = mask width 0 n in
      let sum = (bit_and x m + 1) % 2 ^ width in
      let ea : bit_and x m ≡ x % 2 ^ n = low_bits width x n h l in
      let small : sum < 2 ^ width = mod-lt (bit_and x m + 1) (pow_pos width) in
      let es : bit_and sum m ≡ sum % 2 ^ n = low_bits width sum n small l in
      let two = pow-le-pow_right {n = 2} (omega arith) {i = 1} {j = n} p in
      let le = pow-le-pow_right {n = 2} (omega arith) {i = n} {j = width} l in
      (
        ltb (bit_and sum m) (bit_and x m),
        merge width m x sum,
        rw (low_mask-within width n l),
        merge-lt width m x sum h small,
        rw (merged_low width x sum n h l, es, ea)
            (one_more (2 ^ n) (2 ^ width) (x % 2 ^ n) ((x % 2 ^ n + 1) % 2 ^ width) (omega arith) le
              (mod-lt x (pow_pos n)) refl),
      )

  number-zeros : (k offset n : ℕ) → number_at width (zeros k) offset n ≡ 0
  number-zeros k offset n =
      number_cong (λ i. bit width (zeros k) (i + offset)) (λ i. false) n
        (λ i l. bit-zeros width k (i + offset))
      ∙ number-none n

  -- The numbers of the first word and of those behind it, where zeros are added.
  counts :
      (x : ℕ) (ws : List ℕ) (y : ℕ) (rs : List ℕ) (offset n m all : ℕ) (carry c1 c : Bool)
      → all ≡ n + m
      → offset + n ≤ width
      → (m ≡ 0) ⊎ (n + offset ≡ width)
      → x < 2 ^ width
      → y % 2 ^ n + bit_value c1 * 2 ^ n ≡ bit_value carry + shift_right x offset % 2 ^ n
      → number_at width rs 0 m + bit_value c * 2 ^ m ≡ bit_value c1 + number_at width ws 0 m
      → number_at width (placed width offset n x y ∷ rs) offset all + bit_value c * 2 ^ all
        ≡ bit_value carry + number_at width (x ∷ ws) offset all
  unfolding zeros
  counts x ws y rs offset n m all carry c1 c s l d h word rest =
      let z = number-zeros 1 offset all in
      let t = number-zeros 0 0 m in
      let q : shift_right 0 offset ≡ 0 = omega (arith, shift_right-le 0 offset) in
      let r : shift_right 0 offset % 2 ^ n ≡ 0 = ap (λ k. k % 2 ^ n) q ∙ mod-eq_of_lt (pow_pos n) in
      sums width 0 [] x ws y rs offset n m all carry c1 c s l d h (omega (arith, word, r))
        (omega (arith, rest, t))
      ∙ omega (arith, z)

  -- An array `rs` and a carry out for a carry into the bits from `offset` on, `n` of them, of `ws`.
  abbrev pub Counted : Bool → ℕ → ℕ → List ℕ → Bool → List ℕ → Type 0
  Counted carry offset n ws c rs =
      IsVector width rs
      × (capacity width rs ≡ capacity width ws)
      × ((i : ℕ) → within offset n i ≡ false → bit width rs i ≡ bit width ws i)
      × (number_at width rs offset n + bit_value c * 2 ^ n
          ≡ bit_value carry + number_at width ws offset n)

  -- How the loop goes on behind a word y with the carry c1.
  abbrev after : Bool → ℕ → List ℕ → (Bool → Option (Bool × List ℕ)) → Option (Bool × List ℕ)
  after c1 y ws step = elim (not c1) [
    | true ↦ some (c1, y ∷ ws)
    | false ↦ step c1 >>= λ r. some (r.0, y ∷ r.1)
  ]

  -- The words behind one with the carry c1 stay where it is clear.
  further :
      (c1 : Bool) (y m : ℕ) (ws : List ℕ) (step : Bool → Option (Bool × List ℕ))
      → IsVector width ws
      → ((c : Bool) × (rs : List ℕ) × (step true ≡ some (c, rs)) × Counted true 0 m ws c rs)
      → (c : Bool) × (rs : List ℕ) × (after c1 y ws step ≡ some (c, y ∷ rs))
        × Counted c1 0 m ws c rs
  unfolding bit_value
  further false y m ws step v h = (false, ws, refl, (v, refl, λ i e. refl, omega arith))
  further true y m ws step v (c, rs, e, rest) = (c, rs, rw e, rest)

  pub low_to_high-incremented :
      (top : ℕ)
      → 1 ≤ width
      → (offset n : ℕ) (ws : List ℕ) → IsVector width ws
      → offset < width
      → offset + n ≤ capacity width ws
      → (c : Bool) × (rs : List ℕ) × (low_to_high top width
            (process_word width (increment_bits width))
            true
            offset
            n
            ws
          ≡ some (c, rs))
        × Counted true offset n ws c rs
  unfolding low_to_high capacity number bit_value
  low_to_high-incremented top wide offset zero ws v h l =
      (true, ws, refl, (v, refl, λ i e. refl, omega arith))
  low_to_high-incremented top wide offset (suc r) [] v h l = absurd (omega arith)
  low_to_high-incremented top wide offset (suc r) (x ∷ ws) v h l =
      let n = min (width - offset) (suc r) in
      let m = suc r - n in
      let n1 : offset + n ≤ width = omega arith in
      let (c1, y, e1, ly, word) =
        increment_bits_lem (shift_right x offset) n (omega (arith, shift_right-le x offset))
          (omega arith) (omega arith) in
      let e2 =
        process_word-placed width (increment_bits width) true c1 x offset n y (not c1) e1 h n1 in
      let pos : ltb 0 n ≡ true = ground arith in
      let ends : (m ≡ 0) ⊎ (n + offset ≡ width) = ground arith in
      let (c, rs, e3, (v2, cap, out, rest)) =
        further c1 (placed width offset n x y) m ws
          (λ b. low_to_high top width (process_word width (increment_bits width)) b 0 m ws) v.1
          (low_to_high-incremented top wide 0 m ws v.1 wide (omega arith)) in
      (
        c,
        placed width offset n x y ∷ rs,
        rw (pos, e2) e3,
        (
          (placed-lt width offset n x y v.0, v2),
          ap (λ k. width + k) cap,
          λ i e. outside width x ws y rs offset (suc r) n i v.0 n1 refl out e,
          counts x ws y rs offset n m (suc r) true c1 c (omega arith) n1 ends v.0 word rest,
        ),
      )
