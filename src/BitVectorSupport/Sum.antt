-- ===== src/BitVectorSupport/Sum.antt =====
-- The addition of two words by `AddBits` of Sawyer/BitVectorSupport.h.
use Prim.Native.Nat.{bit_and}
use native.Mathlib.Nat.{mod-lt, mod-eq_of_lt, pow-le-pow_right, add-mul-mod_self_left}
use sawyer.Prelude.Bits.{test_bit, pow_pos, pow_double}
use sawyer.Prelude.Bits.Shift.{test_bit-mod, test_bit_ext}
use sawyer.Prelude.{
  ℕ, suc, ◌+◌, ◌-◌, ◌*◌, ◌%◌, ◌^◌, ◌≤◌, ◌<◌, ◌≡◌, refl, sym, ap, ◌∙◌, ◌⊎◌, inl, inr, Bool, true,
  false, not, ◌&&◌, ◌||◌, ltb, leb, ◌==◌, if◌then◌else◌, some, arith, Bool-cases, lt→ltb,
}
use sawyer.BitVectorSupport.{mask, merge}
use sawyer.BitVectorSupport.Words.{
  test_bit-low, mask-lt, low_mask-within, bit_mask-within, test_bit-merge, merge-lt,
}
use sawyer.BitVectorSupport.Changes.{single_bit, not-not}
use sawyer.BitVectorSupport.Arithmetic.{add_bits}
use sawyer.BitVectorSupport.Number.{bit_value, low_bits, top_digit}

-- The carry out of a whole word: p = 2 ^ width.
whole_carry :
    (p c a b : ℕ) (carry : Bool)
    → c ≡ bit_value carry
    → a < p
    → b < p
    → (sum : ℕ) → ((c + a + b < p) × (sum ≡ c + a + b)) ⊎ ((p ≤ c + a + b) × (sum + p ≡ c + a + b))
    → sum + bit_value (ltb sum a || (sum == a && carry)) * p ≡ c + a + b
unfolding bit_value
whole_carry p c a b carry e la lb sum (inl (l, q)) =
    let k : (ltb sum a || (sum == a && carry)) ≡ false = ground arith in rw k (omega arith)
whole_carry p c a b carry e la lb sum (inr (l, q)) =
    let k : (ltb sum a || (sum == a && carry)) ≡ true = ground arith in rw k (omega arith)

pub mod_cases :
    (p x : ℕ) → 1 ≤ p → x < 2 * p → ((x < p) × (x % p ≡ x)) ⊎ ((p ≤ x) × (x % p + p ≡ x))
mod_cases p x h l = elim (Bool-cases (ltb x p)) [
  | inl e ↦ let q : x < p = ground arith in inl (q, mod-eq_of_lt q)
  | inr e ↦
      let q : p ≤ x = ground arith in
      let r : (x - p + p * 1) % p ≡ (x - p) % p = add-mul-mod_self_left (x - p) p 1 in
      let d : x - p + p * 1 ≡ x = omega arith in
      let m : x % p ≡ x - p = ap (λ k. k % p) (sym d) ∙ r ∙ mod-eq_of_lt (omega arith) in
      inr (q, omega arith)
]

module _ (width : ℕ) where
  -- The low digits of the merged word are those of the sum.
  pub merged_low :
      (x sum n : ℕ)
      → x < 2 ^ width
      → n ≤ width
      → merge width (mask width 0 n) x sum % 2 ^ n ≡ sum % 2 ^ n
  merged_low x sum n h l =
      let y = merge width (mask width 0 n) x sum in
      test_bit_ext n (y % 2 ^ n) (sum % 2 ^ n) (mod-lt y (pow_pos n)) (mod-lt sum (pow_pos n))
        (λ i q.
          let e : ltb i n ≡ true = lt→ltb i n q in
          test_bit-mod n y i
          ∙ rw (
            e,
            test_bit-merge width (mask width 0 n) x sum i (mask-lt width 0 n) h,
            test_bit-low width n i l,
            e,
            test_bit-mod n sum i,
            e,
          ))

  -- The sum of two numbers of n < width digits and a carry.
  part_carry :
      (c a b n : ℕ)
      → c ≤ 1
      → a < 2 ^ n
      → b < 2 ^ n
      → n < width
      → (sum : ℕ) → sum ≡ (c + a + b) % 2 ^ width
      → sum < 2 ^ width
      → sum % 2 ^ n + bit_value (not (0 == bit_and sum (mask width n 1))) * 2 ^ n ≡ c + a + b
  unfolding bit_value
  part_carry c a b n hc ha hb l sum e k =
      let d = pow_double n in
      let p = pow-le-pow_right {n = 2} (omega arith) {i = suc n} {j = width} l in
      let exact : sum ≡ c + a + b = e ∙ mod-eq_of_lt (omega arith) in
      let digit : not (0 == bit_and sum (mask width n 1)) ≡ leb (2 ^ n) sum =
        ap not (single_bit width sum n k l)
        ∙ (not-not (test_bit sum n) ∙ top_digit n sum (omega arith)) in
      let m = mod_cases (2 ^ n) sum (pow_pos n) (omega arith) in rw digit (ground arith)

  -- The digits of the result are those of the exact sum, and the carry is its digit at n.
  pub add_bits_lem :
      (carry : Bool) (u x n : ℕ)
      → u < 2 ^ width
      → x < 2 ^ width
      → n ≤ width
      → (c : Bool) × (y : ℕ) × (add_bits width carry u x n ≡ some (c, y, false))
        × (y < 2 ^ width)
        × (y % 2 ^ n + bit_value c * 2 ^ n ≡ bit_value carry + u % 2 ^ n + x % 2 ^ n)
  unfolding add_bits bit_value merge
  add_bits_lem carry u x n hu hx l =
      let m = mask width 0 n in
      let a = bit_and u m in
      let b = bit_and x m in
      let c : ℕ = if carry then 1 else 0 in
      let sum : ℕ = (c + a + b) % 2 ^ width in
      let y : ℕ = merge width m x sum in
      let ea : a ≡ u % 2 ^ n = low_bits width u n hu l in
      let eb : b ≡ x % 2 ^ n = low_bits width x n hx l in
      let la : a < 2 ^ n = omega (arith, mod-lt u (pow_pos n)) in
      let lb : b < 2 ^ n = omega (arith, mod-lt x (pow_pos n)) in
      let small : sum < 2 ^ width = mod-lt (c + a + b) (pow_pos width) in
      let low = merged_low x sum n hx l in
      let c1 : c ≤ 1 = ground arith in
      let exact : c + a + b ≡ c + u % 2 ^ n + x % 2 ^ n = omega (arith, ea, eb) in
      elim (Bool-cases (n == width)) [
        | inl e ↦
            let w : n ≡ width = ground arith in
            let total = c + a + b in
            let s : sum ≡ total % 2 ^ n = ap (λ k. total % 2 ^ k) (sym w) in
            let sl : sum < 2 ^ n = omega (arith, mod-lt total (pow_pos n)) in
            let r =
              whole_carry (2 ^ n) c a b carry refl la lb (total % 2 ^ n)
                (mod_cases (2 ^ n) total (pow_pos n) (omega arith)) in
            (
              ltb sum a || (sum == a && carry),
              y,
              rw (low_mask-within width n l, e),
              merge-lt width m x sum hx small,
              ap (λ k. k + bit_value (ltb sum a || (sum == a && carry)) * 2 ^ n)
                    (low ∙ mod-eq_of_lt sl)
                  ∙ (ap (λ k. k + bit_value (ltb k a || (k == a && carry)) * 2 ^ n) s
                      ∙ (r ∙ exact)),
            )
        | inr e ↦
            let w : n < width = ground arith in
            (
              not (0 == bit_and sum (mask width n 1)),
              y,
              rw (low_mask-within width n l, e, bit_mask-within width n 1 (omega arith)),
              merge-lt width m x sum hx small,
              ap (λ k. k + bit_value (not (0 == bit_and sum (mask width n 1))) * 2 ^ n) low
                  ∙ (part_carry c a b n c1 la lb w sum refl small ∙ exact),
            )
      ]
