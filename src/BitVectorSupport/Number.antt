-- ===== src/BitVectorSupport/Number.antt =====
-- The number that the bits of a range stand for, the lowest first.
use Prim.Native.Nat.{bit_and}
use native.Mathlib.Nat.{mod-le}
use sawyer.Prelude.Bits.{test_bit, pow_pos, pow_double, test_bit-bit_and, bit_and-lt}
use sawyer.Prelude.Bits.Shift.{test_bit-mod, test_bit_ext, mod_half, mod_low}
use sawyer.Prelude.{
  Bool-cases, inl, inr, ℕ, zero, suc, ◌+◌, ◌*◌, ◌/◌, ◌%◌, ◌^◌, ◌≤◌, ◌<◌, ◌≡◌, refl, ap, ◌∙◌, Bool,
  leb, if◌then◌else◌, arith,
}
use sawyer.BitVectorSupport.{mask}
use sawyer.BitVectorSupport.Words.{test_bit-low}

unfoldable pub bit_value : Bool → ℕ
bit_value b = if b then 1 else 0

-- The number of the bits 0 to n - 1 of `f`.
unfoldable pub number : (ℕ → Bool) → ℕ → ℕ
unfolding bit_value
number f zero = 0
number f (suc n) = bit_value (f 0) + 2 * number (λ i. f (suc i)) n

pub number_cong : (f g : ℕ → Bool) (n : ℕ) → ((i : ℕ) → i < n → f i ≡ g i) → number f n ≡ number g n
unfolding number
number_cong f g zero h = refl
number_cong f g (suc n) h = rw (
  h 0 (omega arith),
  number_cong (λ i. f (suc i)) (λ i. g (suc i)) n (λ i l. h (suc i) (omega arith)),
)

pub number_lt : (f : ℕ → Bool) (n : ℕ) → number f n < 2 ^ n
unfolding number bit_value
number_lt f zero = omega arith
number_lt f (suc n) =
    let ih = number_lt (λ i. f (suc i)) n in
    let p = pow_double n in
    elim (Bool-cases (f 0)) [ inl e ↦ rw e (omega arith) | inr e ↦ rw e (omega arith) ]

pub number_split :
    (f : ℕ → Bool) (n m : ℕ) → number f (n + m) ≡ number f n + 2 ^ n * number (λ i. f (i + n)) m
unfolding number
number_split f zero m =
    let e : 0 + m ≡ m = omega arith in
    let c : number (λ i. f (i + 0)) m ≡ number f m =
      number_cong (λ i. f (i + 0)) f m (λ i l. ap f (omega arith)) in
    rw (e, c) (omega arith)
number_split f (suc n) m =
    let e : suc n + m ≡ suc (n + m) = omega arith in
    let ih = number_split (λ i. f (suc i)) n m in
    let c : number (λ i. f (suc (i + n))) m ≡ number (λ i. f (i + suc n)) m =
      number_cong (λ i. f (suc (i + n))) (λ i. f (i + suc n)) m (λ i l. ap f (omega arith)) in
    let p = pow_double n in rw (e, ih, c, p) (grind arith)

-- The digits of a word are its value.
pub number-test_bit : (x n : ℕ) → number (test_bit x) n ≡ x % 2 ^ n
unfolding number test_bit bit_value
number-test_bit x zero = omega arith
number-test_bit x (suc n) =
    let e : x % 2 ^ suc n ≡ x % (2 * 2 ^ n) = ap (λ k. x % k) (pow_double n) in
    let ih = number-test_bit (x / 2) n in
    let h = mod_half (2 ^ n) x (pow_pos n) in
    let l = mod_low (2 ^ n) x (pow_pos n) in rw (ih, e) (ground arith)

module _ (width : ℕ) where
  -- word & bitMask(0, n)
  pub low_bits : (x n : ℕ) → x < 2 ^ width → n ≤ width → bit_and x (mask width 0 n) ≡ x % 2 ^ n
  low_bits x n h l =
      test_bit_ext width (bit_and x (mask width 0 n)) (x % 2 ^ n)
        (bit_and-lt width x (mask width 0 n) h) (omega (arith, mod-le x (2 ^ n)))
        (λ i q.
          test_bit-bit_and x (mask width 0 n) i
          ∙ rw (test_bit-low width n i l, test_bit-mod n x i) (ground arith))

-- The digit at n of a number of at most n + 1 digits.
pub top_digit : (n s : ℕ) → s < 2 ^ suc n → test_bit s n ≡ leb (2 ^ n) s
unfolding test_bit
top_digit zero s h = ground arith
top_digit (suc n) s h =
    let p = pow_double n in
    let q = pow_double (suc n) in top_digit n (s / 2) (omega arith) ∙ ground arith
