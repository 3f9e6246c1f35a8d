-- ===== src/BitVector/Values.antt =====
-- The numbers of whole vectors of Sawyer/BitVector.h, and the sums that their arithmetic leads to.
use native.Mathlib.Nat.{mul-le-mul_left, mul-lt-mul_of_pos_right}
use sawyer.Prelude.{
  ℕ, zero, suc, ◌+◌, ◌*◌, ◌≤◌, ◌<◌, ◌^◌, ◌≡◌, refl, sym, ap, ◌∙◌, Bool, false, arith,
}
use sawyer.Prelude.Bits.{pow_double}
use sawyer.BitVectorSupport.Meaning.{bit}
use sawyer.BitVectorSupport.Number.{number, number_lt, bit_value, number_cong, number_split}
use sawyer.BitVectorSupport.Added.{number_at}
use sawyer.BitVector.{BitVector}

pub counted :
    (f g h : ℕ → ℕ) (c n m k : ℕ)
    → n ≡ m
    → k ≡ m
    → f n + c * 2 ^ n ≡ 0 + g n + h n
    → f m + c * 2 ^ m ≡ h m + g k
counted f g h c n m k e d sum = rw (d, sym e) (omega (arith, sum))

double_parts : (f g low x p m : ℕ) → f ≡ 2 * low → g ≡ low + p * x → m ≡ 2 * p → f + x * m ≡ 2 * g
double_parts f g low x p m a b c = rw (a, b, c) (grind arith)

-- Digits that have moved up by one.
pub doubled :
    (f g : ℕ → Bool) (n m : ℕ)
    → m ≡ suc n
    → f 0 ≡ false
    → ((i : ℕ) → i < n → f (suc i) ≡ g i)
    → number f m + number (λ i. g (i + n)) 1 * 2 ^ m ≡ 2 * number g m
unfolding number bit_value
doubled f g n m s low high =
    let moved = number_cong (λ i. f (suc i)) g n high in
    let twice : number f (suc n) ≡ 2 * number g n = rw (low, moved) (omega arith) in
    let e : suc n ≡ n + 1 = omega arith in
    let parts = ap (number g) (s ∙ e) ∙ number_split g n 1 in
    double_parts (number f m) (number g m) (number g n) (number (λ i. g (i + n)) 1) (2 ^ n) (2 ^ m)
      (ap (number f) s ∙ twice) parts (ap (λ k. 2 ^ k) s ∙ pow_double n)

pub step_total :
    (r k x x1 x2 p1 d1 m p d b c t q : ℕ)
    → x1 ≡ x
    → x2 ≡ x
    → q ≡ b + 2 * m
    → r + k * x1 ≡ p1 + d1 * m
    → p1 + c * x ≡ p + b * d
    → d1 + t * x2 ≡ 2 * d
    → r + (k + c + t * m) * x ≡ p + d * q
step_total r k x x1 x2 p1 d1 m p d b c t q e1 e2 eq total sum twice =
    let scaled : (d1 + t * x) * m ≡ 2 * d * m =
      ap (λ z. z * m) (ap (λ z. d1 + t * z) (sym e2) ∙ twice) in
    let total : r + k * x ≡ p1 + d1 * m = ap (λ z. r + k * z) (sym e1) ∙ total in
    rw eq (grind (arith, scaled, total, sum))

-- The number that a vector stands for.
unfoldable pub value : ℕ → BitVector → ℕ
value width v = number_at width v.words 0 v.size

pub value_lt : (width : ℕ) (v : BitVector) → value width v < 2 ^ v.size
unfolding value
value_lt width v = number_lt (λ i. bit width v.words (i + 0)) v.size

pub number_none : (f : ℕ → Bool) (n : ℕ) → ((i : ℕ) → i < n → f i ≡ false) → number f n ≡ 0
unfolding number bit_value
number_none f zero h = refl
number_none f (suc n) h =
    rw (h 0 (omega arith), number_none (λ i. f (suc i)) n (λ i l. h (suc i) (omega arith))) refl

-- A product of numbers below `l` and `m` has no carry out of l * m.
pub no_carry :
    (k r x p a0 a b l m : ℕ)
    → p ≡ 0
    → a0 ≡ a
    → r + k * x ≡ p + a0 * b
    → a < l
    → b < m
    → x ≡ l * m
    → r ≡ b * a
no_carry zero r x p a0 a b l m z s e al bm t =
    let f : a0 * b ≡ a * b = ap (λ k. k * b) s in grind (arith, e, f, z)
no_carry (suc k) r x p a0 a b l m z s e al bm t =
    let f : a0 * b ≡ a * b = ap (λ k. k * b) s in
    let g : a * b ≤ a * m = mul-le-mul_left a (omega arith) in
    let h : a * m < l * m = mul-lt-mul_of_pos_right al (omega arith) in
    let u : suc k * x ≡ x + k * x = grind arith in absurd (omega arith)
