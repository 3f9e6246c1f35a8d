-- ===== src/Prelude/Bits/Shift.antt =====
-- The digits of shifted words, of remainders, complements and masks.
use Prim.Native.Nat.{ℕ, zero, suc, ◌+◌, ◌-◌, ◌*◌, ◌/◌, ◌%◌, ◌^◌, ◌≤◌, ◌<◌}
use mathlib.Core.Path.{◌≡◌, sym, ap, ◌∙◌}
use mathlib.Core.Bool.{true, false, not, ◌&&◌}
use native.Mathlib.Omega.{arith}
use native.Mathlib.Nat.{
  pow-suc, div-div-eq-div-mul, mod-eq_of_lt, add-mul-mod_self_left, mod-lt, div-add-mod,
  div-le_self,
}
use sawyer.Prelude.Tests.{ltb, leb, ◌==◌}
use sawyer.Prelude.Bits.{
  test_bit, complement, shift_left, shift_right, test_bit-zero, pow_pos, pow_double,
}

pow_suc_half : (a n : ℕ) → a / 2 ^ suc n ≡ a / 2 / 2 ^ n
pow_suc_half a n =
    let e : 2 ^ suc n ≡ 2 * 2 ^ n = omega (arith, pow-suc 2 n) in
    ap (λ k. a / k) e ∙ sym (div-div-eq-div-mul a 2 (2 ^ n))

pub test_bit-shift_right : (a n i : ℕ) → test_bit (shift_right a n) i ≡ test_bit a (i + n)
unfolding test_bit shift_right
test_bit-shift_right a zero i =
    let e : a / 2 ^ 0 ≡ a = omega arith in let f : i + 0 ≡ i = omega arith in rw (e, f)
test_bit-shift_right a (suc n) i =
    let f : i + suc n ≡ suc (i + n) = omega arith in
    rw (pow_suc_half a n, f) (test_bit-shift_right (a / 2) n i)

-- A remainder by a power of two keeps the low digits.
pub mod_half : (p a : ℕ) → 1 ≤ p → a % (2 * p) / 2 ≡ a / 2 % p
mod_half p a h =
    let q : ℕ = a / (2 * p) in
    let d : 2 * p * q + a % (2 * p) ≡ a = div-add-mod a (2 * p) in
    let m : a % (2 * p) < 2 * p = mod-lt a (omega arith) in
    let s : 2 * p * q ≡ 2 * (p * q) = grind arith in
    let e : a / 2 ≡ a % (2 * p) / 2 + p * q = omega arith in
    sym
      (ap (λ k. k % p) e ∙ add-mul-mod_self_left (a % (2 * p) / 2) p q ∙ mod-eq_of_lt (omega arith))

pub mod_low : (p a : ℕ) → 1 ≤ p → a % (2 * p) % 2 ≡ a % 2
mod_low p a h =
    let q : ℕ = a / (2 * p) in
    let d : 2 * p * q + a % (2 * p) ≡ a = div-add-mod a (2 * p) in
    let s : 2 * p * q ≡ 2 * (p * q) = grind arith in omega arith

ltb-suc : (i w : ℕ) → ltb (suc i) (suc w) ≡ ltb i w
ltb-suc i w = ground arith

pub test_bit-mod : (w a i : ℕ) → test_bit (a % 2 ^ w) i ≡ (ltb i w && test_bit a i)
unfolding test_bit
test_bit-mod zero a i =
    let e : a % 2 ^ 0 ≡ 0 = omega arith in
    let f : ltb i 0 ≡ false = ground arith in rw (e, f) (test_bit-zero i)
test_bit-mod (suc w) a zero =
    let e : a % 2 ^ suc w ≡ a % (2 * 2 ^ w) = ap (λ k. a % k) (pow_double w) in
    let f : ltb 0 (suc w) ≡ true = ground arith in rw (e, mod_low (2 ^ w) a (pow_pos w), f)
test_bit-mod (suc w) a (suc i) =
    let e : a % 2 ^ suc w ≡ a % (2 * 2 ^ w) = ap (λ k. a % k) (pow_double w) in
    rw (e, mod_half (2 ^ w) a (pow_pos w), ltb-suc i w) (test_bit-mod w (a / 2) i)

-- A word below 2 ^ w has no digit from w on.
pub test_bit-high : (w a i : ℕ) → a < 2 ^ w → w ≤ i → test_bit a i ≡ false
test_bit-high w a i p q =
    let e : a % 2 ^ w ≡ a = mod-eq_of_lt p in
    let f : ltb i w ≡ false = ground arith in
    ap (λ k. test_bit k i) (sym e) ∙ test_bit-mod w a i ∙ rw f

test_bit-times_pow : (n a i : ℕ) → test_bit (a * 2 ^ n) i ≡ (leb n i && test_bit a (i - n))
unfolding test_bit
test_bit-times_pow zero a i =
    let e : a * 2 ^ 0 ≡ a = omega arith in
    let f : i - 0 ≡ i = omega arith in let g : leb 0 i ≡ true = ground arith in rw (e, f, g)
test_bit-times_pow (suc n) a zero =
    let e : a * 2 ^ suc n ≡ a * 2 ^ n * 2 = grind (arith, pow-suc 2 n) in
    let f : leb (suc n) 0 ≡ false = ground arith in rw (e, f) (ground arith)
test_bit-times_pow (suc n) a (suc i) =
    let e : a * 2 ^ suc n / 2 ≡ a * 2 ^ n = grind (arith, pow-suc 2 n) in
    let f : leb (suc n) (suc i) ≡ leb n i = ground arith in
    let g : suc i - suc n ≡ i - n = omega arith in rw (e, f, g) (test_bit-times_pow n a i)

pub test_bit-shift_left :
    (w a n i : ℕ) → test_bit (shift_left w a n) i ≡ (ltb i w && (leb n i && test_bit a (i - n)))
unfolding shift_left
test_bit-shift_left w a n i = test_bit-mod w (a * 2 ^ n) i ∙ rw (test_bit-times_pow n a i)

-- 2 ^ n - 1 is n ones.
pub test_bit-ones : (n i : ℕ) → test_bit (2 ^ n - 1) i ≡ ltb i n
unfolding test_bit
test_bit-ones zero i =
    let e : 2 ^ 0 - 1 ≡ 0 = omega arith in
    let f : ltb i 0 ≡ false = ground arith in rw (e, f) (test_bit-zero i)
test_bit-ones (suc n) zero =
    let e : (2 ^ suc n - 1) % 2 ≡ 1 = omega (arith, pow_double n, pow_pos n) in
    let f : ltb 0 (suc n) ≡ true = ground arith in rw (e, f)
test_bit-ones (suc n) (suc i) =
    let e : (2 ^ suc n - 1) / 2 ≡ 2 ^ n - 1 = omega (arith, pow_double n, pow_pos n) in
    rw (e, ltb-suc i n) (test_bit-ones n i)

pub test_bit-complement :
    (w a i : ℕ) → a < 2 ^ w → test_bit (complement w a) i ≡ (ltb i w && not (test_bit a i))
unfolding test_bit complement
test_bit-complement zero a i h =
    let e : 2 ^ 0 - 1 - a ≡ 0 = omega arith in
    let f : ltb i 0 ≡ false = ground arith in rw (e, f) (test_bit-zero i)
test_bit-complement (suc w) a zero h =
    let f : ltb 0 (suc w) ≡ true = ground arith in
    let e : (2 ^ suc w - 1 - a) % 2 ≡ 1 - a % 2 = omega (arith, pow_double w, pow_pos w) in
    rw (e, f) (ground arith)
test_bit-complement (suc w) a (suc i) h =
    let e : (2 ^ suc w - 1 - a) / 2 ≡ 2 ^ w - 1 - a / 2 = omega (arith, pow_double w, pow_pos w) in
    rw (e, ltb-suc i w) (test_bit-complement w (a / 2) i (omega (arith, pow_double w)))

-- Words of w digits with the same digits are equal.
pub test_bit_ext :
    (w a b : ℕ) → a < 2 ^ w → b < 2 ^ w → ((i : ℕ) → i < w → test_bit a i ≡ test_bit b i) → a ≡ b
unfolding test_bit
test_bit_ext zero a b p q h = omega arith
test_bit_ext (suc w) a b p q h =
    let r : a / 2 ≡ b / 2 =
      test_bit_ext w (a / 2) (b / 2) (omega (arith, pow_double w)) (omega (arith, pow_double w))
        (λ i l. h (suc i) (omega arith)) in
    let s : (a % 2 == 1) ≡ (b % 2 == 1) = h 0 (omega arith) in
    let t : a % 2 ≡ b % 2 = ground arith in omega arith

pub complement-lt : (w a : ℕ) → complement w a < 2 ^ w
unfolding complement
complement-lt w a = omega (arith, pow_pos w)

pub shift_left-lt : (w a n : ℕ) → shift_left w a n < 2 ^ w
unfolding shift_left
shift_left-lt w a n = mod-lt (a * 2 ^ n) (pow_pos w)

pub shift_right-le : (a n : ℕ) → shift_right a n ≤ a
unfolding shift_right
shift_right-le a n = div-le_self a (2 ^ n)
