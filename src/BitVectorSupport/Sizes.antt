-- ===== src/BitVectorSupport/Sizes.antt =====
-- Ranges and word counts of Sawyer/BitVectorSupport.h that do not overflow.
use sawyer.Prelude.Word.{add_wrap, sub_wrap, add_wrap-cases, sub_wrap-cases}
use sawyer.Prelude.{
  ℕ, zero, suc, ◌+◌, ◌-◌, ◌*◌, ◌≤◌, ◌<◌, min, max, ◌≡◌, refl, false, ltb, ◌==◌, some, arith,
}
use sawyer.Interval.{base_size, base_size_overflows, hull_of, empty}
use sawyer.BitVectorSupport.{zeros, number_of_words}
use sawyer.BitVectorSupport.Meaning.{bit, bit-cons, capacity, IsVector, split_index}
use sawyer.Prelude.Bits.{pow_pos, test_bit-zero}

-- baseSize of a range that is not empty,
pub base_size-some :
    (top lo n : ℕ)
    → 1 ≤ n
    → lo + n ≤ top
    → base_size top lo n ≡ some (record { lo = lo; hi = lo + n - 1 })
unfolding base_size base_size_overflows hull_of
base_size-some top lo n h k =
    let a : add_wrap top lo n ≡ lo + n = ground (arith, add_wrap-cases top lo n) in
    let b : sub_wrap top (lo + n) 1 ≡ lo + n - 1 = ground (arith, sub_wrap-cases top (lo + n) 1) in
    let c : ltb (lo + n) lo ≡ false = ground arith in
    let d : (0 == n) ≡ false = ground arith in
    let e : min lo (lo + n - 1) ≡ lo = omega arith in
    let f : max lo (lo + n - 1) ≡ lo + n - 1 = omega arith in rw (a, c, d, b, e, f)

-- and of an empty one.
pub base_size-none : (top lo : ℕ) → lo ≤ top → base_size top lo 0 ≡ some empty
unfolding base_size base_size_overflows
base_size-none top lo h =
    let a : add_wrap top lo 0 ≡ lo = ground (arith, add_wrap-cases top lo 0) in
    let c : ltb lo lo ≡ false = ground arith in rw (a, c)

module _ (width : ℕ) where
  pub number_of_words-enough :
      (top n : ℕ) → 1 ≤ width → n + width ≤ top → n ≤ number_of_words width top n * width
  unfolding number_of_words
  number_of_words-enough top n w h =
      let a : add_wrap top n width ≡ n + width = ground (arith, add_wrap-cases top n width) in
      let b : sub_wrap top (n + width) 1 ≡ n + width - 1 =
        ground (arith, sub_wrap-cases top (n + width) 1) in
      rw (a, b) (omega (arith, split_index width (n + width - 1) w))

  pub number_of_words-bounded :
      (top n : ℕ) → 1 ≤ width → n + width ≤ top → number_of_words width top n * width < n + width
  unfolding number_of_words
  number_of_words-bounded top n w h =
      let a : add_wrap top n width ≡ n + width = ground (arith, add_wrap-cases top n width) in
      let b : sub_wrap top (n + width) 1 ≡ n + width - 1 =
        ground (arith, sub_wrap-cases top (n + width) 1) in
      rw (a, b) (omega (arith, split_index width (n + width - 1) w))

  pub zeros-IsVector : (n : ℕ) → IsVector width (zeros n)
  unfolding zeros
  zeros-IsVector zero = tt
  zeros-IsVector (suc n) = (pow_pos width, zeros-IsVector n)

  pub capacity-zeros : (n : ℕ) → capacity width (zeros n) ≡ n * width
  unfolding zeros capacity
  capacity-zeros zero = omega arith
  capacity-zeros (suc n) = grind (arith, capacity-zeros n)

  pub bit-zeros : (n i : ℕ) → bit width (zeros n) i ≡ false
  unfolding zeros bit
  bit-zeros zero i = refl
  bit-zeros (suc n) i =
      bit-cons width 0 (zeros n) (λ i. false) (λ j l. test_bit-zero j) (bit-zeros n) i
