-- ===== src/BitVectorSupport/Subtraction.antt =====
-- What `subtract` of Sawyer/BitVectorSupport.h makes of the numbers of its ranges.
use sawyer.Prelude.Bits.{pow_double}
use sawyer.Prelude.{
  ℕ, zero, suc, ◌+◌, ◌-◌, ◌*◌, ◌^◌, ◌≤◌, ◌<◌, ◌≡◌, refl, sym, ap, ◌∙◌, Bool, true, false, not, leb,
  some, arith, inl, inr, Bool-cases, List,
}
use sawyer.Interval.{Interval, has, size, base_size}
use sawyer.BitVectorSupport.{zeros, number_of_words}
use sawyer.BitVectorSupport.Access.{copy, invert}
use sawyer.BitVectorSupport.Arithmetic.{add, subtract}
use sawyer.BitVectorSupport.Meaning.{bit, capacity, IsVector, Inside-size}
use sawyer.BitVectorSupport.Sizes.{base_size-some}
use sawyer.BitVectorSupport.Changes.{invert_lem}
use sawyer.BitVectorSupport.Rotated.{saved_bits}
use sawyer.BitVectorSupport.Number.{number, number_lt, bit_value, number_cong}
use sawyer.BitVectorSupport.Added.{number_at}
use sawyer.BitVectorSupport.Addition.{add_lem}

-- A number and the number of its inverted digits.
pub number-not : (f : ℕ → Bool) (n : ℕ) → number (λ i. not (f i)) n + number f n + 1 ≡ 2 ^ n
unfolding number bit_value
number-not f zero = omega arith
number-not f (suc n) =
    let ih = number-not (λ i. f (suc i)) n in
    let p = pow_double n in
    elim (Bool-cases (f 0)) [ inl e ↦ rw e (omega arith) | inr e ↦ rw e (omega arith) ]

same_range :
    (r : Interval) (n : ℕ) → r.lo + n - 1 ≡ r.hi → record { lo = r.lo; hi = r.lo + n - 1 } ≡ r
same_range r n e = ap (λ h. record { lo = r.lo; hi = h }) e

one_bit : bit_value true ≡ 1
unfolding bit_value
one_bit = refl

totals :
    (one temp a b out p : ℕ) → one ≡ 1 → out ≡ one + temp + b → temp + a + 1 ≡ p → out + a ≡ b + p
totals one temp a b out p e sum count = omega (arith, e, sum, count)

-- Nothing is borrowed where the first number is not the greater one.
carry_order : (c : Bool) (a b out p : ℕ) → out < p → out + bit_value c * p + a ≡ b + p → c ≡ leb a b
unfolding bit_value
carry_order true a b out p l e = let h : a ≤ b = omega arith in ground arith
carry_order false a b out p l e = let h : b < a = omega arith in ground arith

module _ (top width : ℕ) (wide : 1 ≤ width) (vec1 : List ℕ) (r1 : Interval) (vec2 : List ℕ)
    (r2 : Interval) (v1 : IsVector width vec1) (v2 : IsVector width vec2) (le1 : r1.lo ≤ r1.hi)
    (lt1 : r1.hi < capacity width vec1) (le2 : r2.lo ≤ r2.hi) (lt2 : r2.hi < capacity width vec2)
    (sizes : r1.hi - r1.lo ≡ r2.hi - r2.lo) (fits1 : capacity width vec1 + 4 * width ≤ top)
    (fits2 : capacity width vec2 ≤ top) where
  subtract_of :
      (range : Interval) (saved temp : List ℕ) (r : Bool × List ℕ)
      → base_size top 0 (size top r1) ≡ some range
      → copy top width vec1 r1 (zeros (number_of_words width top (size top r1))) range ≡ some saved
      → invert top width saved range ≡ some temp
      → add top width temp range vec2 r2 true ≡ some r
      → subtract top width vec1 r1 vec2 r2 ≡ some r
  unfolding subtract
  subtract_of range saved temp r e1 e2 e3 e4 = rw (e1, e2, e3) e4

  -- The number of the inverted copy.
  inverted :
      (saved temp : List ℕ) (n : ℕ)
      → ((i : ℕ) → i < n → bit width saved i ≡ bit width vec1 (i + r1.lo))
      → ((i : ℕ) → i < n → bit width temp i ≡ not (bit width saved i))
      → number_at width temp 0 n + number_at width vec1 r1.lo n + 1 ≡ 2 ^ n
  inverted saved temp n s t =
      let e : number_at width temp 0 n ≡ number (λ i. not (bit width vec1 (i + r1.lo))) n =
        number_cong (λ i. bit width temp (i + 0)) (λ i. not (bit width vec1 (i + r1.lo))) n
          (λ i l. ap (bit width temp) (omega arith) ∙ (t i l ∙ ap not (s i l))) in
      let p = number-not (λ i. bit width vec1 (i + r1.lo)) n in omega (arith, e, p)

  -- The inverted copy, and how `subtract` goes on with it.
  prepared :
      (n : ℕ)
      → n ≡ size top r1
      → n ≡ r1.hi + 1 - r1.lo
      → (temp : List ℕ) × ((r : Bool × List ℕ)
          → add top width temp (record { lo = 0; hi = 0 + n - 1 }) vec2 r2 true ≡ some r
          → subtract top width vec1 r1 vec2 r2 ≡ some r)
        × IsVector width temp
        × (0 + n - 1 < capacity width temp)
        × (capacity width temp + 2 * width ≤ top)
        × (number_at width temp 0 n + number_at width vec1 r1.lo n + 1 ≡ 2 ^ n)
  prepared n s e =
      let range : Interval = record { lo = 0; hi = 0 + n - 1 } in
      let whole = same_range r1 n (omega arith) in
      let (saved, copied, sv, enough, bounded, sb) =
        saved_bits top width wide vec1 r1 v1 le1 lt1 fits1 n (number_of_words width top n) refl
          (omega arith) (omega arith) in
      let (temp, turned, tv, tc, tb) =
        invert_lem top width wide saved range sv (inr (omega arith, omega arith)) (omega arith) in
      (
        temp,
        λ r added.
            subtract_of range saved temp r
              (ap (base_size top 0) (sym s) ∙ base_size-some top 0 n (omega arith) (omega arith))
              (ap (λ k. copy top width vec1 r1 (zeros (number_of_words width top k)) range) (sym s)
                ∙ ap (λ r. copy top width vec1 r (zeros (number_of_words width top n)) range)
                    (sym whole)
                ∙ copied)
              turned added,
        tv,
        omega arith,
        omega arith,
        inverted saved temp n sb
            (λ i l. let h : has range i ≡ true = ground arith in tb i ∙ rw h refl),
      )

  -- The same without the meaning of the carry.
  subtracted :
      (c : Bool) × (ws : List ℕ) × (subtract top width vec1 r1 vec2 r2 ≡ some (c, ws))
      × IsVector width ws
      × (capacity width ws ≡ capacity width vec2)
      × ((i : ℕ) → has r2 i ≡ false → bit width ws i ≡ bit width vec2 i)
      × (number_at width ws r2.lo (r2.hi + 1 - r2.lo)
            + bit_value c * 2 ^ (r2.hi + 1 - r2.lo)
            + number_at width vec1 r1.lo (r2.hi + 1 - r2.lo)
          ≡ number_at width vec2 r2.lo (r2.hi + 1 - r2.lo) + 2 ^ (r2.hi + 1 - r2.lo))
  subtracted =
      let (e1, s1) = Inside-size top (capacity width vec1) r1 (omega arith) (omega arith) le1 lt1 in
      let n = r2.hi + 1 - r2.lo in
      let (temp, goes_on, tv, inside, room, count) = prepared n (omega arith) (omega arith) in
      let (c, ws, added, wv, wc, out, sum) =
        add_lem top width wide temp (record { lo = 0; hi = 0 + n - 1 }) vec2 r2 tv v2 (omega arith)
          inside le2 lt2 (omega arith) room fits2 true in
      (
        c,
        ws,
        goes_on (c, ws) added,
        wv,
        wc,
        out,
        totals (bit_value true) (number_at width temp 0 n) (number_at width vec1 r1.lo n)
            (number_at width vec2 r2.lo n) (number_at width ws r2.lo n + bit_value c * 2 ^ n)
            (2 ^ n) one_bit sum count,
      )

  -- For two ranges of one size inside their arrays, of n bits each, `subtract` succeeds and changes no
  -- bit outside the second range. The new number of the second range, the carry times 2 ^ n and the
  -- number of the first range are the number of the second range before and 2 ^ n. The answer is the
  -- carry, which is false exactly where the number of the first range is the greater one.
  pub subtract_lem :
      (c : Bool) × (ws : List ℕ) × (subtract top width vec1 r1 vec2 r2 ≡ some (c, ws))
      × IsVector width ws
      × (capacity width ws ≡ capacity width vec2)
      × ((i : ℕ) → has r2 i ≡ false → bit width ws i ≡ bit width vec2 i)
      × (number_at width ws r2.lo (r2.hi + 1 - r2.lo)
            + bit_value c * 2 ^ (r2.hi + 1 - r2.lo)
            + number_at width vec1 r1.lo (r2.hi + 1 - r2.lo)
          ≡ number_at width vec2 r2.lo (r2.hi + 1 - r2.lo) + 2 ^ (r2.hi + 1 - r2.lo))
      × (c
          ≡ leb
              (number_at width vec1 r1.lo (r2.hi + 1 - r2.lo))
              (number_at width vec2 r2.lo (r2.hi + 1 - r2.lo)))
  subtract_lem =
      let (c, ws, made, wv, wc, out, total) = subtracted in
      let n = r2.hi + 1 - r2.lo in
      (
        c,
        ws,
        made,
        wv,
        wc,
        out,
        total,
        carry_order c (number_at width vec1 r1.lo n) (number_at width vec2 r2.lo n)
            (number_at width ws r2.lo n) (2 ^ n) (number_lt (λ i. bit width ws (i + r2.lo)) n)
            total,
      )
