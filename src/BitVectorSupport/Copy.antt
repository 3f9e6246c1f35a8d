-- ===== src/BitVectorSupport/Copy.antt =====
-- What `nonoverlappingCopy` of Sawyer/BitVectorSupport.h does to the bits.
use native.Mathlib.Decide.{dec_lt}
use native.Mathlib.Nat.{add-mul, div-le_self, mul-le-mul_right}
use sawyer.Prelude.Bits.{test_bit}
use sawyer.Prelude.Word.{add_wrap, sub_wrap, add_wrap-cases, sub_wrap-cases, sub_wrap-le}
use sawyer.Prelude.{
  ℕ, zero, suc, ◌+◌, ◌-◌, ◌*◌, ◌/◌, ◌%◌, ◌^◌, ◌≤◌, ◌<◌, ◌≡◌, refl, sym, ap, ◌∙◌, inl, inr, Bool,
  true, ltb, leb, some, arith, Bool-cases, lt→ltb, ltb→lt, List,
}
use sawyer.Interval.{Interval, has}
use sawyer.BitVectorSupport.{get_word, word_index, bit_index}
use sawyer.BitVectorSupport.Traverse.{left_word, right_word, copied_word}
use sawyer.BitVectorSupport.Meaning.{bit, capacity, IsVector, split_index}
use sawyer.BitVectorSupport.Copied.{word, left_word-bit, right_word-bit}

module _ (width : ℕ) where
  pub times_lt : (a b : ℕ) → a * width < b * width → a < b
  times_lt a b h = elim (dec_lt a b) [
    | yes l ↦ l
    | no l ↦ absurd (omega (arith, mul-le-mul_right {m = b} {n = a} width (omega arith)))
  ]

  times_sum : (a b c d : ℕ) → a + b ≡ c + d → a * width + b * width ≡ c * width + d * width
  times_sum a b c d e = sym (add-mul a b width) ∙ ap (λ k. k * width) e ∙ add-mul c d width

  pub times_suc : (a : ℕ) → suc a * width ≡ width + a * width
  times_suc a = grind arith

  le_times : 1 ≤ width → (a : ℕ) → a ≤ a * width
  le_times w zero = omega arith
  le_times w (suc a) = omega (arith, le_times w a, times_suc a)

-- i + (first - other) in size_t, which may overflow on the way.
wrapped_offset :
    (top i first other : ℕ)
    → i ≤ top
    → first ≤ top
    → other ≤ i
    → i - other + first ≤ top
    → add_wrap top i (sub_wrap top first other) ≡ i - other + first
wrapped_offset top i first other a b c d =
    let s = sub_wrap-cases top first other b (omega arith) in
    let t = add_wrap-cases top i (sub_wrap top first other) a (sub_wrap-le top first other) in
    ground (arith, s, t)

le→leb : (a b : ℕ) → a ≤ b → leb a b ≡ true
le→leb a b h = ground arith

has-le : (range : Interval) (y : ℕ) → has range y ≡ true → (range.lo ≤ y) × (y ≤ range.hi)
has-le range y h = (ground arith, ground arith)

module _ (top width : ℕ) (wide : 1 ≤ width) (src : List ℕ) (v : IsVector width src)
    (sr dr : Interval) (src_in : sr.hi < capacity width src) (src_le : sr.lo ≤ sr.hi)
    (dst_le : dr.lo ≤ dr.hi) (sizes : sr.hi - sr.lo ≡ dr.hi - dr.lo)
    (src_fits : capacity width src ≤ top) (dst_fits : dr.hi ≤ top) where
  -- The bit of the source that goes to the bit `y` of the destination.
  abbrev source : ℕ → Bool
  source y = bit width src (y - dr.lo + sr.lo)

  module _ (i at : ℕ) (at_sum : at + dr.lo / width ≡ i + sr.lo / width) (from : dr.lo / width ≤ i)
      (to : i ≤ dr.hi / width) where
    -- Where the word of the source starts.
    at_times : at * width + dr.lo / width * width ≡ i * width + sr.lo / width * width
    at_times = times_sum width at (dr.lo / width) i (sr.lo / width) at_sum

    at_bound : at * width + sr.lo % width ≤ sr.hi + dr.lo % width
    at_bound = omega (
      arith,
      at_times,
      mul-le-mul_right width to,
      split_index width sr.lo wide,
      split_index width dr.lo wide,
      split_index width dr.hi wide,
    )

    at_fits : at ≤ top
    at_fits =
        elim at as (λ a. at ≡ a → a ≤ top) [
          | zero ↦ λ e. omega arith
          | suc a ↦ λ e.
              let t : at * width ≡ width + a * width = ap (λ k. k * width) e ∙ times_suc width a in
              omega (
                arith,
                at_bound,
                le_times width wide a,
                split_index width sr.lo wide,
                split_index width dr.lo wide,
              )
        ]
          refl

    last_le : (k : ℕ) → k ≤ sr.hi / width → k * width < capacity width src
    last_le k l = omega (arith, mul-le-mul_right width l, split_index width sr.hi wide)

    le_last : (k : ℕ) → k * width ≤ sr.hi → k ≤ sr.hi / width
    le_last k l =
        let t : k < suc (sr.hi / width) =
          times_lt width k (suc (sr.hi / width))
            (omega (arith, times_suc width (sr.hi / width), split_index width sr.hi wide)) in
        omega arith

    pred_times : (a : ℕ) → 1 ≤ a → (a - 1) * width + width ≡ a * width
    pred_times zero h = absurd (omega arith)
    pred_times (suc a) h =
        let e : suc a - 1 ≡ a = omega arith in rw e (omega (arith, times_suc width a))

    left_case :
        sr.lo % width < dr.lo % width
        → (t : ℕ) × (left_word top width src
              (sr.lo / width)
              (sr.hi / width)
              at
              (dr.lo % width - sr.lo % width)
            ≡ some t)
          × (t < 2 ^ width)
          × ((j : ℕ)
              → j < width
              → has dr (j + i * width) ≡ true
              → test_bit t j ≡ source (j + i * width))
    left_case c =
        let n = dr.lo % width - sr.lo % width in
        let (t, f, l, b) =
          left_word-bit top width src v (sr.lo / width) (sr.hi / width) at n (omega arith)
            (omega (arith, split_index width dr.lo wide))
            (λ k.
              omega (arith, at_bound, pred_times at (omega arith), split_index width dr.lo wide))
            (last_le at) in
        let (sb, su) = split_index width sr.lo wide in
        let (db, du) = split_index width dr.lo wide in
        (
          t,
          f,
          l,
          λ j k h.
              let (ge, le) = has-le dr (j + i * width) h in
              b j k ∙ elim (Bool-cases (leb n j)) [
                | inl e ↦
                    let q : leb at (sr.hi / width) ≡ true =
                      le→leb at (sr.hi / width) (le_last at (ground (arith, at_times))) in
                    rw (e, q) (ap (bit width src) (ground (arith, at_times)))
                | inr e ↦
                    let m : sr.lo / width < at =
                      times_lt width (sr.lo / width) at (ground (arith, at_times)) in
                    let q : ltb (sr.lo / width) at ≡ true = lt→ltb (sr.lo / width) at m in
                    rw (e, q)
                      (ap (bit width src) (ground (arith, at_times, pred_times at (omega arith))))
              ],
        )

    right_case :
        dr.lo % width < sr.lo % width
        → (t : ℕ) × (right_word top width src (sr.hi / width) at (sr.lo % width - dr.lo % width)
            ≡ some t)
          × (t < 2 ^ width)
          × ((j : ℕ)
              → j < width
              → has dr (j + i * width) ≡ true
              → test_bit t j ≡ source (j + i * width))
    right_case c =
        let n = sr.lo % width - dr.lo % width in
        let (t, f, l, b) =
          right_word-bit top width src v (sr.hi / width) at n (omega arith)
            (omega (arith, split_index width sr.lo wide))
            (omega (arith, at_bound, le_times width wide at)) (omega (arith, at_bound))
            (last_le (suc at)) in
        let (sb, su) = split_index width sr.lo wide in
        let (db, du) = split_index width dr.lo wide in
        (
          t,
          f,
          l,
          λ j k h.
              let (ge, le) = has-le dr (j + i * width) h in
              b j k ∙ elim (Bool-cases (ltb (j + n) width)) [
                | inl e ↦ rw e (ap (bit width src) (ground (arith, at_times)))
                | inr e ↦
                    let q : leb (suc at) (sr.hi / width) ≡ true =
                      le→leb (suc at) (sr.hi / width)
                        (le_last (suc at) (ground (arith, at_times, times_suc width at))) in
                    rw (e, q) (ap (bit width src) (ground (arith, at_times, times_suc width at)))
              ],
        )

    same_case :
        sr.lo % width ≡ dr.lo % width
        → (t : ℕ) × (get_word src at ≡ some t)
          × (t < 2 ^ width)
          × ((j : ℕ)
              → j < width
              → has dr (j + i * width) ≡ true
              → test_bit t j ≡ source (j + i * width))
    same_case c =
        let (t, f, l, b) = word top width src v at wide (omega (arith, at_bound)) in
        (
          t,
          f,
          l,
          λ j k h.
              b j k
              ∙ ap (bit width src) (
                  omega (
                    arith,
                    at_times,
                    split_index width sr.lo wide,
                    split_index width dr.lo wide,
                    has-le dr (j + i * width) h,
                  )),
        )

  -- The words of the destination's range get the bits of the source.
  pub copied_word-bit :
      (i : ℕ)
      → dr.lo / width ≤ i
      → i ≤ dr.hi / width
      → (t : ℕ) × (copied_word top width src sr dr i ≡ some t)
        × (t < 2 ^ width)
        × ((j : ℕ)
            → j < width
            → has dr (j + i * width) ≡ true
            → test_bit t j ≡ source (j + i * width))
  unfolding copied_word word_index bit_index
  copied_word-bit i p q =
      let at = i - dr.lo / width + sr.lo / width in
      let e : at + dr.lo / width ≡ i + sr.lo / width = omega arith in
      let w : add_wrap top i (sub_wrap top (sr.lo / width) (dr.lo / width)) ≡ at =
        wrapped_offset top i (sr.lo / width) (dr.lo / width)
          (omega (arith, div-le_self dr.hi width)) (omega (arith, div-le_self sr.lo width)) p
          (at_fits i at e p q) in
      elim (Bool-cases (ltb (sr.lo % width) (dr.lo % width))) [
        | inl c ↦ let (t, f, l, r) = left_case i at e p q (ltb→lt _ _ c) in (t, rw (w, c) f, l, r)
        | inr c ↦ elim (Bool-cases (ltb (dr.lo % width) (sr.lo % width))) [
          | inl g ↦
              let (t, f, l, r) = right_case i at e p q (ltb→lt _ _ g) in (t, rw (w, c, g) f, l, r)
          | inr g ↦
              let (t, f, l, r) = same_case i at e p q (ground arith) in (t, rw (w, c, g) f, l, r)
        ]
      ]
