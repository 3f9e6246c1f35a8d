-- ===== src/BitVectorSupport/Bitwise.antt =====
-- What a traversal of one vector does to the bits, for a visitor that treats each bit by itself.
use sawyer.Prelude.Bits.{test_bit}
use sawyer.Prelude.{
  ℕ, zero, suc, ◌+◌, ◌-◌, ◌*◌, ◌≤◌, ◌<◌, min, ◌≡◌, refl, sym, ap, ◌∙◌, inl, inr, Bool, true, false,
  ◌&&◌, ltb, leb, if◌then◌else◌, Option, some, arith, List, [], ◌∷◌,
}
use sawyer.Interval.{Interval, is_empty, has, size}
use sawyer.BitVectorSupport.{process_word, word_index, bit_index}
use sawyer.BitVectorSupport.Traverse.{low_to_high, traverse}
use sawyer.BitVectorSupport.Meaning.{
  bit, bit-head, bit-plus, capacity, IsVector, within, Makes, Makes-of, Makes-cons, Makes-cong,
  Inside, Inside-size, split_index, at_word-Makes,
}
use sawyer.BitVectorSupport.Words.{IsBitwise, process_word-IsBitwise}

module _ (top width : ℕ) (wide : 1 ≤ width) (g : Bool → Bool)
    (visitor : Unit {0} → ℕ → ℕ → Option (Unit {0} × ℕ × Bool))
    (bitwise : IsBitwise width g visitor) where
  -- The bits from `offset` on, `n` of them, are changed.
  abbrev changed : ℕ → ℕ → List ℕ → ℕ → Bool
  changed offset n ws i = if within offset n i then g (bit width ws i) else bit width ws i

  low_to_high-changed :
      (offset n : ℕ) (ws : List ℕ)
      → IsVector width ws
      → offset < width
      → offset + n ≤ capacity width ws
      → Makes width
          (λ p. Unit {0})
          (changed offset n ws)
          (capacity width ws)
          (low_to_high top width (process_word width visitor) tt offset n ws)
  unfolding low_to_high capacity
  low_to_high-changed offset zero ws v h k =
      let f : (i : ℕ) → (leb offset i && ltb i (offset + 0)) ≡ false = λ i. ground arith in
      (tt, ws, refl, tt, v, refl, λ i. rw (f i))
  low_to_high-changed offset (suc r) [] v h k = absurd (omega arith)
  low_to_high-changed offset (suc r) (x ∷ xs) v h k =
      let n = min (width - offset) (suc r) in
      let (y, e, lt, d) =
        process_word-IsBitwise width g visitor bitwise x offset n v.0 h (omega arith) in
      let here : (j : ℕ) → j < width → within offset n j ≡ within offset (suc r) j =
        λ j l. ground arith in
      let later : (i : ℕ) → within 0 (suc r - n) i ≡ within offset (suc r) (i + width) =
        λ i. ground arith in
      let pos : ltb 0 n ≡ true = ground arith in
      Makes-of width (λ p. Unit) (changed offset (suc r) (x ∷ xs)) (width + capacity width xs) _ _
        (rw (pos, e))
        (Makes-cons width (λ p. Unit) (changed offset (suc r) (x ∷ xs)) (capacity width xs) y _ lt
          (λ j l.
            d j
            ∙ rw (bit-head width x xs j l)
                (ap (λ b. if b then g (test_bit x j) else test_bit x j) (here j l)))
          (Makes-cong width (λ p. Unit) (changed 0 (suc r - n) xs) _ (capacity width xs)
            (capacity width xs) _ refl
            (λ i.
              rw (sym (bit-plus width x xs i))
                (ap (λ b. if b then g (bit width xs i) else bit width xs i) (later i)))
            (low_to_high-changed 0 (suc r - n) xs v.1 wide (omega arith))))

  -- A traversal changes the bits of its range, and no others.
  pub traverse-changed :
      (range : Interval) (ws : List ℕ)
      → IsVector width ws
      → Inside (capacity width ws) range
      → capacity width ws ≤ top
      → Makes width
          (λ p. Unit {0})
          (λ i. if has range i then g (bit width ws i) else bit width ws i)
          (capacity width ws)
          (traverse top width (process_word width visitor) tt ws range)
  unfolding traverse word_index bit_index
  traverse-changed range ws v (inl (lo, hi)) t =
      let e : is_empty range ≡ true = ground arith in
      let h : (i : ℕ) → has range i ≡ false = λ i. ground arith in
      Makes-of width (λ p. Unit) _ (capacity width ws) _ (some (tt, ws)) (rw e)
        (tt, ws, refl, tt, v, refl, λ i. rw (h i))
  traverse-changed range ws v (inr (le, lt)) t =
      let (e, n) = Inside-size top (capacity width ws) range (omega arith) t le lt in
      let (m, d) = split_index width range.lo wide in
      let window : (i : ℕ)
          → within (bit_index width range.lo) (size top range) i
            ≡ has range (i + word_index width range.lo * width) =
        λ i. ground arith in
      Makes-of width (λ p. Unit) _ (capacity width ws) _ _ (rw e)
        (at_word-Makes width (λ p. Unit)
          (low_to_high top width (process_word width visitor) tt (bit_index width range.lo)
            (size top range))
          _ (word_index width range.lo) ws v (omega arith)
          (λ i l. let h : has range i ≡ false = ground arith in rw h)
          (λ rest u c b.
            Makes-cong width (λ p. Unit) (changed (bit_index width range.lo) (size top range) rest)
              _ (capacity width rest) (capacity width rest) _ refl (λ i. rw (b i, window i))
              (low_to_high-changed (bit_index width range.lo) (size top range) rest u m
                (omega arith))))
