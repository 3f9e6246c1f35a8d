-- ===== src/BitVectorSupport/Whole.antt =====
-- From the words of a range to the whole array, for Sawyer/BitVectorSupport.h.
use sawyer.Prelude.{
  ℕ, ◌+◌, ◌-◌, ◌*◌, ◌/◌, ◌%◌, ◌≤◌, ◌<◌, ◌≡◌, sym, ap, ◌∙◌, false, ltb, arith, inl, inr, Bool-cases,
  List,
}
use sawyer.Interval.{Interval, has}
use sawyer.BitVectorSupport.Meaning.{bit, within, split_index}
use sawyer.BitVectorSupport.Number.{number_cong}
use sawyer.BitVectorSupport.Added.{number_at}

module _ (width : ℕ) (wide : 1 ≤ width) (vec2 : List ℕ) (r2 : Interval) (le2 : r2.lo ≤ r2.hi) where
  -- The bits outside the range stay where those of its words outside it do.
  pub kept :
      (rest rs ws : List ℕ) (n i : ℕ)
      → n ≡ r2.hi + 1 - r2.lo
      → ((i : ℕ) → bit width rest i ≡ bit width vec2 (i + r2.lo / width * width))
      → ((i : ℕ) → within (r2.lo % width) n i ≡ false → bit width rs i ≡ bit width rest i)
      → ((i : ℕ) → i < r2.lo / width * width → bit width ws i ≡ bit width vec2 i)
      → ((i : ℕ) → bit width ws (i + r2.lo / width * width) ≡ bit width rs i)
      → has r2 i ≡ false
      → bit width ws i ≡ bit width vec2 i
  kept rest rs ws n i s rb out low high h =
      let k = r2.lo / width * width in
      let (o, d) = split_index width r2.lo wide in
      elim (Bool-cases (ltb i k)) [
        | inl q ↦ low i (ground arith)
        | inr q ↦
            let e : i ≡ i - k + k = ground arith in
            let w : within (r2.lo % width) n (i - k) ≡ false = ground arith in
            ap (bit width ws) e
            ∙ (high (i - k) ∙ (out (i - k) w ∙ (rb (i - k) ∙ ap (bit width vec2) (sym e))))
      ]

  -- The same number, counted from a word and from the start of the array.
  pub from_word :
      (part whole : List ℕ) (n : ℕ)
      → ((i : ℕ) → bit width whole (i + r2.lo / width * width) ≡ bit width part i)
      → number_at width part (r2.lo % width) n ≡ number_at width whole r2.lo n
  from_word part whole n h =
      let (o, d) = split_index width r2.lo wide in
      number_cong (λ i. bit width part (i + r2.lo % width)) (λ i. bit width whole (i + r2.lo)) n
        (λ i l. sym (h (i + r2.lo % width)) ∙ ap (bit width whole) (omega arith))
