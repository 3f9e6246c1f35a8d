-- ===== src/BitVectorSupport/Bitwise2.antt =====
-- What a traversal of two vectors of Sawyer/BitVectorSupport.h does to the bits of the second, for
-- a visitor that treats each pair of bits by itself.
use sawyer.Prelude.{
  ℕ, zero, suc, ◌+◌, ◌-◌, ◌*◌, ◌/◌, ◌%◌, ◌≤◌, ◌<◌, min, ◌≡◌, refl, sym, ap, ◌∙◌, ◌⊎◌, inl, inr,
  Bool, true, false, ltb, ◌==◌, if◌then◌else◌, Option, none, some, arith, Bool-cases, List, [], ◌∷◌,
}
use sawyer.Interval.{Interval, is_empty, has, size, base_size}
use sawyer.BitVectorSupport.{process_source, word_index, bit_index, number_of_words, zeros, at_word}
use sawyer.BitVectorSupport.Traverse.{nonoverlapping_copy}
use sawyer.BitVectorSupport.Pairs.{low_to_high2, aligned_copy, same_emptiness, traverse2}
use sawyer.BitVectorSupport.Meaning.{
  bit, bit-head, bit-plus, bit-cons, capacity, IsVector, within, Inside-size, split_index,
  at_word-Makes,
}
use sawyer.BitVectorSupport.Words.{IsBitwise2, process_source-IsBitwise2}
use sawyer.BitVectorSupport.Sizes.{
  base_size-some, number_of_words-enough, zeros-IsVector, capacity-zeros,
}
use sawyer.BitVectorSupport.Copy.{copied_word-bit}
use sawyer.BitVectorSupport.Overwrite.{nonoverlapping_copy-overwritten}

-- Two ranges of one size in arrays of `n` and `m` bits: both empty, or both within the arrays.
abbrev pub Paired : ℕ → ℕ → Interval → Interval → Type 0
Paired n m r1 r2 =
    (((r1.lo ≡ 1) × (r1.hi ≡ 0)) × ((r2.lo ≡ 1) × (r2.hi ≡ 0)))
    ⊎ (((r1.lo ≤ r1.hi) × (r1.hi < n))
        × ((r2.lo ≤ r2.hi) × (r2.hi < m))
        × (r1.hi - r1.lo ≡ r2.hi - r2.lo))

module _ (top width : ℕ) (wide : 1 ≤ width) where
  aligned_copy_of :
      (vec1 : List ℕ) (r1 r2 range : Interval) (tmp : List ℕ)
      → size top r2 ≡ size top r1
      → base_size top (r2.lo % width) (size top r1) ≡ some range
      → nonoverlapping_copy top width vec1 r1
          (zeros (number_of_words width top (r2.lo % width + size top r1)))
          range
        ≡ some tmp
      → aligned_copy top width vec1 r1 r2 ≡ some (tmp, range)
  unfolding aligned_copy bit_index
  aligned_copy_of vec1 r1 r2 range tmp same e f = rw (same, e, f)

  -- The first vector at the alignment of the second.
  pub aligned_copy-bit :
      (vec1 : List ℕ) (r1 r2 : Interval)
      → IsVector width vec1
      → r1.lo ≤ r1.hi
      → r1.hi < capacity width vec1
      → capacity width vec1 + 2 * width ≤ top
      → size top r2 ≡ size top r1
      → (tmp : List ℕ) × (range : Interval) × (aligned_copy top width vec1 r1 r2
          ≡ some (tmp, range))
        × IsVector width tmp
        × (r2.lo % width + size top r1 ≤ capacity width tmp)
        × ((i : ℕ)
            → i < size top r1
            → bit width tmp (i + r2.lo % width) ≡ bit width vec1 (i + r1.lo))
  unfolding aligned_copy bit_index
  aligned_copy-bit vec1 r1 r2 v le lt fits same =
      let (e1, n1) = Inside-size top (capacity width vec1) r1 (omega arith) (omega arith) le lt in
      let (o, d) = split_index width r2.lo wide in
      let off = r2.lo % width in
      let n = size top r1 in
      let range : Interval = record { lo = off; hi = off + n - 1 } in
      let words = number_of_words width top (off + n) in
      let enough = number_of_words-enough width top (off + n) wide (omega arith) in
      let cap = capacity-zeros width words in
      let (e2, n2) =
        Inside-size top top range (omega arith) (omega arith) (omega arith) (omega arith) in
      let (tmp, made, u, c, b) =
        nonoverlapping_copy-overwritten top width wide vec1 r1 range
          (λ y. bit width vec1 (y - off + r1.lo))
          (copied_word-bit top width wide vec1 v r1 range lt le (omega arith) (omega arith)
            (omega arith) (omega arith))
          (zeros words) (zeros-IsVector width words) (omega arith) (omega arith) (omega arith) in
      (
        tmp,
        range,
        aligned_copy_of vec1 r1 r2 range tmp same
            (base_size-some top off n (omega arith) (omega arith)) made,
        u,
        omega arith,
        λ i l.
            let h : has range (i + off) ≡ true = ground arith in
            b (i + off) ∙ rw h (ap (bit width vec1) (omega arith)),
      )

  pub traverse2_of {ℓ} :
      {P : Type ℓ} (process : P → ℕ → ℕ → ℕ → ℕ → Option (P × (ℕ × ℕ) × Bool)) (p q : P)
      (vec1 : List ℕ) (r1 : Interval) (vec2 : List ℕ) (r2 range : Interval) (tmp t2 ws : List ℕ)
      → is_empty r1 ≡ false
      → is_empty r2 ≡ false
      → (size top r1 == size top r2) ≡ true
      → aligned_copy top width vec1 r1 r2 ≡ some (tmp, range)
      → at_word
          (r2.lo / width)
          (low_to_high2 top width process p (r2.lo % width) (size top r2) tmp)
          vec2
        ≡ some ((q, t2), ws)
      → traverse2 top width process p vec1 r1 vec2 r2 ≡ some (q, ws, some (t2, range))
  unfolding traverse2 same_emptiness word_index bit_index
  traverse2_of process p q vec1 r1 vec2 r2 range tmp t2 ws e1 e2 test made done =
      rw (test, made, done, e1, e2)

  module _ (g : Bool → Bool → Bool) (visitor : Unit {0} → ℕ → ℕ → ℕ → Option (Unit {0} × ℕ × Bool))
      (bitwise : IsBitwise2 width g visitor) where
    -- The bits from `offset` on, `n` of them, are changed.
    abbrev changed2 : ℕ → ℕ → List ℕ → List ℕ → ℕ → Bool
    changed2 offset n tmp ws i =
        if within offset n i then g (bit width tmp i) (bit width ws i) else bit width ws i

    low_to_high2-changed :
        (offset n : ℕ) (tmp ws : List ℕ)
        → IsVector width tmp
        → IsVector width ws
        → offset < width
        → offset + n ≤ capacity width tmp
        → offset + n ≤ capacity width ws
        → (t : List ℕ) × (rs : List ℕ) × (low_to_high2 top width
              (process_source width visitor)
              tt
              offset
              n
              tmp
              ws
            ≡ some ((tt, t), rs))
          × IsVector width rs
          × (capacity width rs ≡ capacity width ws)
          × ((i : ℕ) → bit width rs i ≡ changed2 offset n tmp ws i)
    unfolding low_to_high2 capacity
    low_to_high2-changed offset zero tmp ws u v h k l =
        let f : (i : ℕ) → within offset 0 i ≡ false = λ i. ground arith in
        (tmp, ws, refl, v, refl, λ i. rw (f i))
    low_to_high2-changed offset (suc r) [] ws u v h k l = absurd (omega arith)
    low_to_high2-changed offset (suc r) (t ∷ tmp) [] u v h k l = absurd (omega arith)
    low_to_high2-changed offset (suc r) (t ∷ tmp) (x ∷ ws) u v h k l =
        let n = min (width - offset) (suc r) in
        let (y, e, lt, d) =
          process_source-IsBitwise2 width g visitor bitwise t x offset n u.0 v.0 h (omega arith) in
        let here : (j : ℕ) → j < width → within offset n j ≡ within offset (suc r) j =
          λ j l. ground arith in
        let later : (i : ℕ) → within 0 (suc r - n) i ≡ within offset (suc r) (i + width) =
          λ i. ground arith in
        let pos : ltb 0 n ≡ true = ground arith in
        let (t2, rs, made, v2, c, b) =
          low_to_high2-changed 0 (suc r - n) tmp ws u.1 v.1 wide (omega arith) (omega arith) in
        (
          t ∷ t2,
          y ∷ rs,
          rw (pos, e, made),
          (lt, v2),
          ap (λ k. width + k) c,
          bit-cons width y rs (changed2 offset (suc r) (t ∷ tmp) (x ∷ ws))
              (λ j l. d j ∙ rw (bit-head width t tmp j l, bit-head width x ws j l, here j l))
              (λ i. b i ∙ rw (later i, sym (bit-plus width t tmp i), sym (bit-plus width x ws i))),
        )

    -- The same bits, counted from a word and from the start of the array.
    realigned :
        (vec1 vec2 tmp rest : List ℕ) (r1 r2 : Interval) (n i : ℕ)
        → r2.lo ≤ r2.hi
        → n ≡ r2.hi + 1 - r2.lo
        → ((i : ℕ) → bit width rest i ≡ bit width vec2 (i + r2.lo / width * width))
        → ((i : ℕ) → i < n → bit width tmp (i + r2.lo % width) ≡ bit width vec1 (i + r1.lo))
        → changed2 (r2.lo % width) n tmp rest i ≡ (
            if has r2 (i + r2.lo / width * width)
            then g
                (bit width vec1 (i + r2.lo / width * width - r2.lo + r1.lo))
                (bit width vec2 (i + r2.lo / width * width))
            else bit width vec2 (i + r2.lo / width * width))
    realigned vec1 vec2 tmp rest r1 r2 n i le size_n rb tb =
        let (o, d) = split_index width r2.lo wide in
        let window : within (r2.lo % width) n i ≡ has r2 (i + r2.lo / width * width) =
          ground arith in
        elim (Bool-cases (within (r2.lo % width) n i)) [
          | inl e ↦
              let q : i - r2.lo % width < n = ground arith in
              let s : i ≡ i - r2.lo % width + r2.lo % width = ground arith in
              let t : i - r2.lo % width + r1.lo ≡ i + r2.lo / width * width - r2.lo + r1.lo =
                ground arith in
              let moved : bit width tmp i
                  ≡ bit width vec1 (i + r2.lo / width * width - r2.lo + r1.lo) =
                ap (bit width tmp) s ∙ tb (i - r2.lo % width) q ∙ ap (bit width vec1) t in
              rw (e, sym window ∙ e, rb i, moved)
          | inr e ↦ rw (e, sym window ∙ e, rb i)
        ]

    -- The bits of the second range become `g` of both bits, the others stay.
    pub traverse2-changed :
        (vec1 : List ℕ) (r1 : Interval) (vec2 : List ℕ) (r2 : Interval)
        → IsVector width vec1
        → IsVector width vec2
        → Paired (capacity width vec1) (capacity width vec2) r1 r2
        → capacity width vec1 + 2 * width ≤ top
        → capacity width vec2 ≤ top
        → (ws : List ℕ) × (t : Option (List ℕ × Interval)) × (traverse2 top width
              (process_source width visitor)
              tt
              vec1
              r1
              vec2
              r2
            ≡ some (tt, ws, t))
          × IsVector width ws
          × (capacity width ws ≡ capacity width vec2)
          × ((i : ℕ)
              → bit width ws i ≡ (
                  if has r2 i
                  then g (bit width vec1 (i - r2.lo + r1.lo)) (bit width vec2 i)
                  else bit width vec2 i))
    unfolding traverse2 same_emptiness word_index bit_index
    traverse2-changed vec1 r1 vec2 r2 u v (inl ((l1, h1), (l2, h2))) f1 f2 =
        let e1 : is_empty r1 ≡ true = ground arith in
        let e2 : is_empty r2 ≡ true = ground arith in
        let h : (i : ℕ) → has r2 i ≡ false = λ i. ground arith in
        (vec2, none, rw (e1, e2), v, refl, λ i. rw (h i))
    traverse2-changed vec1 r1 vec2 r2 u v (inr ((le1, lt1), (le2, lt2), eq)) f1 f2 =
        let (e1, n1) =
          Inside-size top (capacity width vec1) r1 (omega arith) (omega arith) le1 lt1 in
        let (e2, n2) = Inside-size top (capacity width vec2) r2 (omega arith) f2 le2 lt2 in
        let (o, d) = split_index width r2.lo wide in
        let same : size top r2 ≡ size top r1 = omega arith in
        let test : (size top r1 == size top r2) ≡ true = ground arith in
        let (tmp, range, made, tv, tc, tb) = aligned_copy-bit vec1 r1 r2 u le1 lt1 f1 same in
        let (p, ws, done, q, wv, wc, wb) =
          at_word-Makes width (λ p. Unit {0})
            (low_to_high2 top width (process_source width visitor) tt (r2.lo % width) (size top r2)
              tmp)
            (λ i.
              if has r2 i
              then g (bit width vec1 (i - r2.lo + r1.lo)) (bit width vec2 i)
              else bit width vec2 i)
            (r2.lo / width) vec2 v (omega arith)
            (λ i l. let h : has r2 i ≡ false = ground arith in rw h)
            (λ rest rv rc rb.
              let (t2, rs, fin, v3, c3, b3) =
                low_to_high2-changed (r2.lo % width) (size top r2) tmp rest tv rv o (omega arith)
                  (omega arith) in
              (
                (tt, t2),
                rs,
                fin,
                tt,
                v3,
                c3,
                λ i.
                    b3 i
                    ∙ realigned vec1 vec2 tmp rest r1 r2 (size top r2) i le2 n2 rb
                        (λ i l. tb i (omega arith)),
              )) in
        (
          ws,
          some (p.1, range),
          traverse2_of (process_source width visitor) tt tt vec1 r1 vec2 r2 range tmp p.1 ws e1 e2
              test made done,
          wv,
          wc,
          wb,
        )
