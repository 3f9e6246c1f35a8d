-- ===== src/BitVectorSupport/Addition.antt =====
-- What `add` of Sawyer/BitVectorSupport.h makes of the numbers of its ranges.
use sawyer.Prelude.{
  ℕ, ◌+◌, ◌-◌, ◌*◌, ◌/◌, ◌%◌, ◌^◌, ◌≤◌, ◌<◌, ◌≡◌, sym, Bool, true, false, ◌==◌, Option, some, arith,
  List,
}
use sawyer.Interval.{Interval, has, size}
use sawyer.BitVectorSupport.{process_source}
use sawyer.BitVectorSupport.Pairs.{low_to_high2, traverse2}
use sawyer.BitVectorSupport.Arithmetic.{add, add_bits}
use sawyer.BitVectorSupport.Meaning.{
  bit, capacity, IsVector, Inside-size, split_index, at_word-step,
}
use sawyer.BitVectorSupport.Bitwise2.{aligned_copy-bit, traverse2_of}
use sawyer.BitVectorSupport.Number.{bit_value, number_cong}
use sawyer.BitVectorSupport.Whole.{kept, from_word}
use sawyer.BitVectorSupport.Added.{number_at, low_to_high2-added}

module _ (top width : ℕ) (wide : 1 ≤ width) (vec1 : List ℕ) (r1 : Interval) (vec2 : List ℕ)
    (r2 : Interval) (v1 : IsVector width vec1) (v2 : IsVector width vec2) (le1 : r1.lo ≤ r1.hi)
    (lt1 : r1.hi < capacity width vec1) (le2 : r2.lo ≤ r2.hi) (lt2 : r2.hi < capacity width vec2)
    (sizes : r1.hi - r1.lo ≡ r2.hi - r2.lo) (fits1 : capacity width vec1 + 2 * width ≤ top)
    (fits2 : capacity width vec2 ≤ top) where
  add_of :
      (carry c : Bool) (ws : List ℕ) (t : Option (List ℕ × Interval))
      → traverse2 top width (process_source width (add_bits width)) carry vec1 r1 vec2 r2
        ≡ some (c, ws, t)
      → add top width vec1 r1 vec2 r2 carry ≡ some (c, ws)
  unfolding add
  add_of carry c ws t e = rw e

  totals :
      (rest rs ws tmp : List ℕ) (n : ℕ) (carry c : Bool)
      → n ≡ r2.hi + 1 - r2.lo
      → ((i : ℕ) → i < n → bit width tmp (i + r2.lo % width) ≡ bit width vec1 (i + r1.lo))
      → ((i : ℕ) → bit width rest i ≡ bit width vec2 (i + r2.lo / width * width))
      → ((i : ℕ) → bit width ws (i + r2.lo / width * width) ≡ bit width rs i)
      → number_at width rs (r2.lo % width) n + bit_value c * 2 ^ n
        ≡ bit_value carry
          + number_at width tmp (r2.lo % width) n
          + number_at width rest (r2.lo % width) n
      → number_at width ws r2.lo (r2.hi + 1 - r2.lo) + bit_value c * 2 ^ (r2.hi + 1 - r2.lo)
        ≡ bit_value carry
          + number_at width vec1 r1.lo (r2.hi + 1 - r2.lo)
          + number_at width vec2 r2.lo (r2.hi + 1 - r2.lo)
  totals rest rs ws tmp n carry c s tb rb high sum =
      let a = from_word width wide vec2 r2 le2 rs ws n high in
      let b = from_word width wide vec2 r2 le2 rest vec2 n (λ i. sym (rb i)) in
      let t : number_at width tmp (r2.lo % width) n ≡ number_at width vec1 r1.lo n =
        number_cong (λ i. bit width tmp (i + r2.lo % width)) (λ i. bit width vec1 (i + r1.lo)) n
          tb in
      rw (sym s) (omega (arith, a, b, t, sum))

  -- For two ranges of one size inside their arrays, of n bits each, `add` succeeds and changes no bit
  -- outside the second range. The new number of the second range and the carry out, times 2 ^ n, are
  -- the sum of the numbers of both ranges and the carry in.
  pub add_lem :
      (carry : Bool)
      → (c : Bool) × (ws : List ℕ) × (add top width vec1 r1 vec2 r2 carry ≡ some (c, ws))
        × IsVector width ws
        × (capacity width ws ≡ capacity width vec2)
        × ((i : ℕ) → has r2 i ≡ false → bit width ws i ≡ bit width vec2 i)
        × (number_at width ws r2.lo (r2.hi + 1 - r2.lo) + bit_value c * 2 ^ (r2.hi + 1 - r2.lo)
            ≡ bit_value carry
              + number_at width vec1 r1.lo (r2.hi + 1 - r2.lo)
              + number_at width vec2 r2.lo (r2.hi + 1 - r2.lo))
  add_lem carry =
      let (e1, n1) = Inside-size top (capacity width vec1) r1 (omega arith) (omega arith) le1 lt1 in
      let (e2, n2) = Inside-size top (capacity width vec2) r2 (omega arith) fits2 le2 lt2 in
      let (o, d) = split_index width r2.lo wide in
      let same : size top r2 ≡ size top r1 = omega arith in
      let test : (size top r1 == size top r2) ≡ true = ground arith in
      let (tmp, range, made, tv, tc, tb) =
        aligned_copy-bit top width wide vec1 r1 r2 v1 le1 lt1 fits1 same in
      let (rest, rv, rc, rb, place) =
        at_word-step width
          (low_to_high2 top width (process_source width (add_bits width)) carry (r2.lo % width)
            (size top r2) tmp)
          (r2.lo / width) vec2 v2 (omega arith) in
      let (c, t2, rs, done, wv, wc, out, sum) =
        low_to_high2-added width top wide (r2.lo % width) (size top r2) carry tmp rest tv rv o
          (omega arith) (omega arith) in
      let (ws, set, sv, sc, low, high) = place (c, t2) rs done wv wc in
      (
        c,
        ws,
        add_of carry c ws (some (t2, range)) (
            traverse2_of top width wide (process_source width (add_bits width)) carry c vec1 r1 vec2
              r2 range tmp t2 ws e1 e2 test made set),
        sv,
        sc,
        λ i h. kept width wide vec2 r2 le2 rest rs ws (size top r2) i n2 rb out low high h,
        totals rest rs ws tmp (size top r2) carry c n2 (λ i l. tb i (omega arith)) rb high sum,
      )
