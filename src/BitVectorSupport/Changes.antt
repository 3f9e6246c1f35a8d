-- ===== src/BitVectorSupport/Changes.antt =====
-- What `get`, `clear`, `set`, `setValue` and `invert` of Sawyer/BitVectorSupport.h do to the bits.
use Prim.Native.Nat.{bit_and, bit_or, bit_xor}
use sawyer.Prelude.Bits.{
  test_bit, complement, test_bit-zero, test_bit-bit_and, test_bit-bit_or, test_bit-bit_xor,
  bit_and-lt, bit_or-lt, bit_xor-lt, pow_pos,
}
use sawyer.Prelude.Bits.Shift.{test_bit-complement, test_bit_ext}
use sawyer.Prelude.{
  ℕ, zero, suc, ◌+◌, ◌*◌, ◌/◌, ◌%◌, ◌^◌, ◌≤◌, ◌<◌, ◌≡◌, refl, sym, ap, ◌∙◌, inl, inr, Bool, true,
  false, not, ◌&&◌, ltb, leb, ◌==◌, if◌then◌else◌, Option, some, ◌>>=◌, arith, Bool-cases, List, [],
  ◌∷◌,
}
use sawyer.Interval.{Interval, has}
use sawyer.BitVectorSupport.{get_word, mask, word_index, bit_index}
use sawyer.BitVectorSupport.Access.{
  get, clear, set, set_value, invert, clear_bits, set_bits, invert_bits,
}
use sawyer.BitVectorSupport.Meaning.{
  bit, bit-head, bit-plus, capacity, IsVector, Gives, Makes, Inside, split_index,
}
use sawyer.BitVectorSupport.Words.{
  IsBitwise, test_bit-mask, test_bit-low, mask-lt, bit_mask-within, low_mask-within,
}
use sawyer.BitVectorSupport.Bitwise.{traverse-changed}

pub not-not : (b : Bool) → not (not b) ≡ b
not-not true = refl
not-not false = refl

module _ (width : ℕ) where
  -- The word that holds the bit `j` of the word `k`.
  pub get_word-bit :
      (ws : List ℕ) (k j : ℕ)
      → IsVector width ws
      → j < width
      → k * width + j < capacity width ws
      → (x : ℕ) × (get_word ws k ≡ some x)
        × (x < 2 ^ width)
        × ((i : ℕ) → i < width → test_bit x i ≡ bit width ws (i + k * width))
  unfolding get_word capacity
  get_word-bit [] k j v h l = absurd (omega arith)
  get_word-bit (x ∷ xs) zero j v h l =
      (x, refl, v.0, λ i s. sym (bit-head width x xs i s) ∙ ap (bit width (x ∷ xs)) (omega arith))
  get_word-bit (x ∷ xs) (suc k) j v h l =
      let s : suc k * width ≡ width + k * width = grind arith in
      let (y, e, m, d) = get_word-bit xs k j v.1 h (omega arith) in
      (
        y,
        e,
        m,
        λ i r. d i r ∙ bit-plus width x xs (i + k * width) ∙ ap (bit width (x ∷ xs)) (omega arith),
      )

  -- word & bitMask(j, 1) is zero exactly where the bit is clear.
  pub single_bit :
      (x j : ℕ) → x < 2 ^ width → j < width → (0 == bit_and x (mask width j 1)) ≡ not (test_bit x j)
  single_bit x j h l =
      let m = mask width j 1 in
      elim (Bool-cases (test_bit x j)) [
        | inl e ↦
            let at : test_bit (bit_and x m) j ≡ true =
              test_bit-bit_and x m j
              ∙ rw (e, test_bit-mask width j 1 j (omega arith)) (ground arith) in
            elim (Bool-cases (0 == bit_and x m)) [
              | inl z ↦
                  let zero_word : bit_and x m ≡ 0 = ground arith in
                  let never : true ≡ false =
                    sym at ∙ ap (λ k. test_bit k j) zero_word ∙ test_bit-zero j in
                  ground arith
              | inr z ↦ rw (z, e)
            ]
        | inr e ↦
            let only : (i : ℕ) → (test_bit x i && (leb j i && ltb i (j + 1))) ≡ false = λ i.
              elim (Bool-cases (i == j)) [
                | inl q ↦ let s : i ≡ j = ground arith in rw (s, e)
                | inr q ↦
                    let s : (leb j i && ltb i (j + 1)) ≡ false = ground arith in rw s (ground arith)
              ] in
            let z : bit_and x m ≡ 0 =
              test_bit_ext width (bit_and x m) 0 (bit_and-lt width x m h) (pow_pos width) (λ i r.
                test_bit-bit_and x m i
                ∙ rw (test_bit-mask width j 1 i (omega arith)) (only i ∙ sym (test_bit-zero i))) in
            rw (z, e)
      ]

  clear_bits-IsBitwise : IsBitwise width (λ b. false) (clear_bits width)
  unfolding clear_bits
  clear_bits-IsBitwise x n h l =
      let m = mask width 0 n in
      (
        bit_and x (complement width m),
        rw (low_mask-within width n l),
        bit_and-lt width x (complement width m) h,
        λ j r.
            test_bit-bit_and x (complement width m) j
            ∙ rw (test_bit-complement width m j (mask-lt width 0 n), test_bit-low width n j l)
                (ground arith),
      )

  set_bits-IsBitwise : IsBitwise width (λ b. true) (set_bits width)
  unfolding set_bits
  set_bits-IsBitwise x n h l =
      let m = mask width 0 n in
      (
        bit_or x m,
        rw (low_mask-within width n l),
        bit_or-lt width x m h (mask-lt width 0 n),
        λ j r. test_bit-bit_or x m j ∙ rw (test_bit-low width n j l) (ground arith),
      )

  invert_bits-IsBitwise : IsBitwise width not (invert_bits width)
  unfolding invert_bits
  invert_bits-IsBitwise x n h l =
      let m = mask width 0 n in
      (
        bit_xor x m,
        rw (low_mask-within width n l),
        bit_xor-lt width x m h (mask-lt width 0 n),
        λ j r. test_bit-bit_xor x m j ∙ rw (test_bit-low width n j l) (ground arith),
      )

module _ (top width : ℕ) (wide : 1 ≤ width) where
  -- `get` gives the bit at every index inside the array.
  pub get_lem :
      (ws : List ℕ) (i : ℕ)
      → IsVector width ws
      → i < capacity width ws
      → get top width ws i ≡ some (bit width ws i)
  unfolding get word_index bit_index
  get_lem ws i v h =
      let (m, d) = split_index width i wide in
      let (x, e, l, b) = get_word-bit width ws (i / width) (i % width) v m (omega arith) in
      let back : bit width ws (i % width + i / width * width) ≡ bit width ws i =
        ap (bit width ws) (omega arith) in
      let same = b (i % width) m ∙ back in
      rw (e, bit_mask-within width (i % width) 1 (omega arith), single_bit width x (i % width) l m)
        (ap some (not-not (test_bit x (i % width)) ∙ same))

  -- From a traversal to the operation that returns its array.
  Gives-of :
      (f : ℕ → Bool) (n : ℕ) (o : Option (Unit {0} × List ℕ))
      → Makes width (λ p. Unit {0}) f n o
      → Gives width f n (o >>= λ r. some r.1)
  Gives-of f n o (p, ws, made, q, v, c, b) = (ws, rw made, v, c, b)

  module _ (ws : List ℕ) (range : Interval) (v : IsVector width ws)
      (inside : Inside (capacity width ws) range) (fits : capacity width ws ≤ top) where
    pub clear_lem :
        Gives width
          (λ i. if has range i then false else bit width ws i)
          (capacity width ws)
          (clear top width ws range)
    unfolding clear
    clear_lem = Gives-of _ _ _ (
        traverse-changed top width wide (λ b. false) (clear_bits width) (clear_bits-IsBitwise width)
          range ws v inside fits)

    pub set_lem :
        Gives width
          (λ i. if has range i then true else bit width ws i)
          (capacity width ws)
          (set top width ws range)
    unfolding set
    set_lem = Gives-of _ _ _ (
        traverse-changed top width wide (λ b. true) (set_bits width) (set_bits-IsBitwise width)
          range ws v inside fits)

    -- For every range inside an array, the empty one included, `setValue` succeeds, gives the bits of
    -- the range the value, and changes no other bit and not the size.
    pub set_value_lem :
        (value : Bool)
        → Gives width
            (λ i. if has range i then value else bit width ws i)
            (capacity width ws)
            (set_value top width ws range value)
    unfolding set_value
    set_value_lem true = set_lem
    set_value_lem false = clear_lem

    -- For every range inside an array `invert` succeeds, turns the bits of the range, and changes no
    -- other bit and not the size.
    pub invert_lem :
        Gives width
          (λ i. if has range i then not (bit width ws i) else bit width ws i)
          (capacity width ws)
          (invert top width ws range)
    unfolding invert
    invert_lem = Gives-of _ _ _ (
        traverse-changed top width wide not (invert_bits width) (invert_bits-IsBitwise width) range
          ws v inside fits)
