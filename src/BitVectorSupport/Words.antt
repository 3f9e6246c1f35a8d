-- ===== src/BitVectorSupport/Words.antt =====
-- The bits of masks and of the words that the overloads of `processWord` leave.
use Prim.Native.Nat.{bit_and, bit_or}
use native.Mathlib.Nat.{mod-eq_of_lt, pow-le-pow_right}
use sawyer.Prelude.Bits.{
  test_bit, complement, shift_left, shift_right, pow_pos, pow_double, test_bit-bit_and,
  test_bit-bit_or, bit_and-lt, bit_or-lt,
}
use sawyer.Prelude.Bits.Shift.{
  test_bit-shift_left, test_bit-shift_right, test_bit-ones, test_bit-complement, test_bit-high,
  shift_left-lt, shift_right-le,
}
use sawyer.Prelude.{
  ℕ, suc, ◌+◌, ◌-◌, ◌*◌, ◌%◌, ◌^◌, ◌≤◌, ◌<◌, ◌≡◌, ap, ◌∙◌, inl, inr, Bool, true, false, ◌&&◌, ltb,
  leb, ◌==◌, if◌then◌else◌, Option, some, arith, Bool-cases,
}
use sawyer.BitVectorSupport.{mask, bit_mask, process_word, process_source, merge}

module _ (width : ℕ) where
  low_ones :
      (n : ℕ)
      → n ≤ width
      → (if n == width then 2 ^ width - 1 else shift_left width 1 n - 1) ≡ 2 ^ n - 1
  unfolding shift_left
  low_ones n h = elim (Bool-cases (n == width)) [
    | inl e ↦ let s : n ≡ width = ground arith in rw (e, s)
    | inr e ↦
        let l : n < width = ground arith in
        let p : 2 ^ n < 2 ^ width = omega (
          arith,
          pow_double n,
          pow_pos n,
          pow-le-pow_right {n = 2} (omega arith) {i = suc n} {j = width} (omega arith),
        ) in
        let q : 1 * 2 ^ n % 2 ^ width ≡ 2 ^ n =
          ap (λ k. k % 2 ^ width) (omega arith) ∙ mod-eq_of_lt p in
        rw (e, q)
  ]

  -- A mask has the bits from its offset on, as many as asked.
  pub test_bit-mask :
      (offset n j : ℕ)
      → offset + n ≤ width
      → test_bit (mask width offset n) j ≡ (leb offset j && ltb j (offset + n))
  unfolding mask
  test_bit-mask offset n j h =
      let o = low_ones n (omega arith) in
      rw o (
        test_bit-shift_left width (2 ^ n - 1) offset j
        ∙ rw (test_bit-ones n (j - offset)) (ground arith))

  pub mask-lt : (offset n : ℕ) → mask width offset n < 2 ^ width
  unfolding mask
  mask-lt offset n = shift_left-lt width _ offset

  pub bit_mask-within :
      (offset n : ℕ) → offset + n ≤ width → bit_mask width offset n ≡ some (mask width offset n)
  unfolding bit_mask
  bit_mask-within offset n h = let e : leb (offset + n) width ≡ true = ground arith in rw e

  pub test_bit-low : (n j : ℕ) → n ≤ width → test_bit (mask width 0 n) j ≡ ltb j n
  test_bit-low n j h = test_bit-mask 0 n j (omega arith) ∙ ground arith

  pub low_mask-within : (n : ℕ) → n ≤ width → bit_mask width 0 n ≡ some (mask width 0 n)
  low_mask-within n h = bit_mask-within 0 n (omega arith)

  -- The bits of `m` come from `bits`, the others stay.
  pub test_bit-merge :
      (m x y j : ℕ)
      → m < 2 ^ width
      → x < 2 ^ width
      → test_bit (merge width m x y) j ≡ (if test_bit m j then test_bit y j else test_bit x j)
  unfolding merge
  test_bit-merge m x y j h l =
      let o = test_bit-bit_or (bit_and x (complement width m)) (bit_and y m) j in
      let a = test_bit-bit_and x (complement width m) j in
      let b = test_bit-bit_and y m j in
      let c = test_bit-complement width m j h in
      elim (Bool-cases (ltb j width)) [
        | inl e ↦ rw (o, a, b, c, e) (ground arith)
        | inr e ↦
            let r : width ≤ j = ground arith in
            rw (o, a, b, c, e, test_bit-high width x j l r, test_bit-high width m j h r)
              (ground arith)
      ]

  pub merge-lt : (m x y : ℕ) → x < 2 ^ width → y < 2 ^ width → merge width m x y < 2 ^ width
  unfolding merge
  merge-lt m x y h k =
      bit_or-lt width _ _ (bit_and-lt width x (complement width m) h) (bit_and-lt width y m k)

  -- The word that a processor's result `t` is put into.
  abbrev pub placed : ℕ → ℕ → ℕ → ℕ → ℕ
  placed offset n x t =
      bit_or (bit_and x (complement width (mask width offset n)))
        (shift_left width (bit_and t (mask width 0 n)) offset)

  pub placed-lt : (offset n x t : ℕ) → x < 2 ^ width → placed offset n x t < 2 ^ width
  placed-lt offset n x t h =
      bit_or-lt width _ _ (bit_and-lt width x (complement width (mask width offset n)) h)
        (shift_left-lt width (bit_and t (mask width 0 n)) offset)

  pub test_bit-placed :
      (offset n x t j : ℕ)
      → x < 2 ^ width
      → offset + n ≤ width
      → test_bit (placed offset n x t) j
        ≡ (if leb offset j && ltb j (offset + n) then test_bit t (j - offset) else test_bit x j)
  test_bit-placed offset n x t j h l =
      let m = mask width offset n in
      let low = mask width 0 n in
      let o =
        test_bit-bit_or (bit_and x (complement width m)) (shift_left width (bit_and t low) offset)
          j in
      let a = test_bit-bit_and x (complement width m) j in
      let c = test_bit-complement width m j (mask-lt offset n) in
      let s = test_bit-shift_left width (bit_and t low) offset j in
      let b = test_bit-bit_and t low (j - offset) in
      let u = test_bit-mask offset n j l in
      let v = test_bit-mask 0 n (j - offset) (omega arith) in
      elim (Bool-cases (ltb j width)) [
        | inl e ↦ rw (o, a, c, s, b, u, v, e) (ground arith)
        | inr e ↦
            rw (o, a, c, s, b, u, v, e, test_bit-high width x j h (ground arith)) (ground arith)
      ]

  chosen :
      (offset n j : ℕ) (g : Bool → Bool) (x t : ℕ)
      → ((i : ℕ) → i < n → test_bit t i ≡ g (test_bit (shift_right x offset) i))
      → (if leb offset j && ltb j (offset + n) then test_bit t (j - offset) else test_bit x j)
        ≡ (if leb offset j && ltb j (offset + n) then g (test_bit x j) else test_bit x j)
  chosen offset n j g x t d = elim (Bool-cases (leb offset j && ltb j (offset + n))) [
    | inl e ↦
        let p : j - offset < n = ground arith in
        let q : j - offset + offset ≡ j = ground arith in
        rw e
          (d (j - offset) p ∙ ap g (test_bit-shift_right x offset (j - offset) ∙ ap (test_bit x) q))
    | inr e ↦ rw e
  ]

  -- A visitor of one word that gives each visited bit the value `g` of it.
  abbrev pub IsBitwise : (Bool → Bool) → (Unit {0} → ℕ → ℕ → Option (Unit {0} × ℕ × Bool)) → Type 0
  IsBitwise g visitor =
      (x n : ℕ)
      → x < 2 ^ width
      → n ≤ width
      → (y : ℕ) × (visitor tt x n ≡ some (tt, y, false))
        × (y < 2 ^ width)
        × ((j : ℕ) → j < n → test_bit y j ≡ g (test_bit x j))

  pub process_word-IsBitwise :
      (g : Bool → Bool) (visitor : Unit {0} → ℕ → ℕ → Option (Unit {0} × ℕ × Bool))
      → IsBitwise g visitor
      → (x offset n : ℕ) → x < 2 ^ width
      → offset < width
      → offset + n ≤ width
      → (y : ℕ) × (process_word width visitor tt x offset n ≡ some (tt, y, false))
        × (y < 2 ^ width)
        × ((j : ℕ)
            → test_bit y j
              ≡ (if leb offset j && ltb j (offset + n) then g (test_bit x j) else test_bit x j))
  unfolding process_word
  process_word-IsBitwise g visitor b x offset n h k l =
      let (t, e, lt, d) =
        b (shift_right x offset) n (omega (arith, shift_right-le x offset)) (omega arith) in
      let r : ltb offset width ≡ true = ground arith in
      (
        placed offset n x t,
        rw (r, e, bit_mask-within offset n l, bit_mask-within 0 n (omega arith)),
        placed-lt offset n x t h,
        λ j. test_bit-placed offset n x t j h l ∙ chosen offset n j g x t d,
      )

  -- A visitor of a source word and a word to change, which treats each bit by itself.
  abbrev pub IsBitwise2 :
      (Bool → Bool → Bool) → (Unit {0} → ℕ → ℕ → ℕ → Option (Unit {0} × ℕ × Bool)) → Type 0
  IsBitwise2 g visitor =
      (u x n : ℕ)
      → u < 2 ^ width
      → x < 2 ^ width
      → n ≤ width
      → (y : ℕ) × (visitor tt u x n ≡ some (tt, y, false))
        × (y < 2 ^ width)
        × ((j : ℕ) → j < n → test_bit y j ≡ g (test_bit u j) (test_bit x j))

  pub process_source-IsBitwise2 :
      (g : Bool → Bool → Bool) (visitor : Unit {0} → ℕ → ℕ → ℕ → Option (Unit {0} × ℕ × Bool))
      → IsBitwise2 g visitor
      → (u x offset n : ℕ) → u < 2 ^ width
      → x < 2 ^ width
      → offset < width
      → offset + n ≤ width
      → (y : ℕ) × (process_source width visitor tt u x offset n ≡ some (tt, (u, y), false))
        × (y < 2 ^ width)
        × ((j : ℕ)
            → test_bit y j ≡ (
                if leb offset j && ltb j (offset + n)
                then g (test_bit u j) (test_bit x j)
                else test_bit x j))
  unfolding process_source
  process_source-IsBitwise2 g visitor b u x offset n hu h k l =
      let (t, e, lt, d) =
        b (shift_right u offset) (shift_right x offset) n (omega (arith, shift_right-le u offset))
          (omega (arith, shift_right-le x offset)) (omega arith) in
      let r : ltb offset width ≡ true = ground arith in
      let s : leb n width ≡ true = ground arith in
      (
        placed offset n x t,
        rw (r, s, e, bit_mask-within offset n l, bit_mask-within 0 n (omega arith)),
        placed-lt offset n x t h,
        λ j.
            test_bit-placed offset n x t j h l
            ∙ elim (Bool-cases (leb offset j && ltb j (offset + n))) [
              | inl e ↦
                  let p : j - offset < n = ground arith in
                  let q : j - offset + offset ≡ j = ground arith in
                  rw e (
                    d (j - offset) p
                    ∙ rw (
                      test_bit-shift_right u offset (j - offset),
                      test_bit-shift_right x offset (j - offset),
                      q,
                    ))
              | inr e ↦ rw e
            ],
      )

  -- Any processor of a word to change.
  pub process_word-placed {ℓ} :
      {P : Type ℓ} (processor : P → ℕ → ℕ → Option (P × ℕ × Bool)) (p q : P) (x offset n t : ℕ)
      (done : Bool)
      → processor p (shift_right x offset) n ≡ some (q, t, done)
      → offset < width
      → offset + n ≤ width
      → process_word width processor p x offset n ≡ some (q, placed offset n x t, done)
  unfolding process_word
  process_word-placed processor p q x offset n t done e k l =
      let r : ltb offset width ≡ true = ground arith in
      rw (r, e, bit_mask-within offset n l, bit_mask-within 0 n (omega arith))

  -- Any processor of a source word and a word to change.
  pub process_source-placed {ℓ} :
      {P : Type ℓ} (processor : P → ℕ → ℕ → ℕ → Option (P × ℕ × Bool)) (p q : P)
      (u x offset n t : ℕ) (done : Bool)
      → processor p (shift_right u offset) (shift_right x offset) n ≡ some (q, t, done)
      → offset < width
      → offset + n ≤ width
      → process_source width processor p u x offset n ≡ some (q, (u, placed offset n x t), done)
  unfolding process_source
  process_source-placed processor p q u x offset n t done e k l =
      let r : ltb offset width ≡ true = ground arith in
      let s : leb n width ≡ true = ground arith in
      rw (r, s, e, bit_mask-within offset n l, bit_mask-within 0 n (omega arith))
