-- ===== src/BitVector/Meaning.antt =====
-- The invariant of `BitVector` (Sawyer/BitVector.h), and what its ranges and sizes mean for the array.
use sawyer.Prelude.{
  ℕ, zero, suc, min, max, ◌+◌, ◌-◌, ◌*◌, ◌≤◌, ◌<◌, ◌≡◌, refl, sym, ap, ◌∙◌, ◌⊎◌, inl, inr, Bool,
  true, false, ltb, ◌==◌, if◌then◌else◌, some, arith, Bool-cases, List, [], ◌∷◌,
}
use sawyer.Prelude.Bits.{pow_pos, test_bit-zero}
use sawyer.Interval.{Interval, empty, has, is_empty, contains, singleton, hull_of}
use sawyer.BitVectorSupport.{number_of_words}
use sawyer.BitVectorSupport.Access.{set_value}
use sawyer.BitVectorSupport.Meaning.{
  bit, bit-head, bit-tail, bit-below, suc_times, capacity, IsVector, Inside,
}
use sawyer.BitVectorSupport.Sizes.{number_of_words-enough, number_of_words-bounded}
use sawyer.BitVectorSupport.Changes.{set_value_lem, get_lem}
use sawyer.BitVector.{BitVector, no_bits, hull, check_range, resize_words, resize, get}

module _ (width : ℕ) where
  pub resize_words-IsVector :
      (n : ℕ) (ws : List ℕ)
      → IsVector width ws
      → IsVector width (resize_words n ws)
        × (capacity width (resize_words n ws) ≡ n * width)
        × ((i : ℕ) → i < n * width → bit width (resize_words n ws) i ≡ bit width ws i)
  unfolding resize_words capacity bit
  resize_words-IsVector zero ws v = (tt, omega arith, λ i l. absurd (omega arith))
  resize_words-IsVector (suc n) [] v =
      let (u, c, b) = resize_words-IsVector n [] tt in
      let m = suc_times width n in
      (
        (pow_pos width, u),
        omega arith,
        λ i l. elim (Bool-cases (ltb i width)) [
          | inl e ↦
              let h : i < width = ground arith in
              bit-head width 0 (resize_words n []) i h ∙ test_bit-zero i
          | inr e ↦
              let h : width ≤ i = ground arith in
              bit-tail width 0 (resize_words n []) i h ∙ b (i - width) (omega arith)
        ],
      )
  resize_words-IsVector (suc n) (x ∷ ws) v =
      let (u, c, b) = resize_words-IsVector n ws v.1 in
      let m = suc_times width n in
      (
        (v.0, u),
        omega arith,
        bit-below width x ws (resize_words n ws) (n * width) (suc n * width) m b,
      )

  none_below : (k : ℕ) → k * width < width → 0 ≡ k * width
  none_below zero h = omega arith
  none_below (suc k) h = let m = suc_times width k in absurd (omega arith)

-- The words are those of the size, and fit a word each.
abbrev pub IsBitVector : ℕ → ℕ → BitVector → Type 0
IsBitVector top width v =
    IsVector width v.words × (capacity width v.words ≡ number_of_words width top v.size * width)

hull_of-ordered : (a b : ℕ) → a ≤ b → hull_of a b ≡ record { lo = a; hi = b }
unfolding hull_of
hull_of-ordered a b h =
    let e : min a b ≡ a = omega arith in let f : max a b ≡ b = omega arith in rw (e, f)

module _ (top width : ℕ) (wide : 1 ≤ width) where
  pub no_bits-IsBitVector : 1 + width ≤ top → IsBitVector top width no_bits
  unfolding capacity
  no_bits-IsBitVector fits = (
    tt,
    none_below width (number_of_words width top 0)
        (omega (arith, number_of_words-bounded width top 0 wide (omega arith))),
  )

  -- The array holds all bits, and less than a word more.
  pub IsBitVector-capacity :
      (v : BitVector)
      → IsBitVector top width v
      → v.size + 3 * width ≤ top
      → (v.size ≤ capacity width v.words) × (capacity width v.words + 2 * width ≤ top)
  IsBitVector-capacity v (u, c) h =
      let a = number_of_words-enough width top v.size wide (omega arith) in
      let b = number_of_words-bounded width top v.size wide (omega arith) in
      rw c (omega arith, omega arith)

  -- Growing and shrinking set the size, keep the bits below both sizes, and give the new bits the value.
  pub resize_lem :
      (v : BitVector) (n : ℕ) (value : Bool)
      → IsBitVector top width v
      → v.size + 3 * width ≤ top
      → n + 3 * width ≤ top
      → (r : BitVector) × (resize top width v n value ≡ some r)
        × IsBitVector top width r
        × (r.size ≡ n)
        × ((i : ℕ)
            → i < n
            → bit width r.words i ≡ (if ltb i v.size then bit width v.words i else value))
  unfolding resize
  resize_lem v n value (u, c) fits h = elim (Bool-cases (0 == n)) [
    | inl e ↦
        let z : n ≡ 0 = ground arith in
        (no_bits, rw e, no_bits-IsBitVector (omega arith), sym z, λ i l. absurd (omega arith))
    | inr e ↦
        let k = number_of_words width top n in
        let (ru, rc, rb) = resize_words-IsVector width k v.words u in
        let enough = number_of_words-enough width top n wide (omega arith) in
        let bounded = number_of_words-bounded width top n wide (omega arith) in
        elim (Bool-cases (ltb v.size n)) [
          | inl g ↦
              let l : v.size < n = ground arith in
              let new : Interval = record { lo = v.size; hi = n - 1 } in
              let range : hull_of v.size (n - 1) ≡ new =
                hull_of-ordered v.size (n - 1) (omega arith) in
              let (ws, made, wv, wc, wb) =
                set_value_lem top width wide (resize_words k v.words) new ru
                  (inr (omega arith, omega arith)) (omega arith) value in
              let sets : set_value top width (resize_words k v.words) (hull_of v.size (n - 1)) value
                  ≡ some ws =
                ap (λ r. set_value top width (resize_words k v.words) r value) range ∙ made in
              (
                record { words = ws; size = n },
                rw (e, g, sets),
                (wv, wc ∙ rc),
                refl,
                λ i p. elim (Bool-cases (ltb i v.size)) [
                  | inl t ↦
                      let o : has new i ≡ false = ground arith in
                      wb i ∙ rw (o, t) (rb i (omega arith))
                  | inr t ↦ let o : has new i ≡ true = ground arith in wb i ∙ rw (o, t)
                ],
              )
          | inr g ↦
              let l : n ≤ v.size = ground arith in
              (
                record { words = resize_words k v.words; size = n },
                rw (e, g),
                (ru, rc),
                refl,
                λ i p. let t : ltb i v.size ≡ true = ground arith in rb i (omega arith) ∙ rw t,
              )
        ]
  ]

pub hull-some : (v : BitVector) → 1 ≤ v.size → hull v ≡ record { lo = 0; hi = v.size - 1 }
unfolding hull
hull-some v h =
    let e : (0 == v.size) ≡ false = ground arith in
    rw e (hull_of-ordered 0 (v.size - 1) (omega arith))

nothing_in : (range : Interval) → contains empty range ≡ true → range.lo ≤ range.hi → ⊥
unfolding contains is_empty
nothing_in range h le = ground arith

at_most :
    (m : ℕ) (range : Interval)
    → contains (record { lo = 0; hi = m }) range ≡ true
    → range.lo ≤ range.hi
    → range.hi ≤ m
unfolding contains is_empty
at_most m range h le = ground arith

-- A range that passes `checkRange` is empty, or in order and below the size.
pub check_range-Inside :
    (v : BitVector) (range : Interval)
    → contains (hull v) range ≡ true
    → (range.lo ≤ range.hi) ⊎ (is_empty range ≡ true)
    → Inside v.size range
unfolding contains is_empty hull
check_range-Inside v range h (inr e) = inl (ground arith, ground arith)
check_range-Inside v range h (inl le) = elim (Bool-cases (0 == v.size)) [
  | inl e ↦
      let n : hull v ≡ empty = rw e refl in
      absurd (nothing_in range (sym (ap (λ r. contains r range) n) ∙ h) le)
  | inr e ↦
      let n = hull-some v (ground arith) in
      let m = at_most (v.size - 1) range (sym (ap (λ r. contains r range) n) ∙ h) le in
      let p : 1 ≤ v.size = ground arith in inr (le, omega arith)
]

-- `get` of an index below the size.
pub get-bit :
    (top width : ℕ) (v : BitVector) (i : ℕ)
    → 1 ≤ width
    → IsBitVector top width v
    → v.size + 3 * width ≤ top
    → i < v.size
    → get top width v i ≡ some (bit width v.words i)
unfolding get check_range singleton contains is_empty
get-bit top width v i w (u, c) fits h =
    let (enough, room) = IsBitVector-capacity top width w v (u, c) fits in
    let e = hull-some v (omega arith) in
    let k : contains (hull v) (singleton i) ≡ true = rw e (ground arith) in
    rw (k, get_lem top width w v.words i u (omega arith))
