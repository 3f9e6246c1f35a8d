-- ===== src/BitVectorSupport/Rotated.antt =====
-- What the arithmetic shift and the rotations of Sawyer/BitVectorSupport.h do to the bits.
use native.Mathlib.Nat.{mod-lt, mod-eq_of_lt, mod_self}
use sawyer.Prelude.{
  ℕ, ◌+◌, ◌-◌, ◌*◌, ◌%◌, ◌≤◌, ◌<◌, ◌≡◌, refl, ap, ◌∙◌, inl, inr, Bool, true, false, ◌&&◌, ltb, leb,
  ◌==◌, if◌then◌else◌, some, arith, Bool-cases, List,
}
use sawyer.Interval.{Interval, has, size, is_empty, base_size}
use sawyer.BitVectorSupport.{zeros, number_of_words}
use sawyer.BitVectorSupport.Access.{get, copy}
use sawyer.BitVectorSupport.Shift
use sawyer.BitVectorSupport.Meaning.{bit, capacity, IsVector, Gives, Inside-size}
use sawyer.BitVectorSupport.Sizes.{
  base_size-some, number_of_words-enough, number_of_words-bounded, zeros-IsVector, capacity-zeros,
}
use sawyer.BitVectorSupport.Changes.{get_lem}
use sawyer.BitVectorSupport.Combine.{copy_lem}
use sawyer.BitVectorSupport.Shifted.{right_shifted, shift_right_lem}

-- The places of a range after a rotation to the right, with one test for each case.
rotated_bits :
    (lo hi n sz i : ℕ) (f g : ℕ → Bool)
    → lo ≤ hi
    → sz ≡ hi + 1 - lo
    → n < sz
    → 1 ≤ n
    → ((i : ℕ) → i < n → g i ≡ f (i + lo))
    → (if leb (lo + sz - n) i && leb i (lo + sz - n + n - 1)
        then g (i - (lo + sz - n) + 0)
        else if leb lo i && leb i hi
        then (if ltb (i + n) (hi + 1) then f (i + n) else false)
        else f i)
      ≡ (if leb lo i && leb i hi
          then f (if ltb (i + n) (hi + 1) then i + n else i + n - sz)
          else f i)
rotated_bits lo hi n sz i f g le s l p saved =
    elim (Bool-cases (leb (lo + sz - n) i && leb i (lo + sz - n + n - 1))) [
      | inl e ↦
          let a : (leb lo i && leb i hi) ≡ true = ground arith in
          let b : ltb (i + n) (hi + 1) ≡ false = ground arith in
          let q : i - (lo + sz - n) + 0 < n = ground arith in
          let c : i - (lo + sz - n) + 0 + lo ≡ i + n - sz = ground arith in
          rw (e, a, b) (saved (i - (lo + sz - n) + 0) q ∙ ap f c)
      | inr e ↦ elim (Bool-cases (leb lo i && leb i hi)) [
        | inl g ↦ let b : ltb (i + n) (hi + 1) ≡ true = ground arith in rw (e, g, b)
        | inr g ↦ rw (e, g)
      ]
    ]

-- The bits after a rotation to the right by `n`, less than the size of the range.
abbrev pub rotated : ℕ → List ℕ → Interval → ℕ → ℕ → Bool
rotated width ws range n i =
    if has range i
    then bit width ws
        (if ltb (i + n) (range.hi + 1) then i + n else i + n - (range.hi + 1 - range.lo))
    else bit width ws i

-- The bits after a rotation to the left by `n`, less than the size of the range.
abbrev pub rotated_up : ℕ → List ℕ → Interval → ℕ → ℕ → Bool
rotated_up width ws range n i =
    if has range i
    then bit width ws (if leb (range.lo + n) i then i - n else i + (range.hi + 1 - range.lo) - n)
    else bit width ws i

module _ (top width : ℕ) (wide : 1 ≤ width) (ws : List ℕ) (range : Interval) (v : IsVector width ws)
    (le : range.lo ≤ range.hi) (lt : range.hi < capacity width ws)
    (fits : capacity width ws + 4 * width ≤ top) where
  shift_right_arithmetic_of :
      (n : ℕ) (w : List ℕ)
      → is_empty range ≡ false
      → Shift.shift_right top width ws range n (bit width ws range.hi) ≡ some w
      → Shift.shift_right_arithmetic top width ws range n ≡ some w
  unfolding Shift.shift_right_arithmetic
  shift_right_arithmetic_of n w e made =
      let g : get top width ws range.hi ≡ some (bit width ws range.hi) =
        get_lem top width wide ws range.hi v lt in
      rw (g, made, e)

  -- `shiftRightArithmetic` of a range inside an array is the shift to the right that fills the high
  -- places with the highest bit of the range.
  pub shift_right_arithmetic_lem :
      (n : ℕ)
      → Gives width
          (right_shifted width ws range n (bit width ws range.hi))
          (capacity width ws)
          (Shift.shift_right_arithmetic top width ws range n)
  shift_right_arithmetic_lem n =
      let (e, s) = Inside-size top (capacity width ws) range (omega arith) (omega arith) le lt in
      let (w, made, u, c, b) =
        shift_right_lem top width wide ws range v le lt (omega arith) n (bit width ws range.hi) in
      (w, shift_right_arithmetic_of n w e made, u, c, b)

  abbrev rotated_lower : ℕ → ℕ → Bool
  rotated_lower n = rotated width ws range n

  rotate_some_of :
      (n : ℕ) (saved_range low introduced : Interval) (saved w1 w2 : List ℕ)
      → base_size top 0 n ≡ some saved_range
      → base_size top range.lo n ≡ some low
      → copy top width ws low (zeros (number_of_words width top n)) saved_range ≡ some saved
      → Shift.shift_right top width ws range n false ≡ some w1
      → base_size top (range.lo + size top range - n) n ≡ some introduced
      → copy top width saved saved_range w1 introduced ≡ some w2
      → Shift.rotate_some top width ws range n ≡ some w2
  unfolding Shift.rotate_some
  rotate_some_of n saved_range low introduced saved w1 w2 e1 e2 e3 e4 e5 e6 =
      rw (e1, e2, e3, e4, e5, e6)

  -- The bits that are saved,
  pub saved_bits :
      (n nw : ℕ)
      → nw ≡ number_of_words width top n
      → 1 ≤ n
      → n ≤ range.hi + 1 - range.lo
      → (saved : List ℕ) × (copy top width ws
            (record { lo = range.lo; hi = range.lo + n - 1 })
            (zeros nw)
            (record { lo = 0; hi = 0 + n - 1 })
          ≡ some saved)
        × IsVector width saved
        × (n ≤ capacity width saved)
        × (capacity width saved < n + width)
        × ((i : ℕ) → i < n → bit width saved i ≡ bit width ws (i + range.lo))
  saved_bits n nw same p l =
      let enough : n ≤ nw * width =
        rw same (number_of_words-enough width top n wide (omega arith)) in
      let bounded : nw * width < n + width =
        rw same (number_of_words-bounded width top n wide (omega arith)) in
      let zc = capacity-zeros width nw in
      let (saved, e, v3, c, b) =
        copy_lem top width wide ws (record { lo = range.lo; hi = range.lo + n - 1 }) (zeros nw)
          (record { lo = 0; hi = 0 + n - 1 }) v (zeros-IsVector width nw)
          (inr ((omega arith, omega arith), (omega arith, omega arith), omega arith)) (omega arith)
          (omega arith) in
      (
        saved,
        e,
        v3,
        omega arith,
        omega arith,
        λ i q.
            let h : (leb 0 i && leb i (0 + n - 1)) ≡ true = ground arith in
            b i ∙ rw h (ap (λ k. bit width ws (k + range.lo)) (omega arith)),
      )

  -- and the bits after they are put back.
  put_back :
      (n at : ℕ) (saved w1 : List ℕ)
      → at ≡ range.lo + (range.hi + 1 - range.lo) - n
      → 1 ≤ n
      → n < range.hi + 1 - range.lo
      → IsVector width saved
      → n ≤ capacity width saved
      → capacity width saved < n + width
      → ((i : ℕ) → i < n → bit width saved i ≡ bit width ws (i + range.lo))
      → IsVector width w1
      → capacity width w1 ≡ capacity width ws
      → ((i : ℕ) → bit width w1 i ≡ right_shifted width ws range n false i)
      → Gives width (rotated_lower n) (capacity width ws) (
          copy top width saved
            (record { lo = 0; hi = 0 + n - 1 })
            w1
            (record { lo = at; hi = at + n - 1 }))
  put_back n at saved w1 same p l v3 c3 d3 b3 v4 c4 b4 =
      let (w2, e, u, c, b) =
        copy_lem top width wide saved (record { lo = 0; hi = 0 + n - 1 }) w1
          (record { lo = at; hi = at + n - 1 }) v3 v4
          (inr ((omega arith, omega arith), (omega arith, omega arith), omega arith)) (omega arith)
          (omega arith) in
      (
        w2,
        e,
        u,
        c ∙ c4,
        λ i.
            b i
            ∙ rw (b4 i, same)
                (rotated_bits range.lo range.hi n (range.hi + 1 - range.lo) i (bit width ws)
                  (bit width saved) le refl l p b3),
      )

  rotate_some_lem :
      (n : ℕ)
      → 1 ≤ n
      → n < range.hi + 1 - range.lo
      → Gives width (rotated_lower n) (capacity width ws) (Shift.rotate_some top width ws range n)
  rotate_some_lem n p l =
      let (e, s) = Inside-size top (capacity width ws) range (omega arith) (omega arith) le lt in
      let at = range.lo + size top range - n in
      let (saved, e3, v3, c3, d3, b3) =
        saved_bits n (number_of_words width top n) refl p (omega arith) in
      let (w1, e4, v4, c4, b4) =
        shift_right_lem top width wide ws range v le lt (omega arith) n false in
      let (w2, e6, v6, c6, b6) =
        put_back n at saved w1 (ap (λ k. range.lo + k - n) s) p l v3 c3 d3 b3 v4 c4 b4 in
      (
        w2,
        rotate_some_of n (record { lo = 0; hi = 0 + n - 1 })
            (record { lo = range.lo; hi = range.lo + n - 1 }) (record { lo = at; hi = at + n - 1 })
            saved w1 w2 (base_size-some top 0 n p (omega arith))
            (base_size-some top range.lo n p (omega arith)) e3 e4
            (base_size-some top at n p (omega arith)) e6,
        v6,
        c6,
        b6,
      )

  unrotated : (i : ℕ) → bit width ws i ≡ rotated width ws range 0 i
  unrotated i =
      let z : i + 0 ≡ i = omega arith in
      elim (Bool-cases (has range i)) [
        | inl h ↦ let b : ltb (i + 0) (range.hi + 1) ≡ true = ground arith in rw (h, b, z)
        | inr h ↦ rw h
      ]

  -- A rotation to the left by `m` is one to the right by what the size exceeds it.
  turned :
      (m sz i : ℕ)
      → sz ≡ range.hi + 1 - range.lo
      → m < sz
      → rotated width ws range ((sz - m) % sz) i ≡ rotated_up width ws range m i
  turned m sz i s l = elim (Bool-cases (has range i)) [
    | inl h ↦ elim (Bool-cases (m == 0)) [
      | inl q ↦
          let z : m ≡ 0 = ground arith in
          let r : (sz - m) % sz ≡ 0 = ap (λ k. k % sz) (omega arith) ∙ mod_self sz in
          let a : ltb (i + 0) (range.hi + 1) ≡ true = ground arith in
          let b : leb (range.lo + 0) i ≡ true = ground arith in
          rw (r, z, h, a, b) (ap (bit width ws) (omega arith))
      | inr q ↦
          let r : (sz - m) % sz ≡ sz - m = mod-eq_of_lt (ground arith) in
          rw (r, h)
            (ap (bit width ws) (elim (Bool-cases (leb (range.lo + m) i)) [
              | inl g ↦
                  let a : ltb (i + (sz - m)) (range.hi + 1) ≡ false = ground arith in
                  rw (a, g) (ground arith)
              | inr g ↦
                  let a : ltb (i + (sz - m)) (range.hi + 1) ≡ true = ground arith in
                  rw (a, g) (ground arith)
            ]))
    ]
    | inr h ↦ rw h
  ]

  rotate_right_of :
      (n m : ℕ) (w : List ℕ)
      → is_empty range ≡ false
      → n % size top range ≡ m
      → (m == 0) ≡ false
      → Shift.rotate_some top width ws range m ≡ some w
      → Shift.rotate_right top width ws range n ≡ some w
  unfolding Shift.rotate_right
  rotate_right_of n m w e same q made = rw (same, q, made, e)

  rotate_left_of :
      (n m : ℕ) (w : List ℕ)
      → is_empty range ≡ false
      → size top range - n % size top range ≡ m
      → Shift.rotate_right top width ws range m ≡ some w
      → Shift.rotate_left top width ws range n ≡ some w
  unfolding Shift.rotate_left
  rotate_left_of n m w e same made = rw (same, made, e)

  -- `rotateRight` of a range inside an array by any amount: the bits move down by the remainder of
  -- the amount by the size, those that leave at the bottom come in at the top, and no bit outside
  -- the range changes.
  pub rotate_right_lem :
      (n : ℕ)
      → Gives width
          (rotated width ws range (n % (range.hi + 1 - range.lo)))
          (capacity width ws)
          (Shift.rotate_right top width ws range n)
  unfolding Shift.rotate_right
  rotate_right_lem n =
      let (e, s) = Inside-size top (capacity width ws) range (omega arith) (omega arith) le lt in
      let same : n % size top range ≡ n % (range.hi + 1 - range.lo) = ap (λ k. n % k) s in
      let less : n % (range.hi + 1 - range.lo) < range.hi + 1 - range.lo = mod-lt n (omega arith) in
      elim (Bool-cases (n % (range.hi + 1 - range.lo) == 0)) [
        | inl q ↦
            let z : n % (range.hi + 1 - range.lo) ≡ 0 = ground arith in
            (ws, rw (same, q, e), v, refl, λ i. rw z (unrotated i))
        | inr q ↦
            let (w, made, u, c, b) =
              rotate_some_lem (n % (range.hi + 1 - range.lo)) (ground arith) less in
            (w, rotate_right_of n (n % (range.hi + 1 - range.lo)) w e same q made, u, c, b)
      ]

  -- `rotateLeft` of a range inside an array by any amount: the bits move up by the remainder of the
  -- amount by the size, those that leave at the top come in at the bottom, and no bit outside the
  -- range changes.
  pub rotate_left_lem :
      (n : ℕ)
      → Gives width
          (rotated_up width ws range (n % (range.hi + 1 - range.lo)))
          (capacity width ws)
          (Shift.rotate_left top width ws range n)
  unfolding Shift.rotate_left
  rotate_left_lem n =
      let (e, s) = Inside-size top (capacity width ws) range (omega arith) (omega arith) le lt in
      let sz = range.hi + 1 - range.lo in
      let m = n % sz in
      let less : m < sz = mod-lt n (omega arith) in
      let same : size top range - n % size top range ≡ sz - m = ap (λ k. k - n % k) s in
      let (w, made, u, c, b) = rotate_right_lem (sz - m) in
      (w, rotate_left_of n (sz - m) w e same made, u, c, λ i. b i ∙ turned m sz i refl less)
