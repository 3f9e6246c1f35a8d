-- ===== src/BitVectorSupport/Shifted.antt =====
-- What the shifts of Sawyer/BitVectorSupport.h do to the bits.
use sawyer.Prelude.{
  ℕ, ◌+◌, ◌-◌, ◌*◌, ◌≤◌, ◌<◌, ◌≡◌, refl, ◌∙◌, inl, inr, Bool, true, false, ◌&&◌, ltb, leb, ◌==◌,
  if◌then◌else◌, some, ◌>>=◌, arith, Bool-cases, List,
}
use sawyer.Interval.{Interval, has, size, base_size, empty}
use sawyer.BitVectorSupport.Access.{copy, set_value}
use sawyer.BitVectorSupport.Shift
use sawyer.BitVectorSupport.Meaning.{bit, capacity, IsVector, Gives, Inside, Inside-size}
use sawyer.BitVectorSupport.Sizes.{base_size-some, base_size-none}
use sawyer.BitVectorSupport.Changes.{set_value_lem}
use sawyer.BitVectorSupport.Combine.{copy_lem}

-- The bits of a range after its parts have moved, with one test for each case.
left_bits :
    (lo hi n sz i : ℕ) (f : ℕ → Bool) (value : Bool)
    → lo ≤ hi
    → sz ≡ hi + 1 - lo
    → n < sz
    → (if leb lo i && ltb i (lo + n)
        then value
        else if leb (lo + n) i && ltb i (lo + n + (sz - n))
        then f (i - (lo + n) + lo)
        else f i)
      ≡ (if leb lo i && leb i hi then (if ltb i (lo + n) then value else f (i - n)) else f i)
left_bits lo hi n sz i f value le s l = elim (Bool-cases (leb lo i && ltb i (lo + n))) [
  | inl e ↦
      let a : (leb lo i && leb i hi) ≡ true = ground arith in
      let b : ltb i (lo + n) ≡ true = ground arith in rw (e, a, b)
  | inr e ↦ elim (Bool-cases (leb (lo + n) i && ltb i (lo + n + (sz - n)))) [
    | inl g ↦
        let a : (leb lo i && leb i hi) ≡ true = ground arith in
        let b : ltb i (lo + n) ≡ false = ground arith in
        let c : i - (lo + n) + lo ≡ i - n = ground arith in rw (e, g, a, b, c)
    | inr g ↦ let a : (leb lo i && leb i hi) ≡ false = ground arith in rw (e, g, a)
  ]
]

right_bits :
    (lo hi n sz i : ℕ) (f : ℕ → Bool) (value : Bool)
    → lo ≤ hi
    → sz ≡ hi + 1 - lo
    → n < sz
    → (if leb (lo + (sz - n)) i && ltb i (lo + (sz - n) + n)
        then value
        else if leb lo i && ltb i (lo + (sz - n))
        then f (i - lo + (lo + n))
        else f i)
      ≡ (if leb lo i && leb i hi then (if ltb (i + n) (hi + 1) then f (i + n) else value) else f i)
right_bits lo hi n sz i f value le s l =
    elim (Bool-cases (leb (lo + (sz - n)) i && ltb i (lo + (sz - n) + n))) [
      | inl e ↦
          let a : (leb lo i && leb i hi) ≡ true = ground arith in
          let b : ltb (i + n) (hi + 1) ≡ false = ground arith in rw (e, a, b)
      | inr e ↦ elim (Bool-cases (leb lo i && ltb i (lo + (sz - n)))) [
        | inl g ↦
            let a : (leb lo i && leb i hi) ≡ true = ground arith in
            let b : ltb (i + n) (hi + 1) ≡ true = ground arith in
            let c : i - lo + (lo + n) ≡ i + n = ground arith in rw (e, g, a, b, c)
        | inr g ↦ let a : (leb lo i && leb i hi) ≡ false = ground arith in rw (e, g, a)
      ]
    ]

-- The bits that a shift to the left leaves,
abbrev pub left_shifted : ℕ → List ℕ → Interval → ℕ → Bool → ℕ → Bool
left_shifted width ws range n value i =
    if has range i
    then (if ltb i (range.lo + n) then value else bit width ws (i - n))
    else bit width ws i

-- and one to the right.
abbrev pub right_shifted : ℕ → List ℕ → Interval → ℕ → Bool → ℕ → Bool
right_shifted width ws range n value i =
    if has range i
    then (if ltb (i + n) (range.hi + 1) then bit width ws (i + n) else value)
    else bit width ws i

module _ (top width : ℕ) (wide : 1 ≤ width) (ws : List ℕ) (range : Interval) (v : IsVector width ws)
    (le : range.lo ≤ range.hi) (lt : range.hi < capacity width ws)
    (fits : capacity width ws + 2 * width ≤ top) where
  -- A range that may be empty.
  introduced_range :
      (lo n : ℕ)
      → lo + n ≤ capacity width ws
      → (r : Interval) × (base_size top lo n ≡ some r)
        × Inside (capacity width ws) r
        × ((i : ℕ) → has r i ≡ (leb lo i && ltb i (lo + n)))
  introduced_range lo n h = elim (Bool-cases (n == 0)) [
    | inl e ↦
        let z : n ≡ 0 = ground arith in
        (empty, rw z (base_size-none top lo (omega arith)), inl (refl, refl), λ i. ground arith)
    | inr e ↦
        let p : 1 ≤ n = ground arith in
        (
          record { lo = lo; hi = lo + n - 1 },
          base_size-some top lo n p (omega arith),
          inr (omega arith, omega arith),
          λ i. ground arith,
        )
  ]

  -- A part of the range moves, and the place that it leaves is set.
  moved :
      (from to n at m : ℕ) (value : Bool)
      → 1 ≤ n
      → from + n ≤ capacity width ws
      → to + n ≤ capacity width ws
      → at + m ≤ capacity width ws
      → (a : Interval) × (b : Interval) × (c : Interval) × (base_size top from n ≡ some a)
        × (base_size top to n ≡ some b)
        × (base_size top at m ≡ some c)
        × Gives width
            (λ i.
              if leb at i && ltb i (at + m)
              then value
              else if leb to i && ltb i (to + n)
              then bit width ws (i - to + from)
              else bit width ws i)
            (capacity width ws)
            (copy top width ws a ws b >>= λ ws. set_value top width ws c value)
  moved from to n at m value p f t g =
      let a : Interval = record { lo = from; hi = from + n - 1 } in
      let b : Interval = record { lo = to; hi = to + n - 1 } in
      let (c, ec, ic, hc) = introduced_range at m g in
      let (w1, e1, v1, c1, b1) =
        copy_lem top width wide ws a ws b v v
          (inr ((omega arith, omega arith), (omega arith, omega arith), omega arith)) fits
          (omega arith) in
      let inside : Inside (capacity width w1) c = rw c1 ic in
      let (w2, e2, v2, c2, b2) = set_value_lem top width wide w1 c v1 inside (omega arith) value in
      (
        a,
        b,
        c,
        base_size-some top from n p (omega arith),
        base_size-some top to n p (omega arith),
        ec,
        (
          w2,
          rw e1 e2,
          v2,
          c2 ∙ c1,
          λ i.
              let h : has b i ≡ (leb to i && ltb i (to + n)) = ground arith in
              b2 i ∙ rw (hc i, b1 i, h),
        ),
      )

  -- `shiftLeft` of a range inside an array moves its bits up by any amount, fills the low places with
  -- the new value, and changes no bit outside the range.
  pub shift_left_lem :
      (n : ℕ) (value : Bool)
      → Gives width
          (left_shifted width ws range n value)
          (capacity width ws)
          (Shift.shift_left top width ws range n value)
  unfolding Shift.shift_left
  shift_left_lem n value =
      let (e, s) = Inside-size top (capacity width ws) range (omega arith) (omega arith) le lt in
      let sz = size top range in
      elim (Bool-cases (ltb n sz)) [
        | inl q ↦
            let l : n < sz = ground arith in
            let (a, b, c, ea, eb, ec, (w, made, u, cap, bits)) =
              moved range.lo (range.lo + n) (sz - n) range.lo n value (omega arith) (omega arith)
                (omega arith) (omega arith) in
            (
              w,
              rw (q, ea, eb, ec) made,
              u,
              cap,
              λ i. bits i ∙ left_bits range.lo range.hi n sz i (bit width ws) value le s l,
            )
        | inr q ↦
            let (w, made, u, cap, bits) =
              set_value_lem top width wide ws range v (inr (le, lt)) (omega arith) value in
            (w, rw q made, u, cap, λ i. bits i ∙ ground arith)
      ]

  -- `shiftRight` of a range inside an array moves its bits down by any amount, fills the high places
  -- with the new value, and changes no bit outside the range.
  pub shift_right_lem :
      (n : ℕ) (value : Bool)
      → Gives width
          (right_shifted width ws range n value)
          (capacity width ws)
          (Shift.shift_right top width ws range n value)
  unfolding Shift.shift_right
  shift_right_lem n value =
      let (e, s) = Inside-size top (capacity width ws) range (omega arith) (omega arith) le lt in
      let sz = size top range in
      elim (Bool-cases (ltb n sz)) [
        | inl q ↦
            let l : n < sz = ground arith in
            let (a, b, c, ea, eb, ec, (w, made, u, cap, bits)) =
              moved (range.lo + n) range.lo (sz - n) (range.lo + (sz - n)) n value (omega arith)
                (omega arith) (omega arith) (omega arith) in
            (
              w,
              rw (q, ea, eb, ec) made,
              u,
              cap,
              λ i. bits i ∙ right_bits range.lo range.hi n sz i (bit width ws) value le s l,
            )
        | inr q ↦
            let (w, made, u, cap, bits) =
              set_value_lem top width wide ws range v (inr (le, lt)) (omega arith) value in
            (w, rw q made, u, cap, λ i. bits i ∙ ground arith)
      ]
