-- ===== src/BitVectorSupport/Copied.antt =====
-- The words that `nonoverlappingCopy` of Sawyer/BitVectorSupport.h computes.
use Prim.Native.Nat.{bit_or}
use native.Mathlib.Nat.{mod-eq_of_lt}
use sawyer.Prelude.Bits.{
  test_bit, shift_left, shift_right, test_bit-zero, test_bit-bit_or, bit_or-lt, pow_pos,
}
use sawyer.Prelude.Bits.Shift.{
  test_bit-shift_left, test_bit-shift_right, test_bit-high, shift_left-lt, shift_right-le,
}
use sawyer.Prelude.{
  ℕ, suc, ◌+◌, ◌-◌, ◌*◌, ◌^◌, ◌≤◌, ◌<◌, ◌≡◌, refl, ◌∙◌, inl, inr, Bool, true, false, not, ◌&&◌, ltb,
  leb, if◌then◌else◌, some, ◌>>=◌, arith, Bool-cases, List,
}
use sawyer.Prelude.Word.{add_wrap}
use sawyer.BitVectorSupport.{get_word}
use sawyer.BitVectorSupport.Traverse.{left_word, right_word}
use sawyer.BitVectorSupport.Meaning.{bit, capacity, IsVector}
use sawyer.BitVectorSupport.Changes.{get_word-bit}

if_not {ℓ} : {A : Type ℓ} (c : Bool) (x y : A) → (if c then y else x) ≡ (if not c then x else y)
if_not true x y = refl
if_not false x y = refl

module _ (top width : ℕ) (src : List ℕ) (v : IsVector width src) where
  -- src[k] where k is a word of the array.
  pub word :
      (k : ℕ)
      → 1 ≤ width
      → k * width < capacity width src
      → (x : ℕ) × (get_word src k ≡ some x)
        × (x < 2 ^ width)
        × ((i : ℕ) → i < width → test_bit x i ≡ bit width src (i + k * width))
  word k w h = get_word-bit width src k 0 v w (omega arith)

  shift_right-bit :
      (k n y : ℕ)
      → y < 2 ^ width
      → ((i : ℕ) → i < width → test_bit y i ≡ bit width src (i + k * width))
      → (j : ℕ)
      → test_bit (shift_right y n) j ≡ (ltb (j + n) width && bit width src (j + n + k * width))
  shift_right-bit k n y l d j = test_bit-shift_right y n j ∙ elim (Bool-cases (ltb (j + n) width)) [
    | inl e ↦ let q : j + n < width = ground arith in d (j + n) q ∙ rw e
    | inr e ↦ test_bit-high width y (j + n) l (ground arith) ∙ rw e
  ]

  -- A shifted word that a test chooses, or zero.
  right_part :
      (c : Bool) (k n : ℕ)
      → 1 ≤ width
      → (c ≡ true → k * width < capacity width src)
      → (x : ℕ) × ((if c then (get_word src k >>= λ x. some (shift_right x n)) else some 0)
          ≡ some x)
        × (x < 2 ^ width)
        × ((j : ℕ) → test_bit x j ≡ (c && (ltb (j + n) width && bit width src (j + n + k * width))))
  right_part true k n w h =
      let (y, e, l, d) = word k w (h refl) in
      (shift_right y n, rw e, omega (arith, shift_right-le y n), λ j. shift_right-bit k n y l d j)
  right_part false k n w h = (0, refl, pow_pos width, λ j. test_bit-zero j)

  left_part :
      (c : Bool) (k n : ℕ)
      → 1 ≤ width
      → (c ≡ true → k * width < capacity width src)
      → (x : ℕ) × ((if c then (get_word src k >>= λ x. some (shift_left width x n)) else some 0)
          ≡ some x)
        × (x < 2 ^ width)
        × ((j : ℕ)
            → j < width
            → test_bit x j ≡ (c && (leb n j && bit width src (j - n + k * width))))
  left_part true k n w h =
      let (y, e, l, d) = word k w (h refl) in
      (
        shift_left width y n,
        rw e,
        shift_left-lt width y n,
        λ j q.
            let t : ltb j width ≡ true = ground arith in
            test_bit-shift_left width y n j ∙ rw (t, d (j - n) (omega arith)),
      )
  left_part false k n w h = (0, refl, pow_pos width, λ j q. test_bit-zero j)

  pub left_word-bit :
      (first last at n : ℕ)
      → 1 ≤ n
      → n < width
      → (first < at → (at - 1) * width < capacity width src)
      → (at ≤ last → at * width < capacity width src)
      → (t : ℕ) × (left_word top width src first last at n ≡ some t)
        × (t < 2 ^ width)
        × ((j : ℕ)
            → j < width
            → test_bit t j ≡ (
                if leb n j
                then (if leb at last then bit width src (j - n + at * width) else false)
                else (if ltb first at
                    then bit width src (j + (width - n) + (at - 1) * width)
                    else false)))
  unfolding left_word
  left_word-bit first last at n p q h k =
      let (a, ea, la, da) =
        right_part (ltb first at) (at - 1) (width - n) (omega arith) (λ e. h (ground arith)) in
      let (b, eb, lb, db) =
        left_part (not (ltb last at)) at n (omega arith) (λ e. k (ground arith)) in
      let flip =
        if_not (ltb last at) (get_word src at >>= λ x. some (shift_left width x n)) (some 0) in
      (
        bit_or a b,
        rw (ea, flip ∙ eb),
        bit_or-lt width a b la lb,
        λ j l. test_bit-bit_or a b j ∙ rw (da j, db j l) (ground arith),
      )

  pub right_word-bit :
      (last at n : ℕ)
      → 1 ≤ n
      → n < width
      → at < top
      → at * width < capacity width src
      → (suc at ≤ last → suc at * width < capacity width src)
      → (t : ℕ) × (right_word top width src last at n ≡ some t)
        × (t < 2 ^ width)
        × ((j : ℕ)
            → j < width
            → test_bit t j ≡ (
                if ltb (j + n) width
                then bit width src (j + n + at * width)
                else (if leb (suc at) last
                    then bit width src (j + n - width + suc at * width)
                    else false)))
  unfolding right_word add_wrap
  right_word-bit last at n p q o h k =
      let (x, e, l, d) = word at (omega arith) h in
      let up : add_wrap top at 1 ≡ suc at = mod-eq_of_lt (omega arith) ∙ omega arith in
      let (b, eb, lb, db) =
        left_part (leb (suc at) last) (suc at) (width - n) (omega arith) (λ e. k (ground arith)) in
      (
        bit_or (shift_right x n) b,
        rw (e, up, eb),
        bit_or-lt width (shift_right x n) b (omega (arith, shift_right-le x n)) lb,
        λ j u.
            test_bit-bit_or (shift_right x n) b j
            ∙ rw (shift_right-bit at n x l d j, db j u)
                (elim (Bool-cases (ltb (j + n) width)) [
                  | inl e ↦
                      let s : leb (width - n) j ≡ false = ground arith in rw (e, s) (ground arith)
                  | inr e ↦
                      let s : leb (width - n) j ≡ true = ground arith in
                      let r : j + n - width ≡ j - (width - n) = ground arith in
                      rw (e, s, r) (ground arith)
                ]),
      )
