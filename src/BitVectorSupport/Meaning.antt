-- ===== src/BitVectorSupport/Meaning.antt =====
-- The bits of an array of words, and what the parts of an array say of the whole.
use native.Mathlib.Nat.{mod-lt, div-add-mod'}
use sawyer.Prelude.Bits.{test_bit}
use sawyer.Prelude.{
  ℕ, zero, suc, ◌+◌, ◌-◌, ◌*◌, ◌/◌, ◌%◌, ◌^◌, ◌≤◌, ◌<◌, ◌≡◌, refl, sym, ap, ◌∙◌, ◌⊎◌, inl, inr,
  Bool, true, false, ◌&&◌, ltb, leb, Option, some, ◌>>=◌, List, [], ◌∷◌, arith, Bool-cases,
}
use sawyer.Interval.{Interval, is_empty, is_whole, size}
use sawyer.Interval.Bounds.{size_lem}
use sawyer.BitVectorSupport.{at_word}

-- The n indices from `offset` on.
abbrev pub within : ℕ → ℕ → ℕ → Bool
within offset n i = leb offset i && ltb i (offset + n)

-- A range of an array of `n` bits: the empty one, or one within it.
abbrev pub Inside : ℕ → Interval → Type 0
Inside n range = ((range.lo ≡ 1) × (range.hi ≡ 0)) ⊎ ((range.lo ≤ range.hi) × (range.hi < n))

pub Inside-size :
    (top n : ℕ) (range : Interval)
    → 1 ≤ top
    → n ≤ top
    → range.lo ≤ range.hi
    → range.hi < n
    → (is_empty range ≡ false) × (size top range ≡ range.hi + 1 - range.lo)
unfolding is_empty size is_whole
Inside-size top n range w t le lt =
    let e : is_empty range ≡ false = ground arith in
    let whole : is_whole top range ≡ false = ground arith in
    (e, size_lem top w range (inr (le, omega arith)) ∙ rw (e, whole))

-- The word and the place in the word of an index.
pub split_index :
    (width i : ℕ) → 1 ≤ width → (i % width < width) × (i / width * width + i % width ≡ i)
split_index width i w = (mod-lt i w, div-add-mod' i width)

module _ (width : ℕ) where
  -- The bit at an index, and false outside the array.
  unfoldable pub bit : List ℕ → ℕ → Bool
  bit [] i = false
  bit (x ∷ xs) i = elim (ltb i width) [ true ↦ test_bit x i | false ↦ bit xs (i - width) ]

  -- The number of bits.
  unfoldable pub capacity : List ℕ → ℕ
  capacity [] = 0
  capacity (x ∷ xs) = width + capacity xs

  -- Every element fits a word.
  abbrev pub IsVector : List ℕ → Type 0
  IsVector [] = Unit
  IsVector (x ∷ xs) = (x < 2 ^ width) × IsVector xs

  -- `o` is a state with `Q` and an array of `n` bits, which are `f`.
  module _ {ℓ} {P : Type ℓ} where
    abbrev pub Makes : (P → Type 0) → (ℕ → Bool) → ℕ → Option (P × List ℕ) → Type ℓ
    Makes Q f n o =
        (p : P) × (ws : List ℕ) × (o ≡ some (p, ws))
        × Q p
        × IsVector ws
        × (capacity ws ≡ n)
        × ((i : ℕ) → bit ws i ≡ f i)

  -- `o` is an array of `n` bits, which are `f`.
  abbrev pub Gives : (ℕ → Bool) → ℕ → Option (List ℕ) → Type 0
  Gives f n o =
      (ws : List ℕ) × (o ≡ some ws) × IsVector ws × (capacity ws ≡ n) × ((i : ℕ) → bit ws i ≡ f i)

  pub bit-head : (x : ℕ) (xs : List ℕ) (i : ℕ) → i < width → bit (x ∷ xs) i ≡ test_bit x i
  unfolding bit
  bit-head x xs i h = let e : ltb i width ≡ true = ground arith in rw (e, bit)

  pub bit-tail : (x : ℕ) (xs : List ℕ) (i : ℕ) → width ≤ i → bit (x ∷ xs) i ≡ bit xs (i - width)
  unfolding bit
  bit-tail x xs i h = let e : ltb i width ≡ false = ground arith in rw (e, bit)

  pub bit-plus : (x : ℕ) (xs : List ℕ) (i : ℕ) → bit xs i ≡ bit (x ∷ xs) (i + width)
  bit-plus x xs i =
      let e : i + width - width ≡ i = omega arith in
      sym (bit-tail x xs (i + width) (omega arith) ∙ ap (bit xs) e)

  -- Two arrays whose first words and further words have the bits of `f`.
  pub bit-cons :
      (x : ℕ) (xs : List ℕ) (f : ℕ → Bool)
      → ((j : ℕ) → j < width → test_bit x j ≡ f j)
      → ((i : ℕ) → bit xs i ≡ f (i + width))
      → (i : ℕ) → bit (x ∷ xs) i ≡ f i
  bit-cons x xs f h k i = elim (Bool-cases (ltb i width)) [
    | inl e ↦ let l : i < width = ground arith in bit-head x xs i l ∙ h i l
    | inr e ↦
        let l : width ≤ i = ground arith in
        let s : i - width + width ≡ i = omega arith in bit-tail x xs i l ∙ k (i - width) ∙ ap f s
  ]

  pub bit-beyond : (ws : List ℕ) (i : ℕ) → capacity ws ≤ i → bit ws i ≡ false
  unfolding bit capacity
  bit-beyond [] i h = refl
  bit-beyond (x ∷ xs) i h =
      let e : ltb i width ≡ false = ground arith in
      rw (e, bit) (bit-beyond xs (i - width) (omega arith))

  pub bit-below :
      (x : ℕ) (xs out : List ℕ) (n m : ℕ)
      → m ≡ width + n
      → ((i : ℕ) → i < n → bit out i ≡ bit xs i)
      → (i : ℕ) → i < m
      → bit (x ∷ out) i ≡ bit (x ∷ xs) i
  bit-below x xs out n m e h i l = elim (Bool-cases (ltb i width)) [
    | inl q ↦ let p : i < width = ground arith in bit-head x out i p ∙ sym (bit-head x xs i p)
    | inr q ↦
        let p : width ≤ i = ground arith in
        bit-tail x out i p ∙ (h (i - width) (omega arith) ∙ sym (bit-tail x xs i p))
  ]

  pub suc_times : (k : ℕ) → suc k * width ≡ width + k * width
  suc_times k = grind arith

  module _ {ℓ} {P : Type ℓ} (Q : P → Type 0) where
    pub Makes-cong :
        (f g : ℕ → Bool) (n m : ℕ) (o : Option (P × List ℕ))
        → n ≡ m
        → ((i : ℕ) → f i ≡ g i)
        → Makes Q f n o
        → Makes Q g m o
    Makes-cong f g n m o e h (p, ws, made, q, v, c, b) = (p, ws, made, q, v, c ∙ e, λ i. b i ∙ h i)

    pub Makes-of :
        (f : ℕ → Bool) (n : ℕ) (o o' : Option (P × List ℕ))
        → o ≡ o'
        → Makes Q f n o'
        → Makes Q f n o
    Makes-of f n o o' e (p, ws, made, q, v, c, b) = (p, ws, e ∙ made, q, v, c, b)

    -- A change behind one word that stays.
    pub Makes-cons :
        (f : ℕ → Bool) (n : ℕ) (x : ℕ) (o : Option (P × List ℕ))
        → x < 2 ^ width
        → ((j : ℕ) → j < width → test_bit x j ≡ f j)
        → Makes Q (λ i. f (i + width)) n o
        → Makes Q f (width + n) (o >>= λ r. some (r.0, x ∷ r.1))
    unfolding capacity
    Makes-cons f n x o l h (p, ws, made, q, v, c, b) =
        (p, x ∷ ws, rw made, q, (l, v), ap (λ k. width + k) c, bit-cons x ws f h b)

    -- A change from the word at `k` on.
    pub at_word-Makes :
        (step : List ℕ → Option (P × List ℕ)) (f : ℕ → Bool) (k : ℕ) (ws : List ℕ)
        → IsVector ws
        → k * width < capacity ws
        → ((i : ℕ) → i < k * width → bit ws i ≡ f i)
        → ((rest : List ℕ)
            → IsVector rest
            → capacity rest + k * width ≡ capacity ws
            → ((i : ℕ) → bit rest i ≡ bit ws (i + k * width))
            → Makes Q (λ i. f (i + k * width)) (capacity rest) (step rest))
        → Makes Q f (capacity ws) (at_word k step ws)
    unfolding at_word capacity
    at_word-Makes step f zero ws v h low s =
        Makes-cong (λ i. f (i + 0 * width)) f (capacity ws) (capacity ws) (step ws) refl
          (λ i. ap f (omega arith)) (s ws v (omega arith) (λ i. ap (bit ws) (omega arith)))
    at_word-Makes step f (suc k) [] v h low s = absurd (omega arith)
    at_word-Makes step f (suc k) (x ∷ xs) v h low s =
        let m = suc_times k in
        Makes-cons f (capacity xs) x (at_word k step xs) v.0
          (λ j l. sym (bit-head x xs j l) ∙ low j (omega arith))
          (at_word-Makes step (λ i. f (i + width)) k xs v.1 (omega arith)
            (λ i l. bit-plus x xs i ∙ low (i + width) (omega arith))
            (λ rest u c b.
              Makes-cong (λ i. f (i + suc k * width)) (λ i. f (i + k * width + width))
                (capacity rest) (capacity rest) (step rest) refl (λ i. ap f (omega arith))
                (s rest u (omega arith)
                  (λ i. b i ∙ bit-plus x xs (i + k * width) ∙ ap (bit (x ∷ xs)) (omega arith)))))

  -- The part of an array from the word `k` on, and what a change of it does to the whole.
  pub at_word-step {ℓ} :
      {R : Type ℓ} (step : List ℕ → Option (R × List ℕ)) (k : ℕ) (ws : List ℕ)
      → IsVector ws
      → k * width < capacity ws
      → (rest : List ℕ) × IsVector rest
        × (capacity rest + k * width ≡ capacity ws)
        × ((i : ℕ) → bit rest i ≡ bit ws (i + k * width))
        × ((r : R) (rs : List ℕ)
            → step rest ≡ some (r, rs)
            → IsVector rs
            → capacity rs ≡ capacity rest
            → (out : List ℕ) × (at_word k step ws ≡ some (r, out))
              × IsVector out
              × (capacity out ≡ capacity ws)
              × ((i : ℕ) → i < k * width → bit out i ≡ bit ws i)
              × ((i : ℕ) → bit out (i + k * width) ≡ bit rs i))
  unfolding at_word capacity
  at_word-step step zero ws v h = (
    ws,
    v,
    omega arith,
    λ i. ap (bit ws) (omega arith),
    λ r rs e u c. (rs, e, u, c, λ i l. absurd (omega arith), λ i. ap (bit rs) (omega arith)),
  )
  at_word-step step (suc k) [] v h = absurd (omega arith)
  at_word-step step (suc k) (x ∷ xs) v h =
      let m = suc_times k in
      let (rest, u, c, b, f) = at_word-step step k xs v.1 (omega arith) in
      (
        rest,
        u,
        omega arith,
        λ i. b i ∙ (bit-plus x xs (i + k * width) ∙ ap (bit (x ∷ xs)) (omega arith)),
        λ r rs e w d.
            let (out, made, ov, oc, low, high) = f r rs e w d in
            (
              x ∷ out,
              rw made,
              (v.0, ov),
              ap (λ k. width + k) oc,
              bit-below x xs out (k * width) (suc k * width) m low,
              λ i.
                  ap (bit (x ∷ out)) (omega arith)
                  ∙ (sym (bit-plus x out (i + k * width)) ∙ high i),
            ),
      )
