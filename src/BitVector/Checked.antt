-- ===== src/BitVector/Checked.antt =====
-- What the range checks of Sawyer/BitVector.h guard, for `get` and `setValue`.
use sawyer.Prelude.{
  ℕ, ◌+◌, ◌*◌, ◌≤◌, ◌<◌, ◌≡◌, refl, ◌∙◌, ◌⊎◌, inl, inr, Bool, true, false, ltb, ◌==◌, if◌then◌else◌,
  none, some, Bool-cases, arith,
}
use sawyer.Interval.{Interval, has, is_empty, singleton, contains}
use sawyer.BitVectorSupport.Meaning.{bit, capacity, Inside}
use sawyer.BitVectorSupport.Changes.{set_value_lem}
use sawyer.BitVector.{BitVector, hull, check_range, get}
use sawyer.BitVector.Access.{set_value}
use sawyer.BitVector.Meaning.{
  IsBitVector, IsBitVector-capacity, check_range-Inside, get-bit, hull-some,
}

Inside-more : (n m : ℕ) (range : Interval) → n ≤ m → Inside n range → Inside m range
Inside-more n m range le (inl e) = inl e
Inside-more n m range le (inr (a, b)) = inr (a, omega arith)

some_if : (b x y : Bool) → some (if b then x else y) ≡ (if b then some x else some y)
some_if true x y = refl
some_if false x y = refl

contains-beyond : (v : BitVector) (i : ℕ) → v.size ≤ i → contains (hull v) (singleton i) ≡ false
unfolding contains is_empty singleton hull
contains-beyond v i le = elim (Bool-cases (0 == v.size)) [
  | inl e ↦ rw e (ground arith)
  | inr e ↦ let h = hull-some v (ground arith) in rw h (ground arith)
]

module _ (top width : ℕ) (wide : 1 ≤ width) (v : BitVector) (vv : IsBitVector top width v)
    (fits : v.size + 3 * width ≤ top) where
  -- For a vector of the right number of words: `setValue` of a range that the vector contains succeeds,
  -- keeps the size and the number of words, and `get` then gives the value in the range and the bit
  -- from before elsewhere; `setValue` of any other range fails.
  pub set_value-get :
      (range : Interval) (value : Bool)
      → (range.lo ≤ range.hi) ⊎ (is_empty range ≡ true)
      → (contains (hull v) range ≡ true
          → (r : BitVector) × (set_value top width v range value ≡ some r)
            × IsBitVector top width r
            × (r.size ≡ v.size)
            × ((i : ℕ)
                → i < v.size
                → get top width r i ≡ (if has range i then some value else get top width v i)))
        × (contains (hull v) range ≡ false → set_value top width v range value ≡ none)
  unfolding set_value check_range
  set_value-get range value ordered = (
    λ h.
        let (enough, room) = IsBitVector-capacity top width wide v vv fits in
        let inside = check_range-Inside v range h ordered in
        let (ws, made, wu, wc, bits) =
          set_value_lem top width wide v.words range vv.0
            (Inside-more v.size (capacity width v.words) range enough inside) (omega arith) value in
        (
          record { words = ws; size = v.size },
          rw (h, made),
          (wu, wc ∙ vv.1),
          refl,
          λ i l.
              get-bit top width (record { words = ws; size = v.size }) i wide (wu, wc ∙ vv.1) fits l
              ∙ rw (bits i, get-bit top width v i wide vv fits l)
                  (some_if (has range i) value (bit width v.words i)),
        ),
    λ h. rw h,
  )

  -- For a vector of the right number of words `get` gives the bit of an index below the size, and fails
  -- on any other index.
  pub get_checked :
      (i : ℕ) → get top width v i ≡ (if ltb i v.size then some (bit width v.words i) else none)
  unfolding get check_range
  get_checked i = elim (Bool-cases (ltb i v.size)) [
    | inl e ↦ get-bit top width v i wide vv fits (ground arith) ∙ rw e refl
    | inr e ↦ let n = contains-beyond v i (ground arith) in rw (e, n) refl
  ]
