-- ===== src/Interval/Bounds.antt =====
-- Sizes, overflow and adjacency of Sawyer/Interval.h on a type with greatest value `top`.
use native.Mathlib.Decide.{dec_lt}
use sawyer.Prelude.Word.{
  add_wrap, sub_wrap, add_wrap-cases, sub_wrap-cases, add_wrap-le, sub_wrap-le,
}
use sawyer.Prelude.{
  sym, ◌∙◌, Option, if◌then◌else◌, inl, inr, refl, ℕ, ◌+◌, ◌-◌, ◌≤◌, ◌<◌, ◌≡◌, ◌↔◌, true, false,
  ◌&&◌, ◌||◌, ltb, leb, arith, ◌⊎◌, none, some, ◌≢◌,
}
use sawyer.Interval.{
  Interval, IsValid, has, is_empty, is_whole, size, base_size, base_size_sat, is_left_adjacent,
  is_right_adjacent, is_adjacent, shift_right_sat,
}

module _ (top : ℕ) (wide : 1 ≤ top) where
  -- The size of a valid interval is the number of its values, and 0 for the whole type too.
  pub size_lem :
      (i : Interval)
      → IsValid top i
      → size top i ≡ (if is_empty i || is_whole top i then 0 else i.hi + 1 - i.lo)
  unfolding size is_whole is_empty
  size_lem i v =
      let d = sub_wrap-cases top i.hi i.lo in
      let w = add_wrap-cases top (sub_wrap top i.hi i.lo) 1 in ground (arith, d, w)

  base_size_facts :
      (lo n : ℕ)
      → lo ≤ top
      → n ≤ top
      → ((base_size top lo n ≡ none) ↔ (top < lo + n))
        × ((i : Interval)
            → base_size top lo n ≡ some i
            → IsValid top i × (size top i ≡ n) × ((x : ℕ) → has i x ≡ (leb lo x && ltb x (lo + n))))
  unfolding base_size size
  base_size_facts lo n p q =
      let w = add_wrap-cases top lo n in
      let m = sub_wrap-cases top (add_wrap top lo n) 1 (add_wrap-le top lo n) wide in
      (
        (λ h. ground (arith, w), λ h. ground (arith, w)),
        λ i h.
            let d = sub_wrap-cases top i.hi i.lo in
            let u =
              add_wrap-cases top (sub_wrap top i.hi i.lo) 1 (sub_wrap-le top i.hi i.lo) wide in
            (ground (arith, w, m), ground (arith, w, m, d, u), λ x. ground (arith, w, m)),
      )

  base_size_sat_facts :
      (lo n : ℕ)
      → lo ≤ top
      → n ≤ top
      → (base_size_sat top lo n ≢ none)
        × ((i : Interval)
            → base_size_sat top lo n ≡ some i
            → IsValid top i × ((x : ℕ) → x ≤ top → has i x ≡ (leb lo x && ltb x (lo + n))))
  unfolding base_size_sat
  base_size_sat_facts lo n p q =
      let w = add_wrap-cases top lo n in
      let m = sub_wrap-cases top (add_wrap top lo n) 1 (add_wrap-le top lo n) wide in
      (λ h. ground (arith, w), λ i h. (ground (arith, w, m), λ x le. ground (arith, w, m)))

  -- A base and a size of the scalar type whose sum fits make the valid interval of that size with
  -- exactly the values from the base on; if the sum does not fit, this fails.
  pub base_size-has :
      (lo n : ℕ)
      → lo ≤ top
      → n ≤ top
      → ((top < lo + n) × (base_size top lo n ≡ none))
        ⊎ ((lo + n ≤ top)
            × (i : Interval) × (base_size top lo n ≡ some i)
            × IsValid top i
            × (size top i ≡ n)
            × ((x : ℕ) → has i x ≡ (leb lo x && ltb x (lo + n))))
  base_size-has lo n p q = go (base_size top lo n) refl
    where
      go :
          (r : Option Interval)
          → base_size top lo n ≡ r
          → ((top < lo + n) × (r ≡ none))
            ⊎ ((lo + n ≤ top)
                × (i : Interval) × (r ≡ some i)
                × IsValid top i
                × (size top i ≡ n)
                × ((x : ℕ) → has i x ≡ (leb lo x && ltb x (lo + n))))
      go none e = inl ((base_size_facts lo n p q).0.0 e, refl)
      go (some i) e =
          let (over, made) = base_size_facts lo n p q in
          let (valid, sized, shown) = made i e in
          elim (dec_lt top (lo + n)) [
            | yes h ↦ let wrong : some i ≡ none = sym e ∙ over.1 h in cc
            | no h ↦ inr (omega arith, i, refl, valid, sized, shown)
          ]

  -- For a base and a size of the scalar type, saturation never fails, and clips the interval at the
  -- greatest value.
  pub base_size_sat-has :
      (lo n : ℕ)
      → lo ≤ top
      → n ≤ top
      → (i : Interval) × (base_size_sat top lo n ≡ some i)
        × IsValid top i
        × ((x : ℕ) → x ≤ top → has i x ≡ (leb lo x && ltb x (lo + n)))
  base_size_sat-has lo n p q = go (base_size_sat top lo n) refl
    where
      go :
          (r : Option Interval)
          → base_size_sat top lo n ≡ r
          → (i : Interval) × (r ≡ some i)
            × IsValid top i
            × ((x : ℕ) → x ≤ top → has i x ≡ (leb lo x && ltb x (lo + n)))
      go none e = absurd ((base_size_sat_facts lo n p q).0 e)
      go (some i) e =
          let (valid, shown) = (base_size_sat_facts lo n p q).1 i e in (i, refl, valid, shown)

  -- Shifting a valid interval gives a valid one: it adds to every value, and drops those that do not fit.
  pub shift_right_sat-has :
      (a : Interval) (n : ℕ)
      → IsValid top a
      → n ≤ top
      → IsValid top (shift_right_sat top a n)
        × ((x : ℕ) → x ≤ top → has (shift_right_sat top a n) x ≡ (leb n x && has a (x - n)))
  unfolding shift_right_sat
  shift_right_sat-has a n v q =
      let l = add_wrap-cases top a.lo n in
      let h = add_wrap-cases top a.hi n in (ground (arith, l, h), λ x p. ground (arith, l, h))

  -- For valid intervals with values, adjacency on the left means that the second begins right after the
  -- first, or that the first ends at the greatest value, and starts after 0, and the second starts at
  -- 0: there the addition wraps around.
  pub is_left_adjacent_iff :
      (a b : Interval)
      → IsValid top a
      → IsValid top b
      → is_empty a ≡ false
      → is_empty b ≡ false
      → (is_left_adjacent top a b ≡ true)
        ↔ ((a.hi + 1 ≡ b.lo) ⊎ ((a.hi ≡ top) × (b.lo ≡ 0) × (0 < a.lo)))
  unfolding is_left_adjacent is_empty
  is_left_adjacent_iff a b va vb p q =
      let w = add_wrap-cases top a.hi 1 in (λ h. ground (arith, w), λ h. ground (arith, w))

  -- Adjacency is adjacency on either side, and the right side is the left one the other way round.
  pub is_adjacent-eq :
      (a b : Interval)
      → (is_adjacent top a b ≡ (is_left_adjacent top a b || is_right_adjacent top a b))
        × (is_right_adjacent top a b ≡ is_left_adjacent top b a)
  unfolding is_left_adjacent is_right_adjacent is_adjacent
  is_adjacent-eq a b = (ground arith, ground arith)
