-- ===== src/Interval/Sets.antt =====
-- The operations of Sawyer/Interval.h as operations on sets of values.
use sawyer.Prelude.Word.{add_wrap-cases}
use sawyer.Prelude.{
  ℕ, ◌+◌, ◌≡◌, ◌↔◌, true, false, not, ◌&&◌, ◌||◌, leb, arith, max, none, some, ◌≢◌,
}
use sawyer.Interval.{
  Interval, IsValid, has, is_empty, intersection, overlaps, contains, hull, split, join, equals,
}

module _ {top : ℕ} where
  -- The intersection of valid intervals is valid and holds exactly the common values.
  pub intersection-has :
      (a b : Interval)
      → IsValid top a
      → IsValid top b
      → IsValid top (intersection a b) × ((x : ℕ) → has (intersection a b) x ≡ (has a x && has b x))
  unfolding intersection
  intersection-has a b va vb = (ground arith, λ x. ground arith)

  -- Two valid intervals overlap exactly when they share a value.
  pub overlaps-has :
      (a b : Interval)
      → IsValid top a
      → IsValid top b
      → (overlaps a b ≡ true) ↔ ((x : ℕ) × (has a x ≡ true) × (has b x ≡ true))
  unfolding overlaps
  overlaps-has a b va vb =
      (λ h. (max a.lo b.lo, ground arith, ground arith), λ (x, p, q). ground arith)

  -- Containment of valid intervals is inclusion of the sets of values.
  pub contains-has :
      (a b : Interval)
      → IsValid top a
      → IsValid top b
      → (contains a b ≡ true) ↔ ((x : ℕ) → has b x ≡ true → has a x ≡ true)
  unfolding contains
  contains-has a b va vb = (λ h x p. ground arith, λ h. ground (arith, h b.lo, h b.hi))

  -- The hull of valid intervals is the least valid interval that contains both.
  pub hull-least :
      (a b : Interval)
      → IsValid top a
      → IsValid top b
      → IsValid top (hull a b)
        × (contains (hull a b) a ≡ true)
        × (contains (hull a b) b ≡ true)
        × ((c : Interval)
            → IsValid top c
            → contains c a ≡ true
            → contains c b ≡ true
            → contains c (hull a b) ≡ true)
  unfolding hull contains
  hull-least a b va vb = (ground arith, ground arith, ground arith, λ c vc p q. ground arith)

  -- Splitting a valid interval gives valid ones and keeps every value: those up to the point go left, the others right.
  pub split-has :
      (a : Interval) (point : ℕ)
      → IsValid top a
      → IsValid top (split top a point).0
        × IsValid top (split top a point).1
        × ((x : ℕ)
            → (has (split top a point).0 x ≡ (has a x && leb x point))
              × (has (split top a point).1 x ≡ (has a x && not (leb x point))))
  unfolding split
  split-has a point va =
      let c = add_wrap-cases top point 1 in
      (ground (arith, c), ground (arith, c), λ x. (ground (arith, c), ground (arith, c)))

  -- Valid intervals are equal exactly when they have the same values.
  pub equals-has :
      (a b : Interval)
      → IsValid top a
      → IsValid top b
      → (equals a b ≡ true) ↔ ((x : ℕ) → has a x ≡ has b x)
  unfolding equals
  equals-has a b va vb = (λ h x. ground arith, λ h. ground (arith, h a.lo, h a.hi, h b.lo, h b.hi))

  -- A join of valid intervals that succeeds is valid and the union of the two.
  pub join-has :
      (a b c : Interval)
      → IsValid top a
      → IsValid top b
      → join top a b ≡ some c
      → IsValid top c × ((x : ℕ) → has c x ≡ (has a x || has b x))
  unfolding join
  join-has a b c va vb h =
      let w = add_wrap-cases top a.hi 1 in (ground (arith, w), λ x. ground (arith, w))

  -- A join of valid intervals fails exactly for two with values where the second does not begin right after
  -- the first.
  pub join-eq-none :
      (a b : Interval)
      → IsValid top a
      → IsValid top b
      → (join top a b ≡ none) ↔ ((is_empty a ≡ false) × (is_empty b ≡ false) × (b.lo ≢ a.hi + 1))
  unfolding join is_empty
  join-eq-none a b va vb =
      let w = add_wrap-cases top a.hi 1 in (λ h. ground (arith, w), λ (p, q, r). ground (arith, w))
