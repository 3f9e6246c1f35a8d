-- ===== src/IntervalSet/Algebra.antt =====
-- Union, difference, intersection and equality in Sawyer/IntervalSet.h as operations on sets of
-- scalars.
use sawyer.Prelude.{
  ℕ, suc, ◌≤◌, ◌<◌, ◌≡◌, true, false, not, ◌&&◌, ◌||◌, ltb, some, [], ◌∷◌, inl, inr, arith, refl,
  ap, ◌∙◌, sym, Bool-cases,
}
use sawyer.Interval.{Interval, has, is_empty, hull_of, whole}
use sawyer.Interval
use sawyer.Map
use sawyer.IntervalMap.{Nodes}
use sawyer.IntervalMap.Query
use sawyer.IntervalMap.Shape.{Ordered, IsValid, covers}
use sawyer.IntervalMap.Carve.{interval}
use sawyer.IntervalMap.Erase.{not_empty}
use sawyer.IntervalMap.Gaps.{hull_of_lem}
use sawyer.IntervalSet.Members.{
  exists-covers, exists-erase, exists-insert_multiple, exists-erase_multiple, intervals-AllFit,
  intervals-exists,
}
use sawyer.IntervalSet.Invert.{invert_within-complement}
use sawyer.IntervalSet.{
  IntervalSet, exists, hull, intersect_set, intersection, union, difference, intervals, erase,
  intersect_interval, n_intervals, is_empty_set,
}

module _ (top : ℕ) where
  last_key-bound :
      (b x : ℕ) (n : Interval × ℕ) (m : Nodes ℕ)
      → Ordered top b (n ∷ m)
      → (n.0.hi ≤ (Map.last_key n.0 m).hi)
        × ((Map.last_key n.0 m).hi ≤ top)
        × (covers x (n ∷ m) ≡ true → x ≤ (Map.last_key n.0 m).hi)
  unfolding Map.last_key
  last_key-bound b x n [] o = (omega arith, o.2, λ h. ground arith)
  last_key-bound b x n (k ∷ m) o =
      let (p, q, r) = last_key-bound (suc n.0.hi) x k m o.3 in
      (omega (arith, p, o.3.0, o.3.1), q, λ h. ground (arith, p, r, o.3.0, o.3.1))

  least-bound : (b x : ℕ) (m : Nodes ℕ) → Ordered top b m → covers x m ≡ true → b ≤ x
  least-bound b x [] o h = ground arith
  least-bound b x (n ∷ m) o h = ground (arith, least-bound (suc n.0.hi) x m o.3)

  abbrev Hulled : IntervalSet → Type 0
  Hulled s =
      (h : Interval) × (hull s ≡ some h)
      × Interval.IsValid top h
      × ((x : ℕ) → exists x s ≡ true → has h x ≡ true)

  nodes_Hulled :
      (m : Nodes ℕ) (count : ℕ)
      → IsValid top (record { nodes = m; count = count })
      → Hulled (record { nodes = m; count = count })
  unfolding hull Query.hull Map.is_empty
  nodes_Hulled [] count v = (
    Interval.empty,
    refl,
    inl (refl, refl),
    λ x p. cc (exists-covers top x (record { nodes = []; count = count }) v, p),
  )
  nodes_Hulled (n ∷ m) count v =
      let s : IntervalSet = record { nodes = n ∷ m; count = count } in
      let o = v.ordered in
      let (long, fits, rest) = last_key-bound 0 0 n m o in
      let last = (Map.last_key n.0 m).hi in
      (
        interval n.0.lo last,
        (unfold Query.least Query.greatest Map.greatest in
            ap some (hull_of_lem n.0.lo last (omega (arith, long, o.1)))),
        inr (omega (arith, long, o.1), fits),
        λ x p.
            let held : covers x (n ∷ m) ≡ true = sym (exists-covers top x s v) ∙ p in
            let high = (last_key-bound 0 x n m o).2 held in
            let low = least-bound n.0.lo x (n ∷ m) (omega arith, o.1, o.2, o.3) held in
            ground (arith, high, low),
      )

  -- The hull of a valid set is valid and has every scalar of the set.
  pub hull-exists :
      (s : IntervalSet)
      → IsValid top s
      → (h : Interval) × (hull s ≡ some h)
        × Interval.IsValid top h
        × ((x : ℕ) → exists x s ≡ true → has h x ≡ true)
  hull-exists s v = nodes_Hulled s.nodes s.count v

  module _ (wide : 1 ≤ top) where
    -- The union of two valid sets succeeds, is valid and has the scalars of either.
    pub union-exists :
        (s other : IntervalSet)
        → IsValid top s
        → IsValid top other
        → (r : IntervalSet) × (union top s other ≡ some r)
          × IsValid top r
          × ((x : ℕ) → exists x r ≡ (exists x s || exists x other))
    unfolding union
    union-exists s other v w = elim (Bool-cases (ltb (n_intervals s) (n_intervals other))) [
      | inl fewer ↦
          let (r, run, valid, shown) =
            exists-insert_multiple top wide (intervals s) other (intervals-AllFit top s v) w in
          (r, rw fewer run, valid, λ x. shown x ∙ rw (intervals-exists top x s v))
      | inr more ↦
          let (r, run, valid, shown) =
            exists-insert_multiple top wide (intervals other) s (intervals-AllFit top other w) v in
          (r, rw more run, valid, λ x. shown x ∙ rw (intervals-exists top x other w) (ground arith))
    ]

    -- The difference of two valid sets succeeds, is valid and has the scalars of the first that are not
    -- in the second.
    pub difference-exists :
        (s other : IntervalSet)
        → IsValid top s
        → IsValid top other
        → (r : IntervalSet) × (difference top s other ≡ some r)
          × IsValid top r
          × ((x : ℕ) → exists x r ≡ (exists x s && not (exists x other)))
    unfolding difference
    difference-exists s other v w =
        let (r, run, valid, shown) =
          exists-erase_multiple top wide (intervals other) s (intervals-AllFit top other w) v in
        (r, run, valid, λ x. shown x ∙ rw (intervals-exists top x other w))

    crop_above :
        (i h : Interval) (s r : IntervalSet)
        → is_empty_set s ≡ false
        → i.lo ≤ i.hi
        → hull s ≡ some h
        → h.lo ≤ h.hi
        → i.lo ≤ h.lo
        → i.hi < h.hi
        → erase top (interval i.hi h.hi) s ≡ some r
        → intersect_interval top i s ≡ some r
    unfolding intersect_interval Interval.least Interval.greatest
    crop_above i h s r some_left full found proper low high run =
        let above : ltb h.lo i.lo ≡ false = ground arith in
        let over : ltb i.hi h.hi ≡ true = ground arith in
        rw
          (
            some_left,
            not_empty i full,
            found,
            not_empty h proper,
            above,
            found,
            not_empty h proper,
            over,
            hull_of_lem i.hi h.hi (omega arith),
          )
          run

    -- `intersect(interval)` erases the greatest scalar of the interval too: for a non-empty interval and
    -- a valid set whose least scalar is not below the interval and whose greatest one is above it, the
    -- call succeeds and leaves the scalars of the set below the greatest one of the interval.
    pub intersect_interval-drops_greatest :
        (i : Interval) (n : Interval × ℕ) (m : Nodes ℕ) (count : ℕ)
        → i.lo ≤ i.hi
        → IsValid top (record { nodes = n ∷ m; count = count })
        → i.lo ≤ n.0.lo
        → i.hi < (Map.last_key n.0 m).hi
        → (r : IntervalSet) × (intersect_interval top i (record { nodes = n ∷ m; count = count })
            ≡ some r)
          × IsValid top r
          × ((x : ℕ)
              → exists x r ≡ (exists x (record { nodes = n ∷ m; count = count }) && ltb x i.hi))
    unfolding is_empty_set hull Map.is_empty
    intersect_interval-drops_greatest i n m count full v low high =
        let s : IntervalSet = record { nodes = n ∷ m; count = count } in
        let o = v.ordered in
        let last = (Map.last_key n.0 m).hi in
        let (long, fits, rest) = last_key-bound 0 0 n m o in
        let hulled : hull s ≡ some (interval n.0.lo last) =
          (unfold Query.hull Query.least Query.greatest Map.greatest Map.is_empty in
            ap some (hull_of_lem n.0.lo last (omega (arith, long, o.1)))) in
        let (r, run, valid, shown) =
          exists-erase top wide (interval i.hi last) s (inr (omega arith, fits)) v in
        (
          r,
          crop_above i (interval n.0.lo last) s r (unfold Query.is_empty_map in refl) full hulled
              (omega (arith, long, o.1)) low high run,
          valid,
          λ x.
              let bound : exists x s ≡ true → x ≤ last =
                λ p. (last_key-bound 0 x n m o).2 (sym (exists-covers top x s v) ∙ p) in
              shown x ∙ ground (arith, bound),
        )

    intersect_set-exists :
        (other s : IntervalSet)
        → IsValid top other
        → IsValid top s
        → (r : IntervalSet) × (intersect_set top other s ≡ some r)
          × IsValid top r
          × ((x : ℕ) → exists x r ≡ (exists x s && exists x other))
    unfolding intersect_set
    intersect_set-exists other s w v =
        let (h, found, fits, all) = hull-exists s v in
        let (outside, run, valid, shown) = invert_within-complement top wide h other fits w in
        let (r, runs, valids, left) =
          exists-erase_multiple top wide (intervals outside) s (intervals-AllFit top outside valid)
            v in
        (
          r,
          rw (found, run) runs,
          valids,
          λ x. left x ∙ rw (intervals-exists top x outside valid, shown x) (ground (arith, all x)),
        )

    -- The intersection of two valid sets succeeds, is valid and has the scalars of both.
    pub intersection-exists :
        (s other : IntervalSet)
        → IsValid top s
        → IsValid top other
        → (r : IntervalSet) × (intersection top s other ≡ some r)
          × IsValid top r
          × ((x : ℕ) → exists x r ≡ (exists x s && exists x other))
    unfolding intersection
    intersection-exists s other v w = elim (Bool-cases (ltb (n_intervals s) (n_intervals other))) [
      | inl fewer ↦
          let (r, run, valid, shown) = intersect_set-exists s other v w in
          (r, rw fewer run, valid, λ x. shown x ∙ ground arith)
      | inr more ↦
          let (r, run, valid, shown) = intersect_set-exists other s w v in
          (r, rw more run, valid, shown)
    ]
