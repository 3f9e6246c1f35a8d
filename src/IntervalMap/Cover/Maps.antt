-- ===== src/IntervalMap/Cover/Maps.antt =====
-- Overlap of two maps of Sawyer/IntervalMap.h.
use sawyer.Prelude.{
  ℕ, suc, ◌≤◌, ◌<◌, ◌≡◌, ◌↔◌, true, false, ltb, [], ◌∷◌, ◌⊎◌, inl, inr, arith, refl, Bool-cases,
}
use sawyer.Interval.{Interval, has, is_empty}
use sawyer.Interval
use sawyer.Interval.Sets.{overlaps-has}
use sawyer.IntervalMap.Find.{first_common}
use sawyer.IntervalMap.Query.{overlaps_map}
use sawyer.IntervalMap.Shape.{Ordered, covers, IsValid}
use sawyer.IntervalMap.{IntervalMap, Nodes}
use sawyer.IntervalMap.Cover.{covers_before}

disjoint :
    (i j : Interval)
    → i.lo ≤ i.hi
    → j.lo ≤ j.hi
    → Interval.overlaps i j ≡ false
    → (i.hi < j.lo) ⊎ (j.hi < i.lo)
unfolding Interval.overlaps
disjoint i j p q h = ground arith

module _ {ℓ κ} {V : Type ℓ} {W : Type κ} (top : ℕ) where
  -- The loop over two maps stops at the first two nodes that overlap.
  first_common-covers :
      (b c : ℕ) (m : Nodes V) (others : Nodes W)
      → Ordered top b m
      → Ordered top c others
      → (x : ℕ) → (first_common m others).0 ≡ []
      → covers x m ≡ true
      → covers x others ≡ false
  unfolding first_common
  first_common-covers b c [] others o p x e h = cc
  first_common-covers b c (n ∷ m) [] o p x e h = refl
  first_common-covers b c (n ∷ m) (k ∷ others) o p x e h =
      elim (Bool-cases (Interval.overlaps n.0 k.0)) [
        | inl meets ↦ let wrong : n ∷ m ≡ [] = rw (meets, first_common) at e in cc
        | inr clear ↦
            let apart = disjoint n.0 k.0 o.1 p.1 clear in
            elim (Bool-cases (ltb n.0.hi k.0.hi)) [
              | inl first ↦
                  let e' : (first_common m (k ∷ others)).0 ≡ [] =
                    rw (clear, first, first_common) at e in
                  ground (
                    arith,
                    apart,
                    covers_before top k.0.lo x (k ∷ others) (omega arith, p.1, p.2, p.3),
                    first_common-covers (suc n.0.hi) c m (k ∷ others) o.3 p x e',
                  )
              | inr second ↦
                  let e' : (first_common (n ∷ m) others).0 ≡ [] =
                    rw (clear, second, first_common) at e in
                  ground (
                    arith,
                    apart,
                    covers_before top n.0.lo x (n ∷ m) (omega arith, o.1, o.2, o.3),
                    first_common-covers b (suc k.0.hi) (n ∷ m) others o p.3 x e' h,
                  )
            ]
      ]

  first_common-meets :
      (b c : ℕ) (m : Nodes V) (others : Nodes W)
      → Ordered top b m
      → Ordered top c others
      → ((first_common m others).0 ≡ [])
        ⊎ ((x : ℕ) × (covers x m ≡ true) × (covers x others ≡ true))
  unfolding first_common
  first_common-meets b c [] others o p = inl refl
  first_common-meets b c (n ∷ m) [] o p = inl refl
  first_common-meets b c (n ∷ m) (k ∷ others) o p = elim (Bool-cases (Interval.overlaps n.0 k.0)) [
    | inl meets ↦
        let (x, h, g) =
          (overlaps-has {top = top} n.0 k.0 (inr (o.1, o.2)) (inr (p.1, p.2))).0 meets in
        inr (x, rw h, rw g)
    | inr clear ↦ elim (Bool-cases (ltb n.0.hi k.0.hi)) [
      | inl first ↦ elim (first_common-meets (suc n.0.hi) c m (k ∷ others) o.3 p) [
        | inl e ↦ inl (rw (clear, first, first_common) e)
        | inr (x, h, g) ↦ inr (x, ground arith, g)
      ]
      | inr second ↦ elim (first_common-meets b (suc k.0.hi) (n ∷ m) others o p.3) [
        | inl e ↦ inl (rw (clear, second, first_common) e)
        | inr (x, h, g) ↦ inr (x, h, ground arith)
      ]
    ]
  ]

  -- Two valid maps overlap exactly when they share a key.
  pub overlaps_map-covers :
      (m : IntervalMap V) (other : IntervalMap W)
      → IsValid top m
      → IsValid top other
      → (overlaps_map m other ≡ true)
        ↔ ((x : ℕ) × (covers x m.nodes ≡ true) × (covers x other.nodes ≡ true))
  unfolding overlaps_map
  overlaps_map-covers m other v w = (there, back)
    where
      there :
          overlaps_map m other ≡ true
          → (x : ℕ) × (covers x m.nodes ≡ true) × (covers x other.nodes ≡ true)
      there h = elim (first_common-meets 0 0 m.nodes other.nodes v.ordered w.ordered) [
        | inl e ↦ let wrong : false ≡ true = rw (e, overlaps_map) at h in cc
        | inr found ↦ found
      ]

      back :
          (x : ℕ) × (covers x m.nodes ≡ true) × (covers x other.nodes ≡ true)
          → overlaps_map m other ≡ true
      back (x, h, g) = go (first_common m.nodes other.nodes).0 refl
        where
          go :
              (r : Nodes V)
              → (first_common m.nodes other.nodes).0 ≡ r
              → (elim r [ [] ↦ false | n ∷ rest ↦ true ]) ≡ true
          go [] e = cc (first_common-covers 0 0 m.nodes other.nodes v.ordered w.ordered x e h, g)
          go (n ∷ rest) e = refl
