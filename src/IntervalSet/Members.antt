-- ===== src/IntervalSet/Members.antt =====
-- The operations of Sawyer/IntervalSet.h as operations on sets of scalars.
use sawyer.Prelude.{
  ℕ, suc, ◌≤◌, ◌≡◌, Bool, true, false, not, ◌&&◌, ◌||◌, if◌then◌else◌, Option, none, some, List, [],
  ◌∷◌, inl, inr, arith, refl, ◌∙◌, sym, map, Bool-cases,
}
use sawyer.Interval.{Interval, has, is_empty}
use sawyer.Interval
use sawyer.IntervalMap.{Nodes}
use sawyer.IntervalMap.Change
use sawyer.IntervalMap.Query
use sawyer.IntervalMap.Shape.{Ordered, IsValid, covers}
use sawyer.IntervalMap.Answers.{
  scan, lookups-scan, get_optional-insert, get_optional-erase, get_optional-empty,
}
use sawyer.IntervalSet.{
  IntervalSet, same_value, exists, insert, erase, insert_multiple, erase_multiple, empty_set,
  intervals,
}

equal_values : (a b : ℕ) → same_value a b ≡ true → a ≡ b
equal_values a b h = ground arith

scan-covers :
    (x : ℕ) (m : Nodes ℕ) → (elim (scan x m) [ none ↦ false | some v ↦ true ]) ≡ covers x m
scan-covers x [] = refl
scan-covers x (n ∷ m) = elim (Bool-cases (has n.0 x)) [
  | inl p ↦ rw p
  | inr p ↦ rw p (scan-covers x m)
]

abbrev is_some : Option ℕ → Bool
is_some none = false
is_some (some v) = true

put_some : (c : Bool) (o : Option ℕ) → is_some (if c then some 0 else o) ≡ (c || is_some o)
put_some true o = refl
put_some false o = refl

put_none : (c : Bool) (o : Option ℕ) → is_some (if c then none else o) ≡ (is_some o && not c)
put_none true o = ground arith
put_none false o = ground arith

-- One of the intervals has the scalar.
abbrev pub any_has : ℕ → List Interval → Bool
any_has x [] = false
any_has x (i ∷ is) = has i x || any_has x is

any_has-covers : (x : ℕ) (m : Nodes ℕ) → any_has x (map (λ n. n.0) m) ≡ covers x m
any_has-covers x [] = refl
any_has-covers x (n ∷ m) = rw (any_has-covers x m)

-- The intervals are empty or within the scalar type.
abbrev pub AllFit : ℕ → List Interval → Type 0
AllFit top [] = Unit
AllFit top (i ∷ is) = Interval.IsValid top i × AllFit top is

module _ (top : ℕ) where
  pub exists-covers : (x : ℕ) (s : IntervalSet) → IsValid top s → exists x s ≡ covers x s.nodes
  unfolding exists
  exists-covers x s v = (lookups-scan top x s 0 v).2 ∙ scan-covers x s.nodes

  exists-get :
      (x : ℕ) (s : IntervalSet) → IsValid top s → exists x s ≡ is_some (Query.get_optional x s)
  unfolding exists
  exists-get x s v =
      let (got, all, there, dflt, default) = lookups-scan top x s 0 v in rw (got) there

  pub empty-exists : IsValid top empty_set × ((x : ℕ) → exists x empty_set ≡ false)
  unfolding empty_set
  empty-exists =
      let (v, nothing) = get_optional-empty {V = ℕ} top in
      (v, λ x. exists-get x _ v ∙ rw (nothing x))

  module _ (wide : 1 ≤ top) where
    -- Insertion into a valid set succeeds, and adds exactly the scalars of the interval.
    pub exists-insert :
        (i : Interval) (s : IntervalSet)
        → Interval.IsValid top i
        → IsValid top s
        → (r : IntervalSet) × (insert top i s ≡ some r)
          × IsValid top r
          × ((x : ℕ) → exists x r ≡ (has i x || exists x s))
    unfolding insert
    exists-insert i s k v =
        let (r, run, valid, shown) =
          get_optional-insert same_value equal_values top wide i 0 s k v in
        (
          r,
          run,
          valid,
          λ x.
              exists-get x r valid
              ∙ (rw (exists-get x s v, shown x) (put_some (has i x) (Query.get_optional x s))),
        )

    -- Erasure from a valid set succeeds, and removes exactly the scalars of the interval.
    pub exists-erase :
        (e : Interval) (s : IntervalSet)
        → Interval.IsValid top e
        → IsValid top s
        → (r : IntervalSet) × (erase top e s ≡ some r)
          × IsValid top r
          × ((x : ℕ) → exists x r ≡ (exists x s && not (has e x)))
    unfolding erase
    exists-erase e s (inl (p, q)) v =
        let gone : is_empty e ≡ true = unfold is_empty in ground arith in
        (
          s,
          (unfold Change.erase in rw gone),
          v,
          λ x. let out : has e x ≡ false = ground arith in rw out (ground arith),
        )
    exists-erase e s (inr (full, fits)) v =
        let (r, run, valid, shown) =
          get_optional-erase same_value equal_values top wide e s full fits v in
        (
          r,
          run,
          valid,
          λ x.
              exists-get x r valid
              ∙ (rw (exists-get x s v, shown x) (put_none (has e x) (Query.get_optional x s))),
        )

    pub exists-insert_multiple :
        (is : List Interval) (s : IntervalSet)
        → AllFit top is
        → IsValid top s
        → (r : IntervalSet) × (insert_multiple top is s ≡ some r)
          × IsValid top r
          × ((x : ℕ) → exists x r ≡ (any_has x is || exists x s))
    unfolding insert_multiple
    exists-insert_multiple [] s f v = (s, refl, v, λ x. refl)
    exists-insert_multiple (i ∷ is) s f v =
        let (t, run, valid, shown) = exists-insert i s f.0 v in
        let (r, runs, valids, all) = exists-insert_multiple is t f.1 valid in
        (r, rw run runs, valids, λ x. all x ∙ (rw (shown x) (ground arith)))

    pub exists-erase_multiple :
        (is : List Interval) (s : IntervalSet)
        → AllFit top is
        → IsValid top s
        → (r : IntervalSet) × (erase_multiple top is s ≡ some r)
          × IsValid top r
          × ((x : ℕ) → exists x r ≡ (exists x s && not (any_has x is)))
    unfolding erase_multiple
    exists-erase_multiple [] s f v = (s, refl, v, λ x. ground arith)
    exists-erase_multiple (i ∷ is) s f v =
        let (t, run, valid, shown) = exists-erase i s f.0 v in
        let (r, runs, valids, all) = exists-erase_multiple is t f.1 valid in
        (r, rw run runs, valids, λ x. all x ∙ (rw (shown x) (ground arith)))

  Ordered-AllFit : (b : ℕ) (m : Nodes ℕ) → Ordered top b m → AllFit top (map (λ n. n.0) m)
  Ordered-AllFit b [] o = tt
  Ordered-AllFit b (n ∷ m) o = (inr (o.1, o.2), Ordered-AllFit (suc n.0.hi) m o.3)

  pub intervals-AllFit : (s : IntervalSet) → IsValid top s → AllFit top (intervals s)
  unfolding intervals
  intervals-AllFit s v = Ordered-AllFit 0 s.nodes v.ordered

  pub intervals-exists :
      (x : ℕ) (s : IntervalSet) → IsValid top s → any_has x (intervals s) ≡ exists x s
  unfolding intervals
  intervals-exists x s v = any_has-covers x s.nodes ∙ sym (exists-covers x s v)
