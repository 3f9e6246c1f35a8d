-- ===== src/IntervalMap/Carve.antt =====
-- Erasure of a list of nodes, node by node: the reference for `erase` of Sawyer/IntervalMap.h.
use sawyer.Prelude.{
  ℕ, min, max, suc, ◌+◌, ◌-◌, ◌≤◌, ◌<◌, ◌≡◌, ◌&&◌, ◌||◌, ltb, if◌then◌else◌, [], ◌∷◌, ◌++◌, arith,
  refl, ap, ◌∙◌,
}
use sawyer.Interval.{Interval}
use sawyer.Map
use sawyer.Map.{rewind}
use sawyer.IntervalMap.Shape.{
  Ordered, Apart, total, EndBefore, EndBefore-mono, Ordered-weaken, Ordered-after, Ordered-before,
}
use sawyer.IntervalMap.{Nodes, Policy, interval_less, interval_compare}

abbrev pub interval : ℕ → ℕ → Interval
interval lo hi = record { lo = lo; hi = hi }

module _ {ℓ} {V : Type ℓ} (policy : Policy V) where
  -- What an erasure leaves of a node that it overlaps.
  unfoldable pub remains : Interval → Interval → V → Nodes V
  remains e k v =
      let parts = policy.split k v (e.hi + 1) in
      if ltb k.lo e.lo && ltb e.hi k.hi
      then (interval k.lo (e.lo - 1), policy.truncate (interval k.lo e.hi) parts.0 e.lo)
        ∷ (interval (e.hi + 1) k.hi, parts.1)
        ∷ []
      else if ltb k.lo e.lo
      then (interval k.lo (e.lo - 1), policy.truncate k v e.lo) ∷ []
      else if ltb e.hi k.hi
      then (interval (e.hi + 1) k.hi, parts.1) ∷ []
      else []

  unfoldable pub carve : Interval → Nodes V → Nodes V
  carve e [] = []
  carve e (n ∷ m) =
      let rest = carve e m in
      if ltb n.0.hi e.lo || ltb e.hi n.0.lo then n ∷ rest else remains e n.0 n.1 ++ rest

  module _ (top : ℕ) (e : Interval) (proper : e.lo ≤ e.hi) where
    -- An erasure takes the common values away.
    pub total-remains :
        (k : Interval) (v : V)
        → k.lo ≤ k.hi
        → e.lo ≤ k.hi
        → k.lo ≤ e.hi
        → total (remains e k v) + (min k.hi e.hi + 1 - max k.lo e.lo) ≡ k.hi + 1 - k.lo
    unfolding remains
    total-remains k v p q r = ground arith

    pub remains_inside : (k : Interval) (v : V) → e.lo ≤ k.lo → k.hi ≤ e.hi → remains e k v ≡ []
    unfolding remains
    remains_inside k v p q = ground arith

    -- What remains of a node that ends within the erasure ends before it.
    pub remains-EndBefore : (k : Interval) (v : V) → k.hi ≤ e.hi → EndBefore e.lo (remains e k v)
    unfolding remains
    remains-EndBefore k v p = ground arith

    pub carve_step :
        (n : Interval × V) (m : Nodes V)
        → e.lo ≤ n.0.hi
        → n.0.lo ≤ e.hi
        → carve e (n ∷ m) ≡ remains e n.0 n.1 ++ carve e m
    unfolding carve
    carve_step n m p q = ground arith

    pub carve-Ordered : (b : ℕ) (m : Nodes V) → Ordered top b m → Ordered top b (carve e m)
    unfolding carve remains
    carve-Ordered b [] o = tt
    carve-Ordered b (n ∷ m) o =
        let ih = carve-Ordered (suc n.0.hi) m o.3 in
        ground (
          arith,
          ih,
          Ordered-weaken top b (suc n.0.hi) (carve e m),
          Ordered-weaken top (suc (e.lo - 1)) (suc n.0.hi) (carve e m),
        )

    pub carve-Apart : (b : ℕ) (m : Nodes V) → Ordered top b m → Apart e (carve e m)
    unfolding carve remains
    carve-Apart b [] o = tt
    carve-Apart b (n ∷ m) o = ground (arith, carve-Apart (suc n.0.hi) m o.3)

    -- Nothing changes past the erasure.
    pub carve_past : (b : ℕ) (m : Nodes V) → e.hi < b → Ordered top b m → carve e m ≡ m
    unfolding carve
    carve_past b [] h o = refl
    carve_past b (n ∷ m) h o = ground (arith, carve_past (suc n.0.hi) m (omega arith) o.3)

    -- Nor before it.
    pub carve-rewind :
        (before after : Nodes V)
        → EndBefore e.lo before
        → carve e (rewind before after) ≡ rewind before (carve e after)
    unfolding carve
    carve-rewind [] after h = refl
    carve-rewind (n ∷ before) after h =
        carve-rewind before (n ∷ after) h.1
        ∙ ap (rewind before) (let w : carve e (n ∷ after) ≡ n ∷ carve e after = ground arith in w)

module _ {ℓ} {V : Type ℓ} where
  pub EndBefore-append :
      (x : ℕ) (xs ys : Nodes V) → EndBefore x xs → EndBefore x ys → EndBefore x (xs ++ ys)
  EndBefore-append x [] ys p q = q
  EndBefore-append x (n ∷ xs) ys p q = (p.0, EndBefore-append x xs ys p.1 q)

  pub total-rewind :
      (before after : Nodes V) → total (rewind before after) ≡ total before + total after
  total-rewind [] after = omega arith
  total-rewind (n ∷ before) after = omega (arith, total-rewind before (n ∷ after))

  pub total-append : (xs ys : Nodes V) → total (xs ++ ys) ≡ total xs + total ys
  total-append [] ys = omega arith
  total-append (n ∷ xs) ys = omega (arith, total-append xs ys)

module _ {ℓ} {V : Type ℓ} (top : ℕ) where
  insert-rewind :
      (k : Interval) (v : V) (before after : Nodes V)
      → EndBefore k.hi before
      → Map.insert k v (rewind before after) ≡ rewind before (Map.insert k v after)
  unfolding Map.insert interval_less
  insert-rewind k v [] after h = refl
  insert-rewind k v (n ∷ before) after h =
      insert-rewind k v before (n ∷ after) h.1
      ∙ ap (rewind before)
          (let w : Map.insert k v (n ∷ after) ≡ n ∷ Map.insert k v after = ground arith in w)

  -- A node after all the others goes to the end.
  pub insert_back :
      (k : Interval) (v : V) (m : Nodes V) (x : ℕ)
      → EndBefore x m
      → x ≤ k.hi
      → Map.insert k v m ≡ m ++ (k, v) ∷ []
  unfolding Map.insert interval_less
  insert_back k v [] x h le = refl
  insert_back k v (n ∷ m) x h le = ground (arith, insert_back k v m x h.1 le)

  insert_front :
      (k : Interval) (v : V) (m : Nodes V)
      → Ordered top (suc k.hi) m
      → Map.insert k v m ≡ (k, v) ∷ m
  unfolding Map.insert interval_less
  insert_front k v [] o = refl
  insert_front k v (n ∷ m) o = ground arith

  Ordered-append : (b : ℕ) (xs ys : Nodes V) → Ordered top b (xs ++ ys) → Ordered top b ys
  Ordered-append b [] ys o = o
  Ordered-append b (n ∷ xs) ys o =
      Ordered-weaken top b (suc n.0.hi) ys (omega arith) (Ordered-append (suc n.0.hi) xs ys o.3)

  -- Inserting nodes one by one into a gap puts them there in their order.
  pub insert_multiple-rewind :
      (xs before after : Nodes V)
      → Ordered top 0 (rewind before (xs ++ after))
      → Map.insert_multiple xs (rewind before after) ≡ rewind before (xs ++ after)
  unfolding Map.insert_multiple
  insert_multiple-rewind [] before after o = refl
  insert_multiple-rewind (n ∷ xs) before after o =
      let here = Ordered-after top before (n ∷ xs ++ after) o in
      let ends = Ordered-before top before n (xs ++ after) o in
      let placed : Map.insert n.0 n.1 (rewind before after) ≡ rewind (n ∷ before) after =
        insert-rewind n.0 n.1 before after (EndBefore-mono n.0.lo n.0.hi before here.1 ends)
        ∙ ap (rewind before)
            (insert_front n.0 n.1 after (Ordered-append (suc n.0.hi) xs after here.3)) in
      rw placed (insert_multiple-rewind xs (n ∷ before) after o)
