-- ===== src/IntervalMap/Meaning.antt =====
-- What a policy of Sawyer/IntervalMap.h owes the container: each scalar key has a meaning, which
-- merging, splitting and truncating keep.
use native.Mathlib.Decide.{dec_lt}
use sawyer.Prelude.{
  not, ℕ, suc, ◌+◌, ◌-◌, ◌≤◌, ◌<◌, ◌≡◌, Bool, true, ◌&&◌, leb, if◌then◌else◌, Option, none, some,
  [], ◌∷◌, ◌++◌, arith, refl,
}
use sawyer.Interval.{Interval, has}
use sawyer.IntervalMap.Change.{erase}
use sawyer.IntervalMap.Shape.{Ordered, IsValid}
use sawyer.IntervalMap.Carve.{interval, remains, carve, carve-Ordered, remains_inside}
use sawyer.IntervalMap.Erase.{erase-carve}
use sawyer.IntervalMap.{IntervalMap, Nodes, Policy, merge_policy}

pub record Meaning {ℓ} {V : Type ℓ} (policy : Policy V) (D : Type 0) : Type ℓ where
  -- The meaning of a key in a node.
  pub den : Interval → V → ℕ → D
  pub den-split_left :
      (k : Interval) (v : V) (p x : ℕ)
      → k.lo ≤ p
      → p < k.hi
      → k.lo ≤ x
      → x ≤ p
      → den (interval k.lo p) (policy.split k v (p + 1)).0 x ≡ den k v x
  pub den-split_right :
      (k : Interval) (v : V) (p x : ℕ)
      → k.lo ≤ p
      → p < k.hi
      → p < x
      → x ≤ k.hi
      → den (interval (p + 1) k.hi) (policy.split k v (p + 1)).1 x ≡ den k v x
  pub den-truncate :
      (k : Interval) (v : V) (p x : ℕ)
      → k.lo < p
      → p ≤ k.hi
      → k.lo ≤ x
      → x < p
      → den (interval k.lo (p - 1)) (policy.truncate k v p) x ≡ den k v x
  pub den-merge :
      (l r : Interval) (lv rv v : V) (x : ℕ)
      → policy.merge l lv r rv ≡ some v
      → l.lo ≤ l.hi
      → l.hi + 1 ≡ r.lo
      → r.lo ≤ r.hi
      → l.lo ≤ x
      → x ≤ r.hi
      → den (interval l.lo r.hi) v x ≡ (if leb x l.hi then den l lv x else den r rv x)

module _ {V : Type 0} (eq : V → V → Bool) (sound : (a b : V) → eq a b ≡ true → a ≡ b) where
  merged_value :
      (l r : Interval) (lv rv v : V) (x : ℕ)
      → (merge_policy eq).merge l lv r rv ≡ some v
      → v ≡ (if leb x l.hi then lv else rv)
  unfolding merge_policy
  merged_value l r lv rv v x e = ground (arith, sound lv rv)

  -- A value of `MergePolicy` means itself at each key, if `operator==` tells values apart.
  unfoldable pub merge_policy-Meaning : Meaning (merge_policy eq) V
  unfolding merge_policy merged_value
  merge_policy-Meaning = record {
    den = λ k v x. v;
    den-split_left = λ k v p x a b c d. refl;
    den-split_right = λ k v p x a b c d. refl;
    den-truncate = λ k v p x a b c d. refl;
    den-merge = λ l r lv rv v x e a b c d f. merged_value l r lv rv v x e;
  }

module _ {ℓ} {V : Type ℓ} {policy : Policy V} {D : Type 0} (meaning : Meaning policy D) where
  -- The map as a function from scalar keys.
  abbrev pub value_at : ℕ → Nodes V → Option D
  value_at x [] = none
  value_at x (n ∷ m) = if has n.0 x then some (meaning.den n.0 n.1 x) else value_at x m

  pub value_at_before : (top b x : ℕ) (m : Nodes V) → Ordered top b m → x < b → value_at x m ≡ none
  value_at_before top b x [] o h = refl
  value_at_before top b x (n ∷ m) o h = ground (arith, value_at_before top (suc n.0.hi) x m o.3)

  module _ (top : ℕ) (e : Interval) (proper : e.lo ≤ e.hi) where
    module _ (k : Interval) (v : V) (x : ℕ) (rest : Nodes V) (full : k.lo ≤ k.hi) where
      -- What remains of a node means what the node meant.
      abbrev Kept : Type 0
      Kept =
          value_at x (remains policy e k v ++ rest)
          ≡ (if has k x && not (has e x) then some (meaning.den k v x) else value_at x rest)

      middle_Kept : k.lo < e.lo → e.hi < k.hi → Kept
      unfolding remains
      middle_Kept p q = ground (
        arith,
        meaning.den-split_left k v e.hi x,
        meaning.den-split_right k v e.hi x,
        meaning.den-truncate (interval k.lo e.hi) (policy.split k v (e.hi + 1)).0 e.lo x,
      )

      left_Kept : e.lo ≤ k.lo → k.lo ≤ e.hi → e.hi < k.hi → Kept
      unfolding remains
      left_Kept p q r = ground (arith, meaning.den-split_right k v e.hi x)

      right_Kept : k.lo < e.lo → e.lo ≤ k.hi → k.hi ≤ e.hi → Kept
      unfolding remains
      right_Kept p q r = ground (arith, meaning.den-truncate k v e.lo x)

      inside_Kept : e.lo ≤ k.lo → k.hi ≤ e.hi → Kept
      inside_Kept p q = rw (remains_inside policy top e proper k v p q) (ground arith)

      remains-Kept : e.lo ≤ k.hi → k.lo ≤ e.hi → Kept
      remains-Kept a b = elim (dec_lt k.lo e.lo) [
        | yes p ↦ elim (dec_lt e.hi k.hi) [
          | yes q ↦ middle_Kept p q
          | no q ↦ right_Kept p a (omega arith)
        ]
        | no p ↦ elim (dec_lt e.hi k.hi) [
          | yes q ↦ left_Kept (omega arith) b q
          | no q ↦ inside_Kept (omega arith) (omega arith)
        ]
      ]

    pub carve-value_at :
        (b x : ℕ) (m : Nodes V)
        → Ordered top b m
        → value_at x (carve policy e m) ≡ (if has e x then none else value_at x m)
    unfolding carve
    carve-value_at b x [] o = ground arith
    carve-value_at b x (n ∷ m) o =
        ground (
          arith,
          carve-value_at (suc n.0.hi) x m o.3,
          remains-Kept n.0 n.1 x (carve policy e m) o.1,
        )

    -- For a policy with a meaning, erasing a non-empty interval within the scalar type from a valid map
    -- succeeds, keeps the map valid, and forgets exactly the values of the interval's keys.
    pub erase-value_at :
        1 ≤ top
        → e.hi ≤ top
        → (m : IntervalMap V) → IsValid top m
        → (r : IntervalMap V) × (erase top policy e m ≡ some r)
          × IsValid top r
          × ((x : ℕ) → value_at x r.nodes ≡ (if has e x then none else value_at x m.nodes))
    erase-value_at wide small m v =
        let (c, run, counted) = erase-carve top policy e wide proper small m v in
        (
          record { nodes = carve policy e m.nodes; count = c },
          run,
          record {
            ordered = carve-Ordered policy top e proper 0 m.nodes v.ordered;
            counted = counted;
          },
          λ x. carve-value_at 0 x m.nodes v.ordered,
        )
