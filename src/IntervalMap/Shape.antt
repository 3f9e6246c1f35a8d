-- ===== src/IntervalMap/Shape.antt =====
-- What the nodes of Sawyer/IntervalMap.h look like and stand for.
use sawyer.Prelude.Word.{add_wrap, sub_wrap, add_wrap-cases, sub_wrap-cases}
use sawyer.Prelude.{
  ℕ, suc, ◌+◌, ◌-◌, ◌≤◌, ◌<◌, ◌≡◌, Bool, false, ◌||◌, if◌then◌else◌, Option, none, some, [], ◌∷◌,
  ◌⊎◌, arith,
}
use sawyer.Interval.{Interval, has, size}
use sawyer.Map.{rewind}
use sawyer.Map.Order.{Above, IsSorted}
use sawyer.IntervalMap.{IntervalMap, Nodes, interval_less, interval_compare}

-- The nodes are non-empty, disjoint and in order, all from `from` on.
abbrev pub Ordered {ℓ} : {V : Type ℓ} → ℕ → ℕ → Nodes V → Type 0
Ordered top from [] = Unit
Ordered top from (n ∷ m) =
    (from ≤ n.0.lo) × (n.0.lo ≤ n.0.hi) × (n.0.hi ≤ top) × Ordered top (suc n.0.hi) m

-- No node overlaps the interval.
abbrev pub Apart {ℓ} : {V : Type ℓ} → Interval → Nodes V → Type 0
Apart i [] = Unit
Apart i (n ∷ m) = ((n.0.hi < i.lo) ⊎ (i.hi < n.0.lo)) × Apart i m

-- The first node that has the scalar key, by a scan of all the nodes.
abbrev pub holding {ℓ} : {V : Type ℓ} → ℕ → Nodes V → Option (Interval × V)
holding x [] = none
holding x (n ∷ m) = if has n.0 x then some n else holding x m

abbrev pub covers {ℓ} : {V : Type ℓ} → ℕ → Nodes V → Bool
covers x [] = false
covers x (n ∷ m) = has n.0 x || covers x m

-- The number of scalar keys.
abbrev pub total {ℓ} : {V : Type ℓ} → Nodes V → ℕ
total [] = 0
total (n ∷ m) = n.0.hi + 1 - n.0.lo + total m

-- A counter of the key type holds a number of keys, or 0 for all of them.
abbrev pub Counts : ℕ → ℕ → ℕ → Type 0
Counts top c n = ((n ≤ top) × (c ≡ n)) ⊎ ((n ≡ suc top) × (c ≡ 0))

-- The invariant of the class.
pub record IsValid {ℓ} {V : Type ℓ} (top : ℕ) (m : IntervalMap V) : Type 0 where
  pub ordered : Ordered top 0 m.nodes
  pub counted : Counts top m.count (total m.nodes)

pub Counts-sub :
    (top c z n k : ℕ) → Counts top c (n + k) → Counts top z k → Counts top (sub_wrap top c z) n
Counts-sub top c z n k p q = ground (arith, sub_wrap-cases top c z)

pub Counts-add :
    (top c z n k : ℕ)
    → Counts top c n
    → Counts top z k
    → n + k ≤ suc top
    → Counts top (add_wrap top c z) (n + k)
Counts-add top c z n k p q h = ground (arith, add_wrap-cases top c z)

pub Counts-size :
    (top : ℕ) (i : Interval)
    → 1 ≤ top
    → i.lo ≤ i.hi
    → i.hi ≤ top
    → Counts top (size top i) (i.hi + 1 - i.lo)
unfolding size
Counts-size top i w p q =
    ground (arith, sub_wrap-cases top i.hi i.lo, add_wrap-cases top (sub_wrap top i.hi i.lo) 1)

module _ {ℓ} {V : Type ℓ} where
  -- Every node ends before `x`.
  abbrev pub EndBefore : ℕ → Nodes V → Type 0
  EndBefore x [] = Unit
  EndBefore x (n ∷ m) = (n.0.hi < x) × EndBefore x m

  pub EndBefore-mono : (x y : ℕ) (m : Nodes V) → x ≤ y → EndBefore x m → EndBefore y m
  EndBefore-mono x y [] h e = tt
  EndBefore-mono x y (n ∷ m) h e = (omega arith, EndBefore-mono x y m h e.1)

module _ {ℓ} {V : Type ℓ} (top : ℕ) where
  pub Ordered-weaken : (a b : ℕ) (m : Nodes V) → a ≤ b → Ordered top b m → Ordered top a m
  Ordered-weaken a b [] h o = tt
  Ordered-weaken a b (n ∷ m) h o = (omega arith, o.1, o.2, o.3)

  pub total_bound : (b : ℕ) (m : Nodes V) → b ≤ suc top → Ordered top b m → total m + b ≤ suc top
  total_bound b [] h o = omega arith
  total_bound b (n ∷ m) h o = omega (arith, total_bound (suc n.0.hi) m (omega arith) o.3)

  pub Ordered-after :
      (before after : Nodes V) → Ordered top 0 (rewind before after) → Ordered top 0 after
  Ordered-after [] after o = o
  Ordered-after (n ∷ before) after o =
      Ordered-weaken 0 (suc n.0.hi) after (omega arith) (Ordered-after before (n ∷ after) o).3

  pub Ordered-before :
      (before : Nodes V) (n : Interval × V) (after : Nodes V)
      → Ordered top 0 (rewind before (n ∷ after))
      → EndBefore n.0.lo before
  Ordered-before [] n after o = tt
  Ordered-before (p ∷ before) n after o =
      let q = Ordered-after before (p ∷ n ∷ after) o in
      let r = Ordered-before before p (n ∷ after) o in
      (omega arith, EndBefore-mono p.0.lo n.0.lo before (omega arith) r)

  Ordered-Above : (i : Interval) (m : Nodes V) (b : ℕ) → i.hi < b → Ordered top b m → Above i m
  unfolding interval_less
  Ordered-Above i [] b h o = tt
  Ordered-Above i (n ∷ m) b h o = (ground arith, Ordered-Above i m (suc n.0.hi) (omega arith) o.3)

  pub Ordered-IsSorted : (b : ℕ) (m : Nodes V) → Ordered top b m → IsSorted m
  Ordered-IsSorted b [] o = tt
  Ordered-IsSorted b (n ∷ m) o =
      (Ordered-Above n.0 m (suc n.0.hi) (omega arith) o.3, Ordered-IsSorted (suc n.0.hi) m o.3)
