-- ===== src/Map/Lookup.antt =====
-- The lookups of Sawyer/Map.h: bounds cut the nodes in two, and every lookup by key shows the node
-- with an equivalent key.
use sawyer.Prelude.{
  Bool, true, false, not, ◌||◌, ◌≡◌, if◌then◌else◌, Option, none, some, List, [], ◌∷◌, arith,
  Bool-cases, inl, inr, refl,
}
use sawyer.Map.Order.{Above, IsSorted}
use sawyer.Map.{
  Comparator, rewind, at, lower_bound, lower_from, find, find_at, end, end_from, exists,
  get_optional, get, get_or_else, get_or_default,
}

module _ {ℓ κ} {K : Type ℓ} {V : Type κ} where
  end_from-after : (before m : List (K × V)) → (end_from before m).after ≡ []
  unfolding end_from
  end_from-after before [] = refl
  end_from-after before (n ∷ m) = end_from-after (n ∷ before) m

  abbrev pub AllBefore : (K → Type 0) → List (K × V) → Type 0
  AllBefore P [] = Unit
  AllBefore P (n ∷ m) = P n.0 × AllBefore P m

module _ {ℓ} {K : Type ℓ} ⦃order : Comparator K⦄ where
  -- Neither key is less than the other.
  abbrev pub same : K → K → Bool
  same a b = not (order.less a b || order.less b a)

module _ {ℓ κ} {K : Type ℓ} {V : Type κ} ⦃order : Comparator K⦄ where
  -- The value of the first node with an equivalent key, by a scan of all the nodes.
  abbrev pub scan : K → List (K × V) → Option V
  scan k [] = none
  scan k (n ∷ m) = if same n.0 k then some n.1 else scan k m

  -- No node after `j` has a key that is not greater than `j`.
  pub scan-Above :
      (k j : K) (m : List (K × V)) → Above j m → order.less j k ≡ false → scan k m ≡ none
  scan-Above k j [] a h = refl
  scan-Above k j (n ∷ m) a h = ground (arith, order.less_split j n.0 k, scan-Above k j m a.1)

  abbrev first_value : Option (K × V) → Option V
  first_value none = none
  first_value (some n) = some n.1

  lower_from-scan :
      (k : K) (before m all : List (K × V))
      → IsSorted m
      → first_value (at (find_at k all (lower_from k before m)).after) ≡ scan k m
  unfolding lower_from find_at end
  lower_from-scan k before [] all s = refl
  lower_from-scan k before (n ∷ m) all s = ground (
    arith,
    end_from-after [] all,
    lower_from-scan k (n ∷ before) m all s.1,
    order.less_irrefl k,
    order.less_trans k n.0 k,
    scan-Above k n.0 m s.0,
  )

  find-scan : (k : K) (m : List (K × V)) → IsSorted m → first_value (at (find k m).after) ≡ scan k m
  unfolding find
  find-scan k m s = lower_from-scan k [] m m s

  pub get_optional-scan : (k : K) (m : List (K × V)) → IsSorted m → get_optional k m ≡ scan k m
  unfolding get_optional
  get_optional-scan k m s = go (find k m).after (find-scan k m s)
    where
      go :
          (after : List (K × V))
          → first_value (at after) ≡ scan k m
          → (elim after [ [] ↦ none | n ∷ rest ↦ some n.1 ]) ≡ scan k m
      go [] h = h
      go (n ∷ rest) h = h

  -- In sorted nodes `get`, `exists`, `getOptional`, `getOrElse` and `getOrDefault` show the value that
  -- a scan of the nodes finds, each with its own answer to a missing key.
  pub get-scan :
      (k : K) (m : List (K × V)) (dflt : V)
      → IsSorted m
      → (get k m ≡ scan k m)
        × (exists k m ≡ elim (scan k m) [ none ↦ false | some v ↦ true ])
        × (get_optional k m ≡ scan k m)
        × (get_or_else k dflt m ≡ elim (scan k m) [ none ↦ dflt | some v ↦ v ])
        × (get_or_default dflt k m ≡ elim (scan k m) [ none ↦ dflt | some v ↦ v ])
  unfolding get exists get_optional get_or_else get_or_default
  get-scan k m dflt s = go (find k m).after (find-scan k m s)
    where
      go :
          (after : List (K × V))
          → first_value (at after) ≡ scan k m
          → ((elim after [ [] ↦ none | n ∷ rest ↦ some n.1 ]) ≡ scan k m)
            × ((elim after [ [] ↦ false | n ∷ rest ↦ true ])
                ≡ elim (scan k m) [ none ↦ false | some v ↦ true ])
            × ((elim after [ [] ↦ none | n ∷ rest ↦ some n.1 ]) ≡ scan k m)
            × ((elim after [ [] ↦ dflt | n ∷ rest ↦ n.1 ])
                ≡ elim (scan k m) [ none ↦ dflt | some v ↦ v ])
            × ((elim after [ [] ↦ dflt | n ∷ rest ↦ n.1 ])
                ≡ elim (scan k m) [ none ↦ dflt | some v ↦ v ])
      go [] h = rw (← h) (refl, refl, refl, refl, refl)
      go (n ∷ rest) h = rw (← h) (refl, refl, refl, refl, refl)

  Above-not_less :
      (j k : K) (m : List (K × V))
      → order.less j k ≡ false
      → Above j m
      → AllBefore (λ i. order.less i k ≡ false) m
  Above-not_less j k [] h a = tt
  Above-not_less j k (n ∷ m) h a =
      (ground (arith, order.less_trans j n.0 k), Above-not_less j k m h a.1)

  -- The lower bound cuts sorted nodes where the keys stop being less than `k`.
  pub lower_bound-cuts :
      (k : K) (m : List (K × V))
      → IsSorted m
      → (rewind (lower_bound k m).before (lower_bound k m).after ≡ m)
        × AllBefore (λ j. order.less j k ≡ true) (lower_bound k m).before
        × AllBefore (λ j. order.less j k ≡ false) (lower_bound k m).after
  unfolding lower_bound
  lower_bound-cuts k m s = go [] m tt s
    where
      go :
          (before m : List (K × V))
          → AllBefore (λ j. order.less j k ≡ true) before
          → IsSorted m
          → (rewind (lower_from k before m).before (lower_from k before m).after ≡ rewind before m)
            × AllBefore (λ j. order.less j k ≡ true) (lower_from k before m).before
            × AllBefore (λ j. order.less j k ≡ false) (lower_from k before m).after
      go before [] p s = (refl, p, tt)
      go before (n ∷ m) p s = elim (Bool-cases (order.less n.0 k)) [
        | inl less ↦ rw less (go (n ∷ before) m (less, p) s.1)
        | inr more ↦ rw more (refl, p, (more, Above-not_less n.0 k m more s.0))
      ]
