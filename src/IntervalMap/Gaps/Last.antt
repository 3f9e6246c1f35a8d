-- ===== src/IntervalMap/Gaps/Last.antt =====
-- `lastUnmapped` of Sawyer/IntervalMap.h.
use sawyer.Prelude.{
  ℕ, ◌≤◌, ◌<◌, ◌≡◌, true, false, ltb, leb, none, some, [], ◌∷◌, ◌⊎◌, inl, inr, arith, refl,
  Bool-cases,
}
use sawyer.Interval.{Interval, hull_of, singleton}
use sawyer.Map
use sawyer.Map.{rewind, Cursor}
use sawyer.IntervalMap.Find.{lower_bound, find_prior, prior_of, back}
use sawyer.IntervalMap.Query.{last_unmapped, unmapped_back}
use sawyer.IntervalMap.Shape.{covers}
use sawyer.IntervalMap.{Nodes, interval_less, interval_compare}

module _ {ℓ} {V : Type ℓ} (top : ℕ) where
  end_past :
      (n : Interval × V) (before m : Nodes V)
      → (p : Interval × V) × (rest : Nodes V) × (Map.end_from (n ∷ before) m
          ≡ record { before = p ∷ rest; after = [] })
  unfolding Map.end_from
  end_past n before [] = (n, before, refl)
  end_past n before (k ∷ m) = end_past k (n ∷ before) m

  -- `lastUnmapped(b)` does not look at the first node: for a `b` that the first node has, the answer is
  -- everything up to `b`, which is in the map. For a `b` below the first node, the loop dereferences
  -- the end of the map.
  pub last_unmapped-first_node :
      (b : ℕ) (n : Interval × V) (rest : Nodes V) (count : ℕ)
      → b ≤ n.0.hi
      → ((b < n.0.lo) × (last_unmapped top b (record { nodes = n ∷ rest; count = count }) ≡ none))
        ⊎ ((n.0.lo ≤ b)
            × (last_unmapped top b (record { nodes = n ∷ rest; count = count })
                ≡ some (hull_of 0 b))
            × (covers b (n ∷ rest) ≡ true))
  unfolding last_unmapped unmapped_back Map.end
  last_unmapped-first_node b n rest count h =
      let first : lower_bound b (n ∷ rest) ≡ record { before = []; after = n ∷ rest } =
        unfold lower_bound Map.lower_bound Map.lower_from interval_less singleton in
        let stops : ltb n.0.hi b ≡ false = ground arith in rw stops refl in
      elim (Bool-cases (leb n.0.lo b)) [
        | inl within ↦
            let cursor : find_prior b (n ∷ rest) ≡ record { before = []; after = n ∷ rest } =
              unfold find_prior prior_of in rw (first, within) refl in
            inr (ground arith, rw (cursor, unmapped_back) refl, ground arith)
        | inr above ↦
            let cursor : find_prior b (n ∷ rest) ≡ Map.end (n ∷ rest) =
              unfold find_prior prior_of back in rw (first, above) refl in
            let (p, before, ended) = end_past n [] rest in
            inl (ground arith, rw (cursor, ended, unmapped_back) refl)
      ]
