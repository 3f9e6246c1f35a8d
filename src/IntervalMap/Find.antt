-- ===== src/IntervalMap/Find.antt =====
-- The searches of Sawyer/IntervalMap.h. An iterator is a cursor into the nodes.
use sawyer.Prelude.{ℕ, true, false, not, ◌&&◌, ltb, leb, ◌==◌, if◌then◌else◌, [], ◌∷◌}
use sawyer.Interval.{Interval, is_empty, singleton, overlaps}
use sawyer.Interval
use sawyer.Map
use sawyer.Map.{Cursor}
use sawyer.IntervalMap.{Nodes, interval_less, interval_compare, is_large}

module _ {ℓ} {V : Type ℓ} where
  unfoldable pub lower_bound : ℕ → Nodes V → Cursor Interval V
  unfolding Map.lower_bound interval_less singleton
  lower_bound scalar m = Map.lower_bound (singleton scalar) m

  -- `while (ub != end && ub->key().least() <= scalar) ++ub`
  unfoldable pub skip_started : ℕ → Nodes V → Nodes V → Cursor Interval V
  skip_started scalar before [] = record { before = before; after = [] }
  skip_started scalar before (n ∷ m) =
      if leb n.0.lo scalar
      then skip_started scalar (n ∷ before) m
      else record { before = before; after = n ∷ m }

  unfoldable pub upper_bound : ℕ → Nodes V → Cursor Interval V
  unfolding skip_started Map.upper_bound interval_less singleton
  upper_bound scalar m =
      let ub = Map.upper_bound (singleton scalar) m in skip_started scalar ub.before ub.after

  -- `--lb`, on a cursor that is not at the beginning.
  unfoldable pub back : Cursor Interval V → Cursor Interval V → Cursor Interval V
  back lb at_end = elim lb.before [
    | [] ↦ at_end
    | n ∷ before ↦ record { before = before; after = n ∷ lb.after }
  ]

  unfoldable pub prior_of : ℕ → Nodes V → Cursor Interval V → Cursor Interval V
  unfolding back
  prior_of scalar m lb = elim lb.after [
    | [] ↦ back lb (Map.end m)
    | n ∷ rest ↦ if leb n.0.lo scalar then lb else back lb (Map.end m)
  ]

  unfoldable pub find_prior : ℕ → Nodes V → Cursor Interval V
  unfolding lower_bound prior_of Map.end Map.is_empty
  find_prior scalar m =
      if Map.is_empty m then Map.end m else prior_of scalar m (lower_bound scalar m)

  unfoldable pub found_at : ℕ → Nodes V → Cursor Interval V → Cursor Interval V
  found_at scalar m found = elim found.after [
    | [] ↦ Map.end m
    | n ∷ rest ↦ if ltb scalar n.0.lo then Map.end m else found
  ]

  unfoldable pub find : ℕ → Nodes V → Cursor Interval V
  unfolding lower_bound found_at Map.end
  find scalar m = found_at scalar m (lower_bound scalar m)

  unfoldable pub all_from :
      Interval → Nodes V → Cursor Interval V → Cursor Interval V × Cursor Interval V
  all_from interval m from = elim from.after [
    | [] ↦ (Map.end m, Map.end m)
    | n ∷ rest ↦
        if ltb interval.hi n.0.lo then (Map.end m, Map.end m) else (from, upper_bound interval.hi m)
  ]

  unfoldable pub find_all : Interval → Nodes V → Cursor Interval V × Cursor Interval V
  unfolding all_from is_empty lower_bound upper_bound Map.end
  find_all interval m =
      if is_empty interval
      then (Map.end m, Map.end m)
      else all_from interval m (lower_bound interval.lo m)

  unfoldable pub overlap_at : Interval → Nodes V → Cursor Interval V → Cursor Interval V
  overlap_at interval m lb = elim lb.after [
    | [] ↦ Map.end m
    | n ∷ rest ↦ if overlaps interval n.0 then lb else Map.end m
  ]

  -- findFirstOverlap(const Interval&)
  unfoldable pub find_first_overlap : Interval → Nodes V → Cursor Interval V
  unfolding overlap_at is_empty overlaps lower_bound Map.end
  find_first_overlap interval m =
      if is_empty interval then Map.end m else overlap_at interval m (lower_bound interval.lo m)

  -- firstFit and bestFit walk from an iterator to the end; the answer is the nodes from there on.
  unfoldable pub first_fit : ℕ → ℕ → Nodes V → Nodes V
  unfolding is_large
  first_fit top size [] = []
  first_fit top size (n ∷ m) = if is_large top n.0 size then n ∷ m else first_fit top size m

  unfoldable pub better : ℕ → ℕ → Nodes V → Interval → Nodes V → Nodes V
  better top size from key best = elim best [
    | [] ↦ if ltb size (Interval.size top key) then from else []
    | b ∷ rest ↦
        if ltb size (Interval.size top key) && ltb (Interval.size top key) (Interval.size top b.0)
        then from
        else b ∷ rest
  ]

  unfoldable pub best_from : ℕ → ℕ → Nodes V → Nodes V → Nodes V
  unfolding better
  best_from top size best [] = best
  best_from top size best (n ∷ m) = elim (Interval.size top n.0 == size && not (size == 0)) [
    | true ↦ n ∷ m
    | false ↦ best_from top size (better top size (n ∷ m) n.0 best) m
  ]

  unfoldable pub best_fit : ℕ → ℕ → Nodes V → Nodes V
  unfolding best_from Interval.size
  best_fit top size from = best_from top size [] from

-- findFirstOverlap on two maps: the nodes of each from the first two that overlap.
unfoldable pub first_common {ℓ κ} :
    {V : Type ℓ} {W : Type κ} → Nodes V → Nodes W → Nodes V × Nodes W
unfolding overlaps
first_common [] others = ([], [])
first_common (n ∷ m) [] = ([], [])
first_common (n ∷ m) (o ∷ others) = elim (overlaps n.0 o.0) [
  | true ↦ (n ∷ m, o ∷ others)
  | false ↦ elim (ltb n.0.hi o.0.hi) [
    | true ↦ first_common m (o ∷ others)
    | false ↦ first_common (n ∷ m) others
  ]
]
