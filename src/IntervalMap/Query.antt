-- ===== src/IntervalMap/Query.antt =====
-- The queries of Sawyer/IntervalMap.h. Where the source fails, throws or has undefined behaviour the
-- model has `none`; `some none` is the source's `Nothing`.
use sawyer.Prelude.Word.{add_wrap, sub_wrap}
use sawyer.Prelude.{
  ℕ, max, min, Bool, true, false, not, ltb, leb, ◌==◌, if◌then◌else◌, Option, none, some, List, [],
  ◌∷◌, ◌>>=◌,
}
use sawyer.Interval.{Interval, is_empty, hull_of}
use sawyer.Interval
use sawyer.Map
use sawyer.Map.{Cursor}
use sawyer.IntervalMap.Find.{lower_bound, find, find_prior, find_first_overlap, first_common}
use sawyer.IntervalMap.{IntervalMap, Nodes, split_interval}

module _ {ℓ} {V : Type ℓ} where
  -- getOptional; `get` and `operator[]` throw for its `none`.
  unfoldable pub get_optional : ℕ → IntervalMap V → Option V
  get_optional scalar m = elim (find scalar m.nodes).after [ [] ↦ none | n ∷ rest ↦ some n.1 ]

  unfoldable pub get : ℕ → IntervalMap V → Option V
  get scalar m = elim (find scalar m.nodes).after [ [] ↦ none | n ∷ rest ↦ some n.1 ]

  unfoldable pub get_or_else : ℕ → V → IntervalMap V → V
  get_or_else scalar dflt m = elim (find scalar m.nodes).after [ [] ↦ dflt | n ∷ rest ↦ n.1 ]

  -- `dflt` is the value that `Value()` makes.
  unfoldable pub get_or_default : V → ℕ → IntervalMap V → V
  get_or_default dflt scalar m = elim (find scalar m.nodes).after [ [] ↦ dflt | n ∷ rest ↦ n.1 ]

  unfoldable pub exists : ℕ → IntervalMap V → Bool
  exists scalar m = elim (find scalar m.nodes).after [ [] ↦ false | n ∷ rest ↦ true ]

  unfoldable pub is_empty_map : IntervalMap V → Bool
  unfolding Map.is_empty
  is_empty_map m = Map.is_empty m.nodes

  unfoldable pub n_intervals : IntervalMap V → ℕ
  unfolding Map.size
  n_intervals m = Map.size m.nodes

  unfoldable pub size : IntervalMap V → ℕ
  size m = m.count

  unfoldable pub least : IntervalMap V → Option ℕ
  least m = elim m.nodes [ [] ↦ none | n ∷ rest ↦ some n.0.lo ]

  unfoldable pub greatest : IntervalMap V → Option ℕ
  unfolding Map.greatest
  greatest m = Map.greatest m.nodes >>= λ k. some k.hi

  -- least(lowerLimit)
  unfoldable pub least_from : ℕ → IntervalMap V → Option ℕ
  least_from limit m = elim (lower_bound limit m.nodes).after [
    | [] ↦ none
    | n ∷ rest ↦ some (max limit n.0.lo)
  ]

  -- greatest(upperLimit)
  unfoldable pub greatest_to : ℕ → IntervalMap V → Option ℕ
  greatest_to limit m = elim (find_prior limit m.nodes).after [
    | [] ↦ none
    | n ∷ rest ↦ some (min limit n.0.hi)
  ]

  unfoldable pub hull : IntervalMap V → Option Interval
  unfolding Map.is_empty least greatest
  hull m =
      if Map.is_empty m.nodes
      then some Interval.empty
      else (least m >>= λ lo. greatest m >>= λ hi. some (hull_of lo hi))

  unfoldable pub overlaps : Interval → IntervalMap V → Bool
  overlaps interval m = elim (find_first_overlap interval m.nodes).after [
    | [] ↦ false
    | n ∷ rest ↦ true
  ]

  unfoldable pub is_distinct : Interval → IntervalMap V → Bool
  unfolding overlaps
  is_distinct interval m = not (overlaps interval m)

  module _ (top : ℕ) where
    -- The loops walk the nodes from the lower bound on.
    unfoldable pub unmapped_from : ℕ → Nodes V → Interval
    unfolding hull_of
    unmapped_from min_addr [] = hull_of min_addr top
    unmapped_from min_addr (n ∷ m) =
        let rest = unmapped_from (add_wrap top n.0.hi 1) m in
        if ltb min_addr n.0.lo
        then hull_of min_addr (sub_wrap top n.0.lo 1)
        else if n.0.hi == top
        then Interval.empty
        else rest

    unfoldable pub first_unmapped : ℕ → IntervalMap V → Interval
    first_unmapped min_addr m = unmapped_from min_addr (lower_bound min_addr m.nodes).after

    -- The loop goes back to the first node, which it does not look at; `none` is a dereferenced end.
    unfoldable pub unmapped_back : ℕ → Nodes V → Nodes V → Option Interval
    unfolding hull_of
    unmapped_back max_addr [] after = some (hull_of 0 max_addr)
    unmapped_back max_addr (p ∷ before) [] = none
    unmapped_back max_addr (p ∷ before) (n ∷ after) =
        let rest = unmapped_back (sub_wrap top n.0.lo 1) before (p ∷ n ∷ after) in
        if ltb n.0.hi max_addr
        then some (hull_of (add_wrap top n.0.hi 1) max_addr)
        else if n.0.lo == 0
        then some Interval.empty
        else rest

    unfoldable pub last_unmapped : ℕ → IntervalMap V → Option Interval
    last_unmapped max_addr m =
        let c = find_prior max_addr m.nodes in unmapped_back max_addr c.before c.after

    unfoldable pub least_unmapped_from : ℕ → Nodes V → Option ℕ
    least_unmapped_from limit [] = some limit
    least_unmapped_from limit (n ∷ m) =
        let limit' = add_wrap top n.0.hi 1 in
        let rest = least_unmapped_from limit' m in
        if ltb limit n.0.lo then some limit else if leb limit' n.0.lo then none else rest

    unfoldable pub least_unmapped : ℕ → IntervalMap V → Option ℕ
    least_unmapped limit m = least_unmapped_from limit (lower_bound limit m.nodes).after

    unfoldable pub greatest_unmapped_back : ℕ → Nodes V → Nodes V → Option ℕ
    greatest_unmapped_back limit before [] = some limit
    greatest_unmapped_back limit [] (n ∷ after) =
        let limit' = sub_wrap top n.0.lo 1 in
        if ltb n.0.hi limit then some limit else if leb n.0.hi limit' then none else some limit'
    greatest_unmapped_back limit (p ∷ before) (n ∷ after) =
        let limit' = sub_wrap top n.0.lo 1 in
        let rest = greatest_unmapped_back limit' before (p ∷ n ∷ after) in
        if ltb n.0.hi limit then some limit else if leb n.0.hi limit' then none else rest

    unfoldable pub greatest_unmapped : ℕ → IntervalMap V → Option ℕ
    unfolding greatest_unmapped_back
    greatest_unmapped limit m =
        let c = find_prior limit m.nodes in greatest_unmapped_back limit c.before c.after

    -- The loop of contains(Interval); `none` is a failed assertion.
    unfoldable pub contains_from : Interval → Nodes V → Option Bool
    contains_from key [] = some false
    contains_from key (n ∷ m) = elim (ltb key.lo n.0.lo) [
      | true ↦ some false
      | false ↦ elim (Interval.overlaps key n.0) [
        | false ↦ none
        | true ↦ elim (leb key.hi n.0.hi) [
          | true ↦ some true
          | false ↦
              split_interval top key (add_wrap top n.0.hi 1) >>= λ halves. contains_from halves.1 m
        ]
      ]
    ]

    unfoldable pub contains : Interval → IntervalMap V → Option Bool
    unfolding is_empty
    contains key m =
        if is_empty key then some true else contains_from key (find key.lo m.nodes).after

  -- contains(const IntervalMap&)
  unfoldable pub contains_map : ℕ → List Interval → IntervalMap V → Option Bool
  contains_map top [] m = some true
  contains_map top (i ∷ others) m =
      contains top i m >>= λ inside. if inside then contains_map top others m else some false

-- overlaps(const IntervalMap&)
unfoldable pub overlaps_map {ℓ κ} : {V : Type ℓ} {W : Type κ} → IntervalMap V → IntervalMap W → Bool
overlaps_map m other = elim (first_common m.nodes other.nodes).0 [ [] ↦ false | n ∷ rest ↦ true ]

unfoldable pub is_distinct_map {ℓ κ} :
    {V : Type ℓ} {W : Type κ} → IntervalMap V → IntervalMap W → Bool
unfolding overlaps_map
is_distinct_map m other = not (overlaps_map m other)
