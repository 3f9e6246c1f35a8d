-- ===== src/IntervalSet.antt =====
-- `Sawyer::Container::IntervalSet<I>` (Sawyer/IntervalSet.h): a set of scalars, as an `IntervalMap` to
-- `int` where every value is 0. `none` is a failed assertion.
pub mod Members
pub mod Invert
pub mod Algebra
mod Tests
use sawyer.Prelude.Word.{add_wrap, sub_wrap}
use sawyer.Prelude.{
  ℕ, ◌≡◌, Bool, true, false, not, ◌&&◌, ◌||◌, ltb, leb, ◌==◌, if◌then◌else◌, Option, none, some,
  List, [], ◌∷◌, ◌>>=◌, arith, map,
}
use sawyer.Interval.{Interval, is_empty, hull_of, whole, differs}
use sawyer.Interval
use sawyer.IntervalMap.{IntervalMap, Nodes, Policy, merge_policy, empty_map}
use sawyer.IntervalMap.Change
use sawyer.IntervalMap.Find.{lower_bound}
use sawyer.IntervalMap.Query

abbrev pub IntervalSet : Type 0
IntervalSet = IntervalMap ℕ

abbrev pub same_value : ℕ → ℕ → Bool
same_value a b = a == b

unfoldable pub empty_set : IntervalSet
unfolding empty_map
empty_set = empty_map

-- intervals()
unfoldable pub intervals : IntervalSet → List Interval
intervals s = map (λ n. n.0) s.nodes

unfoldable pub exists : ℕ → IntervalSet → Bool
exists scalar s = Query.exists scalar s

unfoldable pub is_empty_set : IntervalSet → Bool
is_empty_set s = Query.is_empty_map s

unfoldable pub n_intervals : IntervalSet → ℕ
n_intervals s = Query.n_intervals s

unfoldable pub size : IntervalSet → ℕ
size s = Query.size s

unfoldable pub hull : IntervalSet → Option Interval
hull s = Query.hull s

unfoldable pub overlaps : Interval → IntervalSet → Bool
overlaps interval s = Query.overlaps interval s

unfoldable pub overlaps_set : IntervalSet → IntervalSet → Bool
overlaps_set s other = Query.overlaps_map s other

unfoldable pub is_distinct_set : IntervalSet → IntervalSet → Bool
unfolding overlaps_set
is_distinct_set s other = not (overlaps_set s other)

unfoldable pub least : IntervalSet → Option ℕ
unfolding is_empty_set
least s = if is_empty_set s then none else Query.least s

unfoldable pub greatest : IntervalSet → Option ℕ
unfolding is_empty_set
greatest s = if is_empty_set s then none else Query.greatest s

-- operator!=, with the loop over the intervals of both sets
unfoldable pub differs_from : List Interval → List Interval → Bool
differs_from [] others = false
differs_from (i ∷ is) [] = false
differs_from (i ∷ is) (j ∷ js) = if differs i j then true else differs_from is js

unfoldable pub differs_set : IntervalSet → IntervalSet → Bool
unfolding n_intervals differs_from intervals
differs_set s other =
    if not (n_intervals s == n_intervals other)
    then true
    else differs_from (intervals s) (intervals other)

unfoldable pub equals_set : IntervalSet → IntervalSet → Bool
unfolding differs_set
equals_set s other = not (differs_set s other)

unfoldable pub clear : IntervalSet → IntervalSet
clear s = Change.clear s

module _ (top : ℕ) where
  unfoldable pub contains : Interval → IntervalSet → Option Bool
  contains interval s = Query.contains top interval s

  unfoldable pub contains_set : List Interval → IntervalSet → Option Bool
  contains_set others s = Query.contains_map top others s

  -- leastNonExistent
  unfoldable pub least_non_existent : ℕ → IntervalSet → Option ℕ
  least_non_existent limit s = Query.least_unmapped top limit s

  -- greatestNonExistent
  unfoldable pub greatest_non_existent : ℕ → IntervalSet → Option ℕ
  greatest_non_existent limit s = Query.greatest_unmapped top limit s

  unfoldable pub insert : Interval → IntervalSet → Option IntervalSet
  insert interval s = Change.insert top (merge_policy same_value) interval 0 true s

  unfoldable pub erase : Interval → IntervalSet → Option IntervalSet
  erase interval s = Change.erase top (merge_policy same_value) interval s

  unfoldable pub insert_multiple : List Interval → IntervalSet → Option IntervalSet
  unfolding insert
  insert_multiple [] s = some s
  insert_multiple (i ∷ others) s = insert i s >>= λ s'. insert_multiple others s'

  unfoldable pub erase_multiple : List Interval → IntervalSet → Option IntervalSet
  unfolding erase
  erase_multiple [] s = some s
  erase_multiple (i ∷ others) s = erase i s >>= λ s'. erase_multiple others s'

  -- The loop of `invert`, with `pending`, `insertTop` and `inverted`.
  unfoldable pub invert_loop :
      Interval → ℕ → IntervalSet → Nodes ℕ → Option (ℕ × Bool × IntervalSet)
  unfolding hull_of insert
  invert_loop restricted pending inverted [] = some (pending, true, inverted)
  invert_loop restricted pending inverted (n ∷ m) = elim (ltb restricted.hi n.0.lo) [
    | true ↦ some (pending, true, inverted)
    | false ↦
        (if ltb pending n.0.lo
          then insert (hull_of pending (sub_wrap top n.0.lo 1)) inverted
          else some inverted)
        >>= λ inverted'. elim (ltb n.0.hi restricted.hi) [
          | true ↦ invert_loop restricted (add_wrap top n.0.hi 1) inverted' m
          | false ↦ some (pending, false, inverted')
        ]
  ]

  unfoldable pub invert_finish : Interval → ℕ × Bool × IntervalSet → Option IntervalSet
  unfolding hull_of insert
  invert_finish restricted (pending, insert_top, inverted) =
      if insert_top then insert (hull_of pending restricted.hi) inverted else some inverted

  unfoldable pub invert_within : Interval → IntervalSet → Option IntervalSet
  unfolding invert_loop invert_finish empty_set
  invert_within restricted s =
      if is_empty restricted
      then some empty_set
      else (invert_loop restricted restricted.lo empty_set (lower_bound restricted.lo s.nodes).after
          >>= λ r. invert_finish restricted r)

  -- invert() and operator~
  unfoldable pub invert : IntervalSet → Option IntervalSet
  unfolding invert_within whole
  invert s = invert_within (whole top) s

  -- intersect(Interval); `hull().least()` and `hull().greatest()` fail for an empty hull.
  unfoldable pub intersect_interval : Interval → IntervalSet → Option IntervalSet
  unfolding hull_of is_empty_set clear erase hull
  intersect_interval interval s =
      if is_empty_set s then some s else if is_empty interval then some (clear s) else do
        h ← hull s
        lo ← Interval.least h
        s' ←
            if ltb lo interval.lo then erase (hull_of lo (sub_wrap top interval.lo 1)) s else some s
        h' ← hull s'
        hi ← Interval.greatest h'
        if ltb interval.hi hi then erase (hull_of interval.hi hi) s' else some s'

  -- intersect(IntervalSet), operator&= and operator&
  unfoldable pub intersect_set : IntervalSet → IntervalSet → Option IntervalSet
  unfolding invert_within erase_multiple intervals hull
  intersect_set other s =
      hull s >>= λ h. invert_within h other >>= λ outside. erase_multiple (intervals outside) s

  unfoldable pub intersection : IntervalSet → IntervalSet → Option IntervalSet
  unfolding n_intervals intersect_set
  intersection s other =
      if ltb (n_intervals s) (n_intervals other)
      then intersect_set s other
      else intersect_set other s

  -- operator|
  unfoldable pub union : IntervalSet → IntervalSet → Option IntervalSet
  unfolding n_intervals insert_multiple intervals
  union s other =
      if ltb (n_intervals s) (n_intervals other)
      then insert_multiple (intervals s) other
      else insert_multiple (intervals other) s

  -- operator-
  unfoldable pub difference : IntervalSet → IntervalSet → Option IntervalSet
  unfolding erase_multiple intervals
  difference s other = erase_multiple (intervals other) s
