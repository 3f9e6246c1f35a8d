-- ===== src/IntervalMap/Change.antt =====
-- The changes of Sawyer/IntervalMap.h. `none` is a failed assertion.
use sawyer.Prelude.Word.{add_wrap, sub_wrap}
use sawyer.Prelude.{
  ℕ, Bool, true, false, ◌&&◌, ltb, ◌==◌, if◌then◌else◌, Option, none, some, List, [], ◌∷◌, ◌>>=◌,
  ◌>>◌, require,
}
use sawyer.Interval.{Interval, is_empty, hull_of, contains, is_left_of, overlaps}
use sawyer.Interval
use sawyer.Map
use sawyer.Map.{Cursor}
use sawyer.IntervalMap.Find.{lower_bound, find}
use sawyer.IntervalMap.{IntervalMap, Nodes, Policy, interval_compare, split_interval}

-- The variables of `erase`: `insertions`, `eraseBegin` and the member `size_`.
pub record Erasing {ℓ} (V : Type ℓ) : Type ℓ where
  pub insertions : Nodes V
  pub erase_begin : Option (Cursor Interval V)
  pub count : ℕ

abbrev pub unset {ℓ} : {A : Type ℓ} → Option A → Bool
unset none = true
unset (some a) = false

abbrev pub first_of {ℓ} : {A : Type ℓ} → Option A → A → Option A
first_of none a = some a
first_of (some b) a = some b

-- `eraseAtMultiple(eraseBegin, iter)` if a node was met, and `insertMultiple(insertions)`
unfoldable pub erase_finish {ℓ} :
    {V : Type ℓ} → Nodes V → Cursor Interval V × Erasing V → IntervalMap V
unfolding Map.erase_at_multiple Map.insert_multiple
erase_finish m (iter, s) = record {
  nodes = elim s.erase_begin [
    | none ↦ Map.insert_multiple s.insertions m
    | some from ↦ Map.insert_multiple s.insertions (Map.erase_at_multiple from iter)
  ];
  count = s.count;
}

-- The variables `key` and `value` of `insert`, and the map.
pub record Inserting {ℓ} (V : Type ℓ) : Type ℓ where
  pub key : Interval
  pub value : V
  pub nodes : Nodes V
  pub count : ℕ

-- The early return of `insert` without `makeHole`.
unfoldable pub blocked {ℓ} : {V : Type ℓ} → Interval → Nodes V → Bool
unfolding lower_bound overlaps
blocked key m = elim (lower_bound key.lo m).after [ [] ↦ false | n ∷ rest ↦ overlaps key n.0 ]

module _ {ℓ} {V : Type ℓ} (top : ℕ) (policy : Policy V) where
  -- `foundInterval` extends beyond the erasure on both sides.
  unfoldable pub erase_middle :
      Interval → Cursor Interval V → Interval → V → Erasing V → Option (Erasing V)
  unfolding split_interval Map.insert Interval.size
  erase_middle erasure iter found v s = do
    require (unset s.erase_begin)
    (rt_first, rt_second) ← split_interval top found (add_wrap top erasure.hi 1)
    let parts = policy.split found v rt_second.lo
    let inserted = Map.insert rt_second parts.1 s.insertions
    (lt_first, lt_second) ← split_interval top rt_first erasure.lo
    let kept = policy.truncate rt_first parts.0 erasure.lo
    some (record {
      insertions = Map.insert lt_first kept inserted;
      erase_begin = some iter;
      count = sub_wrap top s.count (Interval.size top erasure);
    })

  -- It extends beyond the left side.
  unfoldable pub erase_right :
      Interval → Cursor Interval V → Interval → V → Erasing V → Option (Erasing V)
  unfolding split_interval Map.insert Interval.size
  erase_right erasure iter found v s = do
    require (unset s.erase_begin)
    (half_first, half_second) ← split_interval top found erasure.lo
    let kept = policy.truncate found v erasure.lo
    some (record {
      insertions = Map.insert half_first kept s.insertions;
      erase_begin = some iter;
      count = sub_wrap top s.count (Interval.size top half_second);
    })

  -- It extends beyond the right side.
  unfoldable pub erase_left :
      Interval → Cursor Interval V → Interval → V → Erasing V → Option (Erasing V)
  unfolding split_interval Map.insert Interval.size
  erase_left erasure iter found v s = do
    (half_first, half_second) ← split_interval top found (add_wrap top erasure.hi 1)
    let parts = policy.split found v half_second.lo
    some (record {
      insertions = Map.insert half_second parts.1 s.insertions;
      erase_begin = first_of s.erase_begin iter;
      count = sub_wrap top s.count (Interval.size top half_first);
    })

  -- The body of the loop of `erase`.
  unfoldable pub erase_node :
      Interval → Cursor Interval V → Interval → V → Erasing V → Option (Erasing V)
  unfolding erase_middle erase_right erase_left contains
  erase_node erasure iter found v s =
      if contains erasure found
      then some (record s {
        erase_begin = first_of s.erase_begin iter;
        count = sub_wrap top s.count (Interval.size top found);
      })
      else if ltb found.lo erasure.lo && ltb erasure.hi found.hi
      then erase_middle erasure iter found v s
      else if ltb found.lo erasure.lo
      then erase_right erasure iter found v s
      else if ltb erasure.hi found.hi
      then erase_left erasure iter found v s
      else some s

  unfoldable pub erase_loop :
      Interval → Nodes V → Nodes V → Erasing V → Option (Cursor Interval V × Erasing V)
  unfolding is_left_of erase_node
  erase_loop erasure before [] s = some (record { before = before; after = [] }, s)
  erase_loop erasure before (n ∷ m) s = elim (is_left_of erasure n.0) [
    | true ↦ some (record { before = before; after = n ∷ m }, s)
    | false ↦ erase_node erasure (record { before = before; after = n ∷ m }) n.0 n.1 s >>= λ s'.
        erase_loop erasure (n ∷ before) m s'
  ]

  unfoldable pub erase : Interval → IntervalMap V → Option (IntervalMap V)
  unfolding is_empty erase_loop erase_finish lower_bound
  erase erasure m =
      if is_empty erasure
      then some m
      else let start = lower_bound erasure.lo m.nodes in
        let idle : Erasing V = record { insertions = []; erase_begin = none; count = m.count } in
        erase_loop erasure start.before start.after idle >>= λ r. some (erase_finish m.nodes r)

  -- The loop of `eraseMultiple`, over the intervals of the other map.
  unfoldable pub erase_multiple : List Interval → IntervalMap V → Option (IntervalMap V)
  erase_multiple [] m = some m
  erase_multiple (i ∷ others) m = erase i m >>= λ m'. erase_multiple others m'

  unfoldable pub merge_left_at : Cursor Interval V → Inserting V → Inserting V
  unfolding Map.erase_at hull_of Interval.size
  merge_left_at left s = elim left.after [
    | [] ↦ s
    | n ∷ rest ↦
        if add_wrap top n.0.hi 1 == s.key.lo
        then (elim (policy.merge n.0 n.1 s.key s.value) [
          | none ↦ s
          | some merged ↦ record {
            key = hull_of n.0.lo s.key.hi;
            value = merged;
            nodes = Map.erase_at left;
            count = sub_wrap top s.count (Interval.size top n.0);
          }
        ])
        else s
  ]

  -- Attempt to merge with a left-adjoining node.
  unfoldable pub merge_left : Inserting V → Inserting V
  unfolding merge_left_at find
  merge_left s =
      if ltb (sub_wrap top s.key.lo 1) s.key.lo
      then merge_left_at (find (sub_wrap top s.key.lo 1) s.nodes) s
      else s

  unfoldable pub merge_right_at : Cursor Interval V → Inserting V → Inserting V
  unfolding Map.erase_at hull_of Interval.size
  merge_right_at right s = elim right.after [
    | [] ↦ s
    | n ∷ rest ↦
        if add_wrap top s.key.hi 1 == n.0.lo
        then (elim (policy.merge s.key s.value n.0 n.1) [
          | none ↦ s
          | some merged ↦ record {
            key = hull_of s.key.lo n.0.hi;
            value = merged;
            nodes = Map.erase_at right;
            count = sub_wrap top s.count (Interval.size top n.0);
          }
        ])
        else s
  ]

  -- Attempt to merge with a right-adjoining node.
  unfoldable pub merge_right : Inserting V → Inserting V
  unfolding merge_right_at find
  merge_right s =
      if ltb s.key.hi (add_wrap top s.key.hi 1)
      then merge_right_at (find (add_wrap top s.key.hi 1) s.nodes) s
      else s

  unfoldable pub insert_finish : Inserting V → IntervalMap V
  unfolding Map.insert Interval.size
  insert_finish s = record {
    nodes = Map.insert s.key s.value s.nodes;
    count = add_wrap top s.count (Interval.size top s.key);
  }

  -- `insert` once there is a hole for the key.
  unfoldable pub insert_hole : Interval → V → IntervalMap V → IntervalMap V
  unfolding merge_left merge_right insert_finish
  insert_hole key value m = insert_finish (
      merge_right
        (merge_left (record { key = key; value = value; nodes = m.nodes; count = m.count })))

  unfoldable pub insert : Interval → V → Bool → IntervalMap V → Option (IntervalMap V)
  unfolding is_empty
  insert key value make_hole m =
      if is_empty key
      then some m
      else if make_hole
      then (erase key m >>= λ m'. some (insert_hole key value m'))
      else if blocked key m.nodes
      then some m
      else some (insert_hole key value m)

  unfoldable pub insert_multiple : Nodes V → Bool → IntervalMap V → Option (IntervalMap V)
  insert_multiple [] make_hole m = some m
  insert_multiple (n ∷ others) make_hole m =
      insert n.0 n.1 make_hole m >>= λ m'. insert_multiple others make_hole m'

unfoldable pub clear {ℓ} : {V : Type ℓ} → IntervalMap V → IntervalMap V
unfolding Map.clear
clear m = record { nodes = Map.clear m.nodes; count = 0 }
