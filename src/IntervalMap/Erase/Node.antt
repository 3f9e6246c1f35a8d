-- ===== src/IntervalMap/Erase/Node.antt =====
-- One round of the loop of `erase` of Sawyer/IntervalMap.h: no assertion fails, and what is put aside
-- is what remains of the node.
use mathlib.Core.Path.{subst}
use mathlib.Core.List.{append-nil}
use native.Mathlib.Decide.{dec_lt}
use sawyer.Prelude.Word.{add_wrap, sub_wrap, add_wrap-cases, sub_wrap-cases}
use sawyer.Prelude.{
  ℕ, min, max, ◌+◌, ◌-◌, ◌≤◌, ◌<◌, ◌≡◌, true, false, Option, none, some, [], ◌++◌, ◌⊎◌, inl, inr,
  arith, sym,
}
use sawyer.Interval.{Interval, has, is_empty, hull_of, contains, is_left_of}
use sawyer.Interval
use sawyer.Map
use sawyer.Map.{rewind, Cursor}
use sawyer.IntervalMap.Change.{Erasing, first_of, erase_middle, erase_right, erase_left, erase_node}
use sawyer.IntervalMap.Shape.{total, EndBefore, Counts, Counts-sub, Counts-size}
use sawyer.IntervalMap.Carve.{interval, remains, insert_back, total-remains, remains_inside}
use sawyer.IntervalMap.{Nodes, Policy, interval_less, interval_compare, split_interval}

pub split_interval_lem :
    (top : ℕ) (k : Interval) (p : ℕ)
    → k.lo < p
    → p ≤ k.hi
    → k.hi ≤ top
    → split_interval top k p ≡ some (interval k.lo (p - 1), interval p k.hi)
unfolding split_interval is_empty hull_of
split_interval_lem top k p a b c = ground (arith, sub_wrap-cases top p 1)

pub add_one : (top n : ℕ) → n < top → add_wrap top n 1 ≡ n + 1
add_one top n h = ground (arith, add_wrap-cases top n 1)

module _ {ℓ} {V : Type ℓ} (top : ℕ) (policy : Policy V) (e : Interval) (iter : Cursor Interval V)
    (k : Interval) (v : V) (s : Erasing V) (le : k.hi ≤ top) where
  middle_lem :
      k.lo < e.lo
      → e.lo ≤ e.hi
      → e.hi < k.hi
      → s.erase_begin ≡ none
      → s.insertions ≡ []
      → erase_middle top policy e iter k v s
        ≡ some (record {
          insertions = remains policy e k v;
          erase_begin = some iter;
          count = sub_wrap top s.count (Interval.size top e);
        })
  unfolding erase_middle remains Map.insert interval_less
  middle_lem a p b fresh ins =
      let back : e.hi + 1 - 1 ≡ e.hi = omega arith in
      rw
        (
          fresh,
          ins,
          add_one top e.hi (omega arith),
          split_interval_lem top k (e.hi + 1) (omega arith) (omega arith) le,
          split_interval_lem top (interval k.lo (e.hi + 1 - 1)) e.lo a (omega arith) (omega arith),
          back,
        )
        (ground arith)

  right_lem :
      k.lo < e.lo
      → e.lo ≤ k.hi
      → k.hi ≤ e.hi
      → s.erase_begin ≡ none
      → s.insertions ≡ []
      → erase_right top policy e iter k v s
        ≡ some (record {
          insertions = remains policy e k v;
          erase_begin = some iter;
          count = sub_wrap top s.count (Interval.size top (interval e.lo k.hi));
        })
  unfolding erase_right remains Map.insert interval_less
  right_lem a p b fresh ins = rw (fresh, ins, split_interval_lem top k e.lo a p le) (ground arith)

  left_lem :
      e.lo ≤ k.lo
      → k.lo ≤ e.hi
      → e.hi < k.hi
      → EndBefore e.lo s.insertions
      → erase_left top policy e iter k v s
        ≡ some (record {
          insertions = s.insertions ++ remains policy e k v;
          erase_begin = first_of s.erase_begin iter;
          count = sub_wrap top s.count (Interval.size top (interval k.lo e.hi));
        })
  unfolding erase_left remains Map.insert interval_less
  left_lem a p b ends =
      let back : e.hi + 1 - 1 ≡ e.hi = omega arith in
      rw
        (
          add_one top e.hi (omega arith),
          split_interval_lem top k (e.hi + 1) (omega arith) (omega arith) le,
          insert_back top (interval (e.hi + 1) k.hi) (policy.split k v (e.hi + 1)).1 s.insertions
              e.lo ends (omega arith),
          back,
        )
        (ground arith)

  -- The state after a node, and what it says of the counter.
  abbrev pub Result : Nodes V → Option (Cursor Interval V) → Type ℓ
  Result ins from =
      (c : ℕ) × (erase_node top policy e iter k v s
        ≡ some (record { insertions = ins; erase_begin = from; count = c }))
      × ((n : ℕ)
          → Counts top s.count (n + (k.hi + 1 - k.lo))
          → Counts top c (n + total (remains policy e k v)))

  module _ (wide : 1 ≤ top) (proper : e.lo ≤ e.hi) (small : e.hi ≤ top) (full : k.lo ≤ k.hi) where
    -- The common values, as the code counts them.
    shrink :
        (z : Interval) (n : ℕ)
        → (z.lo ≡ max k.lo e.lo) × (z.hi ≡ min k.hi e.hi)
        → e.lo ≤ k.hi
        → k.lo ≤ e.hi
        → Counts top s.count (n + (k.hi + 1 - k.lo))
        → Counts top (sub_wrap top s.count (Interval.size top z)) (n + total (remains policy e k v))
    shrink z n w p q h =
        let gone = total-remains policy top e proper k v full p q in
        let here : n + (k.hi + 1 - k.lo) ≡ n + total (remains policy e k v) + (z.hi + 1 - z.lo) =
          omega arith in
        Counts-sub top s.count (Interval.size top z) (n + total (remains policy e k v))
          (z.hi + 1 - z.lo) (rw here at h) (Counts-size top z wide (omega arith) (omega arith))

    contains-true : e.lo ≤ k.lo → k.hi ≤ e.hi → contains e k ≡ true
    unfolding contains
    contains-true a b = ground arith

    contains-false : (k.lo < e.lo) ⊎ (e.hi < k.hi) → contains e k ≡ false
    unfolding contains
    contains-false a = ground arith

    inside_Result :
        e.lo ≤ k.lo
        → k.hi ≤ e.hi
        → Result (s.insertions ++ remains policy e k v) (first_of s.erase_begin iter)
    unfolding erase_node
    inside_Result a b = (
      sub_wrap top s.count (Interval.size top k),
      rw (remains_inside policy top e proper k v a b, append-nil, contains-true a b),
      λ n. shrink k n (omega arith) (omega arith) (omega arith),
    )

    left_Result :
        e.lo ≤ k.lo
        → k.lo ≤ e.hi
        → e.hi < k.hi
        → EndBefore e.lo s.insertions
        → Result (s.insertions ++ remains policy e k v) (first_of s.erase_begin iter)
    unfolding erase_node
    left_Result a b c ends = (
      sub_wrap top s.count (Interval.size top (interval k.lo e.hi)),
      rw (← left_lem a b c ends, contains-false (inr c)) (ground arith),
      λ n. shrink (interval k.lo e.hi) n (omega arith) (omega arith) (omega arith),
    )

    right_Result :
        k.lo < e.lo
        → e.lo ≤ k.hi
        → k.hi ≤ e.hi
        → s.erase_begin ≡ none
        → s.insertions ≡ []
        → Result (remains policy e k v) (some iter)
    unfolding erase_node
    right_Result a b c fresh ins = (
      sub_wrap top s.count (Interval.size top (interval e.lo k.hi)),
      rw (← right_lem a b c fresh ins, contains-false (inl a)) (ground arith),
      λ n. shrink (interval e.lo k.hi) n (omega arith) (omega arith) (omega arith),
    )

    middle_Result :
        k.lo < e.lo
        → e.hi < k.hi
        → s.erase_begin ≡ none
        → s.insertions ≡ []
        → Result (remains policy e k v) (some iter)
    unfolding erase_node
    middle_Result a c fresh ins = (
      sub_wrap top s.count (Interval.size top e),
      rw (← middle_lem a proper c fresh ins, contains-false (inl a)) (ground arith),
      λ n. shrink e n (omega arith) (omega arith) (omega arith),
    )

    -- A node that starts within the erasure.
    pub rest_Result :
        e.lo ≤ k.lo
        → k.lo ≤ e.hi
        → EndBefore e.lo s.insertions
        → Result (s.insertions ++ remains policy e k v) (first_of s.erase_begin iter)
    rest_Result a b ends = elim (dec_lt e.hi k.hi) [
      | yes p ↦ left_Result a b p ends
      | no p ↦ inside_Result a (omega arith)
    ]

    -- The first node that the erasure meets.
    pub first_Result :
        e.lo ≤ k.hi
        → k.lo ≤ e.hi
        → s.erase_begin ≡ none
        → s.insertions ≡ []
        → Result (s.insertions ++ remains policy e k v) (some iter)
    first_Result a b fresh ins =
        let none_yet : s.insertions ++ remains policy e k v ≡ remains policy e k v = rw ins in
        let here : first_of s.erase_begin iter ≡ some iter = rw fresh in
        let started : Result (remains policy e k v) (some iter) → Result _ (some iter) =
          subst (λ x. Result x (some iter)) (sym none_yet) in
        elim (dec_lt k.lo e.lo) [
          | yes p ↦ elim (dec_lt e.hi k.hi) [
            | yes q ↦ started (middle_Result p q fresh ins)
            | no q ↦ started (right_Result p a (omega arith) fresh ins)
          ]
          | no p ↦ subst (Result _) here (rest_Result (omega arith) b (rw ins tt))
        ]
