-- ===== src/IntervalMap/Erase/Loop.antt =====
-- The loop of `erase` of Sawyer/IntervalMap.h ends, and carves the nodes.
use mathlib.Core.Path.{subst}
use mathlib.Core.List.{append_assoc}
use native.Mathlib.Decide.{dec_lt}
use sawyer.Prelude.{
  ℕ, suc, ◌+◌, ◌-◌, ◌≤◌, ◌<◌, ◌≡◌, true, false, Option, some, [], ◌∷◌, ◌++◌, arith, refl,
}
use sawyer.Interval.{Interval, is_left_of}
use sawyer.Map.{Cursor}
use sawyer.IntervalMap.Change.{Erasing, first_of, erase_loop}
use sawyer.IntervalMap.Shape.{Ordered, total, EndBefore, Counts}
use sawyer.IntervalMap.Carve.{
  remains, carve, carve_past, carve_step, EndBefore-append, remains-EndBefore, total-append,
}
use sawyer.IntervalMap.Erase.Node.{Result, rest_Result}
use sawyer.IntervalMap.{Nodes, Policy, interval_compare}

-- The loop from a state on: it ends, and what it has put aside and left are the carved nodes.
pub record Ends {ℓ} {V : Type ℓ} (top : ℕ) (policy : Policy V) (e : Interval) (before m : Nodes V)
    (s : Erasing V) (from : Option (Cursor Interval V)) (r : Cursor Interval V × Erasing V)
    : Type ℓ where
  pub run : erase_loop top policy e before m s ≡ some r
  pub from_eq : r.1.erase_begin ≡ from
  pub nodes_eq : r.1.insertions ++ r.0.after ≡ s.insertions ++ carve policy e m
  pub counted :
      (n : ℕ)
      → Counts top s.count (n + total m)
      → Counts top r.1.count (n + total (carve policy e m))

module _ (e : Interval) (proper : e.lo ≤ e.hi) where
  left_of : (k : Interval) → e.hi < k.lo → is_left_of e k ≡ true
  unfolding is_left_of
  left_of k p = ground arith

  not_left_of : (k : Interval) → k.lo ≤ k.hi → k.lo ≤ e.hi → is_left_of e k ≡ false
  unfolding is_left_of
  not_left_of k p q = ground arith

module _ {ℓ} {V : Type ℓ} (top : ℕ) (policy : Policy V) (e : Interval) (wide : 1 ≤ top)
    (proper : e.lo ≤ e.hi) (small : e.hi ≤ top) where
  -- Past the erasure the loop stops.
  pub past_Ends :
      (b : ℕ) (before m : Nodes V) (s : Erasing V)
      → e.hi < b
      → Ordered top b m
      → Ends top policy e before m s s.erase_begin (record { before = before; after = m }, s)
  unfolding erase_loop
  past_Ends b before [] s h o = record {
    run = refl;
    from_eq = refl;
    nodes_eq = unfold carve in refl;
    counted = λ n q. unfold carve in q;
  }
  past_Ends b before (n ∷ m) s h o =
      let same = carve_past policy top e proper b (n ∷ m) h o in
      record {
        run = rw (left_of e proper n.0 (omega arith), erase_loop);
        from_eq = refl;
        nodes_eq = rw same;
        counted = λ n q. rw same q;
      }

  -- One round, and the rest of the loop.
  pub round_Ends :
      (before m : Nodes V) (n : Interval × V) (s : Erasing V) (from : Option (Cursor Interval V))
      → n.0.lo ≤ n.0.hi
      → n.0.lo ≤ e.hi
      → e.lo ≤ n.0.hi
      → (le : n.0.hi ≤ top)
      → Result top policy e
          (record { before = before; after = n ∷ m })
          n.0
          n.1
          s
          le
          (s.insertions ++ remains policy e n.0 n.1)
          from
      → ((c : ℕ)
          → (r : Cursor Interval V × Erasing V) × Ends top policy e
              (n ∷ before)
              m
              (record {
                insertions = s.insertions ++ remains policy e n.0 n.1;
                erase_begin = from;
                count = c;
              })
              from
              r)
      → (r : Cursor Interval V × Erasing V) × Ends top policy e before (n ∷ m) s from r
  unfolding erase_loop
  round_Ends before m n s from full p q le (c, run, counted) rest =
      let (r, t) = rest c in
      let step = carve_step policy top e proper n m q p in
      (
        r,
        record {
          run = rw (not_left_of e proper n.0 full p, run, erase_loop) t.run;
          from_eq = t.from_eq;
          nodes_eq = rw (step, ← append_assoc) t.nodes_eq;
          counted = λ k h.
              let here : k + total (n ∷ m) ≡ k + total m + (n.0.hi + 1 - n.0.lo) = omega arith in
              let after : k + total m + total (remains policy e n.0 n.1)
                  ≡ k + total (remains policy e n.0 n.1) + total m =
                omega arith in
              let whole : k + total (remains policy e n.0 n.1 ++ carve policy e m)
                  ≡ k + total (remains policy e n.0 n.1) + total (carve policy e m) =
                omega (arith, total-append (remains policy e n.0 n.1) (carve policy e m)) in
              rw (step, whole)
                (t.counted (k + total (remains policy e n.0 n.1))
                  (rw after at (counted (k + total m) (rw here at h))));
        },
      )

  -- After a node that the erasure meets there is nothing more to do, or nothing remains of it.
  pub next_Ends :
      (before m : Nodes V) (n : Interval × V) (s : Erasing V) (from : Option (Cursor Interval V))
      → Ordered top (suc n.0.hi) m
      → EndBefore e.lo s.insertions
      → (c : ℕ)
      → ((t : Erasing V)
          → t.erase_begin ≡ from
          → EndBefore e.lo t.insertions
          → (r : Cursor Interval V × Erasing V) × Ends top policy e (n ∷ before) m t from r)
      → (r : Cursor Interval V × Erasing V) × Ends top policy e
          (n ∷ before)
          m
          (record {
            insertions = s.insertions ++ remains policy e n.0 n.1;
            erase_begin = from;
            count = c;
          })
          from
          r
  next_Ends before m n s from o ends c rest = elim (dec_lt e.hi (suc n.0.hi)) [
    | yes p ↦ (_, past_Ends (suc n.0.hi) (n ∷ before) m _ p o)
    | no p ↦ rest _ refl (
        EndBefore-append e.lo s.insertions (remains policy e n.0 n.1) ends
          (remains-EndBefore policy top e proper n.0 n.1 (omega arith)))
  ]

  -- From a node that starts within the erasure.
  pub rest_Ends :
      (b : ℕ) (before m : Nodes V) (s : Erasing V) (from : Cursor Interval V)
      → e.lo < b
      → Ordered top b m
      → s.erase_begin ≡ some from
      → EndBefore e.lo s.insertions
      → (r : Cursor Interval V × Erasing V) × Ends top policy e before m s (some from) r
  rest_Ends b before [] s from h o started ends = (
    (record { before = before; after = [] }, s),
    subst (λ f. Ends top policy e before [] s f (record { before = before; after = [] }, s)) started
        (past_Ends (suc e.hi) before [] s (omega arith) tt),
  )
  rest_Ends b before (n ∷ m) s from h o started ends =
      let iter : Cursor Interval V = record { before = before; after = n ∷ m } in
      let kept : first_of s.erase_begin iter ≡ some from = rw started in
      elim (dec_lt e.hi n.0.lo) [
        | yes p ↦ (
          (iter, s),
          subst (λ f. Ends top policy e before (n ∷ m) s f (iter, s)) started
              (past_Ends n.0.lo before (n ∷ m) s p (omega arith, o.1, o.2, o.3)),
        )
        | no p ↦
            round_Ends before m n s (some from) o.1 (omega arith) (omega arith) o.2
              (subst (Result top policy e iter n.0 n.1 s o.2 _) kept (
                rest_Result top policy e iter n.0 n.1 s o.2 wide proper small o.1 (omega arith)
                  (omega arith) ends))
              (λ c. next_Ends before m n s (some from) o.3 ends c (λ t begun ends'.
                rest_Ends (suc n.0.hi) (n ∷ before) m t from (omega arith) o.3 begun ends'))
      ]
