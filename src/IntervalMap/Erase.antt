-- ===== src/IntervalMap/Erase.antt =====
-- `erase` of Sawyer/IntervalMap.h meets its reference.
pub mod Node
pub mod Loop
use mathlib.Core.Path.{subst}
use native.Mathlib.Decide.{dec_lt}
use sawyer.Prelude.{
  ℕ, suc, ◌+◌, ◌≤◌, ◌<◌, ◌≡◌, Bool, true, false, ltb, Option, none, some, List, [], ◌∷◌, ◌++◌, ◌⊎◌,
  inl, inr, arith, refl, ap, ◌∙◌, sym, ◌>>=◌,
}
use sawyer.Interval.{Interval, is_empty, singleton}
use sawyer.Interval
use sawyer.Map
use sawyer.Map.{rewind, Cursor}
use sawyer.Map.Lookup.{lower_bound-cuts, AllBefore}
use sawyer.IntervalMap.Find.{lower_bound}
use sawyer.IntervalMap.Change.{Erasing, erase, erase_loop, erase_finish}
use sawyer.IntervalMap.Shape.{
  Ordered, Apart, total, EndBefore, Ordered-weaken, Ordered-after, Ordered-before, Ordered-IsSorted,
  Counts, IsValid,
}
use sawyer.IntervalMap.Carve.{
  interval, remains, carve, carve_past, carve-rewind, carve-Ordered, insert_multiple-rewind,
  total-rewind,
}
use sawyer.IntervalMap.{IntervalMap, Nodes, Policy, interval_less, interval_compare}
use Loop.{Ends, past_Ends, round_Ends, next_Ends, rest_Ends}
use Node.{Result, first_Result}

module _ {ℓ} {V : Type ℓ} where
  -- The cut that the lower bound makes.
  pub record Cut (x : ℕ) (m : Nodes V) (c : Cursor Interval V) : Type ℓ where
    pub whole : rewind c.before c.after ≡ m
    pub ended : EndBefore x c.before
    pub head_open : (n : Interval × V) (rest : Nodes V) → c.after ≡ n ∷ rest → x ≤ n.0.hi

  EndBefore-of :
      (x : ℕ) (m : Nodes V)
      → AllBefore (λ j. interval_less j (singleton x) ≡ true) m
      → EndBefore x m
  unfolding interval_less singleton
  EndBefore-of x [] a = tt
  EndBefore-of x (n ∷ m) a = (ground arith, EndBefore-of x m a.1)

  head_of :
      (x : ℕ) (m rest : Nodes V) (n : Interval × V)
      → AllBefore (λ j. interval_less j (singleton x) ≡ false) m
      → m ≡ n ∷ rest
      → x ≤ n.0.hi
  unfolding interval_less singleton
  head_of x [] rest n a e = ground arith
  head_of x (k ∷ m) rest n a e = ground arith

  pub lower_bound-Cut : (top x : ℕ) (m : Nodes V) → Ordered top 0 m → Cut x m (lower_bound x m)
  unfolding lower_bound
  lower_bound-Cut top x m o =
      let (whole, ended, rest) = lower_bound-cuts (singleton x) m (Ordered-IsSorted top 0 m o) in
      record {
        whole = whole;
        ended = EndBefore-of x _ ended;
        head_open = λ n later e. head_of x _ later n rest e;
      }

pub not_empty : (e : Interval) → e.lo ≤ e.hi → is_empty e ≡ false
unfolding is_empty
not_empty e p = ground arith

module _ {ℓ} {V : Type ℓ} (top : ℕ) (policy : Policy V) (e : Interval) (wide : 1 ≤ top)
    (proper : e.lo ≤ e.hi) (small : e.hi ≤ top) where
  abbrev idle : ℕ → Erasing V
  idle count = record { insertions = []; erase_begin = none; count = count }

  -- The whole loop: it meets no node, or its first node is the first one to erase.
  first_Ends :
      (before m : Nodes V) (count : ℕ)
      → Ordered top 0 m
      → ((n : Interval × V) (rest : Nodes V) → m ≡ n ∷ rest → e.lo ≤ n.0.hi)
      → (r : Cursor Interval V × Erasing V) × ((Ends top policy e before m (idle count) none r
            × (r.1.insertions ≡ [])
            × (r.0.after ≡ m))
          ⊎ Ends top policy e before m
              (idle count)
              (some (record { before = before; after = m }))
              r)
  first_Ends before [] count o meets = (
    _,
    inl (
      past_Ends top policy e wide proper small (suc e.hi) before [] (idle count) (omega arith) tt,
      refl,
      refl,
    ),
  )
  first_Ends before (n ∷ m) count o meets =
      let iter : Cursor Interval V = record { before = before; after = n ∷ m } in
      let open_head = meets n m refl in
      elim (dec_lt e.hi n.0.lo) [
        | yes p ↦ (
          _,
          inl (
            past_Ends top policy e wide proper small n.0.lo before (n ∷ m) (idle count) p
                (omega arith, o.1, o.2, o.3),
            refl,
            refl,
          ),
        )
        | no p ↦
            let (r, t) =
              round_Ends top policy e wide proper small before m n (idle count) (some iter) o.1
                (omega arith) open_head o.2
                (first_Result top policy e iter n.0 n.1 (idle count) o.2 wide proper small o.1
                  open_head (omega arith) refl refl)
                (λ c.
                  next_Ends top policy e wide proper small before m n (idle count) (some iter) o.3
                    tt c
                    (λ t begun ends.
                      rest_Ends top policy e wide proper small (suc n.0.hi) (n ∷ before) m t iter
                        (omega arith) o.3 begun ends)) in
            (r, inr t)
      ]

  module _ (m : Nodes V) (count : ℕ) (o : Ordered top 0 m) (c : Cursor Interval V)
      (cut : Cut e.lo m c) where
    carve-cut : carve policy e m ≡ rewind c.before (carve policy e c.after)
    carve-cut =
        ap (carve policy e) (sym cut.whole)
        ∙ carve-rewind policy top e proper c.before c.after cut.ended

    -- What the code does after the loop.
    finish_none :
        (r : Cursor Interval V × Erasing V)
        → Ends top policy e c.before c.after (idle count) none r
        → r.1.insertions ≡ []
        → r.0.after ≡ c.after
        → erase_finish m r ≡ record { nodes = carve policy e m; count = r.1.count }
    unfolding erase_finish Map.insert_multiple
    finish_none r t ins rest =
        let left : c.after ≡ carve policy e c.after = rw (ins, rest) at t.nodes_eq in
        let kept : carve policy e m ≡ m = carve-cut ∙ ap (rewind c.before) (sym left) ∙ cut.whole in
        rw (t.from_eq, ins, kept)

    finish_some :
        (r : Cursor Interval V × Erasing V)
        → Ends top policy e c.before c.after (idle count) (some c) r
        → erase_finish m r ≡ record { nodes = carve policy e m; count = r.1.count }
    unfolding erase_finish Map.erase_at_multiple
    finish_some r t =
        let ordered : Ordered top 0 (rewind c.before (r.1.insertions ++ r.0.after)) =
          rw (t.nodes_eq, ← carve-cut) (carve-Ordered policy top e proper 0 m o) in
        rw (
          t.from_eq,
          insert_multiple-rewind top r.1.insertions c.before r.0.after ordered,
          t.nodes_eq,
          carve-cut,
        )

    counted_cut :
        (r : Cursor Interval V × Erasing V) (from : Option (Cursor Interval V))
        → Ends top policy e c.before c.after (idle count) from r
        → Counts top count (total m)
        → Counts top r.1.count (total (carve policy e m))
    counted_cut r from t k =
        let here = t.counted (total c.before) in
        rw (carve-cut, total-rewind)
          (here (rw (total-rewind c.before c.after) at (rw (← cut.whole) at k)))

    loop_carve :
        Counts top count (total m)
        → (d : ℕ) × ((erase_loop top policy e c.before c.after (idle count) >>= λ r.
              some (erase_finish m r))
            ≡ some (record { nodes = carve policy e m; count = d }))
          × Counts top d (total (carve policy e m))
    loop_carve k = go (
        first_Ends c.before c.after count (Ordered-after top c.before c.after (rw cut.whole o))
          cut.head_open)
      where
        go :
            (r : Cursor Interval V × Erasing V) × ((Ends top policy e c.before c.after
                    (idle count)
                    none
                    r
                  × (r.1.insertions ≡ [])
                  × (r.0.after ≡ c.after))
                ⊎ Ends top policy e c.before c.after
                    (idle count)
                    (some (record { before = c.before; after = c.after }))
                    r)
            → (d : ℕ) × ((erase_loop top policy e c.before c.after (idle count) >>= λ r.
                  some (erase_finish m r))
                ≡ some (record { nodes = carve policy e m; count = d }))
              × Counts top d (total (carve policy e m))
        go (r, inl (t, ins, rest)) =
            (r.1.count, rw (t.run, finish_none r t ins rest), counted_cut r none t k)
        go (r, inr t) = (r.1.count, rw (t.run, finish_some r t), counted_cut r (some c) t k)

  -- `erase` succeeds; its nodes are the carved ones and its counter is right.
  pub erase-carve :
      (m : IntervalMap V)
      → IsValid top m
      → (c : ℕ) × (erase top policy e m
          ≡ some (record { nodes = carve policy e m.nodes; count = c }))
        × Counts top c (total (carve policy e m.nodes))
  unfolding erase
  erase-carve m v =
      let (c, run, counted) =
        loop_carve m.nodes m.count v.ordered (lower_bound e.lo m.nodes)
          (lower_bound-Cut top e.lo m.nodes v.ordered) v.counted in
      (c, rw (not_empty e proper) run, counted)
