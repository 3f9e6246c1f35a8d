-- ===== src/IntervalMap/Nearest.antt =====
-- The searches of Sawyer/IntervalMap.h for the nearest key that is in the map.
use mathlib.Core.Path.{subst}
use sawyer.Prelude.{
  ℕ, ◌≤◌, ◌<◌, ◌≡◌, Bool, true, false, leb, if◌then◌else◌, Option, none, some, [], ◌∷◌, arith, refl,
  ap, ◌∙◌, sym, max, min,
}
use sawyer.Interval.{Interval}
use sawyer.Map
use sawyer.Map.{rewind, Cursor}
use sawyer.IntervalMap.Find.{lower_bound, find_prior, prior_of, back}
use sawyer.IntervalMap.Query.{least_from, greatest_to}
use sawyer.IntervalMap.Shape.{
  Ordered, covers, EndBefore, EndBefore-mono, Ordered-after, Ordered-before, IsValid,
}
use sawyer.IntervalMap.Erase.{Cut, lower_bound-Cut}
use sawyer.IntervalMap.Cover.{covers_past, covers_before}
use sawyer.IntervalMap.Gaps.{Cut-covers}
use sawyer.IntervalMap.Lookup.{end-after}
use sawyer.IntervalMap.{IntervalMap, Nodes}

module _ {ℓ} {V : Type ℓ} (top : ℕ) where
  -- The least key of the map from `limit` on.
  abbrev pub IsNext : ℕ → Nodes V → Option ℕ → Type 0
  IsNext limit m none = (x : ℕ) → limit ≤ x → covers x m ≡ false
  IsNext limit m (some y) =
      (limit ≤ y) × (covers y m ≡ true) × ((x : ℕ) → limit ≤ x → x < y → covers x m ≡ false)

  -- The greatest key of the map up to `limit`.
  abbrev pub IsLast : ℕ → Nodes V → Option ℕ → Type 0
  IsLast limit m none = (x : ℕ) → x ≤ limit → covers x m ≡ false
  IsLast limit m (some y) =
      (y ≤ limit) × (covers y m ≡ true) × ((x : ℕ) → y < x → x ≤ limit → covers x m ≡ false)

  -- In a valid map, `least(limit)` is the least key from `limit` on, and `Nothing` if there is none.
  pub least_from-IsNext :
      (limit : ℕ) (m : IntervalMap V) → IsValid top m → IsNext limit m.nodes (least_from limit m)
  unfolding least_from
  least_from-IsNext limit m v = go (lower_bound limit m.nodes).after refl
    where
      cut : Cut limit m.nodes (lower_bound limit m.nodes)
      cut = lower_bound-Cut top limit m.nodes v.ordered

      same :
          (after : Nodes V)
          → (lower_bound limit m.nodes).after ≡ after
          → (x : ℕ) → limit ≤ x
          → covers x m.nodes ≡ covers x after
      same after e x h =
          Cut-covers top limit x m.nodes (lower_bound limit m.nodes) cut h ∙ ap (covers x) e

      go :
          (after : Nodes V)
          → (lower_bound limit m.nodes).after ≡ after
          → IsNext limit m.nodes (elim after [ [] ↦ none | n ∷ rest ↦ some (max limit n.0.lo) ])
      go [] e = same [] e
      go (n ∷ rest) e =
          let o : Ordered top 0 (n ∷ rest) = subst (Ordered top 0) e (
            Ordered-after top (lower_bound limit m.nodes).before (lower_bound limit m.nodes).after
              (rw cut.whole v.ordered)) in
          let reach = cut.head_open n rest e in
          (
            omega arith,
            same (n ∷ rest) e (max limit n.0.lo) (omega arith) ∙ ground (arith, reach, o.1),
            λ x p q.
                same (n ∷ rest) e x p
                ∙ covers_before top n.0.lo x (n ∷ rest) (omega arith, o.1, o.2, o.3) (omega arith),
          )

  -- What lies beyond the nearest node before a cut.
  prior-IsLast :
      (limit : ℕ) (p : Interval × V) (before after : Nodes V)
      → Ordered top 0 (rewind (p ∷ before) after)
      → p.0.hi < limit
      → ((x : ℕ) → x ≤ limit → covers x after ≡ false)
      → IsLast limit (rewind (p ∷ before) after) (some (min limit p.0.hi))
  prior-IsLast limit p before after o h clear =
      let q = Ordered-after top before (p ∷ after) o in
      let ended = Ordered-before top before p after o in
      let low : EndBefore p.0.hi before = EndBefore-mono p.0.lo p.0.hi before q.1 ended in
      let y : min limit p.0.hi ≡ p.0.hi = omega arith in
      rw y (
        omega arith,
        covers_past p.0.hi p.0.hi before (p ∷ after) low (omega arith) ∙ ground (arith, q.1),
        λ x a b.
            covers_past x p.0.hi before (p ∷ after) low (omega arith) ∙ ground (arith, clear x),
      )

  abbrev prior_key : ℕ → Nodes V → Option ℕ
  prior_key limit [] = none
  prior_key limit (n ∷ rest) = some (min limit n.0.hi)

  prior_of-IsLast :
      (limit : ℕ) (all before after : Nodes V)
      → Ordered top 0 all
      → rewind before after ≡ all
      → EndBefore limit before
      → ((n : Interval × V) (rest : Nodes V) → after ≡ n ∷ rest → limit ≤ n.0.hi)
      → IsLast limit all
          (prior_key limit (prior_of limit all (record { before = before; after = after })).after)
  unfolding prior_of back
  prior_of-IsLast limit all [] [] o whole ended reach = rw (end-after all) (λ x h. rw (← whole))
  prior_of-IsLast limit all (p ∷ before) [] o whole ended reach =
      subst (λ a. IsLast limit a (some (min limit p.0.hi))) whole
        (prior-IsLast limit p before [] (subst (Ordered top 0) (sym whole) o) ended.0 (λ x h. refl))
  prior_of-IsLast limit all before (n ∷ rest) o whole ended reach =
      let o' : Ordered top 0 (rewind before (n ∷ rest)) = subst (Ordered top 0) (sym whole) o in
      let q = Ordered-after top before (n ∷ rest) o' in
      let high = reach n rest refl in go before o' whole ended q high (leb n.0.lo limit) refl
    where
      go :
          (before : Nodes V)
          → Ordered top 0 (rewind before (n ∷ rest))
          → rewind before (n ∷ rest) ≡ all
          → EndBefore limit before
          → Ordered top 0 (n ∷ rest)
          → limit ≤ n.0.hi
          → (b : Bool) → leb n.0.lo limit ≡ b
          → IsLast limit all (
              prior_key limit
                (if b
                  then record { before = before; after = n ∷ rest }
                  else back (record { before = before; after = n ∷ rest }) (Map.end all)).after)
      go before o' whole ended q high true e =
          let y : min limit n.0.hi ≡ limit = omega arith in
          rw y (
            omega arith,
            ap (covers limit) (sym whole)
                ∙ covers_past limit limit before (n ∷ rest) ended (omega arith)
                ∙ ground (arith, high),
            λ x a b. absurd (omega arith),
          )
      go [] o' whole ended q high false e = rw (end-after all) (λ x h.
          ap (covers x) (sym whole)
          ∙ covers_before top n.0.lo x (n ∷ rest) (omega arith, q.1, q.2, q.3) (ground arith))
      go (p ∷ before) o' whole ended q high false e =
          subst (λ a. IsLast limit a (some (min limit p.0.hi))) whole
            (prior-IsLast limit p before (n ∷ rest) o' ended.0 (λ x h.
              covers_before top n.0.lo x (n ∷ rest) (omega arith, q.1, q.2, q.3) (ground arith)))

  -- In a valid map, `greatest(limit)` is the greatest key up to `limit`, and `Nothing` if there is
  -- none.
  pub greatest_to-IsLast :
      (limit : ℕ) (m : IntervalMap V) → IsValid top m → IsLast limit m.nodes (greatest_to limit m)
  unfolding greatest_to find_prior Map.is_empty
  greatest_to-IsLast limit m v =
      go m.nodes v.ordered (lower_bound limit m.nodes) (lower_bound-Cut top limit m.nodes v.ordered)
    where
      go :
          (all : Nodes V)
          → Ordered top 0 all
          → (c : Cursor Interval V) → Cut limit all c
          → IsLast limit all (
              prior_key limit
                (if Map.is_empty all then Map.end all else prior_of limit all c).after)
      go [] o c cut = λ x h. refl
      go (a ∷ all) o c cut =
          prior_of-IsLast limit (a ∷ all) c.before c.after o cut.whole cut.ended cut.head_open
