-- ===== src/IntervalMap/Cover.antt =====
-- Containment and overlap in Sawyer/IntervalMap.h.
pub mod Maps
use sawyer.Prelude.{
  ℕ, suc, ◌+◌, ◌≤◌, ◌<◌, ◌≡◌, ◌↔◌, Bool, true, false, ltb, leb, none, some, [], ◌∷◌, ◌⊎◌, inl, inr,
  arith, refl, ◌∙◌, Bool-cases,
}
use sawyer.Interval.{Interval, has, is_empty}
use sawyer.Interval
use sawyer.Interval.Sets.{overlaps-has}
use sawyer.Map.{rewind, Cursor, end}
use sawyer.IntervalMap.Change.{blocked}
use sawyer.IntervalMap.Find.{find, lower_bound, find_first_overlap, overlap_at, first_common}
use sawyer.IntervalMap.Query.{contains, contains_from, overlaps, overlaps_map}
use sawyer.IntervalMap.Shape.{
  Ordered, holding, covers, EndBefore, EndBefore-mono, Ordered-after, Ordered-before, IsValid,
}
use sawyer.IntervalMap.Carve.{interval}
use sawyer.IntervalMap.Erase.{not_empty}
use sawyer.IntervalMap.Erase.Node.{split_interval_lem, add_one}
use sawyer.IntervalMap.Insert.{blocked_lem}
use sawyer.IntervalMap.Lookup.{Found, find_cases, Apart-covers, end-after}
use sawyer.IntervalMap.{IntervalMap, Nodes}

module _ {ℓ} {V : Type ℓ} where
  pub covers-holding : (x : ℕ) (m : Nodes V) → holding x m ≡ none → covers x m ≡ false
  covers-holding x [] h = refl
  covers-holding x (n ∷ m) h = ground (arith, covers-holding x m)

  pub covers_past :
      (x y : ℕ) (before m : Nodes V)
      → EndBefore y before
      → y ≤ x
      → covers x (rewind before m) ≡ covers x m
  covers_past x y [] m e h = refl
  covers_past x y (n ∷ before) m e h = covers_past x y before (n ∷ m) e.1 h ∙ ground arith

  pub covers_before : (top b x : ℕ) (m : Nodes V) → Ordered top b m → x < b → covers x m ≡ false
  covers_before top b x [] o h = refl
  covers_before top b x (n ∷ m) o h = ground (arith, covers_before top (suc n.0.hi) x m o.3)

  -- The first node does not end before `x`.
  abbrev pub Reaches : ℕ → Nodes V → Type 0
  Reaches x [] = Unit
  Reaches x (n ∷ m) = x ≤ n.0.hi

  -- An answer of a containment test, with its reason.
  abbrev Answers : Interval → Nodes V → Bool → Type 0
  Answers key m true = (x : ℕ) → has key x ≡ true → covers x m ≡ true
  Answers key m false = (x : ℕ) × (has key x ≡ true) × (covers x m ≡ false)

  module _ (top : ℕ) where
    pub Ordered-Reaches : (b x : ℕ) (m : Nodes V) → x ≤ b → Ordered top b m → Reaches x m
    Ordered-Reaches b x [] h o = tt
    Ordered-Reaches b x (n ∷ m) h o = omega arith

    extend :
        (n : Interval × V) (m : Nodes V) (key : Interval)
        → n.0.lo ≤ key.lo
        → key.lo ≤ n.0.hi
        → (r : Bool) → Answers (interval (n.0.hi + 1) key.hi) m r
        → Answers key (n ∷ m) r
    extend n m key h k true answer = λ x p. ground (arith, answer x)
    extend n m key h k false (x, p, q) = (x, ground arith, ground arith)

    contains_from-Answers :
        (b : ℕ) (m : Nodes V) (key : Interval)
        → key.lo ≤ key.hi
        → key.hi ≤ top
        → Ordered top b m
        → Reaches key.lo m
        → (r : Bool) × (contains_from top key m ≡ some r) × Answers key m r
    unfolding contains_from
    contains_from-Answers b [] key full fits o reach = (false, refl, (key.lo, ground arith, refl))
    contains_from-Answers b (n ∷ m) key full fits o reach = elim (Bool-cases (ltb key.lo n.0.lo)) [
      | inl gap ↦ (
        false,
        rw (gap, contains_from),
        (key.lo, ground arith, ground (arith, covers_before top (suc n.0.hi) key.lo m o.3)),
      )
      | inr in_node ↦
          let meets : Interval.overlaps key n.0 ≡ true = unfold Interval.overlaps in ground arith in
          elim (Bool-cases (leb key.hi n.0.hi)) [
            | inl done ↦ (true, rw (in_node, meets, done, contains_from), λ x h. ground arith)
            | inr more ↦
                let (r, run, answer) =
                  contains_from-Answers (suc n.0.hi) m (interval (n.0.hi + 1) key.hi) (ground arith)
                    fits o.3 (Ordered-Reaches (suc n.0.hi) (n.0.hi + 1) m (omega arith) o.3) in
                (
                  r,
                  rw
                      (
                        in_node,
                        meets,
                        more,
                        add_one top n.0.hi (ground arith),
                        split_interval_lem top key (n.0.hi + 1) (omega arith) (ground arith) fits,
                        contains_from,
                      )
                      run,
                  extend n m key (ground arith) reach r answer,
                )
          ]
    ]

    lift :
        (before after m : Nodes V) (key : Interval)
        → rewind before after ≡ m
        → EndBefore key.lo before
        → (r : Bool) → Answers key after r
        → Answers key m r
    lift before after m key whole e true answer =
        λ x h. rw (← whole, covers_past x key.lo before after e (ground arith)) (answer x h)
    lift before after m key whole e false (x, p, q) =
        (x, p, rw (← whole, covers_past x key.lo before after e (ground arith)) q)

    -- For a valid interval and a valid map, containment is decided without a failed assertion, and means
    -- that every key of the interval is in the map.
    pub contains-covers :
        (key : Interval) (m : IntervalMap V)
        → Interval.IsValid top key
        → IsValid top m
        → (r : Bool) × (contains top key m ≡ some r)
          × ((r ≡ true) ↔ ((x : ℕ) → has key x ≡ true → covers x m.nodes ≡ true))
    unfolding contains contains_from
    contains-covers key m (inl (p, q)) v =
        let gone : is_empty key ≡ true = unfold is_empty in ground arith in
        (true, rw gone, ((λ e x h. ground arith), λ f. refl))
    contains-covers key m (inr (full, fits)) v =
        let (r, run, answer) = start (find_cases top key.lo m.nodes v.ordered) in
        (r, rw (not_empty key full) run, decided r answer)
      where
        decided :
            (r : Bool)
            → Answers key m.nodes r
            → (r ≡ true) ↔ ((x : ℕ) → has key x ≡ true → covers x m.nodes ≡ true)
        decided true answer = ((λ e. answer), λ f. refl)
        decided false (x, p, q) = ((λ e. cc), λ f. cc (f x p))

        start :
            (((find key.lo m.nodes).after ≡ []) × (holding key.lo m.nodes ≡ none))
              ⊎ ((n : Interval × V) × (rest : Nodes V) × Found key.lo m.nodes
                    (find key.lo m.nodes)
                    n
                    rest
                  × (holding key.lo m.nodes ≡ some n))
            → (r : Bool) × (contains_from top key (find key.lo m.nodes).after ≡ some r)
              × Answers key m.nodes r
        start (inl (missing, held)) = (
          false,
          rw (missing, contains_from),
          (key.lo, ground arith, covers-holding key.lo m.nodes held),
        )
        start (inr (n, rest, found, held)) =
            let o =
              Ordered-after top (find key.lo m.nodes).before (n ∷ rest)
                (rw found.whole v.ordered) in
            let (r, run, answer) =
              contains_from-Answers 0 (n ∷ rest) key full fits o (ground (arith, found.holds)) in
            (
              r,
              rw found.after_eq run,
              lift (find key.lo m.nodes).before (n ∷ rest) m.nodes key found.whole
                  (EndBefore-mono n.0.lo key.lo (find key.lo m.nodes).before
                    (ground (arith, found.holds))
                    (Ordered-before top (find key.lo m.nodes).before n rest
                      (rw found.whole v.ordered)))
                  r answer,
            )

    -- A valid interval overlaps a valid map exactly when they share a key.
    pub overlaps-covers :
        (key : Interval) (m : IntervalMap V)
        → Interval.IsValid top key
        → IsValid top m
        → (overlaps key m ≡ true) ↔ ((x : ℕ) × (has key x ≡ true) × (covers x m.nodes ≡ true))
    unfolding overlaps
    overlaps-covers key m (inl (p, q)) v =
        let gone : is_empty key ≡ true = unfold is_empty in ground arith in
        let at_end : find_first_overlap key m.nodes ≡ end m.nodes =
          unfold find_first_overlap in rw gone in
        let never : overlaps key m ≡ false = rw (at_end, overlaps, end-after m.nodes) in
        ((λ h. cc (never, h)), λ (x, h, k). ground arith)
    overlaps-covers key m (inr (full, fits)) v =
        let at_bound : find_first_overlap key m.nodes
            ≡ overlap_at key m.nodes (lower_bound key.lo m.nodes) =
          unfold find_first_overlap in rw (not_empty key full) in
        let same : overlaps key m ≡ blocked key m.nodes =
          rw (at_bound, overlaps) (unfold blocked in tests (lower_bound key.lo m.nodes)) in
        let (clear, hit) = blocked_lem top key m.nodes full fits v.ordered in
        elim (Bool-cases (blocked key m.nodes)) [
          | inl b ↦ ((λ h. hit b), λ h. same ∙ b)
          | inr b ↦
              ((λ h. cc (same, b, h)), λ (x, p, q). cc (Apart-covers key x m.nodes (clear b) p))
        ]
      where
        tests :
            (c : Cursor Interval V)
            → (elim (overlap_at key m.nodes c).after [ [] ↦ false | n ∷ rest ↦ true ])
              ≡ elim c.after [ [] ↦ false | n ∷ rest ↦ Interval.overlaps key n.0 ]
        tests c = go c.after refl
          where
            go :
                (after : Nodes V)
                → c.after ≡ after
                → (elim (overlap_at key m.nodes c).after [ [] ↦ false | n ∷ rest ↦ true ])
                  ≡ elim c.after [ [] ↦ false | n ∷ rest ↦ Interval.overlaps key n.0 ]
            go [] e = unfold overlap_at in ground (arith, end-after m.nodes)
            go (n ∷ rest) e = unfold overlap_at in ground (arith, end-after m.nodes)
