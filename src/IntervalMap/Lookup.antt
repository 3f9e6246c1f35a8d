-- ===== src/IntervalMap/Lookup.antt =====
-- `find` of Sawyer/IntervalMap.h, and the nodes on both sides of what it finds.
use sawyer.Prelude.{
  ℕ, suc, ◌+◌, ◌<◌, ◌≡◌, true, false, ltb, if◌then◌else◌, none, some, [], ◌∷◌, ◌⊎◌, inl, inr, arith,
  refl, ◌∙◌, Bool-cases,
}
use sawyer.Interval.{Interval, has}
use sawyer.IntervalMap.Carve.{interval}
use sawyer.Map.{erase_at, rewind, Cursor, end, end_from}
use sawyer.IntervalMap.Find.{find, found_at, lower_bound}
use sawyer.IntervalMap.Shape.{
  Ordered, Apart, holding, covers, EndBefore, EndBefore-mono, Ordered-after, Ordered-before,
}
use sawyer.IntervalMap.Meaning.{Meaning, value_at}
use sawyer.IntervalMap.Erase.{Cut, lower_bound-Cut}
use sawyer.IntervalMap.{Nodes, Policy}

module _ {ℓ} {V : Type ℓ} where
  end_from-after : (before m : Nodes V) → (end_from before m).after ≡ []
  unfolding end_from
  end_from-after before [] = refl
  end_from-after before (n ∷ m) = end_from-after (n ∷ before) m

  pub end-after : (m : Nodes V) → (end m).after ≡ []
  unfolding end
  end-after m = end_from-after [] m

  pub holding-rewind :
      (x : ℕ) (before after : Nodes V)
      → EndBefore x before
      → holding x (rewind before after) ≡ holding x after
  holding-rewind x [] after h = refl
  holding-rewind x (n ∷ before) after h =
      holding-rewind x before (n ∷ after) h.1 ∙ (let w : has n.0 x ≡ false = ground arith in rw w)

  pub holding_before : (top b x : ℕ) (m : Nodes V) → Ordered top b m → x < b → holding x m ≡ none
  holding_before top b x [] o h = refl
  holding_before top b x (n ∷ m) o h =
      let w : has n.0 x ≡ false = ground arith in
      rw w (holding_before top (suc n.0.hi) x m o.3 (omega arith))

  -- A cursor on a node that has the key.
  pub record Found (x : ℕ) (m : Nodes V) (c : Cursor Interval V) (n : Interval × V) (rest : Nodes V)
      : Type ℓ where
    pub after_eq : c.after ≡ n ∷ rest
    pub whole : rewind c.before (n ∷ rest) ≡ m
    pub holds : has n.0 x ≡ true

  pub find_cases :
      (top x : ℕ) (m : Nodes V)
      → Ordered top 0 m
      → (((find x m).after ≡ []) × (holding x m ≡ none))
        ⊎ ((n : Interval × V) × (rest : Nodes V) × Found x m (find x m) n rest
            × (holding x m ≡ some n))
  unfolding find found_at
  find_cases top x m o =
      let cut = lower_bound-Cut top x m o in
      go (lower_bound x m) cut
        (Ordered-after top (lower_bound x m).before (lower_bound x m).after (rw cut.whole o))
        (lower_bound x m).after refl
    where
      go :
          (c : Cursor Interval V)
          → Cut x m c
          → Ordered top 0 c.after
          → (after : Nodes V) → c.after ≡ after
          → (((found_at x m c).after ≡ []) × (holding x m ≡ none))
            ⊎ ((n : Interval × V) × (rest : Nodes V) × Found x m (found_at x m c) n rest
                × (holding x m ≡ some n))
      go c cut o [] e = inl (
        rw (e, found_at) (end-after m),
        rw (← cut.whole, holding-rewind x c.before c.after cut.ended, e),
      )
      go c cut o (n ∷ rest) e =
          let reach = cut.head_open n rest e in
          let o' : Ordered top 0 (n ∷ rest) = rw e at o in
          let held : holding x m ≡ holding x (n ∷ rest) =
            rw (← cut.whole, holding-rewind x c.before c.after cut.ended, e) in
          elim (Bool-cases (ltb x n.0.lo)) [
            | inl before ↦ inl (
              rw (e, found_at, before) (end-after m),
              held
                  ∙ holding_before top n.0.lo x (n ∷ rest) (omega arith, o'.1, o'.2, o'.3)
                      (ground arith),
            )
            | inr within ↦
                let there : has n.0 x ≡ true = ground arith in
                let same : found_at x m c ≡ c = ground arith in
                inr (
                  n,
                  rest,
                  record { after_eq = rw same e; whole = rw (same, ← e) cut.whole; holds = there },
                  held ∙ rw there,
                )
          ]

  -- Nodes after a common beginning.
  pub Ordered-replace :
      (top : ℕ) (before s t : Nodes V)
      → Ordered top 0 (rewind before s)
      → ((b : ℕ) → Ordered top b s → Ordered top b t)
      → Ordered top 0 (rewind before t)
  Ordered-replace top [] s t o f = f 0 o
  Ordered-replace top (n ∷ before) s t o f =
      Ordered-replace top before (n ∷ s) (n ∷ t) o (λ b (p, q, r, u). (p, q, r, f (suc n.0.hi) u))

  pub Apart-replace :
      (j : Interval) (before s t : Nodes V)
      → Apart j (rewind before s)
      → (Apart j s → Apart j t)
      → Apart j (rewind before t)
  Apart-replace j [] s t a f = f a
  Apart-replace j (n ∷ before) s t a f =
      Apart-replace j before (n ∷ s) (n ∷ t) a (λ (p, q). (p, f q))

  pub Apart-after : (j : Interval) (before s : Nodes V) → Apart j (rewind before s) → Apart j s
  Apart-after j [] s a = a
  Apart-after j (n ∷ before) s a = (Apart-after j before (n ∷ s) a).1

  pub covers-rewind :
      (x : ℕ) (before s : Nodes V) → covers x s ≡ true → covers x (rewind before s) ≡ true
  covers-rewind x [] s h = h
  covers-rewind x (n ∷ before) s h = covers-rewind x before (n ∷ s) (ground arith)

  pub Apart-covers :
      (j : Interval) (x : ℕ) (m : Nodes V) → Apart j m → has j x ≡ true → covers x m ≡ false
  Apart-covers j x [] a h = refl
  Apart-covers j x (n ∷ m) a h = ground (arith, Apart-covers j x m a.1 h)

  pub Apart-rewind :
      (j : Interval) (before s : Nodes V)
      → EndBefore j.lo before
      → Apart j s
      → Apart j (rewind before s)
  Apart-rewind j [] s h a = a
  Apart-rewind j (n ∷ before) s h a = Apart-rewind j before (n ∷ s) h.1 (inl h.0, a)

  pub Apart-past : (top b : ℕ) (j : Interval) (m : Nodes V) → Ordered top b m → j.hi < b → Apart j m
  Apart-past top b j [] o h = tt
  Apart-past top b j (n ∷ m) o h =
      (inr (omega arith), Apart-past top (suc n.0.hi) j m o.3 (omega arith))

  -- A node apart from two adjacent intervals is apart from their union.
  pub Apart-join :
      (top b : ℕ) (i j : Interval) (m : Nodes V)
      → Ordered top b m
      → i.hi + 1 ≡ j.lo
      → Apart i m
      → Apart j m
      → Apart (interval i.lo j.hi) m
  Apart-join top b i j [] o e p q = tt
  Apart-join top b i j (n ∷ m) o e p q =
      (ground arith, Apart-join top (suc n.0.hi) i j m o.3 e p.1 q.1)

  pub erase_at-rewind :
      (c : Cursor Interval V) (n : Interval × V) (rest : Nodes V)
      → c.after ≡ n ∷ rest
      → erase_at c ≡ rewind c.before rest
  unfolding erase_at
  erase_at-rewind c n rest e = ground arith

module _ {ℓ} {V : Type ℓ} {policy : Policy V} {D : Type 0} (meaning : Meaning policy D) where
  value_at-replace :
      (x : ℕ) (before s t : Nodes V)
      → value_at meaning x s ≡ value_at meaning x t
      → value_at meaning x (rewind before s) ≡ value_at meaning x (rewind before t)
  value_at-replace x [] s t e = e
  value_at-replace x (n ∷ before) s t e = value_at-replace x before (n ∷ s) (n ∷ t) (rw e)

  value_at-rewind :
      (x : ℕ) (before s : Nodes V)
      → EndBefore x before
      → value_at meaning x (rewind before s) ≡ value_at meaning x s
  value_at-rewind x [] s h = refl
  value_at-rewind x (n ∷ before) s h =
      value_at-rewind x before (n ∷ s) h.1 ∙ (let w : has n.0 x ≡ false = ground arith in rw w)

  -- A map is a node and the map without it.
  pub value_at-remove :
      (top x : ℕ) (before rest : Nodes V) (n : Interval × V)
      → Ordered top 0 (rewind before (n ∷ rest))
      → value_at meaning x (rewind before (n ∷ rest)) ≡ (
          if has n.0 x
          then some (meaning.den n.0 n.1 x)
          else value_at meaning x (rewind before rest))
  value_at-remove top x before rest n o = elim (Bool-cases (has n.0 x)) [
    | inl holds ↦ rw (
      holds,
      value_at-rewind x before (n ∷ rest)
          (EndBefore-mono n.0.lo x before (ground arith) (Ordered-before top before n rest o)),
      holds,
    )
    | inr not_here ↦ rw not_here (value_at-replace x before (n ∷ rest) rest (rw not_here))
  ]
