-- ===== src/IntervalSet/Invert.antt =====
-- Inversion in Sawyer/IntervalSet.h is the complement.
use sawyer.Prelude.Word.{sub_wrap}
use sawyer.Prelude.{
  ℕ, suc, ◌+◌, ◌-◌, ◌≤◌, ◌≡◌, true, false, not, ◌&&◌, ◌||◌, ltb, leb, if◌then◌else◌, Option, some,
  [], ◌∷◌, inl, inr, arith, refl, ◌∙◌, ◌>>=◌, Bool-cases,
}
use sawyer.Interval.{Interval, has, is_empty, hull_of, whole}
use sawyer.Interval
use sawyer.IntervalMap.{Nodes}
use sawyer.IntervalMap.Shape.{Ordered, IsValid, covers, Ordered-after}
use sawyer.IntervalMap.Find.{lower_bound}
use sawyer.IntervalMap.Cover.{covers_before, Reaches, Ordered-Reaches}
use sawyer.IntervalMap.Carve.{interval}
use sawyer.IntervalMap.Erase.{lower_bound-Cut, not_empty}
use sawyer.IntervalMap.Erase.Node.{add_one}
use sawyer.IntervalMap.Gaps.{Cut-Reaches, Cut-covers, hull_of_lem, below}
use sawyer.IntervalSet.Members.{exists-covers, exists-insert, empty-exists}
use sawyer.IntervalSet.{
  IntervalSet, exists, insert, invert_loop, invert_finish, invert_within, empty_set,
}

module _ (top : ℕ) (wide : 1 ≤ top) where
  -- The set that is still to come from `pending` on, added to the inverted one.
  abbrev Inverts : Interval → ℕ → IntervalSet → Nodes ℕ → Option IntervalSet → Type 0
  Inverts i pending inverted m r =
      (t : IntervalSet) × (r ≡ some t)
      × IsValid top t
      × ((x : ℕ)
          → exists x t ≡ (exists x inverted || (leb pending x && leb x i.hi && not (covers x m))))

  -- The step before a node inserts the scalars between `pending` and the node.
  abbrev filled : ℕ → ℕ → IntervalSet → Option IntervalSet
  filled pending lo inverted =
      if ltb pending lo
      then insert top (hull_of pending (sub_wrap top lo 1)) inverted
      else some inverted

  filled-exists :
      (pending lo : ℕ) (inverted : IntervalSet)
      → lo ≤ top
      → IsValid top inverted
      → (t : IntervalSet) × (filled pending lo inverted ≡ some t)
        × IsValid top t
        × ((x : ℕ) → exists x t ≡ (exists x inverted || (leb pending x && ltb x lo)))
  filled-exists pending lo inverted fits v = elim (Bool-cases (ltb pending lo)) [
    | inl gap ↦
        let (t, run, valid, shown) =
          exists-insert top wide (interval pending (lo - 1)) inverted
            (inr (ground arith, omega arith)) v in
        (
          t,
          rw (gap, below top lo (ground arith) fits, hull_of_lem pending (lo - 1) (ground arith))
              run,
          valid,
          λ x. shown x ∙ ground arith,
        )
    | inr none_left ↦ (inverted, rw none_left, v, λ x. ground arith)
  ]

  invert_loop-Inverts :
      (i : Interval) (b pending : ℕ) (inverted : IntervalSet) (m : Nodes ℕ)
      → i.hi ≤ top
      → pending ≤ i.hi
      → IsValid top inverted
      → Ordered top b m
      → Reaches pending m
      → Inverts i pending inverted m
          (invert_loop top i pending inverted m >>= λ r. invert_finish top i r)
  unfolding invert_loop invert_finish
  invert_loop-Inverts i b pending inverted [] fits h v o r =
      let (t, run, valid, shown) =
        exists-insert top wide (interval pending i.hi) inverted (inr (h, fits)) v in
      (t, rw (hull_of_lem pending i.hi h) run, valid, λ x. shown x ∙ ground arith)
  invert_loop-Inverts i b pending inverted (n ∷ m) fits h v o r =
      elim (Bool-cases (ltb i.hi n.0.lo)) [
        | inl beyond ↦
            let (t, run, valid, shown) =
              exists-insert top wide (interval pending i.hi) inverted (inr (h, fits)) v in
            (
              t,
              rw (beyond, hull_of_lem pending i.hi h, invert_loop, invert_finish) run,
              valid,
              λ x.
                  shown x
                  ∙ ground (arith, covers_before top n.0.lo x (n ∷ m) (omega arith, o.1, o.2, o.3)),
            )
        | inr within ↦
            let (t, run, valid, shown) = filled-exists pending n.0.lo inverted (omega arith) v in
            elim (Bool-cases (ltb n.0.hi i.hi)) [
              | inl more ↦
                  let (u, runs, valids, all) =
                    invert_loop-Inverts i (suc n.0.hi) (n.0.hi + 1) t m fits (ground arith) valid
                      o.3 (Ordered-Reaches top (suc n.0.hi) (n.0.hi + 1) m (omega arith) o.3) in
                  (
                    u,
                    rw (within, run, more, add_one top n.0.hi (ground arith), invert_loop) runs,
                    valids,
                    λ x.
                        all x
                        ∙ rw (shown x) (ground (arith, covers_before top (suc n.0.hi) x m o.3)),
                  )
              | inr last ↦ (
                t,
                rw (within, run, last, invert_loop, invert_finish) refl,
                valid,
                λ x. shown x ∙ ground (arith, covers_before top (suc n.0.hi) x m o.3),
              )
            ]
      ]

  -- `invert(restricted)` of a valid set by a valid interval succeeds, is valid, and is the complement
  -- within the interval.
  pub invert_within-complement :
      (i : Interval) (s : IntervalSet)
      → Interval.IsValid top i
      → IsValid top s
      → (r : IntervalSet) × (invert_within top i s ≡ some r)
        × IsValid top r
        × ((x : ℕ) → exists x r ≡ (has i x && not (exists x s)))
  unfolding invert_within
  invert_within-complement i s (inl (p, q)) v =
      let gone : is_empty i ≡ true = unfold is_empty in ground arith in
      let (valid, nothing) = empty-exists top in
      (
        empty_set,
        rw gone,
        valid,
        λ x. nothing x ∙ (let out : has i x ≡ false = ground arith in rw out),
      )
  invert_within-complement i s (inr (full, fits)) v =
      let c = lower_bound i.lo s.nodes in
      let cut = lower_bound-Cut top i.lo s.nodes v.ordered in
      let (empty_valid, nothing) = empty-exists top in
      let (r, run, valid, shown) =
        invert_loop-Inverts i 0 i.lo empty_set c.after fits full empty_valid
          (Ordered-after top c.before c.after (rw cut.whole v.ordered))
          (Cut-Reaches top i.lo s.nodes c cut) in
      (
        r,
        rw (not_empty i full) run,
        valid,
        λ x.
            shown x
            ∙ rw (nothing x, exists-covers top x s v)
                (ground (arith, Cut-covers top i.lo x s.nodes c cut)),
      )
