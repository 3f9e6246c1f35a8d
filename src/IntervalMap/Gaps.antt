-- ===== src/IntervalMap/Gaps.antt =====
-- The searches of Sawyer/IntervalMap.h for keys that are not in the map.
pub mod Last
use mathlib.Core.Path.{subst}
use sawyer.Prelude.Word.{add_wrap, sub_wrap, add_wrap-cases, sub_wrap-cases, add_wrap-le}
use sawyer.Prelude.{
  ℕ, suc, ◌+◌, ◌-◌, ◌≤◌, ◌<◌, ◌≡◌, Bool, true, false, ltb, leb, ◌==◌, if◌then◌else◌, Option, none,
  some, [], ◌∷◌, ◌⊎◌, inl, inr, arith, refl, ap, ◌∙◌, sym, Bool-cases, max, min,
}
use sawyer.Interval.{Interval, has, is_empty, hull_of, empty, singleton}
use sawyer.Map
use sawyer.Map.{rewind, Cursor}
use sawyer.IntervalMap.Find.{lower_bound, find_prior, prior_of, back}
use sawyer.IntervalMap.Query.{
  first_unmapped, unmapped_from, last_unmapped, unmapped_back, least_unmapped, least_unmapped_from,
}
use sawyer.IntervalMap.Shape.{Ordered, covers, Ordered-after, IsValid}
use sawyer.IntervalMap.Carve.{interval}
use sawyer.IntervalMap.Erase.Node.{add_one}
use sawyer.IntervalMap.Erase.{Cut, lower_bound-Cut}
use sawyer.IntervalMap.Cover.{covers_past, covers_before, Reaches, Ordered-Reaches}
use sawyer.IntervalMap.{IntervalMap, Nodes, interval_less, interval_compare}

pub below : (top x : ℕ) → 1 ≤ x → x ≤ top → sub_wrap top x 1 ≡ x - 1
below top x h k = ground (arith, sub_wrap-cases top x 1)

pub hull_of_lem : (x y : ℕ) → x ≤ y → hull_of x y ≡ interval x y
unfolding hull_of
hull_of_lem x y h =
    let least : min x y ≡ x = omega arith in
    let greatest : max x y ≡ y = omega arith in rw (least, greatest) refl

module _ {ℓ} {V : Type ℓ} (top : ℕ) where
  -- The first interval of keys from `from` on that are not in the map, as long as it can be; empty if
  -- there is none.
  abbrev pub IsGap : ℕ → Nodes V → Interval → Type 0
  IsGap from m i =
      ((is_empty i ≡ true) × ((x : ℕ) → from ≤ x → x ≤ top → covers x m ≡ true))
      ⊎ ((from ≤ i.lo)
          × (i.lo ≤ i.hi)
          × (i.hi ≤ top)
          × ((x : ℕ) → from ≤ x → x < i.lo → covers x m ≡ true)
          × ((x : ℕ) → has i x ≡ true → covers x m ≡ false)
          × ((i.hi ≡ top) ⊎ (covers (i.hi + 1) m ≡ true)))

  -- The same for one key.
  abbrev pub IsFree : ℕ → Nodes V → Option ℕ → Type 0
  IsFree from m none = (x : ℕ) → from ≤ x → x ≤ top → covers x m ≡ true
  IsFree from m (some y) =
      (from ≤ y)
      × (y ≤ top)
      × (covers y m ≡ false)
      × ((x : ℕ) → from ≤ x → x < y → covers x m ≡ true)

  step :
      (from : ℕ) (n : Interval × V) (m : Nodes V)
      → n.0.lo ≤ from
      → from ≤ n.0.hi
      → (i : Interval) → IsGap (n.0.hi + 1) m i
      → IsGap from (n ∷ m) i
  step from n m h k i (inl (e, all)) = inl (e, λ x p q. ground (arith, all x))
  step from n m h k i (inr (ge, full, fits, mapped, free, last)) = inr (
    omega arith,
    full,
    fits,
    (λ x p q. ground (arith, mapped x)),
    (λ x p. ground (arith, free x p)),
    ground (arith, last),
  )

  unmapped_from-IsGap :
      (b from : ℕ) (m : Nodes V)
      → from ≤ top
      → Ordered top b m
      → Reaches from m
      → IsGap from m (unmapped_from top from m)
  unfolding unmapped_from
  unmapped_from-IsGap b from [] h o r =
      let all : unmapped_from {V = V} top from [] ≡ interval from top = hull_of_lem from top h in
      subst (IsGap from []) (sym all) (
        inr (omega arith, h, omega arith, (λ x p q. absurd (omega arith)), (λ x p. refl), inl refl))
  unmapped_from-IsGap b from (n ∷ m) h o r = elim (Bool-cases (ltb from n.0.lo)) [
    | inl free ↦
        let here : unmapped_from {V = V} top from (n ∷ m) ≡ interval from (n.0.lo - 1) =
          rw (free, below top n.0.lo (ground arith) (omega arith))
            (hull_of_lem from (n.0.lo - 1) (ground arith)) in
        subst (IsGap from (n ∷ m)) (sym here) (
          inr (
            omega arith,
            ground arith,
            ground arith,
            (λ x p q. absurd (omega arith)),
            (λ x p. covers_before top n.0.lo x (n ∷ m) (omega arith, o.1, o.2, o.3) (ground arith)),
            inr (ground arith),
          ))
    | inr within ↦ elim (Bool-cases (n.0.hi == top)) [
      | inl full ↦
          let here : unmapped_from {V = V} top from (n ∷ m) ≡ empty = rw (within, full) refl in
          subst (IsGap from (n ∷ m)) (sym here)
            (inl ((unfold is_empty in refl), λ x p q. ground arith))
      | inr more ↦
          let here : unmapped_from {V = V} top from (n ∷ m) ≡ unmapped_from top (n.0.hi + 1) m =
            rw (within, more, add_one top n.0.hi (ground arith)) refl in
          subst (IsGap from (n ∷ m)) (sym here) (
            step from n m (ground arith) r (unmapped_from top (n.0.hi + 1) m) (
              unmapped_from-IsGap (suc n.0.hi) (n.0.hi + 1) m (ground arith) o.3
                (Ordered-Reaches top (suc n.0.hi) (n.0.hi + 1) m (omega arith) o.3)))
    ]
  ]

  least_step :
      (from : ℕ) (n : Interval × V) (m : Nodes V)
      → n.0.lo ≤ from
      → from ≤ n.0.hi
      → (r : Option ℕ) → IsFree (n.0.hi + 1) m r
      → IsFree from (n ∷ m) r
  least_step from n m h k none all = λ x p q. ground (arith, all x)
  least_step from n m h k (some y) (ge, fits, free, mapped) =
      (omega arith, fits, ground arith, λ x p q. ground (arith, mapped x))

  least_from-IsFree :
      (b from : ℕ) (m : Nodes V)
      → from ≤ top
      → Ordered top b m
      → Reaches from m
      → IsFree from m (least_unmapped_from top from m)
  unfolding least_unmapped_from
  least_from-IsFree b from [] h o r = (omega arith, h, refl, λ x p q. absurd (omega arith))
  least_from-IsFree b from (n ∷ m) h o r =
      go
        (λ more.
          (least_from-IsFree (suc n.0.hi) (n.0.hi + 1) m (omega arith) o.3
            (Ordered-Reaches top (suc n.0.hi) (n.0.hi + 1) m (omega arith) o.3)))
        (ltb from n.0.lo) refl (leb (add_wrap top n.0.hi 1) n.0.lo) refl
    where
      go :
          (n.0.hi < top → IsFree (n.0.hi + 1) m (least_unmapped_from top (n.0.hi + 1) m))
          → (c : Bool) → ltb from n.0.lo ≡ c
          → (d : Bool) → leb (add_wrap top n.0.hi 1) n.0.lo ≡ d
          → IsFree from (n ∷ m) (
              if c
              then some from
              else if d
              then none
              else least_unmapped_from top (add_wrap top n.0.hi 1) m)
      go onward true e d f = (
        omega arith,
        h,
        covers_before top n.0.lo from (n ∷ m) (omega arith, o.1, o.2, o.3) (ground arith),
        λ x p q. absurd (omega arith),
      )
      go onward false e true f = λ x p q.
          let wraps : n.0.hi ≡ top =
            ground (arith, add_wrap-cases top n.0.hi 1, add_wrap-le top n.0.hi 1) in
          ground arith
      go onward false e false f =
          let more : n.0.hi < top =
            ground (arith, add_wrap-cases top n.0.hi 1, add_wrap-le top n.0.hi 1) in
          rw (add_one top n.0.hi more) (
            least_step from n m (ground arith) r (least_unmapped_from top (n.0.hi + 1) m)
              (onward more))

  pub Cut-Reaches : (x : ℕ) (m : Nodes V) (c : Cursor Interval V) → Cut x m c → Reaches x c.after
  Cut-Reaches x m c cut = go c.after refl
    where
      go : (after : Nodes V) → c.after ≡ after → Reaches x after
      go [] e = tt
      go (n ∷ rest) e = cut.head_open n rest e

  -- The nodes before the lower bound hold no key from there on.
  pub Cut-covers :
      (from x : ℕ) (m : Nodes V) (c : Cursor Interval V)
      → Cut from m c
      → from ≤ x
      → covers x m ≡ covers x c.after
  Cut-covers from x m c cut h =
      ap (covers x) (sym cut.whole) ∙ covers_past x from c.before c.after cut.ended h

  lift-IsGap :
      (from : ℕ) (m after : Nodes V) (i : Interval)
      → ((x : ℕ) → from ≤ x → covers x m ≡ covers x after)
      → IsGap from after i
      → IsGap from m i
  lift-IsGap from m after i same (inl (e, all)) = inl (e, λ x p q. same x p ∙ all x p q)
  lift-IsGap from m after i same (inr (ge, full, fits, mapped, free, last)) = inr (
    ge,
    full,
    fits,
    (λ x p q. same x p ∙ mapped x p q),
    (λ x p. same x (ground arith) ∙ free x p),
    elim last [ inl e ↦ inl e | inr e ↦ inr (same (i.hi + 1) (omega arith) ∙ e) ],
  )

  lift-IsFree :
      (from : ℕ) (m after : Nodes V) (r : Option ℕ)
      → ((x : ℕ) → from ≤ x → covers x m ≡ covers x after)
      → IsFree from after r
      → IsFree from m r
  lift-IsFree from m after none same all = λ x p q. same x p ∙ all x p q
  lift-IsFree from m after (some y) same (ge, fits, free, mapped) =
      (ge, fits, same y ge ∙ free, λ x p q. same x p ∙ mapped x p q)

  -- In a valid map, `firstUnmapped(from)` is the first interval of keys from `from` on that are not in the map, as
  -- long as it can be, and it is empty only if all those keys are in the map.
  pub first_unmapped-IsGap :
      (from : ℕ) (m : IntervalMap V)
      → from ≤ top
      → IsValid top m
      → IsGap from m.nodes (first_unmapped top from m)
  unfolding first_unmapped
  first_unmapped-IsGap from m h v =
      let c = lower_bound from m.nodes in
      let cut = lower_bound-Cut top from m.nodes v.ordered in
      lift-IsGap from m.nodes c.after (unmapped_from top from c.after)
        (λ x. Cut-covers from x m.nodes c cut)
        (unmapped_from-IsGap 0 from c.after h
          (Ordered-after top c.before c.after (rw cut.whole v.ordered))
          (Cut-Reaches from m.nodes c cut))

  -- In a valid map, `leastUnmapped(from)` is the least key from `from` on that is not in the map, and `Nothing` only
  -- if all those keys are in the map.
  pub least_unmapped-IsFree :
      (from : ℕ) (m : IntervalMap V)
      → from ≤ top
      → IsValid top m
      → IsFree from m.nodes (least_unmapped top from m)
  unfolding least_unmapped
  least_unmapped-IsFree from m h v =
      let c = lower_bound from m.nodes in
      let cut = lower_bound-Cut top from m.nodes v.ordered in
      lift-IsFree from m.nodes c.after (least_unmapped_from top from c.after)
        (λ x. Cut-covers from x m.nodes c cut)
        (least_from-IsFree 0 from c.after h
          (Ordered-after top c.before c.after (rw cut.whole v.ordered))
          (Cut-Reaches from m.nodes c cut))
