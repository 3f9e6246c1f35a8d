-- ===== src/IntervalMap/Insert.antt =====
-- `insert` of Sawyer/IntervalMap.h, with a hole made for the key or not.
pub mod Merge
use sawyer.Prelude.Word.{add_wrap}
use sawyer.Prelude.{
  ℕ, suc, ◌+◌, ◌-◌, ◌≤◌, ◌<◌, ◌≡◌, Bool, true, false, ◌&&◌, ◌||◌, ltb, leb, ◌==◌, if◌then◌else◌,
  Option, none, some, List, [], ◌∷◌, ◌++◌, ◌⊎◌, inl, inr, arith, refl, ◌>>=◌, ap, ◌∙◌, sym,
  Bool-cases, not,
}
use sawyer.Interval.{Interval, has, hull_of, size, is_empty, overlaps}
use sawyer.Interval
use sawyer.Interval.Sets.{overlaps-has}
use sawyer.Map
use sawyer.Map.{rewind, Cursor}
use sawyer.IntervalMap.Change.{
  Inserting, merge_left, merge_right, insert_finish, insert_hole, insert, blocked, erase,
}
use sawyer.IntervalMap.Find.{lower_bound}
use sawyer.IntervalMap.Shape.{
  Ordered, Apart, covers, total, EndBefore, Ordered-after, total_bound, Counts, Counts-add,
  Counts-size, IsValid,
}
use sawyer.IntervalMap.Carve.{interval, carve, carve-Apart, carve-Ordered}
use sawyer.IntervalMap.Erase.{Cut, lower_bound-Cut, erase-carve, not_empty}
use sawyer.IntervalMap.Meaning.{Meaning, value_at, value_at_before, carve-value_at}
use sawyer.IntervalMap.Lookup.{covers-rewind, Apart-covers, Apart-rewind, Apart-past}
use sawyer.IntervalMap.{IntervalMap, Nodes, Policy, interval_less, interval_compare}
use Merge.{Ready, Keeps, shows, held, merge_left-Keeps, merge_right-Keeps}

pub blocked_lem {ℓ} :
    {V : Type ℓ} (top : ℕ) (key : Interval) (m : Nodes V)
    → key.lo ≤ key.hi
    → key.hi ≤ top
    → Ordered top 0 m
    → (blocked key m ≡ false → Apart key m)
      × (blocked key m ≡ true → (x : ℕ) × (has key x ≡ true) × (covers x m ≡ true))
unfolding blocked
blocked_lem {V} top key m full fits o =
    let cut = lower_bound-Cut top key.lo m o in
    go (lower_bound key.lo m) cut (lower_bound key.lo m).after refl (
      Ordered-after top (lower_bound key.lo m).before (lower_bound key.lo m).after (rw cut.whole o))
  where
    go :
        (c : Cursor Interval V)
        → Cut key.lo m c
        → (after : Nodes V) → c.after ≡ after
        → Ordered top 0 c.after
        → ((elim c.after [ [] ↦ false | n ∷ rest ↦ overlaps key n.0 ]) ≡ false → Apart key m)
          × ((elim c.after [ [] ↦ false | n ∷ rest ↦ overlaps key n.0 ]) ≡ true
              → (x : ℕ) × (has key x ≡ true) × (covers x m ≡ true))
    go c cut [] e o = (
      λ h. rw (← cut.whole, e) (Apart-rewind key c.before [] cut.ended tt),
      λ h. let wrong : false ≡ true = rw e at h in cc,
    )
    go c cut (n ∷ rest) e o =
        let o' : Ordered top 0 (n ∷ rest) = rw e at o in
        let meets = overlaps-has {top = top} key n.0 (inr (full, fits)) (inr (o'.1, o'.2)) in
        (
          λ h.
              let clear : overlaps key n.0 ≡ false = rw e at h in
              let past : key.hi < n.0.lo =
                unfold overlaps in ground (arith, cut.head_open n rest e) in
              rw (← cut.whole, e)
                (Apart-rewind key c.before (n ∷ rest) cut.ended
                  (Apart-past top n.0.lo key (n ∷ rest) (omega arith, o'.1, o'.2, o'.3) past)),
          λ h.
              let (x, p, q) = meets.0 (rw e at h) in
              (x, p, rw (← cut.whole, e) (covers-rewind x c.before (n ∷ rest) (rw q))),
        )

module _ {ℓ} {V : Type ℓ} {policy : Policy V} {D : Type 0} (meaning : Meaning policy D)
    (top : ℕ) where
  -- `map_.insert` into a hole.
  module _ (k : Interval) (v : V) (full : k.lo ≤ k.hi) (fits : k.hi ≤ top) where
    place-Ordered :
        (b : ℕ) (m : Nodes V)
        → Ordered top b m
        → b ≤ k.lo
        → Apart k m
        → Ordered top b (Map.insert k v m)
    unfolding Map.insert interval_less
    place-Ordered b [] o h a = (h, full, fits, tt)
    place-Ordered b (n ∷ m) o h a = ground (arith, place-Ordered (suc n.0.hi) m o.3)

    place-total :
        (b : ℕ) (m : Nodes V)
        → Ordered top b m
        → Apart k m
        → total (Map.insert k v m) ≡ total m + (k.hi + 1 - k.lo)
    unfolding Map.insert interval_less
    place-total b [] o a = omega arith
    place-total b (n ∷ m) o a = ground (arith, place-total (suc n.0.hi) m o.3)

    place-value_at :
        (b x : ℕ) (m : Nodes V)
        → Ordered top b m
        → Apart k m
        → value_at meaning x (Map.insert k v m)
          ≡ (if has k x then some (meaning.den k v x) else value_at meaning x m)
    unfolding Map.insert interval_less
    place-value_at b x [] o a = refl
    place-value_at b x (n ∷ m) o a = ground (arith, place-value_at (suc n.0.hi) x m o.3)

  finish_lem :
      1 ≤ top
      → (s : Inserting V) → Ready top s
      → IsValid top (insert_finish top policy s)
        × ((x : ℕ) → value_at meaning x (insert_finish top policy s).nodes ≡ shows meaning top x s)
  unfolding insert_finish
  finish_lem wide s r =
      let o = place-Ordered s.key s.value r.full r.fits 0 s.nodes r.ordered (omega arith) r.apart in
      let t = place-total s.key s.value r.full r.fits 0 s.nodes r.ordered r.apart in
      (
        record {
          ordered = o;
          counted = rw t (
              Counts-add top s.count (size top s.key) (total s.nodes) (s.key.hi + 1 - s.key.lo)
                r.counted (Counts-size top s.key wide r.full r.fits)
                (omega (
                  arith,
                  t,
                  total_bound top 0 (Map.insert s.key s.value s.nodes) (omega arith) o,
                )));
        },
        λ x. place-value_at s.key s.value r.full r.fits 0 x s.nodes r.ordered r.apart,
      )

  insert_hole_lem :
      1 ≤ top
      → (key : Interval) (value : V) (m : IntervalMap V) → key.lo ≤ key.hi
      → key.hi ≤ top
      → IsValid top m
      → Apart key m.nodes
      → IsValid top (insert_hole top policy key value m)
        × ((x : ℕ)
            → value_at meaning x (insert_hole top policy key value m).nodes
              ≡ (if has key x then some (meaning.den key value x) else value_at meaning x m.nodes))
  unfolding insert_hole
  insert_hole_lem wide key value m full fits v apart =
      let s : Inserting V = record { key = key; value = value; nodes = m.nodes; count = m.count } in
      let ready : Ready top s = record {
        ordered = v.ordered;
        apart = apart;
        full = full;
        fits = fits;
        counted = v.counted;
      } in
      let l = merge_left-Keeps meaning top wide s ready in
      let r = merge_right-Keeps meaning top wide (merge_left top policy s) l.ready in
      let (valid, value_eq) =
        finish_lem wide (merge_right top policy (merge_left top policy s)) r.ready in
      (valid, λ x. value_eq x ∙ r.shows_eq x ∙ l.shows_eq x)

  -- For a policy with a meaning, inserting a valid interval with a hole into a valid map succeeds and
  -- keeps the map valid; the keys of the interval get the new value's meaning and the others keep
  -- theirs.
  pub insert-value_at :
      1 ≤ top
      → (key : Interval) (value : V) (m : IntervalMap V) → Interval.IsValid top key
      → IsValid top m
      → (r : IntervalMap V) × (insert top policy key value true m ≡ some r)
        × IsValid top r
        × ((x : ℕ)
            → value_at meaning x r.nodes
              ≡ (if has key x then some (meaning.den key value x) else value_at meaning x m.nodes))
  unfolding insert
  insert-value_at wide key value m (inl (p, q)) v =
      let gone : is_empty key ≡ true = unfold is_empty in ground arith in
      (m, rw gone, v, λ x. let out : has key x ≡ false = ground arith in rw out)
  insert-value_at wide key value m (inr (full, fits)) v =
      let (c, run, counted) = erase-carve top policy key wide full fits m v in
      let hole : IntervalMap V = record { nodes = carve policy key m.nodes; count = c } in
      let ready : IsValid top hole = record {
        ordered = carve-Ordered policy top key full 0 m.nodes v.ordered;
        counted = counted;
      } in
      let (good, shown) =
        insert_hole_lem wide key value hole full fits ready
          (carve-Apart policy top key full 0 m.nodes v.ordered) in
      (
        insert_hole top policy key value hole,
        rw (not_empty key full, run),
        good,
        λ x.
            shown x ∙ rw (carve-value_at meaning top key full 0 x m.nodes v.ordered) (ground arith),
      )

  -- For a policy with a meaning, inserting a valid interval without a hole into a valid map changes
  -- nothing if a key of the interval is there already; otherwise it succeeds and keeps the map valid,
  -- the keys of the interval get the new value's meaning and the others keep theirs.
  pub insert-no_hole :
      1 ≤ top
      → (key : Interval) (value : V) (m : IntervalMap V) → Interval.IsValid top key
      → IsValid top m
      → ((x : ℕ) × (has key x ≡ true)
          × (covers x m.nodes ≡ true)
          × (insert top policy key value false m ≡ some m))
        ⊎ (((x : ℕ) → has key x ≡ true → covers x m.nodes ≡ false)
            × (r : IntervalMap V) × (insert top policy key value false m ≡ some r)
            × IsValid top r
            × ((x : ℕ)
                → value_at meaning x r.nodes ≡ (
                    if has key x
                    then some (meaning.den key value x)
                    else value_at meaning x m.nodes)))
  unfolding insert
  insert-no_hole wide key value m (inl (p, q)) v =
      let gone : is_empty key ≡ true = unfold is_empty in ground arith in
      inr (
        (λ x h. ground arith),
        m,
        rw gone,
        v,
        λ x. let out : has key x ≡ false = ground arith in rw out,
      )
  insert-no_hole wide key value m (inr (full, fits)) v =
      let (clear, hit) = blocked_lem top key m.nodes full fits v.ordered in
      elim (Bool-cases (blocked key m.nodes)) [
        | inl b ↦ let (x, p, q) = hit b in inl (x, p, q, rw (not_empty key full, b))
        | inr b ↦
            let (good, shown) = insert_hole_lem wide key value m full fits v (clear b) in
            inr (
              (λ x. Apart-covers key x m.nodes (clear b)),
              insert_hole top policy key value m,
              rw (not_empty key full, b),
              good,
              shown,
            )
      ]
