-- ===== src/IntervalMap/Answers.antt =====
-- The lookups of Sawyer/IntervalMap.h by scalar key, and what insertion and erasure do to them under
-- the default policy.
use sawyer.Prelude.{
  ℕ, ◌≤◌, ◌≡◌, Bool, true, false, if◌then◌else◌, Option, none, some, [], ◌∷◌, inl, inr, arith, refl,
  ◌∙◌, sym, Bool-cases,
}
use sawyer.Interval.{Interval, has}
use sawyer.Interval
use sawyer.IntervalMap.Change.{insert, erase}
use sawyer.IntervalMap.Query.{get_optional, get, get_or_else, get_or_default, exists}
use sawyer.IntervalMap.Shape.{holding, IsValid}
use sawyer.IntervalMap.Meaning.{value_at, merge_policy-Meaning, erase-value_at}
use sawyer.IntervalMap.Insert.{insert-value_at}
use sawyer.IntervalMap.Lookup.{find_cases}
use sawyer.IntervalMap.{IntervalMap, Nodes, merge_policy, empty_map}

module _ {ℓ} {V : Type ℓ} where
  abbrev pub scan : ℕ → Nodes V → Option V
  scan x [] = none
  scan x (n ∷ m) = if has n.0 x then some n.1 else scan x m

  scan-holding :
      (x : ℕ) (m : Nodes V) → scan x m ≡ elim (holding x m) [ none ↦ none | some n ↦ some n.1 ]
  scan-holding x [] = refl
  scan-holding x (n ∷ m) = elim (Bool-cases (has n.0 x)) [
    | inl p ↦ rw p
    | inr p ↦ rw p (scan-holding x m)
  ]

  pub get_optional-scan :
      (top x : ℕ) (m : IntervalMap V) → IsValid top m → get_optional x m ≡ scan x m.nodes
  unfolding get_optional
  get_optional-scan top x m v = elim (find_cases top x m.nodes v.ordered) [
    | inl (missing, none_held) ↦ rw (missing, scan-holding x m.nodes, none_held, get_optional)
    | inr (n, rest, found, held) ↦ rw (found.after_eq, scan-holding x m.nodes, held, get_optional)
  ]

  -- In a valid map every lookup by a scalar key shows the value of the node that a scan finds.
  pub lookups-scan :
      (top x : ℕ) (m : IntervalMap V) (dflt : V)
      → IsValid top m
      → (get_optional x m ≡ scan x m.nodes)
        × (get x m ≡ scan x m.nodes)
        × (exists x m ≡ elim (scan x m.nodes) [ none ↦ false | some v ↦ true ])
        × (get_or_else x dflt m ≡ elim (scan x m.nodes) [ none ↦ dflt | some v ↦ v ])
        × (get_or_default dflt x m ≡ elim (scan x m.nodes) [ none ↦ dflt | some v ↦ v ])
  unfolding get_optional get exists get_or_else get_or_default
  lookups-scan top x m dflt v = elim (find_cases top x m.nodes v.ordered) [
    | inl (missing, none_held) ↦
        rw
          (
            missing,
            scan-holding x m.nodes,
            none_held,
            get_optional,
            get,
            exists,
            get_or_else,
            get_or_default,
          )
          (refl, refl, refl, refl, refl)
    | inr (n, rest, found, held) ↦
        rw
          (
            found.after_eq,
            scan-holding x m.nodes,
            held,
            get_optional,
            get,
            exists,
            get_or_else,
            get_or_default,
          )
          (refl, refl, refl, refl, refl)
  ]

  -- An empty map is valid and shows nothing.
  pub get_optional-empty :
      (top : ℕ)
      → IsValid {V = V} top empty_map × ((x : ℕ) → get_optional {V = V} x empty_map ≡ none)
  unfolding empty_map
  get_optional-empty top =
      let v : IsValid {V = V} top empty_map = record {
        ordered = tt;
        counted = inl (omega arith, refl);
      } in
      (v, λ x. get_optional-scan top x empty_map v)

module _ {V : Type 0} (eq : V → V → Bool) (sound : (a b : V) → eq a b ≡ true → a ≡ b) where
  abbrev values : ℕ → Nodes V → Option V
  values = value_at (merge_policy-Meaning eq sound)

  values-scan : (x : ℕ) (m : Nodes V) → values x m ≡ scan x m
  unfolding merge_policy-Meaning
  values-scan x [] = refl
  values-scan x (n ∷ m) = elim (Bool-cases (has n.0 x)) [
    | inl p ↦ rw p
    | inr p ↦ rw p (values-scan x m)
  ]

  values-get : (top x : ℕ) (m : IntervalMap V) → IsValid top m → values x m.nodes ≡ get_optional x m
  values-get top x m v = values-scan x m.nodes ∙ sym (get_optional-scan top x m v)

  -- Under the default policy, with an `operator==` that tells values apart: after the insertion of a
  -- valid interval into a valid map, which never fails, the map is valid, the keys of the interval have
  -- the value, and the others what they had.
  pub get_optional-insert :
      (top : ℕ)
      → 1 ≤ top
      → (key : Interval) (value : V) (m : IntervalMap V) → Interval.IsValid top key
      → IsValid top m
      → (r : IntervalMap V) × (insert top (merge_policy eq) key value true m ≡ some r)
        × IsValid top r
        × ((x : ℕ) → get_optional x r ≡ (if has key x then some value else get_optional x m))
  unfolding merge_policy-Meaning
  get_optional-insert top wide key value m k v =
      let (r, run, valid, shown) =
        insert-value_at (merge_policy-Meaning eq sound) top wide key value m k v in
      (r, run, valid, λ x. sym (values-get top x r valid) ∙ shown x ∙ rw (values-get top x m v))

  -- Under the default policy, with an `operator==` that tells values apart: after the erasure of a
  -- non-empty interval within the scalar type from a valid map, which never fails, the map is valid,
  -- the keys of the interval are gone, and the others have what they had.
  pub get_optional-erase :
      (top : ℕ)
      → 1 ≤ top
      → (e : Interval) (m : IntervalMap V) → e.lo ≤ e.hi
      → e.hi ≤ top
      → IsValid top m
      → (r : IntervalMap V) × (erase top (merge_policy eq) e m ≡ some r)
        × IsValid top r
        × ((x : ℕ) → get_optional x r ≡ (if has e x then none else get_optional x m))
  get_optional-erase top wide e m p q v =
      let (r, run, valid, shown) =
        erase-value_at (merge_policy-Meaning eq sound) top e p wide q m v in
      (r, run, valid, λ x. sym (values-get top x r valid) ∙ shown x ∙ rw (values-get top x m v))
