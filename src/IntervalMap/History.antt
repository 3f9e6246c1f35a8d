-- ===== src/IntervalMap/History.antt =====
-- A map of Sawyer/IntervalMap.h over its whole life, under the default policy.
use sawyer.Prelude.{
  ℕ, ◌≤◌, ◌≡◌, Bool, true, false, if◌then◌else◌, Option, none, some, List, [], ◌∷◌, inl, inr, arith,
  refl, ◌∙◌, ◌>>=◌,
}
use sawyer.Interval.{Interval, has, is_empty}
use sawyer.Interval
use sawyer.Map
use sawyer.IntervalMap.Change.{insert, erase, clear}
use sawyer.IntervalMap.Query.{get_optional}
use sawyer.IntervalMap.Shape.{IsValid}
use sawyer.IntervalMap.Answers.{get_optional-insert, get_optional-erase, get_optional-empty}
use sawyer.IntervalMap.{IntervalMap, merge_policy, empty_map}

-- A call that changes a map.
pub data Call (V : Type 0) : Type 0 where
  inserts : Interval → V → Call V
  erases : Interval → Call V
  clears : Call V

module _ {V : Type 0} where
  -- The interval of a call is empty or within the scalar type.
  abbrev pub Proper : ℕ → Call V → Type 0
  Proper top (inserts key value) = Interval.IsValid top key
  Proper top (erases e) = Interval.IsValid top e
  Proper top clears = Unit

  abbrev pub AllProper : ℕ → List (Call V) → Type 0
  AllProper top [] = Unit
  AllProper top (c ∷ calls) = Proper top c × AllProper top calls

  -- A partial function from keys to values, and what a call means for it.
  abbrev pub effect : Call V → (ℕ → Option V) → ℕ → Option V
  effect (inserts key value) f x = if has key x then some value else f x
  effect (erases e) f x = if has e x then none else f x
  effect clears f x = none

  abbrev pub effects : List (Call V) → (ℕ → Option V) → ℕ → Option V
  effects [] f = f
  effects (c ∷ calls) f = effects calls (effect c f)

module _ {V : Type 0} (eq : V → V → Bool) where
  -- The calls, one after another.
  unfoldable pub perform : ℕ → Call V → IntervalMap V → Option (IntervalMap V)
  perform top (inserts key value) m = insert top (merge_policy eq) key value true m
  perform top (erases e) m = erase top (merge_policy eq) e m
  perform top clears m = some (clear m)

  unfoldable pub perform_all : ℕ → List (Call V) → IntervalMap V → Option (IntervalMap V)
  unfolding perform
  perform_all top [] m = some m
  perform_all top (c ∷ calls) m = perform top c m >>= λ r. perform_all top calls r

module _ {V : Type 0} (eq : V → V → Bool) (sound : (a b : V) → eq a b ≡ true → a ≡ b) (top : ℕ)
    (wide : 1 ≤ top) where
  -- A map that shows a partial function.
  abbrev Shows : Option (IntervalMap V) → (ℕ → Option V) → Type 0
  Shows s f =
      (r : IntervalMap V) × (s ≡ some r) × IsValid top r × ((x : ℕ) → get_optional x r ≡ f x)

  perform-effect :
      (c : Call V) (m : IntervalMap V)
      → Proper top c
      → IsValid top m
      → Shows (perform eq top c m) (effect c (λ x. get_optional x m))
  unfolding perform
  perform-effect (inserts key value) m p v = get_optional-insert eq sound top wide key value m p v
  perform-effect (erases e) m (inl (p, q)) v =
      let gone : is_empty e ≡ true = unfold is_empty in ground arith in
      (m, (unfold erase in rw gone), v, λ x. let out : has e x ≡ false = ground arith in rw out)
  perform-effect (erases e) m (inr (full, fits)) v =
      get_optional-erase eq sound top wide e m full fits v
  perform-effect clears m p v =
      let (valid, nothing) = get_optional-empty {V = V} top in
      (empty_map, (unfold clear Map.clear empty_map in refl), valid, nothing)

  effect_congr :
      (c : Call V) (f g : ℕ → Option V)
      → ((x : ℕ) → f x ≡ g x)
      → (x : ℕ) → effect c f x ≡ effect c g x
  effect_congr (inserts key value) f g same x = rw (same x)
  effect_congr (erases e) f g same x = rw (same x)
  effect_congr clears f g same x = refl

  perform_all-from :
      (calls : List (Call V)) (m : IntervalMap V) (f : ℕ → Option V)
      → AllProper top calls
      → IsValid top m
      → ((x : ℕ) → get_optional x m ≡ f x)
      → Shows (perform_all eq top calls m) (effects calls f)
  unfolding perform_all
  perform_all-from [] m f p v same = (m, refl, v, same)
  perform_all-from (c ∷ calls) m f p v same =
      let (r, run, valid, shown) = perform-effect c m p.0 v in
      rw run (
        perform_all-from calls r (effect c f) p.1 valid
          (λ x. shown x ∙ effect_congr c (λ y. get_optional y m) f same x))

  -- Under the default policy, with an `operator==` that tells values apart, calls with intervals within
  -- the scalar type succeed on a new map, whatever their order: they leave a valid map, which at every
  -- key shows what the same calls make of the partial function that is defined nowhere.
  pub perform_all-effects :
      (calls : List (Call V))
      → AllProper top calls
      → (r : IntervalMap V) × (perform_all eq top calls empty_map ≡ some r)
        × IsValid top r
        × ((x : ℕ) → get_optional x r ≡ effects calls (λ y. none) x)
  perform_all-effects calls p =
      let (valid, nothing) = get_optional-empty {V = V} top in
      perform_all-from calls empty_map (λ y. none) p valid nothing
