-- ===== src/Interval/Iterator.antt =====
-- `Interval::ConstIterator` of Sawyer/Interval.h. The positions one before the least value and one
-- after the greatest are marked by a flag, so that a loop over the whole type ends.
pub mod Moves
use Prim.Native.Nat.{zero, suc}
use sawyer.Prelude.Word.{add_wrap, sub_wrap, add_wrap-cases, sub_wrap-cases}
use sawyer.Prelude.{
  ℕ, ◌+◌, ◌-◌, ◌≤◌, ◌<◌, ◌≡◌, sym, ◌∙◌, Bool, true, false, ◌&&◌, ◌||◌, ◌==◌, arith, refl,
  if◌then◌else◌, ◌⊎◌, Option, none, some, ◌>>=◌, Bool-cases, List, [], ◌∷◌, inl, inr, ◌≢◌,
}
use sawyer.Interval.{Interval, IsValid, is_empty}

pub record ConstIterator : Type 0 where
  pub first : ℕ
  pub cur : ℕ
  pub last : ℕ
  pub at_end : Bool

-- ConstIterator()
abbrev pub no_values : ConstIterator
no_values = record { first = 0; cur = 0; last = 0; at_end = true }

abbrev pub start_at : ℕ → ℕ → ℕ → ConstIterator
start_at first last cur = record { first = first; cur = cur; last = last; at_end = false }

-- `none` is a failed assertion.
unfoldable pub dereference : ConstIterator → Option ℕ
dereference it = if it.at_end then none else some it.cur

unfoldable pub equal : ConstIterator → ConstIterator → Bool
equal it other =
    if it.at_end || other.at_end then it.at_end && other.at_end else it.cur == other.cur

module _ (top : ℕ) where
  unfoldable pub increment : ConstIterator → Option ConstIterator
  increment it =
      if it.cur == it.last
      then some (record it { at_end = true })
      else if it.at_end
      then (if it.cur == it.first then some (record it { at_end = false }) else none)
      else some (record it { cur = add_wrap top it.cur 1 })

  unfoldable pub decrement : ConstIterator → Option ConstIterator
  decrement it =
      if it.cur == it.first
      then some (record it { at_end = true })
      else if it.at_end
      then (if it.cur == it.last then some (record it { at_end = false }) else none)
      else some (record it { cur = sub_wrap top it.cur 1 })

  unfoldable pub begin : Interval → ConstIterator
  unfolding is_empty
  begin i = if is_empty i then no_values else start_at i.lo i.hi i.lo

  unfoldable pub end : Interval → Option ConstIterator
  unfolding is_empty increment
  end i = if is_empty i then some no_values else increment (start_at i.lo i.hi i.hi)

  -- `for (iter = begin; iter != end; ++iter) visit(*iter)`: the visited values. `none` is a failed
  -- assertion or no fuel.
  pub visited : ℕ → ConstIterator → ConstIterator → Option (List ℕ)
  visited zero it stop = none
  visited (suc fuel) it stop = elim (equal it stop) [
    | true ↦ some []
    | false ↦ elim (dereference it) [
      | none ↦ none
      | some x ↦ elim (increment it) [
        | none ↦ none
        | some next ↦ elim (visited fuel next stop) [ none ↦ none | some xs ↦ some (x ∷ xs) ]
      ]
    ]
  ]

-- n values from x on
abbrev pub ascending : ℕ → ℕ → List ℕ
ascending x zero = []
ascending x (suc n) = x ∷ ascending (x + 1) n

module _ (top : ℕ) where
  visited-from :
      (n first cur last fuel : ℕ) (stop : ConstIterator)
      → stop.at_end ≡ true
      → cur + n ≡ last
      → last ≤ top
      → suc n < fuel
      → visited top fuel (start_at first last cur) stop ≡ some (ascending cur (suc n))
  unfolding visited equal dereference increment
  visited-from n first cur last zero stop e h le f = absurd (omega arith)
  visited-from n first cur last (suc zero) stop e h le f = absurd (omega arith)
  visited-from zero first cur last (suc (suc fuel)) stop e h le f = ground arith
  visited-from (suc n) first cur last (suc (suc fuel)) stop e h le f =
      ground
        (arith, add_wrap-cases top cur 1, visited-from n first (cur + 1) last (suc fuel) stop e)

  visited_facts :
      (i : Interval) (fuel : ℕ)
      → IsValid top i
      → i.hi + 2 ≤ fuel + i.lo
      → (end top i ≢ none)
        × ((stop : ConstIterator)
            → end top i ≡ some stop
            → visited top fuel (begin top i) stop ≡ some (ascending i.lo (i.hi + 1 - i.lo)))
  unfolding begin end
  visited_facts i zero v f = absurd (ground arith)
  visited_facts i (suc fuel) (inl (p, q)) f = (
    (λ h. ground arith),
    λ stop e.
        let w : i.hi + 1 - i.lo ≡ 0 = omega arith in rw w (unfold visited equal in ground arith),
  )
  visited_facts i (suc fuel) (inr (p, q)) f = (
    (λ h. ground arith),
    λ stop e.
        let w : i.hi + 1 - i.lo ≡ suc (i.hi - i.lo) = omega arith in
        let stopped : stop.at_end ≡ true = ground arith in
        let started : begin top i ≡ start_at i.lo i.hi i.lo = ground arith in
        rw (w, started)
          (visited-from (i.hi - i.lo) i.lo i.lo i.hi (suc fuel) stop stopped (omega arith) q
            (omega arith)),
  )

  -- A loop over a valid interval, the whole type included, ends within one step more than it has values,
  -- and visits its values in order.
  pub visited-ascending :
      (i : Interval) (fuel : ℕ)
      → IsValid top i
      → i.hi + 2 ≤ fuel + i.lo
      → (stop : ConstIterator) × (end top i ≡ some stop)
        × (visited top fuel (begin top i) stop ≡ some (ascending i.lo (i.hi + 1 - i.lo)))
  visited-ascending i fuel v f = go (end top i) refl
    where
      go :
          (r : Option ConstIterator)
          → end top i ≡ r
          → (stop : ConstIterator) × (r ≡ some stop)
            × (visited top fuel (begin top i) stop ≡ some (ascending i.lo (i.hi + 1 - i.lo)))
      go none e = absurd ((visited_facts i fuel v f).0 e)
      go (some stop) e = (stop, refl, (visited_facts i fuel v f).1 stop e)
