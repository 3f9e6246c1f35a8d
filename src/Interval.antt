-- ===== src/Interval.antt =====
-- `Sawyer::Container::Interval<T>` (Sawyer/Interval.h) for an unsigned T with greatest value `top`.
-- `least()` and `greatest()` are the fields where the source has just tested `isEmpty`, and the
-- checked `least` and `greatest` elsewhere. `none` is a failed assertion.
pub mod Sets
pub mod Bounds
pub mod Iterator
mod Tests
use sawyer.Prelude.Word.{add_wrap, sub_wrap}
use sawyer.Prelude.{
  ℕ, ◌≤◌, ◌≡◌, min, max, Bool, not, ◌&&◌, ◌||◌, ltb, leb, ◌==◌, if◌then◌else◌, Option, none, some,
  ◌⊎◌,
}

pub record Interval : Type 0 where
  pub lo : ℕ
  pub hi : ℕ

-- Interval()
abbrev pub empty : Interval
empty = record { lo = 1; hi = 0 }

-- Interval(T value)
unfoldable pub singleton : ℕ → Interval
singleton value = record { lo = value; hi = value }

-- static Interval hull(T v1, T v2)
unfoldable pub hull_of : ℕ → ℕ → Interval
hull_of v1 v2 = record { lo = min v1 v2; hi = max v1 v2 }

unfoldable pub is_empty : Interval → Bool
is_empty i = 1 == i.lo && 0 == i.hi

unfoldable pub is_singleton : Interval → Bool
is_singleton i = i.lo == i.hi

unfoldable pub least : Interval → Option ℕ
least i = if is_empty i then none else some i.lo

unfoldable pub greatest : Interval → Option ℕ
greatest i = if is_empty i then none else some i.hi

unfoldable pub equals : Interval → Interval → Bool
equals a b = a.lo == b.lo && a.hi == b.hi

unfoldable pub differs : Interval → Interval → Bool
differs a b = not (a.lo == b.lo) || not (a.hi == b.hi)

unfoldable pub contains : Interval → Interval → Bool
unfolding is_empty
contains a other = is_empty other || (not (is_empty a) && (leb a.lo other.lo && leb other.hi a.hi))

unfoldable pub is_left_of : Interval → Interval → Bool
unfolding is_empty
is_left_of a right = is_empty a || (is_empty right || ltb a.hi right.lo)

unfoldable pub is_right_of : Interval → Interval → Bool
unfolding is_empty
is_right_of a left = is_empty a || (is_empty left || ltb left.hi a.lo)

unfoldable pub intersection : Interval → Interval → Interval
unfolding is_empty hull_of
intersection a other =
    if is_empty a || (is_empty other || (ltb a.hi other.lo || ltb other.hi a.lo))
    then empty
    else hull_of (max a.lo other.lo) (min a.hi other.hi)

unfoldable pub overlaps : Interval → Interval → Bool
unfolding intersection is_empty
overlaps a other = not (is_empty (intersection a other))

-- Interval hull(const Interval &other) const
unfoldable pub hull : Interval → Interval → Interval
unfolding is_empty hull_of
hull a other =
    if is_empty a
    then other
    else if is_empty other
    then a
    else hull_of (min a.lo other.lo) (max a.hi other.hi)

-- Interval hull(T value) const
unfoldable pub hull_value : Interval → ℕ → Interval
unfolding is_empty hull_of singleton
hull_value a value =
    if is_empty a then singleton value else hull_of (min a.lo value) (max a.hi value)

-- The operations that depend on the width of T.
module _ (top : ℕ) where
  unfoldable pub base_size_overflows : ℕ → ℕ → Bool
  base_size_overflows base size = ltb (add_wrap top base size) base

  unfoldable pub base_size : ℕ → ℕ → Option Interval
  unfolding base_size_overflows hull_of
  base_size lo size =
      if base_size_overflows lo size
      then none
      else some (if 0 == size then empty else hull_of lo (sub_wrap top (add_wrap top lo size) 1))

  unfoldable pub base_size_sat : ℕ → ℕ → Option Interval
  unfolding base_size base_size_overflows hull_of
  base_size_sat lo size =
      if base_size_overflows lo size then some (hull_of lo top) else base_size lo size

  unfoldable pub whole : Interval
  unfolding hull_of
  whole = hull_of 0 top

  unfoldable pub is_whole : Interval → Bool
  is_whole i = i.lo == 0 && i.hi == top

  unfoldable pub is_left_adjacent : Interval → Interval → Bool
  unfolding is_empty is_whole
  is_left_adjacent a right =
      is_empty a || (is_empty right || (not (is_whole a) && add_wrap top a.hi 1 == right.lo))

  unfoldable pub is_right_adjacent : Interval → Interval → Bool
  unfolding is_empty is_whole
  is_right_adjacent a left =
      is_empty a || (is_empty left || (not (is_whole left) && add_wrap top left.hi 1 == a.lo))

  unfoldable pub is_adjacent : Interval → Interval → Bool
  unfolding is_empty is_whole
  is_adjacent a other =
      is_empty a
      || (is_empty other
          || ((not (is_whole a) && add_wrap top a.hi 1 == other.lo)
              || (not (is_whole other) && add_wrap top other.hi 1 == a.lo)))

  unfoldable pub size : Interval → ℕ
  unfolding is_empty
  size i = if is_empty i then 0 else add_wrap top (sub_wrap top i.hi i.lo) 1

  unfoldable pub split : Interval → ℕ → Interval × Interval
  unfolding is_empty hull_of
  split a split_point =
      if is_empty a
      then (empty, empty)
      else if ltb split_point a.lo
      then (empty, a)
      else if ltb split_point a.hi
      then (hull_of a.lo split_point, hull_of (add_wrap top split_point 1) a.hi)
      else (a, empty)

  unfoldable pub join : Interval → Interval → Option Interval
  unfolding is_empty hull
  join a right =
      if is_empty a
      then some right
      else if is_empty right
      then some a
      else if add_wrap top a.hi 1 == right.lo && ltb a.hi right.lo
      then some (hull a right)
      else none

  unfoldable pub shift_right_sat : Interval → ℕ → Interval
  unfolding is_empty base_size_overflows hull_of
  shift_right_sat a n =
      if is_empty a || base_size_overflows a.lo n
      then empty
      else if base_size_overflows a.hi n
      then hull_of (add_wrap top a.lo n) top
      else hull_of (add_wrap top a.lo n) (add_wrap top a.hi n)

-- The states that the constructors and operations make.
abbrev pub IsValid : ℕ → Interval → Type 0
IsValid top i = ((i.lo ≡ 1) × (i.hi ≡ 0)) ⊎ ((i.lo ≤ i.hi) × (i.hi ≤ top))

-- The set that an interval stands for.
abbrev pub has : Interval → ℕ → Bool
has i x = leb i.lo x && leb x i.hi
