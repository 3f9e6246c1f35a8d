-- ===== src/IntervalMap.antt =====
-- `Sawyer::Container::IntervalMap<I, T, Policy>` (Sawyer/IntervalMap.h): a `Map` from intervals to
-- values, ordered by the greatest values of the intervals.
pub mod Find
pub mod Change
pub mod Query
pub mod Shape
pub mod Carve
pub mod Erase
pub mod Meaning
pub mod Lookup
pub mod Insert
pub mod Answers
pub mod Cover
pub mod Gaps
pub mod Nearest
pub mod History
mod Tests
use sawyer.Prelude.Word.{add_wrap, sub_wrap}
use sawyer.Prelude.{
  ℕ, ◌+◌, ◌≤◌, ◌<◌, ◌≡◌, Bool, true, false, not, ◌&&◌, ◌||◌, ltb, leb, ◌==◌, if◌then◌else◌, Option,
  none, some, List, [], ◌∷◌, ◌>>=◌, ◌>>◌, require, arith,
}
use sawyer.Interval.{Interval, empty, is_empty, hull_of}
use sawyer.Interval
use sawyer.Map
use sawyer.Map.{Comparator}

abbrev pub Nodes {ℓ} : Type ℓ → Type ℓ
Nodes V = List (Interval × V)

-- The members `map_` and `size_`.
pub record IntervalMap {ℓ} (V : Type ℓ) : Type ℓ where
  pub nodes : Nodes V
  pub count : ℕ

-- The template parameter `Policy`. `merge` returns the left value after a merge, or `none` for
-- `false`, where neither value changes; `split` returns the left and the right value; `truncate`
-- the left one.
pub record Policy {ℓ} (V : Type ℓ) : Type ℓ where
  pub merge : Interval → V → Interval → V → Option V
  pub split : Interval → V → ℕ → V × V
  pub truncate : Interval → V → ℕ → V

-- The class `MergePolicy`, over the values' `operator==`.
unfoldable pub merge_policy {ℓ} : {V : Type ℓ} → (V → V → Bool) → Policy V
merge_policy eq = record {
  merge = λ left left_value right right_value.
      if eq left_value right_value then some left_value else none;
  split = λ interval value point. (value, value);
  truncate = λ interval value point. value;
}

unfoldable pub interval_less : Interval → Interval → Bool
interval_less a b = ltb a.hi b.hi

pub interval_less_irrefl : (a : Interval) → interval_less a a ≡ false
unfolding interval_less
interval_less_irrefl a = ground arith

pub interval_less_trans :
    (a b c : Interval)
    → interval_less a b ≡ true
    → interval_less b c ≡ true
    → interval_less a c ≡ true
unfolding interval_less
interval_less_trans a b c p q = ground arith

pub interval_less_split :
    (a b c : Interval)
    → interval_less a b ≡ true
    → interval_less a c ≡ false
    → interval_less c b ≡ true
unfolding interval_less
interval_less_split a b c p q = ground arith

-- `IntervalCompare`
instance abbrev pub interval_compare : Comparator Interval
interval_compare = record {
  less = interval_less;
  less_irrefl = interval_less_irrefl;
  less_trans = interval_less_trans;
  less_split = interval_less_split;
}

unfoldable pub empty_map {ℓ} : {V : Type ℓ} → IntervalMap V
empty_map = record { nodes = []; count = 0 }

-- `none` is a failed assertion.
unfoldable pub split_interval : ℕ → Interval → ℕ → Option (Interval × Interval)
split_interval top interval point = do
  require (not (is_empty interval))
  require (ltb interval.lo point && leb point interval.hi)
  some (hull_of interval.lo (sub_wrap top point 1), hull_of point interval.hi)

-- The parameter `size` of the source is 64 bits wide, no narrower than the interval's type.
unfoldable pub is_large : ℕ → Interval → ℕ → Bool
is_large top interval size =
    not (is_empty interval)
    && (Interval.size top interval == 0 || leb size (Interval.size top interval))
