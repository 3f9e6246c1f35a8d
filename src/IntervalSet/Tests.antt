-- ===== src/IntervalSet/Tests.antt =====
-- Concrete sets of bytes, for Sawyer/IntervalSet.h.
use sawyer.Prelude.{ℕ, ◌≡◌, not, ◌&&◌, ◌||◌, ltb, some, [], ◌∷◌, inl, inr, arith, refl}
use sawyer.Interval.{Interval, has}
use sawyer.Map.{last_key}
use sawyer.IntervalMap.Shape.{IsValid}
use sawyer.IntervalSet.{
  IntervalSet, exists, invert_within, intersect_interval, intersection, union, difference,
}
use sawyer.IntervalSet.Invert.{invert_within-complement}
use sawyer.IntervalSet.Algebra.{
  union-exists, difference-exists, intersection-exists, intersect_interval-drops_greatest,
}

abbrev byte : ℕ
byte = 255

abbrev letters : IntervalSet
letters = record {
  nodes = (record { lo = 65; hi = 90 }, 0) ∷ (record { lo = 97; hi = 122 }, 0) ∷ [];
  count = 52;
}

abbrev high_half : IntervalSet
high_half = record { nodes = (record { lo = 80; hi = 255 }, 0) ∷ []; count = 176 }

abbrev ascii : Interval
ascii = record { lo = 0; hi = 127 }

abbrev capital_range : Interval
capital_range = record { lo = 60; hi = 100 }

letters-IsValid : IsValid byte letters
letters-IsValid = record {
  ordered = (omega arith, omega arith, omega arith, (omega arith, omega arith, omega arith, tt));
  counted = inl (omega arith, refl);
}

high_half-IsValid : IsValid byte high_half
high_half-IsValid = record {
  ordered = (omega arith, omega arith, omega arith, tt);
  counted = inl (omega arith, refl);
}

invert_within-complement_example :
    (r : IntervalSet) × (invert_within byte ascii letters ≡ some r)
    × IsValid byte r
    × ((x : ℕ) → exists x r ≡ (has ascii x && not (exists x letters)))
invert_within-complement_example =
    invert_within-complement byte (omega arith) ascii letters (inr (omega arith, omega arith))
      letters-IsValid

union-exists_example :
    (r : IntervalSet) × (union byte letters high_half ≡ some r)
    × IsValid byte r
    × ((x : ℕ) → exists x r ≡ (exists x letters || exists x high_half))
union-exists_example =
    union-exists byte (omega arith) letters high_half letters-IsValid high_half-IsValid

difference-exists_example :
    (r : IntervalSet) × (difference byte letters high_half ≡ some r)
    × IsValid byte r
    × ((x : ℕ) → exists x r ≡ (exists x letters && not (exists x high_half)))
difference-exists_example =
    difference-exists byte (omega arith) letters high_half letters-IsValid high_half-IsValid

intersection-exists_example :
    (r : IntervalSet) × (intersection byte letters high_half ≡ some r)
    × IsValid byte r
    × ((x : ℕ) → exists x r ≡ (exists x letters && exists x high_half))
intersection-exists_example =
    intersection-exists byte (omega arith) letters high_half letters-IsValid high_half-IsValid

intersect_interval-drops_greatest_example :
    (r : IntervalSet) × (intersect_interval byte capital_range letters ≡ some r)
    × IsValid byte r
    × ((x : ℕ) → exists x r ≡ (exists x letters && ltb x 100))
unfolding last_key
intersect_interval-drops_greatest_example =
    intersect_interval-drops_greatest byte (omega arith) capital_range
      (record { lo = 65; hi = 90 }, 0) ((record { lo = 97; hi = 122 }, 0) ∷ []) 52 (omega arith)
      letters-IsValid (omega arith) (omega arith)
