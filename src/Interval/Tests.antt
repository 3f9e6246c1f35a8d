-- ===== src/Interval/Tests.antt =====
-- Concrete intervals of bytes, for Sawyer/Interval.h.
use sawyer.Prelude.Word.{add_wrap}
use sawyer.Prelude.{
  if◌then◌else◌, ℕ, ◌+◌, ◌-◌, ◌≤◌, ◌<◌, ◌≡◌, ◌⊎◌, inl, inr, true, ◌&&◌, ◌||◌, ltb, leb, none, some,
  [], ◌∷◌, arith, refl,
}
use sawyer.Interval.{
  Interval, IsValid, has, is_empty, is_whole, intersection, join, size, base_size, is_left_adjacent,
}
use sawyer.Interval.Bounds.{size_lem, base_size-has}
use sawyer.Interval.Iterator.{
  ConstIterator, begin, end, dereference, visited, ascending, start_at, visited-ascending,
}
use sawyer.Interval.Iterator.Moves.{forward, back, move_all, IsPosition, move_all-IsPosition}

abbrev byte : ℕ
byte = 255

abbrev low : Interval
low = record { lo = 3; hi = 9 }

abbrev mid : Interval
mid = record { lo = 7; hi = 20 }

abbrev next_low : Interval
next_low = record { lo = 10; hi = 12 }

abbrev start : Interval
start = record { lo = 0; hi = 4 }

abbrev last : Interval
last = record { lo = 200; hi = 255 }

intersection_test : intersection low mid ≡ record { lo = 7; hi = 9 }
unfolding intersection
intersection_test = refl

join_test : join byte low next_low ≡ some (record { lo = 3; hi = 12 })
unfolding join add_wrap
join_test = refl

-- The last bytes are adjacent to the first ones.
wrap_test : is_left_adjacent byte last start ≡ true
unfolding is_left_adjacent add_wrap
wrap_test = refl

low-IsValid : IsValid byte low
low-IsValid = inr (omega arith, omega arith)

mid-IsValid : IsValid byte mid
mid-IsValid = inr (omega arith, omega arith)

next_low-IsValid : IsValid byte next_low
next_low-IsValid = inr (omega arith, omega arith)

size_lem_example :
    size byte low ≡ (if is_empty low || is_whole byte low then 0 else low.hi + 1 - low.lo)
size_lem_example = size_lem byte (omega arith) low low-IsValid

base_size-has_example :
    ((byte < 20 + 10) × (base_size byte 20 10 ≡ none))
    ⊎ ((20 + 10 ≤ byte)
        × (i : Interval) × (base_size byte 20 10 ≡ some i)
        × IsValid byte i
        × (size byte i ≡ 10)
        × ((x : ℕ) → has i x ≡ (leb 20 x && ltb x (20 + 10))))
base_size-has_example = base_size-has byte (omega arith) 20 10 (omega arith) (omega arith)

visited-ascending_example :
    (stop : ConstIterator) × (end byte low ≡ some stop)
    × (visited byte 8 (begin byte low) stop ≡ some (ascending 3 (9 + 1 - 3)))
visited-ascending_example = visited-ascending byte low 8 low-IsValid (omega arith)

abbrev five : ConstIterator
five = start_at 5 5 5

move_all-IsPosition_example :
    (out : ConstIterator) × (move_all byte (forward ∷ back ∷ []) five ≡ some out)
    × IsPosition byte out
    × (out.first ≡ five.first)
    × (out.last ≡ five.last)
    × (five.first ≡ five.last → dereference out ≡ none)
move_all-IsPosition_example =
    move_all-IsPosition byte forward (back ∷ []) five
      (omega arith, omega arith, omega arith, λ h. inl refl)
