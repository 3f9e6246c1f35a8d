-- ===== src/IntervalMap/Tests.antt =====
-- A concrete map from intervals of bytes to ℕ, for Sawyer/IntervalMap.h.
use sawyer.Prelude.Word.{add_wrap, sub_wrap}
use sawyer.Prelude.{
  ℕ, ◌≤◌, ◌<◌, ◌≡◌, ◌↔◌, ◌⊎◌, inl, inr, Bool, true, false, ◌==◌, if◌then◌else◌, none, some, List,
  [], ◌∷◌, arith, refl,
}
use sawyer.Interval.{Interval, has, hull_of}
use sawyer.Interval
use sawyer.IntervalMap.{IntervalMap, merge_policy, empty_map}
use sawyer.IntervalMap.Change.{insert, erase, insert_hole}
use sawyer.IntervalMap.Query.{
  get_optional, get, get_or_else, get_or_default, exists, contains, overlaps, overlaps_map,
  first_unmapped, least_unmapped, last_unmapped,
}
use sawyer.IntervalMap.Shape.{IsValid, covers}
use sawyer.IntervalMap.Meaning.{Meaning, merge_policy-Meaning, value_at, erase-value_at}
use sawyer.IntervalMap.Insert.{insert-value_at, insert-no_hole}
use sawyer.IntervalMap.Answers.{scan, get_optional-insert, get_optional-erase, lookups-scan}
use sawyer.IntervalMap.Cover.{contains-covers, overlaps-covers}
use sawyer.IntervalMap.Cover.Maps.{overlaps_map-covers}
use sawyer.IntervalMap.Nearest.{IsNext, least_from-IsNext}
use sawyer.IntervalMap.Query.{least_from}
use sawyer.IntervalMap.Gaps.Last.{last_unmapped-first_node}
use sawyer.IntervalMap.Gaps.{IsGap, IsFree, first_unmapped-IsGap, least_unmapped-IsFree}
use sawyer.IntervalMap.History.{Call, inserts, erases, effects, perform_all, perform_all-effects}

abbrev byte : ℕ
byte = 255

eq_sound : (a b : ℕ) → (a == b) ≡ true → a ≡ b
eq_sound a b p = ground arith

abbrev same : ℕ → ℕ → Bool
same a b = a == b

abbrev code : Interval
code = record { lo = 10; hi = 19 }

abbrev heap : Interval
heap = record { lo = 15; hi = 29 }

abbrev stack : Interval
stack = record { lo = 200; hi = 255 }

-- 10 to 19 have the value 1, and 200 to 255 the value 2.
abbrev memory : IntervalMap ℕ
memory = record { nodes = (code, 1) ∷ (stack, 2) ∷ []; count = 66 }

memory-IsValid : IsValid byte memory
memory-IsValid = record {
  ordered = (omega arith, omega arith, omega arith, (omega arith, omega arith, omega arith, tt));
  counted = inl (omega arith, refl);
}

-- Equal values of neighbours merge.
insert_test :
    insert byte (merge_policy same) heap 1 true memory
    ≡ some (record { nodes = (record { lo = 10; hi = 29 }, 1) ∷ (stack, 2) ∷ []; count = 76 })
unfolding insert erase insert_hole sub_wrap add_wrap merge_policy
insert_test = refl

-- An erasure in the middle of a node splits it.
erase_test :
    erase byte (merge_policy same) (record { lo = 12; hi = 14 }) memory
    ≡ some (record {
      nodes = (record { lo = 10; hi = 11 }, 1) ∷ (record { lo = 15; hi = 19 }, 1) ∷ (stack, 2) ∷ [];
      count = 63;
    })
unfolding erase add_wrap hull_of sub_wrap merge_policy
erase_test = refl

code-IsValid : Interval.IsValid byte code
code-IsValid = inr (omega arith, omega arith)

heap-IsValid : Interval.IsValid byte heap
heap-IsValid = inr (omega arith, omega arith)

abbrev meaning : Meaning (merge_policy same) ℕ
unfolding merge_policy-Meaning
meaning = merge_policy-Meaning same eq_sound

insert-value_at_example :
    (r : IntervalMap ℕ) × (insert byte (merge_policy same) heap 1 true memory ≡ some r)
    × IsValid byte r
    × ((x : ℕ)
        → value_at meaning x r.nodes
          ≡ (if has heap x then some (meaning.den heap 1 x) else value_at meaning x memory.nodes))
insert-value_at_example =
    insert-value_at meaning byte (omega arith) heap 1 memory heap-IsValid memory-IsValid

insert-no_hole_example :
    ((x : ℕ) × (has heap x ≡ true)
      × (covers x memory.nodes ≡ true)
      × (insert byte (merge_policy same) heap 1 false memory ≡ some memory))
    ⊎ (((x : ℕ) → has heap x ≡ true → covers x memory.nodes ≡ false)
        × (r : IntervalMap ℕ) × (insert byte (merge_policy same) heap 1 false memory ≡ some r)
        × IsValid byte r
        × ((x : ℕ)
            → value_at meaning x r.nodes ≡ (
                if has heap x
                then some (meaning.den heap 1 x)
                else value_at meaning x memory.nodes)))
insert-no_hole_example =
    insert-no_hole meaning byte (omega arith) heap 1 memory heap-IsValid memory-IsValid

erase-value_at_example :
    (r : IntervalMap ℕ) × (erase byte (merge_policy same) heap memory ≡ some r)
    × IsValid byte r
    × ((x : ℕ)
        → value_at meaning x r.nodes
          ≡ (if has heap x then none else value_at meaning x memory.nodes))
erase-value_at_example =
    erase-value_at meaning byte heap (omega arith) (omega arith) (omega arith) memory memory-IsValid

get_optional-insert_example :
    (r : IntervalMap ℕ) × (insert byte (merge_policy same) heap 1 true memory ≡ some r)
    × IsValid byte r
    × ((x : ℕ) → get_optional x r ≡ (if has heap x then some 1 else get_optional x memory))
get_optional-insert_example =
    get_optional-insert same eq_sound byte (omega arith) heap 1 memory heap-IsValid memory-IsValid

get_optional-erase_example :
    (r : IntervalMap ℕ) × (erase byte (merge_policy same) heap memory ≡ some r)
    × IsValid byte r
    × ((x : ℕ) → get_optional x r ≡ (if has heap x then none else get_optional x memory))
get_optional-erase_example =
    get_optional-erase same eq_sound byte (omega arith) heap memory (omega arith) (omega arith)
      memory-IsValid

lookups-scan_example :
    (get_optional 12 memory ≡ scan 12 memory.nodes)
    × (get 12 memory ≡ scan 12 memory.nodes)
    × (exists 12 memory ≡ elim (scan 12 memory.nodes) [ none ↦ false | some v ↦ true ])
    × (get_or_else 12 7 memory ≡ elim (scan 12 memory.nodes) [ none ↦ 7 | some v ↦ v ])
    × (get_or_default 7 12 memory ≡ elim (scan 12 memory.nodes) [ none ↦ 7 | some v ↦ v ])
lookups-scan_example = lookups-scan byte 12 memory 7 memory-IsValid

contains-covers_example :
    (r : Bool) × (contains byte heap memory ≡ some r)
    × ((r ≡ true) ↔ ((x : ℕ) → has heap x ≡ true → covers x memory.nodes ≡ true))
contains-covers_example = contains-covers byte heap memory heap-IsValid memory-IsValid

overlaps-covers_example :
    (overlaps heap memory ≡ true) ↔ ((x : ℕ) × (has heap x ≡ true) × (covers x memory.nodes ≡ true))
overlaps-covers_example = overlaps-covers byte heap memory heap-IsValid memory-IsValid

abbrev watched : IntervalMap Bool
watched = record { nodes = (heap, true) ∷ []; count = 15 }

watched-IsValid : IsValid byte watched
watched-IsValid = record {
  ordered = (omega arith, omega arith, omega arith, tt);
  counted = inl (omega arith, refl);
}

overlaps_map-covers_example :
    (overlaps_map memory watched ≡ true)
    ↔ ((x : ℕ) × (covers x memory.nodes ≡ true) × (covers x watched.nodes ≡ true))
overlaps_map-covers_example = overlaps_map-covers byte memory watched memory-IsValid watched-IsValid

first_unmapped-IsGap_example : IsGap byte 12 memory.nodes (first_unmapped byte 12 memory)
first_unmapped-IsGap_example = first_unmapped-IsGap byte 12 memory (omega arith) memory-IsValid

least_unmapped-IsFree_example : IsFree byte 12 memory.nodes (least_unmapped byte 12 memory)
least_unmapped-IsFree_example = least_unmapped-IsFree byte 12 memory (omega arith) memory-IsValid

least_from-IsNext_example : IsNext byte 25 memory.nodes (least_from 25 memory)
least_from-IsNext_example = least_from-IsNext byte 25 memory memory-IsValid

last_unmapped-first_node_example :
    ((12 < 10) × (last_unmapped byte 12 memory ≡ none))
    ⊎ ((10 ≤ 12)
        × (last_unmapped byte 12 memory ≡ some (hull_of 0 12))
        × (covers 12 memory.nodes ≡ true))
last_unmapped-first_node_example =
    last_unmapped-first_node byte 12 (code, 1) ((stack, 2) ∷ []) 66 (omega arith)

abbrev calls : List (Call ℕ)
calls = inserts code 1 ∷ inserts heap 1 ∷ erases stack ∷ []

perform_all-effects_example :
    (r : IntervalMap ℕ) × (perform_all same byte calls empty_map ≡ some r)
    × IsValid byte r
    × ((x : ℕ) → get_optional x r ≡ effects calls (λ y. none) x)
perform_all-effects_example =
    perform_all-effects same eq_sound byte (omega arith) calls
      (code-IsValid, (heap-IsValid, (inr (omega arith, omega arith), tt)))
