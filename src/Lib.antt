-- ===== src/Lib.antt =====
-- Sawyer: the containers of intervals and the vectors of bits.
--
-- The C++ library Sawyer keeps ranges of integers as intervals (Sawyer/Interval.h), maps from such
-- ranges to values as a sorted map of disjoint intervals (Sawyer/IntervalMap.h over Sawyer/Map.h), sets
-- of integers as such a map (Sawyer/IntervalSet.h), and one-to-one maps as two maps (Sawyer/BiMap.h).
-- Its bit vectors are ranges of bits, given as intervals, in arrays of words (Sawyer/BitVectorSupport.h),
-- which the class of Sawyer/BitVector.h keeps with their number of bits.
--
--   Prelude            shared names and tests; Prelude.Word is the arithmetic of an unsigned type
--   Interval           Sawyer/Interval.h: `Interval<T>`; Interval.Iterator is its `ConstIterator`
--                      and Interval.Iterator.Moves shows runs of its moves,
--                      Interval.Sets and Interval.Bounds its laws
--   Map                Sawyer/Map.h: `Map<Key, Value, Cmp>`; Map.Order, Map.Lookup and Map.Update are
--                      its laws
--   IntervalMap        Sawyer/IntervalMap.h: the data of `IntervalMap<I, T, Policy>` and `MergePolicy`
--   IntervalMap.Find   its searches, IntervalMap.Change its insertions and erasures,
--                      IntervalMap.Query its other queries
--   IntervalMap.Shape  the invariant: nodes in order, without overlap, and the right number of keys
--   IntervalMap.Carve  what an erasure leaves of the nodes; IntervalMap.Erase shows that the loop of
--                      `erase` does it
--   IntervalMap.Meaning, .Lookup, .Insert, .Answers, .Cover, .Gaps, .Nearest, .History
--                      what the operations mean for single keys
--   IntervalSet        Sawyer/IntervalSet.h: `IntervalSet<I>`, an IntervalMap to int;
--                      IntervalSet.Members, .Invert and .Algebra are its laws
--   BiMap              Sawyer/BiMap.h: `BiMap<S, T>`, two maps; BiMap.Reversed and BiMap.Inverse are its
--                      invariant
--   BitVectorSupport   Sawyer/BitVectorSupport.h: words, masks and the overloads of `processWord`;
--                      .Traverse and .Pairs are the traversals of one and two vectors and
--                      `nonoverlappingCopy`, .Access, .Search, .Shift, .Arithmetic, .Compare and .Text
--                      the functions of its sections, each with its visitors
--   BitVectorSupport.Meaning, .Words, .Sizes
--                      the bits of an array and of a word, and ranges that do not overflow
--   BitVectorSupport.Copied, .Copy, .Overwrite
--                      the bits that `nonoverlappingCopy` moves
--   BitVectorSupport.Bitwise, .Bitwise2, .Changes, .Combine, .Shifted, .Rotated
--                      what traversals and the functions over them do to single bits
--   BitVectorSupport.Number, .Sum, .Added, .Whole, .Addition, .Subtraction, .Incremented, .Negation
--                      the number of a range, its addition, subtraction, increment and negation
--   BitVector          Sawyer/BitVector.h: the class, its sizes and range checks; .Access, .Search, .Shift,
--                      .Arithmetic, .Compare, .Convert and .Parse are its methods
--   BitVector.Meaning, .Checked, .Values, .Multiply
--                      its invariant, its checked accesses and the numbers of whole vectors
--   Prelude.Bits       the digits of a number under the operators of C++
--
-- A scalar type is the numbers up to `top`, the greatest value of an unsigned type that is at least as
-- wide as `unsigned` (the theorems ask for 1 ≤ `top`), and `+` and `-` wrap around there. `top` is a parameter of each operation that
-- computes. An `Interval` is its two members; the empty one is 1 to 0, as in the source. A `Map` is
-- the list of its nodes in the order of `Cmp`, of which `Comparator` states the strict weak order that
-- std::map demands. An iterator is a `Cursor`: the nodes before it, the nearest first, and the nodes
-- from it on. An `IntervalMap` is its members `map_` and `size_`. A `Policy` returns the values that
-- the source's policies change in place. Functions that the source ends by a failed assertion, an
-- exception or undefined behaviour return `none`; values are not shared, so an insertion of a
-- reference into the map itself is outside the model.
--
-- The loop of `erase` collects what remains of the nodes and erases afterwards: `Erasing` is its state,
-- `erase_node` its body. `insert` merges with the left and the right neighbour: `Inserting` is its
-- state. All loops run along the nodes, so none needs fuel; the loop over an iterator in
-- Interval.Iterator (`visited`) takes fuel, and one more step than there are values is enough.
--
-- In BitVectorSupport a word is a number below 2 ^ `width`, an array the list of its words, and `top`
-- the greatest `size_t`. `none` is a failed assertion, an access outside the array or, in .Text, an
-- exception. The temporary arrays of the source are filled with zeros, as its macro does. A processor
-- is a function on its state; `process` is the overload of `processWord` with the processor. Loops
-- over words run along the array or count down; `take_chunks` of .Text takes fuel, one more round than
-- the word has bits. The theorems ask that the array has four words less than `top` bits at most, so
-- that the sums of positions and word counts stay in `size_t`.
--
-- A `BitVector` is its members `words_` and `size_`; `data()` is the array. An overload has the name of
-- the method for ranges, with `_within` for two ranges of one vector, and with `_all` for whole vectors.
-- In .Parse the number of bits of a decimal literal is the exact value of its formula with doubles, up
-- to the 308 digits that a double holds; four bits a digit are enough fuel for it.
--
-- Not modelled: serialization, `BitVector::capacity`, allocators, conversions between container types, the output of the
-- debugging functions, and the other components of the library.
pub mod Prelude
pub mod Interval
pub mod Map
pub mod IntervalMap
pub mod IntervalSet
pub mod BiMap
pub mod BitVectorSupport
pub mod BitVector
