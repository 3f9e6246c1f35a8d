-- ===== src/BitVector.antt =====
-- `Sawyer::Container::BitVector` (Sawyer/BitVector.h): a number of bits and the array of words that
-- holds them. `data()` is the array. `none` is a failed assertion or an exception. `width` is the
-- number of bits of a word, `top` the greatest `size_t`.
pub mod Access
pub mod Search
pub mod Shift
pub mod Arithmetic
pub mod Compare
pub mod Convert
pub mod Parse
pub mod Meaning
pub mod Values
pub mod Multiply
pub mod Checked
mod Tests
use sawyer.Prelude.{
  ℕ, zero, suc, ◌-◌, Bool, ltb, ◌==◌, if◌then◌else◌, Option, some, ◌>>=◌, ◌>>◌, require, List, [],
  ◌∷◌,
}
use sawyer.Interval.{Interval, empty, singleton, contains, hull_of}
use sawyer.BitVectorSupport.{number_of_words}
use sawyer.BitVectorSupport.Access.{set_value}
use sawyer.BitVectorSupport

pub record BitVector : Type 0 where
  pub words : List ℕ
  pub size : ℕ

-- BitVector()
abbrev pub no_bits : BitVector
no_bits = record { words = []; size = 0 }

unfoldable pub is_empty : BitVector → Bool
is_empty v = 0 == v.size

unfoldable pub hull : BitVector → Interval
unfolding hull_of
hull v = if 0 == v.size then empty else hull_of 0 (v.size - 1)

unfoldable pub check_range : BitVector → Interval → Option (Unit {0})
unfolding hull contains
check_range v range = require (contains (hull v) range)

-- words_.resize(n, 0)
unfoldable pub resize_words : ℕ → List ℕ → List ℕ
resize_words zero words = []
resize_words (suc n) [] = 0 ∷ resize_words n []
resize_words (suc n) (x ∷ words) = x ∷ resize_words n words

module _ (top width : ℕ) where
  unfoldable pub resize : BitVector → ℕ → Bool → Option BitVector
  unfolding number_of_words resize_words set_value hull_of
  resize v new_size new_bits =
      if 0 == new_size
      then some no_bits
      else if ltb v.size new_size
      then (do
        words ←
            set_value top width (resize_words (number_of_words width top new_size) v.words)
              (hull_of v.size (new_size - 1)) new_bits
        some (record { words = words; size = new_size }))
      else some (record {
        words = resize_words (number_of_words width top new_size) v.words;
        size = new_size;
      })

  -- BitVector(size_t nbits, bool newBits)
  unfoldable pub make : ℕ → Bool → Option BitVector
  unfolding resize
  make nbits new_bits = resize no_bits nbits new_bits

  -- An index is the range of itself.
  unfoldable pub get : BitVector → ℕ → Option Bool
  unfolding check_range singleton BitVectorSupport.Access.get
  get v idx = check_range v (singleton idx) >> BitVectorSupport.Access.get top width v.words idx
