-- ===== src/BitVector/Convert.antt =====
-- The conversions of `BitVector` (Sawyer/BitVector.h). A string is the list of its character codes. A
-- name with `_all` is an overload for the whole vector.
use sawyer.Prelude.{ℕ, leb, if◌then◌else◌, Option, some, ◌>>=◌, ◌>>◌, List}
use sawyer.Interval.{Interval}
use sawyer.BitVectorSupport.Arithmetic
use sawyer.BitVectorSupport.Text
use sawyer.BitVector.{BitVector, hull, check_range}

module _ (top width : ℕ) where
  unfoldable pub to_integer : BitVector → Interval → Option ℕ
  unfolding hull check_range Arithmetic.to_integer
  to_integer v range = check_range v range >> Arithmetic.to_integer top width v.words range

  unfoldable pub to_integer_all : BitVector → Option ℕ
  unfolding hull Arithmetic.low_integer Arithmetic.to_integer
  to_integer_all v =
      if leb v.size 64
      then Arithmetic.low_integer top width v.words v.size
      else Arithmetic.to_integer top width v.words (hull v)

  -- The source calls `toInteger` here.
  unfoldable pub to_signed_integer : BitVector → Interval → Option ℕ
  unfolding check_range Arithmetic.to_integer
  to_signed_integer v range = check_range v range >> Arithmetic.to_integer top width v.words range

  unfoldable pub to_signed_integer_all : BitVector → Option ℕ
  unfolding hull Arithmetic.low_signed_integer Arithmetic.to_signed_integer
  to_signed_integer_all v =
      if leb v.size 64
      then Arithmetic.low_signed_integer top width v.words v.size
      else Arithmetic.to_signed_integer top width v.words (hull v)

  unfoldable pub to_hex : BitVector → Interval → Option (List ℕ)
  unfolding hull Text.to_hex
  to_hex v range = Text.to_hex top width v.words range

  unfoldable pub to_hex_all : BitVector → Option (List ℕ)
  unfolding hull Text.to_hex
  to_hex_all v = Text.to_hex top width v.words (hull v)

  unfoldable pub to_octal : BitVector → Interval → Option (List ℕ)
  unfolding hull Text.to_octal
  to_octal v range = Text.to_octal top width v.words range

  unfoldable pub to_octal_all : BitVector → Option (List ℕ)
  unfolding hull Text.to_octal
  to_octal_all v = Text.to_octal top width v.words (hull v)

  unfoldable pub to_binary : BitVector → Interval → Option (List ℕ)
  unfolding hull Text.to_binary
  to_binary v range = Text.to_binary top width v.words range

  unfoldable pub to_binary_all : BitVector → Option (List ℕ)
  unfolding hull Text.to_binary
  to_binary_all v = Text.to_binary top width v.words (hull v)

  unfoldable pub to_bytes : BitVector → Interval → Option (List ℕ)
  unfolding hull Text.to_bytes
  to_bytes v range = Text.to_bytes top width v.words range

  unfoldable pub to_bytes_all : BitVector → Option (List ℕ)
  unfolding hull Text.to_bytes
  to_bytes_all v = Text.to_bytes top width v.words (hull v)

  unfoldable pub from_integer : BitVector → Interval → ℕ → Option BitVector
  unfolding hull check_range Arithmetic.from_integer
  from_integer v range value = do
    check_range v range
    words ← Arithmetic.from_integer top width v.words range value
    some (record { words = words; size = v.size })

  unfoldable pub from_integer_all : BitVector → ℕ → Option BitVector
  unfolding hull Arithmetic.from_integer
  from_integer_all v value = do
    words ← Arithmetic.from_integer top width v.words (hull v) value
    some (record { words = words; size = v.size })

  unfoldable pub from_decimal : BitVector → Interval → List ℕ → Option BitVector
  unfolding hull check_range Text.from_decimal
  from_decimal v range input = do
    check_range v range
    words ← Text.from_decimal top width v.words range input
    some (record { words = words; size = v.size })

  unfoldable pub from_decimal_all : BitVector → List ℕ → Option BitVector
  unfolding hull Text.from_decimal
  from_decimal_all v input = do
    words ← Text.from_decimal top width v.words (hull v) input
    some (record { words = words; size = v.size })

  unfoldable pub from_hex : BitVector → Interval → List ℕ → Option BitVector
  unfolding hull check_range Text.from_hex
  from_hex v range input = do
    check_range v range
    words ← Text.from_hex top width v.words range input
    some (record { words = words; size = v.size })

  unfoldable pub from_hex_all : BitVector → List ℕ → Option BitVector
  unfolding hull Text.from_hex
  from_hex_all v input = do
    words ← Text.from_hex top width v.words (hull v) input
    some (record { words = words; size = v.size })

  unfoldable pub from_octal : BitVector → Interval → List ℕ → Option BitVector
  unfolding hull check_range Text.from_octal
  from_octal v range input = do
    check_range v range
    words ← Text.from_octal top width v.words range input
    some (record { words = words; size = v.size })

  unfoldable pub from_octal_all : BitVector → List ℕ → Option BitVector
  unfolding hull Text.from_octal
  from_octal_all v input = do
    words ← Text.from_octal top width v.words (hull v) input
    some (record { words = words; size = v.size })

  unfoldable pub from_binary : BitVector → Interval → List ℕ → Option BitVector
  unfolding hull check_range Text.from_binary
  from_binary v range input = do
    check_range v range
    words ← Text.from_binary top width v.words range input
    some (record { words = words; size = v.size })

  unfoldable pub from_binary_all : BitVector → List ℕ → Option BitVector
  unfolding hull Text.from_binary
  from_binary_all v input = do
    words ← Text.from_binary top width v.words (hull v) input
    some (record { words = words; size = v.size })

  unfoldable pub from_bytes : BitVector → Interval → List ℕ → Option BitVector
  unfolding hull Text.from_bytes
  from_bytes v range input = do
    words ← Text.from_bytes top width v.words range input
    some (record { words = words; size = v.size })

  unfoldable pub from_bytes_all : BitVector → List ℕ → Option BitVector
  unfolding hull Text.from_bytes
  from_bytes_all v input = do
    words ← Text.from_bytes top width v.words (hull v) input
    some (record { words = words; size = v.size })
