-- ===== src/BitVector/Parse.antt =====
-- `BitVector::parse` (Sawyer/BitVector.h). A string is the list of its character codes, which has no
-- zero in it.
use sawyer.Prelude.{
  ℕ, zero, suc, ◌*◌, ◌^◌, Bool, false, not, ◌&&◌, ◌||◌, leb, ◌==◌, if◌then◌else◌, Option, none,
  some, ◌>>=◌, ◌>>◌, require, List, [], ◌∷◌, reverse,
}
use sawyer.BitVector.{BitVector, make}
use sawyer.BitVector.Convert.{from_decimal_all, from_binary_all, from_octal_all, from_hex_all}

-- The bits of a digit (0 for decimal digits), the digits, and the string without prefix or suffix.
pub record Radix : Type 0 where
  pub bits_per_digit : ℕ
  pub is_digit : ℕ → Bool
  pub str : List ℕ

-- strchr("0123456789abcdefABCDEF", ch)
unfoldable pub is_hex : ℕ → Bool
is_hex ch = (leb 48 ch && leb ch 57) || ((leb 97 ch && leb ch 102) || (leb 65 ch && leb ch 70))

-- strchr of the digits '0' to `last`
unfoldable pub up_to : ℕ → ℕ → Bool
up_to last ch = leb 48 ch && leb ch last

-- The string behind the prefix of '0' and `ch`.
unfoldable pub after_zero : ℕ → List ℕ → Option (List ℕ)
after_zero ch [] = none
after_zero ch (a ∷ []) = none
after_zero ch (a ∷ b ∷ str) = if (a == 48) && (b == ch) then some str else none

-- The string before the suffix 'h'.
unfoldable pub before_h : List ℕ → Option (List ℕ)
before_h str = elim (reverse str) [
  | [] ↦ none
  | a ∷ reversed ↦ if a == 104 then some (reverse reversed) else none
]

unfoldable pub after_first : List ℕ → Option (List ℕ)
after_first [] = none
after_first (a ∷ str) = if a == 48 then some str else none

-- The chain of tests for "0x", "0b", "h" and "0".
unfoldable pub radix : List ℕ → Radix
unfolding after_zero before_h after_first is_hex up_to
radix str = elim (after_zero 120 str) [
  | some s ↦ record { bits_per_digit = 4; is_digit = is_hex; str = s }
  | none ↦ elim (after_zero 98 str) [
    | some s ↦ record { bits_per_digit = 1; is_digit = up_to 49; str = s }
    | none ↦ elim (before_h str) [
      | some s ↦ record { bits_per_digit = 4; is_digit = is_hex; str = s }
      | none ↦ elim (after_first str) [
        | some s ↦ record { bits_per_digit = 2; is_digit = up_to 55; str = s }
        | none ↦ record { bits_per_digit = 0; is_digit = up_to 57; str = str }
      ]
    ]
  ]
]

unfoldable pub count_digits : (ℕ → Bool) → List ℕ → ℕ
count_digits is_digit [] = 0
count_digits is_digit (ch ∷ str) =
    if is_digit ch then suc (count_digits is_digit str) else count_digits is_digit str

-- The least b from `bits` on with 10 ^ digits ≤ 2 ^ b, when `fuel` values are enough.
unfoldable pub least_bits : ℕ → ℕ → ℕ → ℕ
least_bits zero digits bits = bits
least_bits (suc fuel) digits bits =
    if leb (10 ^ digits) (2 ^ bits) then bits else least_bits fuel digits (suc bits)

-- ceil(log2(pow(10.0, digits))), where the power is a double. Four bits a digit are enough.
unfoldable pub decimal_bits : ℕ → Option ℕ
unfolding least_bits
decimal_bits digits = do require (leb digits 308); some (least_bits (4 * digits) digits 0)

module _ (top width : ℕ) where
  -- The `switch`: its cases are 0, 2, 3 and 4.
  unfoldable pub from_radix : BitVector → ℕ → List ℕ → Option BitVector
  unfolding from_decimal_all from_binary_all from_octal_all from_hex_all
  from_radix result bits_per_digit str =
      if bits_per_digit == 0
      then from_decimal_all top width result str
      else if bits_per_digit == 2
      then from_binary_all top width result str
      else if bits_per_digit == 3
      then from_octal_all top width result str
      else if bits_per_digit == 4
      then from_hex_all top width result str
      else none

  unfoldable pub parse : List ℕ → Option BitVector
  unfolding radix count_digits decimal_bits make from_radix
  parse str = do
    let r = radix str
    let digits = count_digits r.is_digit r.str
    require (not (0 == digits))
    bits ←
        (if not (r.bits_per_digit == 0)
          then some (r.bits_per_digit * digits)
          else decimal_bits digits)
    result ← make top width bits false
    from_radix result r.bits_per_digit r.str
