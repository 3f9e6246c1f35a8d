-- ===== src/Prelude/Word.antt =====
-- Arithmetic of the unsigned C++ type whose greatest value is `top`. The type is at least as wide
-- as `unsigned`, so that no operand is promoted to a wider type before the operation.
use Prim.Native.Nat.{ℕ, suc, ◌+◌, ◌-◌, ◌%◌, ◌≤◌, ◌<◌}
use mathlib.Core.Path.{◌≡◌}
use mathlib.Core.Logic.{◌⊎◌, inl, inr}
use native.Mathlib.Decide.{dec_lt}
use native.Mathlib.Omega.{arith}

-- a + b
unfoldable pub add_wrap : ℕ → ℕ → ℕ → ℕ
add_wrap top a b = (a + b) % suc top

-- a - b
unfoldable pub sub_wrap : ℕ → ℕ → ℕ → ℕ
sub_wrap top a b = (a + suc top - b) % suc top

-- The two cases of an addition: the exact sum, or the sum less the number of values.
pub add_wrap-cases :
    (top a b : ℕ)
    → a ≤ top
    → b ≤ top
    → ((a + b ≤ top) × (add_wrap top a b ≡ a + b))
      ⊎ ((top < a + b) × (add_wrap top a b + suc top ≡ a + b))
unfolding add_wrap
add_wrap-cases top a b p q = elim (dec_lt top (a + b)) [
  | yes h ↦ inr (h, grind arith)
  | no h ↦ inl (omega arith, grind arith)
]

pub sub_wrap-cases :
    (top a b : ℕ)
    → a ≤ top
    → b ≤ top
    → ((b ≤ a) × (sub_wrap top a b + b ≡ a)) ⊎ ((a < b) × (sub_wrap top a b + b ≡ a + suc top))
unfolding sub_wrap
sub_wrap-cases top a b p q = elim (dec_lt a b) [
  | yes h ↦ inr (h, grind arith)
  | no h ↦ inl (omega arith, grind arith)
]

pub add_wrap-le : (top a b : ℕ) → add_wrap top a b ≤ top
unfolding add_wrap
add_wrap-le top a b = grind arith

pub sub_wrap-le : (top a b : ℕ) → sub_wrap top a b ≤ top
unfolding sub_wrap
sub_wrap-le top a b = grind arith
