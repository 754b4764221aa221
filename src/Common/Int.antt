-- ===== src/Common/Int.antt =====
-- Python's `int` over the native numbers. The two parts of an integer stay shut, so that the
-- arithmetic tactics read an order of integers as a linear order of natural numbers.
use Prim.Native.Nat.{ℕ, suc, ◌+◌, ◌-◌, ◌≤◌}
use mathlib.Core.Path.{◌≡◌, ap}
use mathlib.Core.Bool.{Bool}
use native.Mathlib.Omega.{arith}
use realtime_market_data_pla.Common.Tests.{ltb, leb, nat_beq, if◌then◌else◌}

-- `negsuc n` is -(n + 1).
pub data ℤ : Type 0 where
  pos : ℕ → ℤ
  negsuc : ℕ → ℤ

unfoldable pub pos_part : ℤ → ℕ
pos_part (pos n) = n
pos_part (negsuc n) = 0

unfoldable pub neg_part : ℤ → ℕ
neg_part (pos n) = 0
neg_part (negsuc n) = suc n

-- `a + 1`
unfoldable pub add_one : ℤ → ℤ
add_one (pos n) = pos (n + 1)
add_one (negsuc n) = if nat_beq n 0 then pos 0 else negsuc (n - 1)

infix 50 ◌≤ℤ◌ ◌<ℤ◌ ◌=ℤ◌
abbrev pub ◌≤ℤ◌ : ℤ → ℤ → Type 0
a ≤ℤ b = pos_part a + neg_part b ≤ pos_part b + neg_part a

abbrev pub ◌<ℤ◌ : ℤ → ℤ → Type 0
a <ℤ b = suc (pos_part a + neg_part b) ≤ pos_part b + neg_part a

-- Equality of integers as the tactics read it; `eq_of_parts` gives the path.
abbrev pub ◌=ℤ◌ : ℤ → ℤ → Type 0
a =ℤ b = pos_part a + neg_part b ≡ pos_part b + neg_part a

abbrev pub leb_ℤ : ℤ → ℤ → Bool
leb_ℤ a b = leb (pos_part a + neg_part b) (pos_part b + neg_part a)

abbrev pub ltb_ℤ : ℤ → ℤ → Bool
ltb_ℤ a b = ltb (pos_part a + neg_part b) (pos_part b + neg_part a)

abbrev pub beq_ℤ : ℤ → ℤ → Bool
beq_ℤ a b = nat_beq (pos_part a + neg_part b) (pos_part b + neg_part a)

abbrev pub max_ℤ : ℤ → ℤ → ℤ
max_ℤ a b = if ltb_ℤ a b then b else a

-- `add_one a - a` is 1, in parts.
pub add_one_parts :
    (a : ℤ) → pos_part (add_one a) + neg_part a ≡ suc (pos_part a + neg_part (add_one a))
unfolding pos_part neg_part add_one
add_one_parts (pos n) = omega arith
add_one_parts (negsuc n) = ground arith

pub eq_of_parts : (a b : ℤ) → a =ℤ b → a ≡ b
unfolding pos_part neg_part
eq_of_parts (pos a) (pos b) h = ap pos (omega arith)
eq_of_parts (pos a) (negsuc b) h = absurd (omega arith)
eq_of_parts (negsuc a) (pos b) h = absurd (omega arith)
eq_of_parts (negsuc a) (negsuc b) h = ap negsuc (omega arith)

pub parts_of_eq : {a b : ℤ} → a ≡ b → a =ℤ b
parts_of_eq {a} {b} h = ground arith
