-- ===== src/Tests/Printing.antt =====
-- Numbers as texts, for the examples: a number is as many characters as it says, an integer twice
-- as many, and one more below 0.
use Prim.Native.Nat.{ℕ, zero, suc, ◌+◌, ◌/◌, ◌%◌}
use Prim.Native.Char.{nul}
use Prim.Native.String.{String, [], ◌∷◌}
use mathlib.Core.Path.{◌≡◌, refl}
use mathlib.Core.Option.{Option, some}
use native.Mathlib.Omega.{arith}
use realtime_market_data_pla.Common.{nat_beq, if◌then◌else◌}
use realtime_market_data_pla.Common.Int.{ℤ, pos, negsuc}

unfoldable pub text_of : ℕ → String
text_of zero = []
text_of (suc k) = nul ∷ text_of k

unfoldable pub size : String → ℕ
size [] = 0
size (c ∷ s) = suc (size s)

unfoldable pub text_of_int : ℤ → String
unfolding text_of
text_of_int (pos k) = text_of (k + k)
text_of_int (negsuc k) = text_of (suc (k + k))

unfoldable pub int_of_text : String → Option ℤ
unfolding size
int_of_text t = some (if nat_beq (size t % 2) 0 then pos (size t / 2) else negsuc (size t / 2))

pub size-text_of : (k : ℕ) → size (text_of k) ≡ k
unfolding size text_of
size-text_of zero = refl
size-text_of (suc k) = ground (arith, size-text_of k)

pub int_of_text-text_of_int : (i : ℤ) → int_of_text (text_of_int i) ≡ some i
unfolding int_of_text text_of_int
int_of_text-text_of_int (pos k) = ground (arith, size-text_of (k + k))
int_of_text-text_of_int (negsuc k) = ground (arith, size-text_of (suc (k + k)))
