-- ===== src/Base/Text.antt =====
-- The decimal text of a number, as `std::stringstream` writes an `int`, by its code points.
use Prim.Native.Nat.{ℕ, zero, suc, ◌+◌, ◌/◌, ◌%◌}
use Prim.Native.Char.{code}
use Prim.Native.String.{String}
use mathlib.Core.Bool.{true, false}
use mathlib.Core.List.{List, [], ◌∷◌}
use cs252aproject.Base.Tests.{ltb}
use cs252aproject.Base.Int.{ℤ, pos, negsuc}

abbrev pub codes : String → List ℕ
codes String.[] = []
codes (String.◌∷◌ c s) = code c ∷ codes s

-- The digits of a number, before those in the accumulator.
unfoldable pub digits_onto : ℕ → ℕ → List ℕ → List ℕ
digits_onto zero n acc = acc
digits_onto (suc fuel) n acc = elim (ltb n 10) [
  | true ↦ (b'0' + n) ∷ acc
  | false ↦ digits_onto fuel (n / 10) ((b'0' + n % 10) ∷ acc)
]

-- A number has fewer digits than its value plus one, so the fuel suffices.
unfoldable pub show_ℕ : ℕ → List ℕ
unfolding digits_onto
show_ℕ n = digits_onto (suc n) n []

unfoldable pub show_ℤ : ℤ → List ℕ
unfolding show_ℕ
show_ℤ (pos n) = show_ℕ n
show_ℤ (negsuc n) = b'-' ∷ show_ℕ (suc n)
