-- ===== src/Prelude/Texts.antt =====
-- Lists of texts, and the equality test on texts.
use Prim.Native.String.{String}
use mathlib.Core.Path.{◌≡◌}
use mathlib.Core.Logic.{◌↔◌}
use mathlib.Core.Bool.{Bool, true, false, ◌||◌}
use mathlib.Core.List.{List, [], ◌∷◌}
use native.Mathlib.Omega.{arith}
use text.Mathlib.Text.{◌==◌}
use text.Mathlib.TextEquality.{eq_iff}
use vahan.Prelude.Lists.{Any}

-- `xs.includes(s)`
abbrev pub includes : List String → String → Bool
includes [] s = false
includes (x ∷ xs) s = x == s || includes xs s

abbrev pub Holds : String → List String → Type 0
Holds s xs = Any (λ x. x ≡ s) xs

pub includes_iff : (xs : List String) (s : String) → (includes xs s ≡ true) ↔ Holds s xs
includes_iff [] s = (λ h. cc, λ h. absurd h)
includes_iff (x ∷ xs) s = ground (arith, eq_iff x s, includes_iff xs s)
