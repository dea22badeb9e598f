-- ===== src/Js/Casing.antt =====
-- `toUpperCase` and `toLowerCase`, by the engine's Unicode tables, which are a parameter.
use vahan.Prelude.{String, ◌≡◌}
use vahan.Js.Text.{trim, is_empty}

pub record Casing : Type 0 where
  pub upper : String → String
  pub lower : String → String

-- What some theorems rely on: white space has no case, upper case is idempotent, and no text
-- vanishes.
pub record HasCase (case : String → String) : Type 0 where
  pub idem : (s : String) → case (case s) ≡ case s
  pub trims : (s : String) → trim (case s) ≡ case (trim s)
  pub keeps : (s : String) → is_empty (case s) ≡ is_empty s
