-- ===== src/Js/Number.antt =====
-- The finite numbers that `Number(text)` gives, by floor, and what the code asks of them. The
-- reading of a text, `none` for what is not finite, is a parameter wherever it is used.
use vahan.Prelude.{
  ℕ, zero, suc, String, Bool, true, false, not, Option, none, some, leb, if◌then◌else◌,
}
use vahan.Prelude.Int.{ℤ, pos, negsuc}
use vahan.Env.{Env}
use vahan.Js.Json.{Json, null, bool, num, str, arr, obj}
use vahan.Js.Show.{string_of, join_items}

-- `Math.floor(n)`, and whether `n` is an integer.
pub record Finite : Type 0 where
  pub floor : ℤ
  pub is_whole : Bool

abbrev pub Reader : Type 0
Reader = String → Option Finite

abbrev pub whole : ℕ → Finite
whole n = record { floor = pos n; is_whole = true }

-- `n > 0`
abbrev pub is_positive : ℤ → Bool → Bool
is_positive (pos zero) w = not w
is_positive (pos (suc n)) w = true
is_positive (negsuc n) w = false

-- `n >= k`
abbrev pub is_at_least : ℕ → ℤ → Bool
is_at_least k (pos n) = leb k n
is_at_least k (negsuc n) = false

-- `Math.floor(n)`, if that is 0 or more.
abbrev pub natural : ℤ → Option ℕ
natural (pos n) = some n
natural (negsuc n) = none

-- `Number.isFinite(n) && n > 0 ? Math.floor(n) : undefined`
abbrev pub positive_floor : Option Finite → Option ℕ
positive_floor none = none
positive_floor (some f) = elim (is_positive f.floor f.is_whole) [
  | true ↦ natural f.floor
  | false ↦ none
]

-- `Number.isFinite(n) && n >= 0 ? Math.floor(n) : undefined`
abbrev pub natural_floor : Option Finite → Option ℕ
natural_floor none = none
natural_floor (some f) = natural f.floor

-- `Number(process.env[name])`; `Number(undefined)` is not finite.
abbrev pub read_option : Reader → Option String → Option Finite
read_option read none = none
read_option read (some s) = read s

abbrev pub env_number : Reader → Env → String → Option Finite
env_number read env name = read_option read (env name)

-- `Number(value)` on a value of JSON, or on a property that is missing.
unfoldable pub finite_of : Reader → Option Json → Option Finite
unfolding string_of
finite_of read none = none
finite_of read (some null) = some (whole 0)
finite_of read (some (bool b)) = some (whole (if b then 1 else 0))
finite_of read (some (num n)) = some (record { floor = n; is_whole = true })
finite_of read (some (str s)) = read s
finite_of read (some (arr xs)) = read (join_items xs)
finite_of read (some (obj fs)) = none
