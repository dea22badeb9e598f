-- ===== src/Js/Show.antt =====
-- `String(value)` on the values of JSON.
use Prim.Native.String
use vahan.Prelude.{ℕ, zero, suc, ◌/◌, ◌%◌, String, ltb, nat_eq, if◌then◌else◌}
use vahan.Prelude.Int.{ℤ, pos, negsuc}
use vahan.Js.Json.{Json, Items, null, bool, num, str, arr, obj, nil, cons}

infixl 65 ◌<>◌
abbrev ◌<>◌ : String → String → String
s <> t = String.◌++◌ s t

digit : ℕ → String
digit n =
    if nat_eq n 0
    then "0"
    else if nat_eq n 1
    then "1"
    else if nat_eq n 2
    then "2"
    else if nat_eq n 3
    then "3"
    else if nat_eq n 4
    then "4"
    else if nat_eq n 5
    then "5"
    else if nat_eq n 6
    then "6"
    else if nat_eq n 7
    then "7"
    else if nat_eq n 8
    then "8"
    else "9"

-- A number below 10 ^ fuel.
digits : ℕ → ℕ → String
digits zero n = ""
digits (suc fuel) n =
    let rest = digits fuel (n / 10) in if ltb n 10 then digit n else rest <> digit (n % 10)

-- JavaScript prints an integer in full below 10 ^ 21.
pub int_text : ℤ → String
int_text (pos n) = digits 21 n
int_text (negsuc n) = "-" <> digits 21 (suc n)

abbrev comma : Items → String
comma nil = ""
comma (cons x xs) = ","

unfoldable mutual
  unfolding digit digits int_text

  pub string_of : Json → String
  string_of null = "null"
  string_of (bool b) = if b then "true" else "false"
  string_of (num n) = int_text n
  string_of (str s) = s
  string_of (arr xs) = join_items xs
  string_of (obj fs) = "[object Object]"

  -- `join(',')`, where `null` prints as nothing
  pub join_items : Items → String
  join_items nil = ""
  join_items (cons null xs) = comma xs <> join_items xs
  join_items (cons x xs) = string_of x <> comma xs <> join_items xs
