-- ===== src/Js/Text.antt =====
-- Methods of JavaScript's strings. A text is a list of code points.
pub mod Laws
use Prim.Native.Char.{Char, code}
use Prim.Native.String.{[], ◌∷◌}
use mathlib.Core.List
use vahan.Prelude.{
  ℕ, ◌+◌, String, ◌≡◌, refl, Bool, true, false, ◌||◌, ◌&&◌, Option, none, some, List, nat_eq, leb,
  if◌then◌else◌, ◌==◌,
}

-- ECMAScript's WhiteSpace and LineTerminator.
pub is_space : ℕ → Bool
is_space c =
    (leb 9 c && leb c 13)
    || nat_eq c 32
    || nat_eq c 0xA0
    || nat_eq c 0x1680
    || (leb 0x2000 c && leb c 0x200A)
    || nat_eq c 0x2028
    || nat_eq c 0x2029
    || nat_eq c 0x202F
    || nat_eq c 0x205F
    || nat_eq c 0x3000
    || nat_eq c 0xFEFF

pub trim_start : String → String
trim_start [] = []
trim_start (c ∷ s) = let rest = trim_start s in if is_space (code c) then rest else c ∷ s

-- A character in front of a text whose end has been trimmed.
abbrev cons_end : Char → String → String
cons_end c [] = if is_space (code c) then [] else c ∷ []
cons_end c (d ∷ s) = c ∷ d ∷ s

pub trim_end : String → String
trim_end [] = []
trim_end (c ∷ s) = cons_end c (trim_end s)

-- `s.trim()`
unfoldable pub trim : String → String
unfolding trim_start trim_end is_space
trim s = trim_end (trim_start s)

-- `s.length === 0`, the untruth of a string
abbrev pub is_empty : String → Bool
is_empty [] = true
is_empty (c ∷ s) = false

-- `s?.trim() || undefined`, `s?.trim() || null`: a text with something in it.
unfoldable pub present : Option String → Option String
present none = none
present (some s) = let t = trim s in if is_empty t then none else some t

-- The first part of `s.split(sep)` and the parts behind it.
unfoldable pub split_at : ℕ → String → String × List String
split_at sep [] = ([], List.[])
split_at sep (c ∷ s) =
    let (part, parts) = split_at sep s in
    if nat_eq (code c) sep then ([], List.◌∷◌ part parts) else (c ∷ part, parts)

-- `s.split(sep)` at a separator of one character
unfoldable pub split : ℕ → String → List String
unfolding split_at
split sep s = let (part, parts) = split_at sep s in List.◌∷◌ part parts
