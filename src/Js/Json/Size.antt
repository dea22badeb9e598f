-- ===== src/Js/Json/Size.antt =====
-- `Buffer.byteLength(JSON.stringify(value), 'utf8')`.
use Prim.Native.Char.{code}
use Prim.Native.String.{[], ◌∷◌}
use vahan.Prelude.{
  ℕ, zero, suc, ◌+◌, ◌/◌, String, ◌≡◌, refl, ltb, leb, nat_eq, ◌||◌, ◌&&◌, if◌then◌else◌,
}
use vahan.Prelude.Int.{ℤ, pos, negsuc}
use vahan.Js.Json.{Json, Items, Fields, null, bool, num, str, arr, obj, nil, cons, end, field}

-- The bytes of one code point in a quoted string: an escape, or its UTF-8.
char_bytes : ℕ → ℕ
char_bytes c =
    if nat_eq c 0x22 || nat_eq c 0x5C
    then 2
    else if (leb 8 c && leb c 10) || nat_eq c 12 || nat_eq c 13
    then 2
    else if ltb c 0x20
    then 6
    else if ltb c 0x80
    then 1
    else if ltb c 0x800
    then 2
    else if ltb c 0x10000
    then 3
    else 4

chars_bytes : String → ℕ
chars_bytes [] = 0
chars_bytes (c ∷ s) = char_bytes (code c) + chars_bytes s

-- The decimal digits of a number below 10 ^ fuel, and at least one.
digits_bytes : ℕ → ℕ → ℕ
digits_bytes zero n = 1
digits_bytes (suc fuel) n =
    let rest = digits_bytes fuel (n / 10) in if ltb n 10 then 1 else 1 + rest

-- JavaScript prints an integer in full below 10 ^ 21.
int_bytes : ℤ → ℕ
int_bytes (pos n) = digits_bytes 21 n
int_bytes (negsuc n) = 1 + digits_bytes 21 (suc n)

abbrev comma_items : Items → ℕ
comma_items nil = 0
comma_items (cons x xs) = 1

abbrev comma_fields : Fields → ℕ
comma_fields end = 0
comma_fields (field k v fs) = 1

mutual
  unfolding char_bytes chars_bytes digits_bytes int_bytes

  value_bytes : Json → ℕ
  value_bytes null = 4
  value_bytes (bool b) = if b then 4 else 5
  value_bytes (num n) = int_bytes n
  value_bytes (str s) = 2 + chars_bytes s
  value_bytes (arr xs) = 2 + items_bytes xs
  value_bytes (obj fs) = 2 + fields_bytes fs

  items_bytes : Items → ℕ
  items_bytes nil = 0
  items_bytes (cons x xs) = value_bytes x + comma_items xs + items_bytes xs

  fields_bytes : Fields → ℕ
  fields_bytes end = 0
  fields_bytes (field k v fs) =
      2 + chars_bytes k + 1 + value_bytes v + comma_fields fs + fields_bytes fs

unfoldable pub json_utf8_bytes : Fields → ℕ
unfolding value_bytes
json_utf8_bytes fs = value_bytes (obj fs)

-- {"a":[1,-20],"b":"x\n"}
json_utf8_bytes_test :
    json_utf8_bytes (
      field "a" (arr (cons (num (pos 1)) (cons (num (negsuc 19)) nil))) (field "b" (str "x\n") end))
    ≡ 23
unfolding json_utf8_bytes
json_utf8_bytes_test = refl
