-- ===== src/Js/Json.antt =====
-- The values of JSON, the type `unknown` of a parsed document. An object is the list of its own
-- enumerable properties in the order of `Object.entries`; arrays and objects have list types of
-- their own. A missing property is `none`. Numbers are integers.
pub mod Laws
pub mod Size
use vahan.Prelude.{
  ℕ, suc, String, Bool, true, false, List, Option, none, some, if◌then◌else◌, ◌==◌, ◌≡◌, ◌≢◌,
}
use vahan.Prelude.Int.{ℤ, pos}

mutual
  pub data Json : Type 0 where
    null : Json
    bool : Bool → Json
    num : ℤ → Json
    str : String → Json
    arr : Items → Json
    obj : Fields → Json

  pub data Items : Type 0 where
    nil : Items
    cons : Json → Items → Items

  pub data Fields : Type 0 where
    end : Fields
    field : String → Json → Fields → Fields

-- `o[k]`, and `k in o` by the value that it finds
unfoldable pub get : String → Fields → Option Json
get k end = none
get k (field j v fs) = if j == k then some v else get k fs

-- `o[k] = v`: a key that is there keeps its place.
unfoldable pub put : String → Json → Fields → Fields
put k v end = field k v end
put k v (field j w fs) = if j == k then field j v fs else field j w (put k v fs)

-- `typeof v === 'string'`
abbrev pub as_string : Option Json → Option String
as_string (some (str s)) = some s
as_string _ = none

-- `v != null && typeof v === 'object' && !Array.isArray(v)`
abbrev pub as_object : Json → Option Fields
as_object (obj fs) = some fs
as_object _ = none

-- Every property of an object, with its key.
abbrev pub AllFields : (String → Json → Type 0) → Fields → Type 0
AllFields P end = Unit
AllFields P (field k v fs) = P k v × AllFields P fs
