-- ===== src/Worker/Data/Laws.antt =====
-- Reading the properties of job data.
use vahan.Prelude.{
  String, ◌≡◌, refl, Option, none, some, or_option, [], ◌∷◌, if◌then◌else◌, ◌==◌, eq_iff, arith,
}
use vahan.Js.Json.{Json, Fields, end, field, get}
use vahan.Worker.Data.{Entries, object, remove}

-- What an object literal has at a key.
abbrev pub entry_at : String → Entries → Option Json
entry_at k [] = none
entry_at k ((j, o) ∷ es) = if j == k then or_option o (entry_at k es) else entry_at k es

pub get-object : (k : String) (es : Entries) → get k (object es) ≡ entry_at k es
unfolding get object
get-object k [] = refl
get-object k ((j, none) ∷ es) = ground (arith, get-object k es)
get-object k ((j, some v) ∷ es) = ground (arith, get-object k es)

pub get-remove :
    (j k : String) (fs : Fields) → get j (remove k fs) ≡ (if k == j then none else get j fs)
unfolding get remove
get-remove j k end = ground arith
get-remove j k (field i v fs) =
    ground (arith, eq_iff i k, eq_iff k j, eq_iff i j, get-remove j k fs)
