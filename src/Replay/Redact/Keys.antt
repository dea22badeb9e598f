-- ===== src/Replay/Redact/Keys.antt =====
-- Which properties `stripSensitiveDeep` keeps, and with what value.
use vahan.Prelude.{
  ℕ, String, ◌≡◌, refl, subst, ◌⊎◌, ◌∙◌, true, false, Option, none, some, Bool-cases, inl, inr,
  if◌then◌else◌, ◌==◌, eq_iff,
}
use vahan.Js.Json.{Json, Fields, str, obj, end, field, get, put}
use vahan.Js.Json.Laws.{get-put}
use vahan.Replay.Redact.{sensitive_key, strip_entries, strip_value, strip_sensitive_deep}

-- No key stands twice, as in every object of JavaScript.
abbrev pub IsObject : Fields → Type 0
IsObject end = Unit
IsObject (field k v fs) = (get k fs ≡ none) × IsObject fs

-- What becomes of the value at a key.
abbrev pub stripped_at : ℕ → String → Option Json → Option Json
stripped_at d k none = none
stripped_at d k (some v) = some (if sensitive_key k then str "[redacted]" else strip_value v d)

abbrev first_of_two : Option Json → Option Json → Option Json
first_of_two none w = w
first_of_two (some v) w = some v

get-strip_entries :
    (fs : Fields) (d : ℕ) (out : Fields) (k : String)
    → IsObject fs
    → get k (strip_entries fs d out) ≡ first_of_two (stripped_at d k (get k fs)) (get k out)
unfolding strip_entries get
get-strip_entries end d out k h = refl
get-strip_entries (field j v fs) d out k (new, h) =
    rw
      (
        get-strip_entries fs d
            (put j (if sensitive_key j then str "[redacted]" else strip_value v d) out) k h,
        get-put,
      )
      (entry (Bool-cases (j == k)))
  where
    entry :
        ((j == k) ≡ true) ⊎ ((j == k) ≡ false)
        → first_of_two (stripped_at d k (get k fs)) (
            if j == k
            then some (if sensitive_key j then str "[redacted]" else strip_value v d)
            else get k out)
          ≡ first_of_two (stripped_at d k (if j == k then some v else get k fs)) (get k out)
    entry (inl same) =
        rw (same, subst (λ i. get i fs ≡ none) ((eq_iff j k).0 same) new, (eq_iff j k).0 same)
    entry (inr other) = rw other

or_nothing : (o : Option Json) → first_of_two o (get "" end) ≡ o
unfolding get
or_nothing none = refl
or_nothing (some v) = refl

-- A stripped object whose keys were distinct has at each key "[redacted]" if the key is
-- sensitive, else its value, stripped in turn if that is an object, and nothing where it had
-- nothing. So a list keeps its elements unread.
pub get-strip_sensitive_deep :
    (fs : Fields) (k : String)
    → IsObject fs
    → get k (strip_sensitive_deep (obj fs) 0) ≡ stripped_at 0 k (get k fs)
unfolding strip_sensitive_deep get
get-strip_sensitive_deep fs k h =
    get-strip_entries fs 0 end k h ∙ or_nothing (stripped_at 0 k (get k fs))
