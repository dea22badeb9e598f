-- ===== src/Replay/Redact/Laws.antt =====
-- What is left of a document after `stripSensitiveDeep`.
use vahan.Prelude.{
  ℕ, ◌+◌, ◌-◌, ◌≤◌, String, ◌≡◌, sym, subst, true, Bool-cases, inl, inr, max, ltb, if◌then◌else◌,
  ◌==◌, eq_iff, arith,
}
use vahan.Js.Json.{Json, Fields, null, bool, num, str, arr, obj, end, field, put}
use vahan.Replay.Redact.{
  sensitive_key, strip_entries, strip_value, strip_sensitive_deep, unless_deep,
}

-- In an object and in every object that its properties hold, a sensitive key has lost its value.
mutual
  pub IsRedacted : Fields → Type 0
  IsRedacted end = Unit
  IsRedacted (field k v fs) =
      (sensitive_key k ≡ true → v ≡ str "[redacted]") × IsRedactedValue v × IsRedacted fs

  pub IsRedactedValue : Json → Type 0
  IsRedactedValue (obj fs) = IsRedacted fs
  IsRedactedValue _ = Unit

-- How deep objects stand in objects.
mutual
  pub nesting : Fields → ℕ
  nesting end = 0
  nesting (field k v fs) = max (1 + nesting_value v) (nesting fs)

  pub nesting_value : Json → ℕ
  nesting_value (obj fs) = nesting fs
  nesting_value _ = 0

put-IsRedacted :
    (k : String) (v : Json) (fs : Fields)
    → (sensitive_key k ≡ true → v ≡ str "[redacted]")
    → IsRedactedValue v
    → IsRedacted fs
    → IsRedacted (put k v fs)
unfolding put IsRedacted
put-IsRedacted k v end p q h = (p, q, tt)
put-IsRedacted k v (field i w fs) p q (a, b, h) = elim (Bool-cases (i == k)) [
  | inl same ↦ rw same (
    subst (λ j. sensitive_key j ≡ true → v ≡ str "[redacted]") (sym ((eq_iff i k).0 same)) p,
    q,
    h,
  )
  | inr other ↦ rw other (a, b, put-IsRedacted k v fs p q h)
]

redact-IsRedacted :
    (k : String) (v : Json)
    → IsRedactedValue v
    → IsRedactedValue (if sensitive_key k then str "[redacted]" else v)
unfolding IsRedacted
redact-IsRedacted k v h = elim (Bool-cases (sensitive_key k)) [
  | inl hit ↦ rw hit tt
  | inr other ↦ rw other h
]

redacted-value :
    (k : String) (v : Json)
    → sensitive_key k ≡ true
    → (if sensitive_key k then str "[redacted]" else v) ≡ str "[redacted]"
redacted-value k v h = rw h

unless_deep-IsRedacted : (d : ℕ) (fs : Fields) → IsRedacted fs → IsRedacted (unless_deep d fs)
unfolding IsRedacted
unless_deep-IsRedacted d fs h = elim (Bool-cases (ltb 8 d)) [
  | inl deep ↦ rw deep tt
  | inr other ↦ rw other h
]

mutual
  unfolding strip_entries IsRedacted

  entries-IsRedacted :
      (fs : Fields) (d : ℕ) (out : Fields) → IsRedacted out → IsRedacted (strip_entries fs d out)
  entries-IsRedacted end d out h = h
  entries-IsRedacted (field k v rest) d out h = entries-IsRedacted rest d _ (
      put-IsRedacted k _ out (redacted-value k (strip_value v d))
        (redact-IsRedacted k (strip_value v d) (value-IsRedacted v d)) h)

  value-IsRedacted : (v : Json) (d : ℕ) → IsRedactedValue (strip_value v d)
  value-IsRedacted (obj fs) d =
      unless_deep-IsRedacted (d + 1) _ (entries-IsRedacted fs (d + 1) end tt)
  value-IsRedacted null d = tt
  value-IsRedacted (bool b) d = tt
  value-IsRedacted (num n) d = tt
  value-IsRedacted (str s) d = tt
  value-IsRedacted (arr xs) d = tt

-- Whatever document is stripped, at every depth that an object stands in objects, a property
-- with a sensitive key has the value "[redacted]".
pub strip_sensitive_deep-IsRedacted :
    (input : Json) (d : ℕ) → IsRedacted (strip_sensitive_deep input d)
unfolding strip_sensitive_deep IsRedacted
strip_sensitive_deep-IsRedacted (obj fs) d =
    unless_deep-IsRedacted d _ (entries-IsRedacted fs d end tt)
strip_sensitive_deep-IsRedacted null d = tt
strip_sensitive_deep-IsRedacted _ d = tt

nesting-put :
    (k : String) (v : Json) (fs : Fields) (n : ℕ)
    → 1 + nesting_value v ≤ n
    → nesting fs ≤ n
    → nesting (put k v fs) ≤ n
unfolding put nesting
nesting-put k v end n p h = omega arith
nesting-put k v (field i w fs) n p h = elim (Bool-cases (i == k)) [
  | inl same ↦ rw same (omega arith)
  | inr other ↦ rw other (omega (arith, nesting-put k v fs n p (omega arith)))
]

nesting-unless_deep :
    (d : ℕ) (fs : Fields) → (d ≤ 8 → nesting fs ≤ 9 - d) → nesting (unless_deep d fs) ≤ 9 - d
unfolding nesting
nesting-unless_deep d fs h = elim (Bool-cases (ltb 8 d)) [
  | inl deep ↦ rw deep (omega arith)
  | inr other ↦ rw other (h (ground arith))
]

nesting-redact :
    (k : String) (v : Json) (n : ℕ)
    → nesting_value v ≤ n
    → nesting_value (if sensitive_key k then str "[redacted]" else v) ≤ n
unfolding nesting
nesting-redact k v n h = elim (Bool-cases (sensitive_key k)) [
  | inl hit ↦ rw hit (omega arith)
  | inr other ↦ rw other h
]

mutual
  unfolding strip_entries nesting

  nesting-entries :
      (fs : Fields) (d : ℕ) (out : Fields)
      → d ≤ 8
      → nesting out ≤ 9 - d
      → nesting (strip_entries fs d out) ≤ 9 - d
  nesting-entries end d out p h = h
  nesting-entries (field k v rest) d out p h = nesting-entries rest d _ p (
      nesting-put k _ out (9 - d)
        (omega (arith, nesting-redact k (strip_value v d) (8 - d) (nesting-value v d p))) h)

  nesting-value : (v : Json) (d : ℕ) → d ≤ 8 → nesting_value (strip_value v d) ≤ 8 - d
  nesting-value (obj fs) d p =
      omega
        (arith, nesting-unless_deep (d + 1) _ (λ q. nesting-entries fs (d + 1) end q (omega arith)))
  nesting-value null d p = omega arith
  nesting-value (bool b) d p = omega arith
  nesting-value (num n) d p = omega arith
  nesting-value (str s) d p = omega arith
  nesting-value (arr xs) d p = omega arith

-- A stripped document has at most nine levels of objects in objects.
pub nesting-strip_sensitive_deep : (input : Json) → nesting (strip_sensitive_deep input 0) ≤ 9
unfolding strip_sensitive_deep nesting
nesting-strip_sensitive_deep (obj fs) = nesting-entries fs 0 end (omega arith) (omega arith)
nesting-strip_sensitive_deep null = omega arith
nesting-strip_sensitive_deep _ = omega arith
