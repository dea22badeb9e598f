-- ===== src/Replay/Redact.antt =====
-- `SENSITIVE_KEY_RE` and `stripSensitiveDeep` of apps/api-nest/src/failed-job-replay.service.ts.
pub mod Laws
pub mod Keys
use Prim.Native.Char.{code}
use Prim.Native.String.{[] as nil_text, ◌∷◌ as cons_text}
use vahan.Prelude.{
  ℕ, ◌+◌, String, ◌≡◌, refl, Bool, true, false, ◌&&◌, ◌||◌, List, [], ◌∷◌, any, ltb, leb, nat_eq,
  if◌then◌else◌,
}
use vahan.Prelude.Int.{pos}
use vahan.Js.Json.{Json, Fields, null, num, str, arr, obj, nil, cons, end, field, put}

-- The flag `i` of a regular expression folds the letters of ASCII onto each other alone.
unfoldable pub ascii_lower : ℕ → ℕ
ascii_lower c = if leb 65 c && leb c 90 then c + 32 else c

unfoldable pub starts_word : String → String → Bool
unfolding ascii_lower
starts_word String.[] s = true
starts_word (String.◌∷◌ p ps) String.[] = false
starts_word (String.◌∷◌ p ps) (String.◌∷◌ c s) =
    nat_eq (ascii_lower (code c)) (code p) && starts_word ps s

unfoldable pub contains_word : String → String → Bool
unfolding starts_word
contains_word w String.[] = starts_word w ""
contains_word w (String.◌∷◌ c s) = starts_word w (String.◌∷◌ c s) || contains_word w s

-- The words of the expression, each optional or bracketed character written out.
abbrev pub sensitive_words : List String
sensitive_words =
    "secret" ∷ "password" ∷ "token" ∷ "apikey" ∷ "authorization" ∷ "cookie" ∷ "credential"
    ∷ "bearer" ∷ "privatekey" ∷ "private_key" ∷ "private-key" ∷ "setcookie" ∷ "set-cookie"
    ∷ "set_cookie" ∷ "x-api-key" ∷ "x-api_key" ∷ "x_api-key" ∷ "x_api_key" ∷ []

-- `SENSITIVE_KEY_RE.test(k)`
unfoldable pub sensitive_key : String → Bool
unfolding contains_word
sensitive_key k = any (λ w. contains_word w k) sensitive_words

-- `if (depth > 8 …) return {};` in front of the loop that gives `out`
abbrev pub unless_deep : ℕ → Fields → Fields
unless_deep depth out = if ltb 8 depth then end else out

unfoldable mutual
  -- The loop over `Object.entries(src)`.
  pub strip_entries : Fields → ℕ → Fields → Fields
  strip_entries end depth out = out
  strip_entries (field k v rest) depth out =
      strip_entries rest depth
        (put k (if sensitive_key k then str "[redacted]" else strip_value v depth) out)

  -- A property whose key is not sensitive: an object is stripped in turn.
  pub strip_value : Json → ℕ → Json
  strip_value (obj fs) depth = obj (unless_deep (depth + 1) (strip_entries fs (depth + 1) end))
  strip_value v depth = v

-- `stripSensitiveDeep(input, depth)`
unfoldable pub strip_sensitive_deep : Json → ℕ → Fields
strip_sensitive_deep (obj src) depth = unless_deep depth (strip_entries src depth end)
strip_sensitive_deep _ depth = end

strip_test :
    strip_sensitive_deep
      (obj (
        field "kind" (str "khanan_date_range") (
          field "X-Api-Key"
            (str "k")
            (field "meta" (obj (field "authToken" null (field "n" (num (pos 1)) end))) end))))
      0
    ≡ field "kind" (str "khanan_date_range") (
        field "X-Api-Key" (str "[redacted]") (
          field "meta"
            (obj (field "authToken" (str "[redacted]") (field "n" (num (pos 1)) end)))
            end))
unfolding strip_sensitive_deep strip_entries sensitive_key put
strip_test = refl
