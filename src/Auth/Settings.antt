-- ===== src/Auth/Settings.antt =====
-- apps/api-nest/src/auth/auth-env.ts, tenant.constants.ts and jwt-secret.ts.
pub mod Secrets
use Prim.Native.Char.{code}
use Prim.Native.String.{[] as no_text, ◌∷◌ as char_text}
use vahan.Prelude.{
  ℕ, ◌+◌, String, Bool, true, false, not, ◌||◌, ◌&&◌, Option, none, some, or_else, List, [], ◌∷◌,
  map, filter, includes, ltb, leb, ◌==◌, if◌then◌else◌,
}
use vahan.Js.Text.{trim, is_empty, present, split}
use vahan.Js.Casing.{Casing}
use vahan.Env.{Env}

module _ (cs : Casing) (env : Env) where
  -- `DISABLE_AUTH`
  unfoldable pub is_auth_disabled : Bool
  is_auth_disabled = elim (env "DISABLE_AUTH") [
    | none ↦ false
    | some v ↦ includes ("1" ∷ "true" ∷ "yes" ∷ []) (cs.lower (trim v))
  ]

  abbrev pub is_prod : Bool
  is_prod = elim (env "NODE_ENV") [ none ↦ false | some v ↦ v == "production" ]

  -- `AUTH_ALLOW_BEARER`; if it is blank, all but production allow it
  unfoldable pub is_auth_allow_bearer : Bool
  is_auth_allow_bearer = elim (present (env "AUTH_ALLOW_BEARER")) [
    | none ↦ not is_prod
    | some v ↦ includes ("1" ∷ "true" ∷ "yes" ∷ "on" ∷ []) (cs.lower v)
  ]

unfoldable pub resolved_default_tenant_slug : Env → String
resolved_default_tenant_slug env = or_else (present (env "DEFAULT_TENANT_ID")) "default"

-- `s.split(',').map((s) => s.trim()).filter(Boolean)`
abbrev pub comma_parts : String → List String
comma_parts s = filter (λ p. not (is_empty p)) (map trim (split b',' s))

abbrev pub if_any : List String → Option (List String)
if_any [] = none
if_any (p ∷ ps) = some (p ∷ ps)

-- A set of slugs, as the list of its texts.
unfoldable pub parse_tenant_allowlist : Env → Option (List String)
parse_tenant_allowlist env = elim (present (env "ALLOWED_TENANT_IDS")) [
  | none ↦ none
  | some raw ↦ if_any (comma_parts raw)
]

-- `s.length`, in UTF-16 units
unfoldable pub utf16_length : String → ℕ
utf16_length String.[] = 0
utf16_length (String.◌∷◌ c s) = (if ltb (code c) 0x10000 then 1 else 2) + utf16_length s

abbrev pub min_length : ℕ
min_length = 32

abbrev pub dev_fallback : String
dev_fallback = "TaK+HaV^uvCHEFsEVfypW#7g9^k*Z8$V"

-- The texts that are no secrets; the last is tried by a pattern of its own in the source.
abbrev pub placeholders : List String
placeholders =
    "change-me-in-production" ∷ "changeme" ∷ "secret"
    ∷ "your_jwt_secret_key_here_change_to_strong_random_min32_chars" ∷ "change-it" ∷ []

-- Why `resolveNestJwtSecret` throws.
pub data SecretError : Type 0 where
  placeholder required : SecretError
  too_short : (length : ℕ) → SecretError

pub data Secret : Type 0 where
  secret : String → Secret
  insecure : SecretError → Secret

module _ (cs : Casing) where
  unfoldable pub is_placeholder : String → Bool
  is_placeholder value =
      let v = cs.lower (trim value) in if is_empty v then false else includes placeholders v

  unfoldable pub secret_from : Bool → String → Secret
  secret_from prod trimmed =
      if not (is_empty trimmed) && is_placeholder trimmed
      then (if prod then insecure placeholder else secret dev_fallback)
      else if leb min_length (utf16_length trimmed)
      then secret trimmed
      else if prod
      then (if is_empty trimmed
          then insecure required
          else insecure (too_short (utf16_length trimmed)))
      else if is_empty trimmed
      then secret dev_fallback
      else secret trimmed

  unfoldable pub resolve_nest_jwt_secret : Env → Secret
  resolve_nest_jwt_secret env =
      secret_from (is_prod cs env) (elim (env "JWT_SECRET") [ none ↦ "" | some raw ↦ trim raw ])
