-- ===== src/Auth/Token.antt =====
-- apps/api-nest/src/auth/auth.utils.ts: the access token of a request. `decodeURIComponent` is a
-- parameter, `none` where it throws.
use Prim.Native.Char.{code}
use vahan.Prelude.{
  ℕ, zero, suc, String, Bool, true, false, Option, none, some, or_else, List, [], ◌∷◌, nat_eq,
  if◌then◌else◌,
}
use vahan.Js.Text.{trim, is_empty, present, split}
use vahan.Js.Casing.{Casing}

-- The part of a request that the guards read; `user` and `tenant` are what they add to it.
pub record Headers : Type 0 where
  pub authorization : Option String
  pub cookie : Option String
  pub custom : String → Option String

-- `s.startsWith(p) ? s.slice(p.length) : undefined`
unfoldable pub strip_prefix : String → String → Option String
strip_prefix String.[] s = some s
strip_prefix (String.◌∷◌ p ps) String.[] = none
strip_prefix (String.◌∷◌ p ps) (String.◌∷◌ c s) =
    if nat_eq (code p) (code c) then strip_prefix ps s else none

-- `s.slice(n)`
unfoldable pub slice_from : ℕ → String → String
slice_from zero s = s
slice_from (suc n) String.[] = ""
slice_from (suc n) (String.◌∷◌ c s) = slice_from n s

abbrev pub starts_with : String → String → Bool
starts_with s p = elim (strip_prefix p s) [ none ↦ false | some rest ↦ true ]

unfoldable pub extract_bearer_token : Casing → Headers → Option String
extract_bearer_token cs req = elim req.authorization [
  | none ↦ none
  | some raw ↦
      (let h = trim raw in
        if starts_with (cs.lower h) "bearer " then present (some (slice_from 7 h)) else none)
]

pub data ResolvedAccessToken : Type 0 where
  bearer_deprecated missing : ResolvedAccessToken
  ok : (token : String) → ResolvedAccessToken

abbrev pub token_or_missing : String → ResolvedAccessToken
token_or_missing token = if is_empty token then missing else ok token

module _ (decode_uri_component : String → Option String) where
  -- The loop over `cookieHeader.split(';')`.
  unfoldable pub find_cookie : String → List String → Option String
  find_cookie prefix [] = none
  find_cookie prefix (part ∷ parts) = elim (strip_prefix prefix (trim part)) [
    | none ↦ find_cookie prefix parts
    | some value ↦ some (or_else (decode_uri_component value) value)
  ]

  -- `extractCookie(req, 'spybot_access')`; that name is its own encoding.
  unfoldable pub extract_access_cookie : Headers → Option String
  extract_access_cookie req = elim req.cookie [
    | none ↦ none
    | some header ↦
        if is_empty header then none else find_cookie "spybot_access=" (split b';' header)
  ]

  unfoldable pub access_token_from_request : Casing → Headers → Bool → ResolvedAccessToken
  access_token_from_request cs req allow_bearer = elim (extract_bearer_token cs req) [
    | none ↦ token_or_missing (or_else (extract_access_cookie req) "")
    | some bearer ↦ if allow_bearer then token_or_missing bearer else bearer_deprecated
  ]
