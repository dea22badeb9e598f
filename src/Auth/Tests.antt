-- ===== src/Auth/Tests.antt =====
-- The theorems on authentication at a token of a user of tenant "acme".
use vahan.Prelude.{
  ◌≤◌, String, ◌≡◌, ◌↔◌, refl, true, false, Option, some, none, [], ◌∷◌, ◌==◌, if◌then◌else◌,
}
use vahan.Prelude.Int.{pos}
use vahan.Js.Number.{Reader, whole}
use vahan.Js.Text.{trim, present}
use vahan.Js.Json.{str, num}
use vahan.Js.Casing.{Casing, HasCase}
use vahan.Env.{Env}
use vahan.Auth.Settings.{
  Secret, secret, resolve_nest_jwt_secret, is_auth_disabled, is_prod, min_length, utf16_length,
  is_placeholder,
}
use vahan.Auth.Settings.Secrets.{resolve_nest_jwt_secret-prod}
use vahan.Auth.Roles.{NestJwtUser, role_text, user_has_role, normalize_roles_from_db}
use vahan.Auth.Service.{
  Claims, UserRow, UserQuery, row, Authenticated, ok, authenticate_access_token, version_of,
  same_version,
}
use vahan.Auth.Service.Laws.{IsAuthentic, authenticate_access_token_iff}
use vahan.Auth.Guards.{Request, pass, check_tenant, effective_tenant, guard_chain, tenant_id}
use vahan.Auth.Guards.Laws.{IsAuthorized, check_tenant_iff}
use vahan.Auth.Guards.Chain.{HasPassed, guard_chain-HasPassed}

abbrev cs : Casing
cs = record { upper = λ s. s; lower = λ s. s }

cs-HasCase : HasCase cs.upper
cs-HasCase = record { idem = λ s. refl; trims = λ s. refl; keeps = λ s. refl }

abbrev key : String
key = "0123456789abcdef0123456789abcdef"

abbrev env : Env
env name =
    if name == "JWT_SECRET"
    then some key
    else if name == "NODE_ENV"
    then some "production"
    else if name == "DATABASE_URL"
    then some "postgres://db"
    else none

abbrev no_database : Env
no_database name = if name == "JWT_SECRET" then some key else none

abbrev claims : Claims
claims = record {
  typ = some (str "access");
  sub = some (str "asha");
  v = some (num (pos 2));
  tid = some (str "acme");
  ptid = none;
  oid = none;
  opath = none;
}

abbrev read : Reader
read s = if s == "2" then some (whole 2) else none

abbrev verify : String → String → Option Claims
verify token k = if token == "good" then some claims else none

abbrev query : String → UserQuery
query name = row (
    if name == "asha"
    then some (record { token_version = pos 2; roles = role_text "OPS"; tenant_id = some "acme" })
    else none)

abbrev decode : String → Option String
decode s = some s

abbrev asha : NestJwtUser
asha = record {
  username = "asha";
  roles = "OPS" ∷ [];
  jwt_tenant_id = some "acme";
  jwt_parent_tenant_id = none;
  jwt_org_id = none;
  jwt_org_path = none;
  db_tenant_id = some "acme";
}

abbrev request : Request
request = record {
  headers = record {
    authorization = none;
    cookie = some "a=1; spybot_access=good";
    custom = λ name. if name == "x-tenant-id" then some "acme" else none;
  };
  vahan_jwt_user = none;
  vahan_tenant_id = none;
}

abbrev passed_request : Request
passed_request = record request { vahan_jwt_user = some asha; vahan_tenant_id = some "acme" }

-- A version that is no integer is that of no row.
fractional_version :
    same_version
      (version_of (λ s. some (record { floor = pos 1; is_whole = false })) (some (str "1.5")))
      (pos 1)
    ≡ false
unfolding version_of same_version vahan.Js.Number.finite_of
fractional_version = refl

authenticate_access_token_iff_example :
    (authenticate_access_token cs read verify query env "good" ≡ ok asha)
    ↔ IsAuthentic cs read verify query env "good" asha
authenticate_access_token_iff_example =
    authenticate_access_token_iff cs read verify query env "good" asha

no_url : present (no_database "DATABASE_URL") ≡ none
unfolding present
no_url = refl

check_tenant_iff_example : (check_tenant cs env request asha ≡ pass passed_request) ↔ (
    IsAuthorized cs env request asha
    × (passed_request
        ≡ record request { vahan_tenant_id = some (effective_tenant cs env request asha) }))
check_tenant_iff_example = check_tenant_iff cs env request passed_request asha

enabled : is_auth_disabled cs env ≡ false
unfolding is_auth_disabled
enabled = refl

passes_guards :
    guard_chain cs env read verify query decode false ("OPS" ∷ "ADMIN" ∷ []) request
    ≡ pass passed_request
unfolding guard_chain vahan.Auth.Guards.jwt_auth_guard is_auth_disabled
    vahan.Auth.Token.access_token_from_request vahan.Auth.Token.extract_bearer_token
    vahan.Auth.Token.extract_access_cookie vahan.Auth.Token.find_cookie vahan.Js.Text.split
    vahan.Auth.Token.strip_prefix trim authenticate_access_token resolve_nest_jwt_secret
    vahan.Auth.Settings.secret_from is_placeholder utf16_length vahan.Auth.Service.check_claims
    vahan.Auth.Service.is_other_type vahan.Js.Show.string_of check_tenant
    vahan.Auth.Guards.disagrees vahan.Auth.Guards.roles_guard vahan.Auth.Guards.tenant_guard
    normalize_roles_from_db user_has_role vahan.Auth.Service.check_row vahan.Auth.Service.claim_text
    vahan.Auth.Service.load_user_row vahan.Auth.Service.subject vahan.Auth.Service.version_of
    vahan.Auth.Settings.is_auth_allow_bearer vahan.Auth.Settings.parse_tenant_allowlist
    vahan.Auth.Settings.resolved_default_tenant_slug vahan.Auth.Token.slice_from
    vahan.Js.Show.join_items vahan.Js.Number.finite_of vahan.Auth.Service.same_version present
    vahan.Js.Text.split_at vahan.Tenant.normalize_tenant_slug
passes_guards = refl

guard_chain-HasPassed_example :
    HasPassed cs env enabled read verify query decode ("OPS" ∷ "ADMIN" ∷ []) request passed_request
guard_chain-HasPassed_example =
    guard_chain-HasPassed cs env enabled read verify query decode ("OPS" ∷ "ADMIN" ∷ []) request
      passed_request passes_guards

in_production : is_prod cs env ≡ true
in_production = refl

resolved : resolve_nest_jwt_secret cs env ≡ secret key
unfolding resolve_nest_jwt_secret vahan.Auth.Settings.secret_from trim is_placeholder utf16_length
resolved = refl

resolve_nest_jwt_secret-prod_example :
    (raw : String) × (env "JWT_SECRET" ≡ some raw)
    × (key ≡ trim raw)
    × (min_length ≤ utf16_length key)
    × (is_placeholder cs key ≡ false)
resolve_nest_jwt_secret-prod_example =
    resolve_nest_jwt_secret-prod cs env key in_production resolved

user_upper : cs.upper "USER" ≡ "USER"
user_upper = refl
