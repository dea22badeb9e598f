-- ===== src/Auth/Guards.antt =====
-- apps/api-nest/src/auth: jwt-auth.guard.ts, tenant.guard.ts and roles.guard.ts, the chain that
-- apps/api-nest/src/app.module.ts and the controllers make of them, and tenant-id.decorator.ts.
pub mod Laws
pub mod Chain
use vahan.Prelude.{
  String, Bool, true, false, not, ◌&&◌, ◌||◌, Option, none, some, or_else, or_option, List, [], ◌∷◌,
  includes, if◌then◌else◌, ◌==◌,
}
use vahan.Prelude.Int.{ℤ}
use vahan.Js.Number.{Reader}
use vahan.Js.Text.{trim, is_empty, present}
use vahan.Js.Casing.{Casing}
use vahan.Env.{Env}
use vahan.Tenant.{normalize_tenant_slug}
use vahan.Auth.Settings.{
  is_auth_disabled, is_auth_allow_bearer, resolved_default_tenant_slug, parse_tenant_allowlist,
}
use vahan.Auth.Roles.{NestJwtUser, user_has_role}
use vahan.Auth.Token.{
  Headers, access_token_from_request, ResolvedAccessToken, bearer_deprecated, missing,
}
use vahan.Auth.Service.{AuthError, Authenticated, Claims, UserQuery, authenticate_access_token}

pub record Request : Type 0 where
  pub headers : Headers
  pub vahan_jwt_user : Option NestJwtUser
  pub vahan_tenant_id : Option String

-- What the guards and the decorator throw.
pub data Denied : Type 0 where
  bearer_is_deprecated no_token : Denied
  not_authenticated : AuthError → Denied
  user_required tenant_not_authorized tenant_not_allowed forbidden insufficient_role : Denied
  header_disagrees : (header : String) → Denied
  no_tenant_context : Denied

-- A guard that returns true leaves the request as it has changed it.
pub data Verdict : Type 0 where
  pass : Request → Verdict
  deny : Denied → Verdict

infixl 5 ◌>>=◌
abbrev pub ◌>>=◌ : Verdict → (Request → Verdict) → Verdict
pass r >>= f = f r
deny d >>= f = deny d

-- The texts that are truthy: `null` and the empty text are not.
abbrev pub truthy : Option String → Option String
truthy none = none
truthy (some s) = if is_empty s then none else some s

-- `a && b && a !== b`
abbrev both_differ : Option String → Option String → Bool
both_differ none b = false
both_differ (some a) none = false
both_differ (some a) (some b) = not (a == b)

unfoldable pub disagrees : Option String → Option String → Bool
disagrees claim header = both_differ (truthy claim) (truthy header)

-- `user.dbTenantId && user.dbTenantId !== effective`
abbrev pub locked_elsewhere : Option String → String → Bool
locked_elsewhere none t = false
locked_elsewhere (some d) t = not (is_empty d) && not (d == t)

-- `allow && !allow.has(effective)`
abbrev pub not_listed : Option (List String) → String → Bool
not_listed none t = false
not_listed (some slugs) t = not (includes slugs t)

module _ (cs : Casing) (env : Env) where
  -- `req.get(name)?.trim() || null`
  abbrev pub header : Request → String → Option String
  header req name = present (req.headers.custom name)

  abbrev pub effective_tenant : Request → NestJwtUser → String
  effective_tenant req user = normalize_tenant_slug (
      some (
        or_else
          (or_option user.jwt_tenant_id (or_option (header req "x-tenant-id") user.db_tenant_id))
          (resolved_default_tenant_slug env)))

  -- `TenantGuard.canActivate` for an authenticated user, in the order of its checks
  unfoldable pub check_tenant : Request → NestJwtUser → Verdict
  check_tenant req user =
      if disagrees user.jwt_tenant_id (header req "x-tenant-id")
      then deny (header_disagrees "X-Tenant-Id")
      else if disagrees user.jwt_org_id (header req "x-org-id")
      then deny (header_disagrees "X-Org-Id")
      else if disagrees user.jwt_org_path (header req "x-org-path")
      then deny (header_disagrees "X-Org-Path")
      else if disagrees user.jwt_parent_tenant_id (header req "x-parent-tid")
      then deny (header_disagrees "X-Parent-Tid")
      else if locked_elsewhere user.db_tenant_id (effective_tenant req user)
      then deny tenant_not_authorized
      else if not_listed (parse_tenant_allowlist env) (effective_tenant req user)
      then deny tenant_not_allowed
      else pass (record req { vahan_tenant_id = some (effective_tenant req user) })

  unfoldable pub tenant_guard : Bool → Request → Verdict
  tenant_guard is_public req =
      if is_auth_disabled cs env
      then pass (record req {
        vahan_tenant_id = some (normalize_tenant_slug (some (resolved_default_tenant_slug env)));
      })
      else if is_public
      then pass req
      else elim req.vahan_jwt_user [ none ↦ deny user_required | some user ↦ check_tenant req user ]

  abbrev check_roles : List String → Request → Option NestJwtUser → Verdict
  check_roles [] req user = pass req
  check_roles (r ∷ rs) req none = deny forbidden
  check_roles (r ∷ rs) req (some user) =
      if user_has_role cs user (r ∷ rs) then pass req else deny insufficient_role

  -- `RolesGuard.canActivate`; a route without the decorator requires no role.
  unfoldable pub roles_guard : List String → Request → Verdict
  roles_guard required req =
      if is_auth_disabled cs env then pass req else check_roles required req req.vahan_jwt_user

  module _ (read : Reader) (verify : String → String → Option Claims) (query : String → UserQuery)
      (decode_uri_component : String → Option String) where
    abbrev with_user : Request → Authenticated → Verdict
    with_user req (Authenticated.ok user) = pass (record req { vahan_jwt_user = some user })
    with_user req (Authenticated.err e) = deny (not_authenticated e)

    abbrev with_token : Request → ResolvedAccessToken → Verdict
    with_token req bearer_deprecated = deny bearer_is_deprecated
    with_token req missing = deny no_token
    with_token req (ResolvedAccessToken.ok token) =
        with_user req (authenticate_access_token cs read verify query env token)

    unfoldable pub jwt_auth_guard : Bool → Request → Verdict
    jwt_auth_guard is_public req =
        if is_auth_disabled cs env
        then pass req
        else if is_public
        then pass req
        else with_token req (
            access_token_from_request decode_uri_component cs req.headers
              (is_auth_allow_bearer cs env))

    -- The global guards in the order of their providers, then the guard of the controller.
    unfoldable pub guard_chain : Bool → List String → Request → Verdict
    guard_chain is_public required req = do
      authenticated ← jwt_auth_guard is_public req
      scoped ← tenant_guard is_public authenticated
      roles_guard required scoped

-- The decorator `TenantId`: `none` where it throws.
unfoldable pub tenant_id : Request → Option String
tenant_id req = elim (present req.vahan_tenant_id) [ none ↦ none | some t ↦ req.vahan_tenant_id ]
