-- ===== src/Auth/Service.antt =====
-- apps/api-nest/src/auth/auth.service.ts. The verification of a token, the reading of a number
-- and the user table are parameters.
pub mod Laws
use vahan.Prelude.{
  String, Bool, true, false, not, ◌&&◌, Option, none, some, or_else, nat_eq, if◌then◌else◌, ◌==◌,
}
use vahan.Prelude.Int.{ℤ, pos, negsuc}
use vahan.Js.Number.{Finite, Reader, whole, finite_of}
use vahan.Js.Text.{present}
use vahan.Js.Json.{Json, null, str}
use vahan.Js.Show.{string_of}
use vahan.Js.Casing.{Casing}
use vahan.Env.{Env}
use vahan.Auth.Settings.{Secret, secret, insecure, resolve_nest_jwt_secret}
use vahan.Auth.Roles.{NestJwtUser, DbRoles, normalize_roles_from_db}

-- The claims of a verified token; a missing claim is `none`.
pub record Claims : Type 0 where
  pub typ : Option Json
  pub sub : Option Json
  pub v : Option Json
  pub tid : Option Json
  pub ptid : Option Json
  pub oid : Option Json
  pub opath : Option Json

pub record UserRow : Type 0 where
  pub token_version : ℤ
  pub roles : DbRoles
  pub tenant_id : Option String

-- Connecting to the pool and running the query.
pub data UserQuery : Type 0 where
  unreachable : UserQuery
  query_failed : String → UserQuery
  row : Option UserRow → UserQuery

-- The exceptions, with their messages.
pub data AuthError : Type 0 where
  invalid_token invalid_access_token token_superseded user_database_unreachable : AuthError
  insecure_secret query_error : AuthError

pub data Authenticated : Type 0 where
  ok : NestJwtUser → Authenticated
  err : AuthError → Authenticated

-- `if (claim != null) { const s = String(claim).trim(); if (s.length > 0) … }`
unfoldable pub claim_text : Option Json → Option String
claim_text none = none
claim_text (some null) = none
claim_text (some v) = present (some (string_of v))

-- `typ != null && String(typ) !== 'access'`
unfoldable pub is_other_type : Option Json → Bool
is_other_type none = false
is_other_type (some null) = false
is_other_type (some v) = not (string_of v == "access")

-- `typeof sub === 'string' && sub.trim().length > 0 ? sub.trim() : undefined`
unfoldable pub subject : Option Json → Option String
subject (some (str s)) = present (some s)
subject _ = none

abbrev pub same_int : ℤ → ℤ → Bool
same_int (pos n) (pos m) = nat_eq n m
same_int (negsuc n) (negsuc m) = nat_eq n m
same_int _ _ = false

-- `Number.isFinite(Number(v)) ? Number(v) : 0`
unfoldable pub version_of : Reader → Option Json → Finite
version_of read v = or_else (finite_of read v) (whole 0)

-- `tokenVersion === row.token_version`; the version of a row is an integer.
unfoldable pub same_version : Finite → ℤ → Bool
same_version f n = f.is_whole && same_int f.floor n

module _ (cs : Casing) (read : Reader) (verify : String → String → Option Claims)
    (query : String → UserQuery) (env : Env) where
  -- `loadUserRow`: `getPool` throws inside the `try`, so a missing URL is an unreachable database.
  unfoldable pub load_user_row : String → UserQuery
  load_user_row username = elim (present (env "DATABASE_URL")) [
    | none ↦ unreachable
    | some url ↦ query username
  ]

  abbrev pub user_of : String → Claims → UserRow → NestJwtUser
  user_of username decoded r = record {
    username = username;
    roles = normalize_roles_from_db cs r.roles;
    jwt_tenant_id = claim_text decoded.tid;
    jwt_parent_tenant_id = claim_text decoded.ptid;
    jwt_org_id = claim_text decoded.oid;
    jwt_org_path = claim_text decoded.opath;
    db_tenant_id = present r.tenant_id;
  }

  unfoldable pub check_row : String → Claims → UserQuery → Authenticated
  check_row username decoded unreachable = err user_database_unreachable
  check_row username decoded (query_failed message) = err query_error
  check_row username decoded (row none) = err invalid_token
  check_row username decoded (row (some r)) =
      if same_version (version_of read decoded.v) r.token_version
      then ok (user_of username decoded r)
      else err token_superseded

  unfoldable pub check_claims : Option Claims → Authenticated
  unfolding check_row
  check_claims none = err invalid_token
  check_claims (some decoded) =
      if is_other_type decoded.typ then err invalid_access_token else elim (subject decoded.sub) [
        | none ↦ err invalid_token
        | some username ↦ check_row username decoded (load_user_row username)
      ]

  abbrev pub with_secret : String → Secret → Authenticated
  with_secret raw_token (insecure e) = err insecure_secret
  with_secret raw_token (secret s) = check_claims (verify raw_token s)

  unfoldable pub authenticate_access_token : String → Authenticated
  authenticate_access_token raw_token = with_secret raw_token (resolve_nest_jwt_secret cs env)
