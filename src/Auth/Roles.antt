-- ===== src/Auth/Roles.antt =====
-- apps/api-nest/src/auth/rbac.permissions.ts and auth.types.ts
pub mod Laws
use Prim.Native.String
use Prim.Native.Nat.{Ordering}
use vahan.Prelude.{
  String, Bool, true, false, not, Option, none, some, List, [], ◌∷◌, ◌++◌, map, filter, any,
  includes, ◌==◌, if◌then◌else◌, ◌≡◌, refl,
}
use vahan.Js.Text.{trim, is_empty, split}
use vahan.Js.Casing.{Casing}

pub record NestJwtUser : Type 0 where
  pub username : String
  pub roles : List String
  pub jwt_tenant_id : Option String
  pub jwt_parent_tenant_id : Option String
  pub jwt_org_id : Option String
  pub jwt_org_path : Option String
  pub db_tenant_id : Option String

abbrev pub role_slugs : List String
role_slugs = "ADMIN" ∷ "ANALYST" ∷ "OPS" ∷ "USER" ∷ []

abbrev pub default_role_slug : String
default_role_slug = "USER"

abbrev pub admin_permissions : List String
admin_permissions =
    "*" ∷ "ingest:*" ∷ "system:*" ∷ "vehicle:*" ∷ "scrape:*" ∷ "queue:replay" ∷ "audit:read" ∷ []

abbrev pub ops_permissions : List String
ops_permissions =
    "ingest:*" ∷ "system:*" ∷ "scrape:*" ∷ "vehicle:read" ∷ "analytics:read" ∷ "audit:read"
    ∷ "queue:replay" ∷ "selector:read" ∷ []

abbrev pub analyst_permissions : List String
analyst_permissions =
    "scrape:read" ∷ "vehicle:read" ∷ "ingest:read" ∷ "analytics:read" ∷ "audit:read"
    ∷ "selector:read" ∷ "system:read" ∷ []

abbrev pub user_permissions : List String
user_permissions = "scrape:read" ∷ "vehicle:read" ∷ "ingest:read" ∷ []

-- The column `roles`: null, a list of texts, or one text with commas.
pub data DbRoles : Type 0 where
  no_roles : DbRoles
  role_list : List String → DbRoles
  role_text : String → DbRoles

abbrev pub or_default : List String → List String
or_default [] = default_role_slug ∷ []
or_default (r ∷ rs) = r ∷ rs

-- `set.add(p)` on a set as the list of its elements in insertion order
unfoldable pub add : List String → String → List String
add set p = if includes set p then set else set ++ p ∷ []

unfoldable pub add_all : List String → List String → List String
unfolding add
add_all set [] = set
add_all set (p ∷ ps) = add_all (add set p) ps

-- The order of `sort()`; the texts that are sorted are ASCII.
abbrev before : String → String → Bool
before s t = elim (String.compare s t) [ Ordering.gt ↦ false | _ ↦ true ]

pub insert : String → List String → List String
insert s [] = s ∷ []
insert s (t ∷ ts) = if before s t then s ∷ t ∷ ts else t ∷ insert s ts

unfoldable pub sort : List String → List String
unfolding insert
sort [] = []
sort (s ∷ ss) = insert s (sort ss)

-- What one role that is not ADMIN adds: the body of the loop.
unfoldable pub bucket : String → List String
bucket r =
    if not (includes role_slugs r)
    then user_permissions
    else if r == "OPS"
    then ops_permissions
    else if r == "ANALYST"
    then analyst_permissions
    else if r == "USER"
    then user_permissions
    else []

unfoldable pub add_buckets : List String → List String → List String
add_buckets set [] = set
add_buckets set (r ∷ rs) = add_buckets (add_all set (bucket r)) rs

module _ (cs : Casing) where
  -- `String(x).trim().toUpperCase()`
  abbrev pub slug_of : String → String
  slug_of x = cs.upper (trim x)

  -- `.map(slug).filter(Boolean)`, and the loop over the parts of a text
  abbrev pub slugs_of : List String → List String
  slugs_of xs = filter (λ s. not (is_empty s)) (map slug_of xs)

  unfoldable pub normalize_roles_from_db : DbRoles → List String
  normalize_roles_from_db no_roles = default_role_slug ∷ []
  normalize_roles_from_db (role_list raw) = or_default (slugs_of raw)
  normalize_roles_from_db (role_text raw) =
      let s = trim raw in
      if is_empty s then default_role_slug ∷ [] else or_default (slugs_of (split b',' s))

  unfoldable pub permissions_from_normalized_roles : List String → List String
  permissions_from_normalized_roles list =
      let upper = map slug_of list in
      if any (λ r. r == "ADMIN") upper
      then sort (add_all [] admin_permissions)
      else sort (add_buckets [] upper)

  -- `userHasRole(user, ...required)`
  unfoldable pub user_has_role : NestJwtUser → List String → Bool
  user_has_role user required =
      let rs = map slug_of user.roles in any (λ need. includes rs (slug_of need)) required
