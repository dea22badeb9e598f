-- ===== src/Auth/Guards/Laws.antt =====
-- Which tenant a request is given: `TenantGuard`.
use mathlib.Core.Option.{some-injective}
use vahan.Prelude.{
  String, ◌≡◌, refl, ap, ◌∙◌, sym, subst, ◌↔◌, Bool, true, false, not, Option, none, some, List,
  Holds, includes_iff, none≢some, eq_iff, if◌then◌else◌, arith,
}
use vahan.Js.Text.{is_empty}
use vahan.Js.Casing.{Casing}
use vahan.Env.{Env}
use vahan.Auth.Settings.{parse_tenant_allowlist}
use vahan.Auth.Roles.{NestJwtUser}
use vahan.Auth.Guards.{
  Request, Denied, pass, deny, disagrees, locked_elsewhere, not_listed, header, effective_tenant,
  check_tenant,
}

-- A claim and a header that both say something say the same.
abbrev pub Agrees : Option String → Option String → Type 0
Agrees claim head =
    (a b : String)
    → claim ≡ some a
    → head ≡ some b
    → is_empty a ≡ false
    → is_empty b ≡ false
    → a ≡ b

disagrees_iff : (claim head : Option String) → (disagrees claim head ≡ false) ↔ Agrees claim head
unfolding disagrees
disagrees_iff none head = (λ h a b p q x y. cc, λ h. refl)
disagrees_iff (some a) none = (λ h c d p q x y. absurd (none≢some q), λ h. ground arith)
disagrees_iff (some a) (some b) =
    (λ h c d p q x y. ground (arith, eq_iff a b), λ h. ground (arith, eq_iff a b, h a b refl refl))

locked_iff :
    (d : Option String) (t : String)
    → (locked_elsewhere d t ≡ false) ↔ ((s : String) → d ≡ some s → is_empty s ≡ false → s ≡ t)
locked_iff none t = (λ h s p x. cc, λ h. refl)
locked_iff (some d) t =
    (λ h s p x. ground (arith, eq_iff d t), λ h. ground (arith, eq_iff d t, h d refl))

listed_iff :
    (slugs : Option (List String)) (t : String)
    → (not_listed slugs t ≡ false) ↔ ((ss : List String) → slugs ≡ some ss → Holds t ss)
listed_iff none t = (λ h ss p. cc, λ h. refl)
listed_iff (some ss) t = (
  λ h ts p. subst (Holds t) (some-injective ss ts p) ((includes_iff ss t).0 (ground arith)),
  λ h. ap not ((includes_iff ss t).1 (h ss refl)),
)

-- The tenant of a request: claims and headers agree, a user who is bound to a tenant stays in it,
-- and the deployment allows it.
pub record IsAuthorized (cs : Casing) (env : Env) (req : Request) (user : NestJwtUser)
    : Type 0 where
  pub tenant : Agrees user.jwt_tenant_id (header cs env req "x-tenant-id")
  pub org : Agrees user.jwt_org_id (header cs env req "x-org-id")
  pub org_path : Agrees user.jwt_org_path (header cs env req "x-org-path")
  pub parent : Agrees user.jwt_parent_tenant_id (header cs env req "x-parent-tid")
  pub bound :
      (s : String)
      → user.db_tenant_id ≡ some s
      → is_empty s ≡ false
      → s ≡ effective_tenant cs env req user
  pub allowed :
      (ss : List String)
      → parse_tenant_allowlist env ≡ some ss
      → Holds (effective_tenant cs env req user) ss

-- The six tests that a passing request has failed.
passed_tests :
    (a b c d e f : Bool) (w x y z v u : Denied) (r r' : Request)
    → (if a
        then deny w
        else if b
        then deny x
        else if c
        then deny y
        else if d
        then deny z
        else if e
        then deny v
        else if f
        then deny u
        else pass r)
      ≡ pass r'
    → (a ≡ false) × (b ≡ false) × (c ≡ false) × (d ≡ false) × (e ≡ false) × (f ≡ false) × (r' ≡ r)
passed_tests false false false false false false w x y z v u r r' h =
    (refl, refl, refl, refl, refl, refl, cc)
passed_tests true b c d e f w x y z v u r r' h = cc
passed_tests false true c d e f w x y z v u r r' h = cc
passed_tests false false true d e f w x y z v u r r' h = cc
passed_tests false false false true e f w x y z v u r r' h = cc
passed_tests false false false false true f w x y z v u r r' h = cc
passed_tests false false false false false true w x y z v u r r' h = cc

module _ (cs : Casing) (env : Env) (req req' : Request) (user : NestJwtUser) where
  passed-IsAuthorized :
      check_tenant cs env req user ≡ pass req'
      → IsAuthorized cs env req user
        × (req' ≡ record req { vahan_tenant_id = some (effective_tenant cs env req user) })
  unfolding check_tenant
  passed-IsAuthorized h =
      let (a, b, c, d, e, f, same) = passed_tests _ _ _ _ _ _ _ _ _ _ _ _ _ req' h in
      (
        record {
          tenant = (disagrees_iff _ _).0 a;
          org = (disagrees_iff _ _).0 b;
          org_path = (disagrees_iff _ _).0 c;
          parent = (disagrees_iff _ _).0 d;
          bound = (locked_iff user.db_tenant_id _).0 e;
          allowed = (listed_iff (parse_tenant_allowlist env) _).0 f;
        },
        same,
      )

  IsAuthorized-passed :
      IsAuthorized cs env req user
      → check_tenant cs env req user
        ≡ pass (record req { vahan_tenant_id = some (effective_tenant cs env req user) })
  unfolding check_tenant
  IsAuthorized-passed h = rw (
    (disagrees_iff user.jwt_tenant_id (header cs env req "x-tenant-id")).1 h.tenant,
    (disagrees_iff user.jwt_org_id (header cs env req "x-org-id")).1 h.org,
    (disagrees_iff user.jwt_org_path (header cs env req "x-org-path")).1 h.org_path,
    (disagrees_iff user.jwt_parent_tenant_id (header cs env req "x-parent-tid")).1 h.parent,
    (locked_iff user.db_tenant_id (effective_tenant cs env req user)).1 h.bound,
    (listed_iff (parse_tenant_allowlist env) (effective_tenant cs env req user)).1 h.allowed,
  )

  -- The guard passes a user exactly if the user is authorized, and then gives the request the
  -- effective tenant and changes nothing else.
  pub check_tenant_iff : (check_tenant cs env req user ≡ pass req') ↔ (
      IsAuthorized cs env req user
      × (req' ≡ record req { vahan_tenant_id = some (effective_tenant cs env req user) }))
  check_tenant_iff = (passed-IsAuthorized, λ h. IsAuthorized-passed h.0 ∙ ap pass (sym h.1))
