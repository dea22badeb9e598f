-- ===== src/Auth/Guards/Chain.antt =====
-- What a request that passes all guards is known to be.
use vahan.Prelude.{
  String, ◌≡◌, ◌≢◌, refl, ap, ◌∙◌, sym, subst, Bool, true, false, Option, none, some, if◌then◌else◌,
  List, [], ◌∷◌, none≢some,
}
use vahan.Js.Number.{Reader}
use vahan.Js.Text.{present}
use vahan.Js.Casing.{Casing}
use vahan.Env.{Env}
use vahan.Tenant.Isolation.{present-normalize_tenant_slug}
use vahan.Auth.Settings.{is_auth_disabled, is_auth_allow_bearer}
use vahan.Auth.Roles.{NestJwtUser, user_has_role}
use vahan.Auth.Token.{
  access_token_from_request, ResolvedAccessToken, bearer_deprecated, missing, ok,
}
use vahan.Auth.Service.{Authenticated, Claims, UserQuery, authenticate_access_token}
use vahan.Auth.Guards.{
  Request, Denied, Verdict, pass, deny, insufficient_role, ◌>>=◌, check_tenant, effective_tenant,
  tenant_guard, check_roles, roles_guard, with_user, with_token, jwt_auth_guard, guard_chain,
  tenant_id,
}
use vahan.Auth.Guards.Laws.{IsAuthorized, check_tenant_iff}

>>=-eq-pass :
    (m : Verdict) (f : Request → Verdict) (r : Request)
    → (m >>= f) ≡ pass r
    → (q : Request) × (m ≡ pass q) × (f q ≡ pass r)
>>=-eq-pass (pass q) f r h = (q, refl, h)
>>=-eq-pass (deny d) f r h = cc

pass-injective : (q r : Request) → pass q ≡ pass r → q ≡ r
pass-injective q r h = cc

deny≢pass : {d : Denied} {r : Request} → deny d ≡ pass r → ⊥
deny≢pass h = cc

tenant_id-some :
    (r : Request) (t : String)
    → r.vahan_tenant_id ≡ some t
    → present (some t) ≡ some t
    → tenant_id r ≡ r.vahan_tenant_id
unfolding tenant_id
tenant_id-some r t h normal = simp (tenant_id, h, normal)

role_test-pass :
    (b : Bool) (q r : Request)
    → (if b then pass q else deny insufficient_role) ≡ pass r
    → (r ≡ q) × (b ≡ true)
role_test-pass true q r h = (sym (pass-injective q r h), refl)
role_test-pass false q r h = cc

module _ (cs : Casing) (env : Env) (enabled : is_auth_disabled cs env ≡ false) where
  roles_guard-pass :
      (required : List String) (req req' : Request) (user : NestJwtUser)
      → req.vahan_jwt_user ≡ some user
      → roles_guard cs env required req ≡ pass req'
      → (req' ≡ req) × (required ≢ [] → user_has_role cs user required ≡ true)
  unfolding roles_guard
  roles_guard-pass [] req req' user has h =
      (sym (pass-injective _ _ (rw (enabled, roles_guard) at h)), λ no_role. absurd (no_role refl))
  roles_guard-pass (r ∷ rs) req req' user has h =
      let (same, role) = role_test-pass _ _ req' (
        subst (λ u. check_roles cs env (r ∷ rs) req u ≡ pass req') has
          (rw (enabled, roles_guard) at h)) in
      (same, λ some_role. role)

  tenant_guard-pass :
      (req req' : Request) (user : NestJwtUser)
      → req.vahan_jwt_user ≡ some user
      → tenant_guard cs env false req ≡ pass req'
      → check_tenant cs env req user ≡ pass req'
  unfolding tenant_guard
  tenant_guard-pass req req' user has h = rw (enabled, has, tenant_guard) at h

  module _ (read : Reader) (verify : String → String → Option Claims) (query : String → UserQuery)
      (decode : String → Option String) where
    with_user-pass :
        (req req' : Request) (a : Authenticated)
        → with_user cs env read verify query decode req a ≡ pass req'
        → (user : NestJwtUser) × (a ≡ Authenticated.ok user)
          × (req' ≡ record req { vahan_jwt_user = some user })
    with_user-pass req req' (Authenticated.ok user) h = (user, refl, sym (pass-injective _ _ h))
    with_user-pass req req' (Authenticated.err e) h = cc

    with_token-pass :
        (req req' : Request) (t : ResolvedAccessToken)
        → with_token cs env read verify query decode req t ≡ pass req'
        → (token : String) × (user : NestJwtUser) × (t ≡ ok token)
          × (authenticate_access_token cs read verify query env token ≡ Authenticated.ok user)
          × (req' ≡ record req { vahan_jwt_user = some user })
    with_token-pass req req' (ok token) h =
        let (user, e, same) = with_user-pass req req' _ h in (token, user, refl, e, same)
    with_token-pass req req' bearer_deprecated h = cc
    with_token-pass req req' missing h = cc

    jwt_auth_guard-pass :
        (req req' : Request)
        → jwt_auth_guard cs env read verify query decode false req ≡ pass req'
        → (token : String) × (user : NestJwtUser) × (access_token_from_request decode cs req.headers
              (is_auth_allow_bearer cs env)
            ≡ ok token)
          × (authenticate_access_token cs read verify query env token ≡ Authenticated.ok user)
          × (req' ≡ record req { vahan_jwt_user = some user })
    unfolding jwt_auth_guard
    jwt_auth_guard-pass req req' h = with_token-pass req req' _ (rw (enabled, jwt_auth_guard) at h)

    -- A request that has passed.
    pub record HasPassed (required : List String) (req req' : Request) : Type 0 where
      pub token : String
      pub user : NestJwtUser
      pub has_token :
          access_token_from_request decode cs req.headers (is_auth_allow_bearer cs env) ≡ ok token
      pub authentic :
          authenticate_access_token cs read verify query env token ≡ Authenticated.ok user
      pub authorized : IsAuthorized cs env (record req { vahan_jwt_user = some user }) user
      pub has_role : required ≢ [] → user_has_role cs user required ≡ true
      pub result : req' ≡ record req {
        vahan_jwt_user = some user;
        vahan_tenant_id =
            some (effective_tenant cs env (record req { vahan_jwt_user = some user }) user);
      }

    guards-HasPassed :
        (required : List String) (req s req' : Request) (token : String) (user : NestJwtUser)
        → access_token_from_request decode cs req.headers (is_auth_allow_bearer cs env) ≡ ok token
        → authenticate_access_token cs read verify query env token ≡ Authenticated.ok user
        → tenant_guard cs env false (record req { vahan_jwt_user = some user }) ≡ pass s
        → roles_guard cs env required s ≡ pass req'
        → HasPassed required req req'
    guards-HasPassed required req s req' token user t a h k =
        let q = record req { vahan_jwt_user = some user } in
        let (authorized, is_s) =
          (check_tenant_iff cs env q s user).0 (tenant_guard-pass q s user refl h) in
        let (is_s', role) =
          roles_guard-pass required s req' user (ap (λ r. r.vahan_jwt_user) is_s) k in
        record {
          token = token;
          user = user;
          has_token = t;
          authentic = a;
          authorized = authorized;
          has_role = role;
          result = is_s' ∙ is_s;
        }

    -- With authentication on, a request for a route that is not public passes the guards only with
    -- a token that authenticates a user who is authorized for the effective tenant and has one of
    -- the required roles, if any is required; it then carries that user and that tenant.
    pub guard_chain-HasPassed :
        (required : List String) (req req' : Request)
        → guard_chain cs env read verify query decode false required req ≡ pass req'
        → HasPassed required req req'
    unfolding guard_chain
    guard_chain-HasPassed required req req' h =
        let (q, h1, k1) = >>=-eq-pass _ _ req' h in
        let (s, h2, k2) =
          >>=-eq-pass (tenant_guard cs env false q) (λ scoped. roles_guard cs env required scoped)
            req' k1 in
        let (token, user, t, a, is_q) = jwt_auth_guard-pass req q h1 in
        guards-HasPassed required req s req' token user t a
          (subst (λ x. tenant_guard cs env false x ≡ pass s) is_q h2) k2

    -- With authentication on, a request that has passed the guards of a route that is not public
    -- has a tenant, and the decorator finds it.
    pub tenant_id-guard_chain :
        (required : List String) (req req' : Request)
        → guard_chain cs env read verify query decode false required req ≡ pass req'
        → (tenant_id req' ≡ req'.vahan_tenant_id) × (req'.vahan_tenant_id ≢ none)
    tenant_id-guard_chain required req req' h =
        let passed = guard_chain-HasPassed required req req' h in
        let set = ap (λ r. r.vahan_tenant_id) passed.result in
        (tenant_id-some req' _ set (present-normalize_tenant_slug _), λ e. none≢some (sym e ∙ set))
