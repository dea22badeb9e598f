-- ===== src/Auth/Service/Laws.antt =====
-- Which tokens are accepted, and as whom.
use vahan.Prelude.{
  String, ◌≡◌, ◌≢◌, refl, ap, ◌∙◌, sym, ◌↔◌, inl, inr, Bool, true, false, Option, none, some,
  Bool-cases, Option-cases, none≢some, arith,
}
use vahan.Prelude.Int.{ℤ, pos, negsuc}
use vahan.Js.Number.{Finite, Reader}
use vahan.Js.Text.{present}
use vahan.Js.Casing.{Casing}
use vahan.Env.{Env}
use vahan.Auth.Settings.{Secret, secret, insecure, resolve_nest_jwt_secret}
use vahan.Auth.Roles.{NestJwtUser}
use vahan.Auth.Service.{
  Claims, UserRow, UserQuery, unreachable, query_failed, row, AuthError, ok, err, is_other_type,
  subject, same_int, same_version, version_of, load_user_row, user_of, check_row, check_claims,
  with_secret, authenticate_access_token,
}

same_int_iff : (a b : ℤ) → (same_int a b ≡ true) ↔ (a ≡ b)
same_int_iff (pos n) (pos m) = ground arith
same_int_iff (negsuc n) (negsuc m) = ground arith
same_int_iff (pos n) (negsuc m) = ground arith
same_int_iff (negsuc n) (pos m) = ground arith

-- The number that is the integer `n`.
abbrev pub integer : ℤ → Finite
integer n = record { floor = n; is_whole = true }

same_version_iff : (f : Finite) (n : ℤ) → (same_version f n ≡ true) ↔ (f ≡ integer n)
unfolding same_version
same_version_iff f n = (to f.floor f.is_whole, λ e. rw (e, (same_int_iff n n).1 refl))
  where
    to :
        (m : ℤ) (w : Bool)
        → same_version (record { floor = m; is_whole = w }) n ≡ true
        → record { floor = m; is_whole = w } ≡ integer n
    to m true h = ap integer ((same_int_iff m n).0 h)
    to m false h = cc

err≢ok : {e : AuthError} {user : NestJwtUser} → err e ≡ ok user → ⊥
err≢ok h = cc

module _ (cs : Casing) (read : Reader) (verify : String → String → Option Claims)
    (query : String → UserQuery) (env : Env) where
  -- A token that the secret of the deployment verifies, of type `access` or of none, for a
  -- subject who has a row whose token version is that of the token.
  pub record IsAuthentic (raw_token : String) (user : NestJwtUser) : Type 0 where
    pub key : String
    pub claims : Claims
    pub username : String
    pub user_row : UserRow
    pub has_key : resolve_nest_jwt_secret cs env ≡ secret key
    pub verified : verify raw_token key ≡ some claims
    pub access : is_other_type claims.typ ≡ false
    pub names : subject claims.sub ≡ some username
    pub url : String
    pub configured : present (env "DATABASE_URL") ≡ some url
    pub has_row : query username ≡ row (some user_row)
    pub current : version_of read claims.v ≡ integer user_row.token_version
    pub is_user : user ≡ user_of cs read verify query env username claims user_row

  check_row-ok :
      (username : String) (claims : Claims) (q : UserQuery) (user : NestJwtUser)
      → check_row cs read verify query env username claims q ≡ ok user
      → (r : UserRow) × (q ≡ row (some r))
        × (version_of read claims.v ≡ integer r.token_version)
        × (user ≡ user_of cs read verify query env username claims r)
  unfolding check_row
  check_row-ok username claims unreachable user h = cc
  check_row-ok username claims (query_failed m) user h = cc
  check_row-ok username claims (row none) user h = cc
  check_row-ok username claims (row (some r)) user h = (
    r,
    refl,
    ground (arith, same_version_iff (version_of read claims.v) r.token_version),
    ground arith,
  )

  load_user_row-row :
      (username : String) (o : Option UserRow)
      → load_user_row cs read verify query env username ≡ row o
      → (url : String) × (present (env "DATABASE_URL") ≡ some url) × (query username ≡ row o)
  unfolding load_user_row
  load_user_row-row username o h = elim (Option-cases (present (env "DATABASE_URL"))) [
    | inl missing ↦ absurd (unreachable≢row (rw (missing, load_user_row) at h))
    | inr (url, e) ↦ (url, e, rw (e, load_user_row) at h)
  ]
    where
      unreachable≢row : unreachable ≡ row o → ⊥
      unreachable≢row e = cc

  unverified : (user : NestJwtUser) → check_claims cs read verify query env none ≡ ok user → ⊥
  unfolding check_claims
  unverified user h = cc

  accepted_claims :
      (c : Claims) (user : NestJwtUser)
      → check_claims cs read verify query env (some c) ≡ ok user
      → (name : String) × (is_other_type c.typ ≡ false)
        × (subject c.sub ≡ some name)
        × (check_row cs read verify query env name c (load_user_row cs read verify query env name)
            ≡ ok user)
  unfolding check_claims
  accepted_claims c user h = elim (Bool-cases (is_other_type c.typ)) [
    | inl other ↦ absurd (err≢ok (rw (other, check_claims) at h))
    | inr access ↦ elim (Option-cases (subject c.sub)) [
      | inl missing ↦ absurd (err≢ok (rw (access, missing, check_claims) at h))
      | inr (name, e) ↦ (name, access, e, rw (access, e, check_claims) at h)
    ]
  ]

  check_claims-ok :
      (key raw_token : String) (verified : Option Claims) (user : NestJwtUser)
      → resolve_nest_jwt_secret cs env ≡ secret key
      → verify raw_token key ≡ verified
      → check_claims cs read verify query env verified ≡ ok user
      → IsAuthentic raw_token user
  check_claims-ok key raw_token none user k v h = absurd (unverified user h)
  check_claims-ok key raw_token (some c) user k v h =
      let (name, access, e, checked) = accepted_claims c user h in
      let (r, is_row, version, is_user) =
        check_row-ok name c (load_user_row cs read verify query env name) user checked in
      let (url, configured, is_found) = load_user_row-row name (some r) is_row in
      record {
        key = key;
        claims = c;
        username = name;
        user_row = r;
        has_key = k;
        verified = v;
        access = access;
        names = e;
        url = url;
        configured = configured;
        has_row = is_found;
        current = version;
        is_user = is_user;
      }

  with_secret-ok :
      (raw_token : String) (k : Secret) (user : NestJwtUser)
      → resolve_nest_jwt_secret cs env ≡ k
      → with_secret cs read verify query env raw_token k ≡ ok user
      → IsAuthentic raw_token user
  with_secret-ok raw_token (insecure e) user k h = cc
  with_secret-ok raw_token (secret key) user k h = check_claims-ok key raw_token _ user k refl h

  current-check_row :
      (name : String) (c : Claims) (r : UserRow)
      → version_of read c.v ≡ integer r.token_version
      → check_row cs read verify query env name c (row (some r))
        ≡ ok (user_of cs read verify query env name c r)
  unfolding check_row
  current-check_row name c r same = rw ((same_version_iff _ _).1 same)

  load_user_row-configured :
      (name url : String)
      → present (env "DATABASE_URL") ≡ some url
      → load_user_row cs read verify query env name ≡ query name
  unfolding load_user_row
  load_user_row-configured name url e = rw (e, load_user_row)

  IsAuthentic-authenticate :
      (raw_token : String) (user : NestJwtUser)
      → IsAuthentic raw_token user
      → authenticate_access_token cs read verify query env raw_token ≡ ok user
  unfolding authenticate_access_token check_claims
  IsAuthentic-authenticate raw_token user a =
      rw (a.has_key, a.verified, a.access, a.names)
        (rw (load_user_row-configured a.username a.url a.configured, a.has_row)
          (current-check_row a.username a.claims a.user_row a.current ∙ ap ok (sym a.is_user)))

  -- Without `DATABASE_URL` no token is accepted.
  pub no_database-ne-ok :
      (raw_token : String) (user : NestJwtUser)
      → present (env "DATABASE_URL") ≡ none
      → authenticate_access_token cs read verify query env raw_token ≢ ok user
  no_database-ne-ok raw_token user missing h =
      let a = with_secret-ok raw_token _ user refl (unfold authenticate_access_token in h) in
      none≢some (sym missing ∙ a.configured)

  -- A token is accepted, as a user, exactly if it is authentic and the user is that of its claims
  -- and row.
  pub authenticate_access_token_iff :
      (raw_token : String) (user : NestJwtUser)
      → (authenticate_access_token cs read verify query env raw_token ≡ ok user)
        ↔ IsAuthentic raw_token user
  unfolding authenticate_access_token
  authenticate_access_token_iff raw_token user =
      (with_secret-ok raw_token _ user refl, IsAuthentic-authenticate raw_token user)
