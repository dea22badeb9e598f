-- ===== src/Auth/Roles/Laws.antt =====
-- Roles are never missing, and what permissions they give.
use mathlib.Core.Bool.{false≢true}
use vahan.Prelude.{
  subst, String, ◌≡◌, ◌≢◌, refl, ap, ◌∙◌, sym, ◌↔◌, inl, inr, Bool, true, false, not, ◌||◌, List,
  [], ◌∷◌, ◌++◌, map, any, includes, Any, All, Holds, includes_iff, Bool-cases, ◌==◌, if◌then◌else◌,
  eq_iff, arith,
}
use vahan.Js.Text.{trim, is_empty, split}
use vahan.Js.Text.Laws.{trim_idem}
use vahan.Js.Casing.{Casing, HasCase}
use vahan.Auth.Roles.{
  NestJwtUser, admin_permissions, role_slugs, ops_permissions, analyst_permissions,
  user_permissions, DbRoles, no_roles, role_list, role_text, or_default, add, add_all, insert, sort,
  bucket, add_buckets, slug_of, slugs_of, normalize_roles_from_db,
  permissions_from_normalized_roles, user_has_role,
}

includes-append :
    (xs ys : List String) (q : String) → includes (xs ++ ys) q ≡ (includes xs q || includes ys q)
includes-append [] ys q = refl
includes-append (x ∷ xs) ys q = ground (arith, includes-append xs ys q)

includes-add :
    (set : List String) (p q : String) → includes (add set p) q ≡ (includes set q || p == q)
unfolding add
includes-add set p q = elim (Bool-cases (includes set p)) [
  | inl old ↦ rw old (elim (Bool-cases (p == q)) [
    | inl same ↦ ground (arith, subst (λ r. includes set r ≡ true) ((eq_iff p q).0 same) old)
    | inr other ↦ ground arith
  ])
  | inr new ↦ rw new (rw (includes-append set (p ∷ []) q) (ground arith))
]

includes-add_all :
    (ps set : List String) (q : String)
    → includes (add_all set ps) q ≡ (includes set q || includes ps q)
unfolding add_all
includes-add_all [] set q = ground arith
includes-add_all (p ∷ ps) set q =
    ground (arith, includes-add_all ps (add set p) q, includes-add set p q)

includes-insert :
    (s : String) (ts : List String) (q : String)
    → includes (insert s ts) q ≡ (s == q || includes ts q)
unfolding insert
includes-insert s [] q = refl
includes-insert s (t ∷ ts) q = ground (arith, includes-insert s ts q)

includes-sort : (ss : List String) (q : String) → includes (sort ss) q ≡ includes ss q
unfolding sort
includes-sort [] q = refl
includes-sort (s ∷ ss) q = ground (arith, includes-insert s (sort ss) q, includes-sort ss q)

includes-add_buckets :
    (rs set : List String) (q : String)
    → includes (add_buckets set rs) q ≡ (includes set q || any (λ r. includes (bucket r) q) rs)
unfolding add_buckets
includes-add_buckets [] set q = ground arith
includes-add_buckets (r ∷ rs) set q =
    ground
      (arith, includes-add_buckets rs (add_all set (bucket r)) q, includes-add_all (bucket r) set q)

no_star_chosen :
    (known is_ops is_analyst is_user : Bool)
    → includes
        (if not known
          then user_permissions
          else if is_ops
          then ops_permissions
          else if is_analyst
          then analyst_permissions
          else if is_user
          then user_permissions
          else [])
        "*"
      ≡ false
no_star_chosen false o a u = refl
no_star_chosen true true a u = refl
no_star_chosen true false true u = refl
no_star_chosen true false false true = refl
no_star_chosen true false false false = refl

star_not_in_bucket : (r : String) → includes (bucket r) "*" ≡ false
unfolding bucket
star_not_in_bucket r =
    no_star_chosen (includes role_slugs r) (r == "OPS") (r == "ANALYST") (r == "USER")

any-includes : (xs : List String) (s : String) → any (λ x. x == s) xs ≡ includes xs s
any-includes [] s = refl
any-includes (x ∷ xs) s = ap (λ b. x == s || b) (any-includes xs s)

trim_user : trim "USER" ≡ "USER"
unfolding trim
trim_user = refl

module _ (cs : Casing) where
  abbrev pub is_admin : List String → Bool
  is_admin roles = any (λ r. r == "ADMIN") (map (slug_of cs) roles)

  -- A permission is given exactly if it is one of the administrator's and ADMIN is among the
  -- roles, or ADMIN is not and the bucket of some role has it.
  pub includes-permissions :
      (roles : List String) (p : String)
      → includes (permissions_from_normalized_roles cs roles) p ≡ (
          if is_admin roles
          then includes admin_permissions p
          else any (λ r. includes (bucket r) p) (map (slug_of cs) roles))
  unfolding permissions_from_normalized_roles
  includes-permissions roles p = elim (Bool-cases (is_admin roles)) [
    | inl admin ↦
        rw admin
          (includes-sort (add_all [] admin_permissions) p ∙ includes-add_all admin_permissions [] p)
    | inr other ↦ rw other (
        includes-sort (add_buckets [] (map (slug_of cs) roles)) p
        ∙ includes-add_buckets (map (slug_of cs) roles) [] p)
  ]

  no_star : (rs : List String) → any (λ r. includes (bucket r) "*") rs ≡ false
  no_star [] = refl
  no_star (r ∷ rs) = rw (star_not_in_bucket r) (no_star rs)

  -- The permission for everything is given exactly to those who have the role ADMIN, however it
  -- is spaced or cased.
  pub star_iff :
      (roles : List String)
      → Holds "*" (permissions_from_normalized_roles cs roles)
        ↔ Holds "ADMIN" (map (slug_of cs) roles)
  star_iff roles = elim (Bool-cases (is_admin roles)) [
    | inl admin ↦ (
      λ h. (includes_iff _ _).0 (sym (any-includes (map (slug_of cs) roles) "ADMIN") ∙ admin),
      λ h. (includes_iff _ _).0 (
          includes-permissions roles "*"
          ∙ ap
              (λ b.
                if b
                then includes admin_permissions "*"
                else any (λ r. includes (bucket r) "*") (map (slug_of cs) roles))
              admin),
    )
    | inr other ↦ (
      λ h. absurd (
          false≢true (
            sym (
              includes-permissions roles "*"
              ∙ ap
                  (λ b.
                    if b
                    then includes admin_permissions "*"
                    else any (λ r. includes (bucket r) "*") (map (slug_of cs) roles))
                  other
              ∙ no_star (map (slug_of cs) roles))
            ∙ (includes_iff _ _).1 h)),
      λ h. absurd (
          false≢true
            (sym other ∙ any-includes (map (slug_of cs) roles) "ADMIN" ∙ (includes_iff _ _).1 h)),
    )
  ]

  -- A user passes `userHasRole` exactly if one of the needed roles is one of theirs.
  pub user_has_role_iff :
      (user : NestJwtUser) (required : List String)
      → (user_has_role cs user required ≡ true)
        ↔ Any (λ need. Holds (slug_of cs need) (map (slug_of cs) user.roles)) required
  unfolding user_has_role
  user_has_role_iff user required = any_iff required
    where
      any_iff :
          (needs : List String)
          → (any (λ need. includes (map (slug_of cs) user.roles) (slug_of cs need)) needs ≡ true)
            ↔ Any (λ need. Holds (slug_of cs need) (map (slug_of cs) user.roles)) needs
      any_iff [] = (λ h. cc, λ h. absurd h)
      any_iff (n ∷ ns) =
          ground (arith, includes_iff (map (slug_of cs) user.roles) (slug_of cs n), any_iff ns)

  -- A role as the database normalizes it: not empty, and not changed by another round.
  abbrev pub IsSlug : String → Type 0
  IsSlug r = (is_empty r ≡ false) × (slug_of cs r ≡ r)

  module _ (case : HasCase cs.upper) where
    slug_idem : (x : String) → slug_of cs (slug_of cs x) ≡ slug_of cs x
    slug_idem x =
        ap cs.upper (case.trims (trim x)) ∙ case.idem (trim (trim x)) ∙ ap cs.upper (trim_idem x)

    slugs-IsSlug : (xs : List String) → All IsSlug (slugs_of cs xs)
    slugs-IsSlug [] = tt
    slugs-IsSlug (x ∷ xs) = elim (Bool-cases (is_empty (slug_of cs x))) [
      | inl blank ↦ rw blank (slugs-IsSlug xs)
      | inr full ↦ rw full ((full, slug_idem x), slugs-IsSlug xs)
    ]

    or_default-IsSlug :
        (rs : List String)
        → cs.upper "USER" ≡ "USER"
        → All IsSlug rs
        → All IsSlug (or_default rs) × (or_default rs ≢ [])
    or_default-IsSlug [] user h = (((refl, ap cs.upper trim_user ∙ user), tt), λ e. cc)
    or_default-IsSlug (r ∷ rs) user h = (h, λ e. cc)

    -- With an upper case that is idempotent, keeps white space and lets no text vanish, and
    -- `USER` its own upper case: whatever the column holds, a user has at least one role, and
    -- each is a slug, trimmed, upper-case and not empty.
    pub normalize_roles_from_db-IsSlug :
        (raw : DbRoles)
        → cs.upper "USER" ≡ "USER"
        → All IsSlug (normalize_roles_from_db cs raw) × (normalize_roles_from_db cs raw ≢ [])
    unfolding normalize_roles_from_db
    normalize_roles_from_db-IsSlug no_roles user = or_default-IsSlug [] user tt
    normalize_roles_from_db-IsSlug (role_list raw) user =
        or_default-IsSlug (slugs_of cs raw) user (slugs-IsSlug raw)
    normalize_roles_from_db-IsSlug (role_text raw) user = elim (Bool-cases (is_empty (trim raw))) [
      | inl blank ↦ rw blank (or_default-IsSlug [] user tt)
      | inr full ↦ rw full (
          or_default-IsSlug (slugs_of cs (split b',' (trim raw))) user
            (slugs-IsSlug (split b',' (trim raw))))
    ]
