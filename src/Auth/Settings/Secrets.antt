-- ===== src/Auth/Settings/Secrets.antt =====
-- The secrets that a deployment verifies tokens with.
use vahan.Prelude.{Option-cases, inl, inr, refl, subst, ◌≤◌, String, ◌≡◌, true, false, some, arith}
use vahan.Js.Text.{trim, is_empty}
use vahan.Js.Casing.{Casing}
use vahan.Env.{Env}
use vahan.Auth.Settings.{
  is_prod, min_length, utf16_length, is_placeholder, secret, secret_from, resolve_nest_jwt_secret,
}

-- The tests on a text that is not blank.
split_prod :
    (cs : Casing) (trimmed s : String)
    → is_empty trimmed ≡ false
    → secret_from cs true trimmed ≡ secret s
    → (s ≡ trimmed) × (min_length ≤ utf16_length s) × (is_placeholder cs s ≡ false)
unfolding secret_from
split_prod cs trimmed s full h = ground arith

secret_from-prod :
    (cs : Casing) (trimmed s : String)
    → secret_from cs true trimmed ≡ secret s
    → (s ≡ trimmed) × (min_length ≤ utf16_length s) × (is_placeholder cs s ≡ false)
unfolding secret_from utf16_length
secret_from-prod cs String.[] s h = cc
secret_from-prod cs (String.◌∷◌ c t) s h = split_prod cs (String.◌∷◌ c t) s refl h

no_length : {s : String} {P : Type 0} → (s ≡ "") × (min_length ≤ utf16_length s) × P → ⊥
unfolding utf16_length
no_length (e, long, p) = absurd (too_long (subst (λ t. min_length ≤ utf16_length t) e long))
  where
    too_long : 32 ≤ 0 → ⊥
    too_long h = omega arith

-- In production the secret is the trimmed `JWT_SECRET`, of at least 32 UTF-16 units and no
-- placeholder; nothing else is accepted, and there is no fallback.
pub resolve_nest_jwt_secret-prod :
    (cs : Casing) (env : Env) (s : String)
    → is_prod cs env ≡ true
    → resolve_nest_jwt_secret cs env ≡ secret s
    → (raw : String) × (env "JWT_SECRET" ≡ some raw)
      × (s ≡ trim raw)
      × (min_length ≤ utf16_length s)
      × (is_placeholder cs s ≡ false)
unfolding resolve_nest_jwt_secret
resolve_nest_jwt_secret-prod cs env s prod h = elim (Option-cases (env "JWT_SECRET")) [
  | inl missing ↦
      absurd
        (no_length (secret_from-prod cs "" s (rw (prod, missing, resolve_nest_jwt_secret) at h)))
  | inr (raw, e) ↦
      let (same, long, real) =
        secret_from-prod cs (trim raw) s (rw (prod, e, resolve_nest_jwt_secret) at h) in
      (raw, e, same, long, real)
]
