-- ===== src/Vehicle/Cache.antt =====
-- apps/api-nest/src/vehicle-cache.ts. Redis and JSON's text are parameters; the client that is
-- made once per process is the Redis that is given.
use vahan.Prelude.{
  ℕ, suc, String, Bool, false, Option, none, some, or_else, or_option, is_some, List, [], ◌∷◌,
  includes, ◌||◌, if◌then◌else◌, ◌≡◌, ◌≢◌,
}
use vahan.Prelude.Int.{ℤ, pos}
use vahan.Js.Text.{trim, is_empty, present}
use vahan.Js.Casing.{Casing}
use vahan.Env.{Env}
use vahan.Prisma.{Query, found, thrown}

-- A Redis over states: a command gives its answer or throws.
pub record Redis (S : Type 0) : Type 0 where
  pub get : S → String → Query (Option String)
  pub set : S → String → String → ℕ → Query S

-- Before a value expires, it is read back, and other keys are as before.
pub record IsRedis {S : Type 0} (redis : Redis S) : Type 0 where
  pub here :
      (s s' : S) (k v : String) (ttl : ℕ)
      → redis.set s k v ttl ≡ found s'
      → redis.get s' k ≡ found (some v)
  pub there :
      (s s' : S) (k v : String) (ttl : ℕ) (j : String)
      → redis.set s k v ttl ≡ found s'
      → j ≢ k
      → redis.get s' j ≡ redis.get s j

-- `JSON.stringify` and `JSON.parse` on the values of a type; `none` is an exception.
pub record Codec (A : Type 0) : Type 0 where
  pub stringify : A → String
  pub parse : String → Option A

-- The text of a value that is written is not empty, and is read as the value.
pub record IsCodec {A : Type 0} (codec : Codec A) (Written : A → Type 0) : Type 0 where
  pub full : (a : A) → Written a → is_empty (codec.stringify a) ≡ false
  pub round_trip : (a : A) → Written a → codec.parse (codec.stringify a) ≡ some a

abbrev pub off_words : List String
off_words = "0" ∷ "false" ∷ "no" ∷ []

abbrev pub redis_url : Env → Option String
redis_url env = or_option (present (env "REDIS_URL")) (present (env "BULLMQ_REDIS_URL"))

unfoldable pub is_cache_enabled : Casing → Env → Bool
is_cache_enabled cs env =
    let flag = cs.lower (trim (or_else (env "VEHICLE_CACHE_ENABLED") "")) in
    if is_empty flag || includes off_words flag then false else is_some (redis_url env)

abbrev pub positive_or : Option ℤ → ℕ → ℕ
positive_or (some (pos (suc n))) d = suc n
positive_or _ d = d

abbrev parsed : (String → Option ℤ) → Option String → Option ℤ
parsed parse_int none = none
parsed parse_int (some raw) = parse_int raw

-- `parse_int` is `parseInt(raw, 10)`, where NaN is `none`.
unfoldable pub vehicle_summary_ttl_seconds : (String → Option ℤ) → Env → ℕ
vehicle_summary_ttl_seconds parse_int env =
    positive_or (parsed parse_int (present (env "VEHICLE_SUMMARY_TTL_SECONDS"))) 60

module _ {S A : Type 0} (cs : Casing) (env : Env) (parse_int : String → Option ℤ) (redis : Redis S)
    (codec : Codec A) where
  -- `raw ? JSON.parse(raw) : null`
  abbrev pub read : Query (Option String) → Option A
  read (found none) = none
  read (found (some raw)) = if is_empty raw then none else codec.parse raw
  read (thrown message) = none

  unfoldable pub get_cached_summary : S → String → Option A
  get_cached_summary s reg_norm =
      if is_cache_enabled cs env then read (redis.get s reg_norm) else none

  abbrev pub after_set : S → Query S → S
  after_set s (found s') = s'
  after_set s (thrown message) = s

  unfoldable pub set_cached_summary : S → String → A → S
  set_cached_summary s reg_norm value =
      if is_cache_enabled cs env
      then after_set s
          (redis.set s reg_norm (codec.stringify value) (vehicle_summary_ttl_seconds parse_int env))
      else s
