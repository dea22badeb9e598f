-- ===== src/Vehicle/Summary/Laws.antt =====
-- The cache of summaries is transparent, and what a risk response says.
use mathlib.Core.Option.{some-injective}
use vahan.Prelude.{
  ◌≤◌, String, ◌≡◌, ◌≢◌, refl, sym, ◌∙◌, ap, subst, true, false, Option, none, some, ◌==◌, eq_iff,
  Bool-cases, Option-cases, inl, inr, arith,
}
use vahan.Prelude.Int.{ℤ}
use vahan.Js.Casing.{Casing}
use vahan.Env.{Env, ingest_database_url}
use vahan.Prisma.{Query, found, thrown}
use vahan.Vehicle.Cache.{
  Redis, IsRedis, Codec, IsCodec, get_cached_summary, set_cached_summary, is_cache_enabled, read,
  after_set, vehicle_summary_ttl_seconds,
}
use vahan.Js.Json.{Json, null, bool, num, str, arr, obj}
use vahan.Vehicle.Risk.{
  Assessment, VehicleRiskTier, low, unstructured, risk_tier_from_score,
  build_weighted_risk_assessment,
}
use vahan.Vehicle.Risk.Laws.{score-build_weighted_risk_assessment}
use vahan.Vehicle.Summary.{
  VehicleRiskResponse, risk, risk_not_found, risk_not_implemented, risk_of, get_vehicle_risk,
  SummaryRow, VehicleSummaryResponse, Table, answer, load, uncached, get_compliance_summary,
  normalize_reg_norm,
}

abbrev assessment_of : VehicleRiskResponse → Assessment
assessment_of (risk reg a tier band at) = a
assessment_of (risk_not_found reg at) = unstructured
assessment_of (risk_not_implemented reg reason at) = unstructured

abbrev tier_of : VehicleRiskResponse → VehicleRiskTier
tier_of (risk reg a tier band at) = tier
tier_of (risk_not_found reg at) = low
tier_of (risk_not_implemented reg reason at) = low

abbrev band_of : VehicleRiskResponse → VehicleRiskTier
band_of (risk reg a tier band at) = band
band_of (risk_not_found reg at) = low
band_of (risk_not_implemented reg reason at) = low

abbrev reg_of : VehicleRiskResponse → String
reg_of (risk reg a tier band at) = reg
reg_of (risk_not_found reg at) = reg
reg_of (risk_not_implemented reg reason at) = reg

score_bound :
    (cs : Casing) (number : String → Option ℤ) (snapshot : Json)
    → (build_weighted_risk_assessment cs number snapshot).score ≤ 100
unfolding build_weighted_risk_assessment
score_bound cs number (obj fs) = (score-build_weighted_risk_assessment cs number fs).1
score_bound cs number null = omega arith
score_bound cs number (bool b) = omega arith
score_bound cs number (num n) = omega arith
score_bound cs number (str s) = omega arith
score_bound cs number (arr xs) = omega arith

other : (j k : String) → (j == k) ≡ false → j ≢ k
other j k e same = ground (arith, eq_iff j k)

module _ {S : Type 0} (cs : Casing) (env : Env) (parse_int : String → Option ℤ) (redis : Redis S)
    (codec : Codec VehicleSummaryResponse) (table : Table) where
  -- What the cache holds is what the table says.
  abbrev pub Agrees : S → Type 0
  Agrees s =
      (k : String) (r : VehicleSummaryResponse)
      → get_cached_summary cs env parse_int redis codec s k ≡ some r
      → r ≡ answer k (table k)

  -- The value that a response of the table is stored under.
  abbrev stored : String → String
  stored k = codec.stringify (answer k (table k))

  get-on :
      (s : S) (k : String)
      → is_cache_enabled cs env ≡ true
      → get_cached_summary cs env parse_int redis codec s k
        ≡ read cs env parse_int redis codec (redis.get s k)
  unfolding get_cached_summary
  get-on s k on = rw on refl

  risk_of-risk :
      (q : Query (Option SummaryRow)) (number : String → Option ℤ) (k as_of reg at : String)
      (a : Assessment) (tier band : VehicleRiskTier)
      → risk_of cs env parse_int redis codec table number k as_of (answer k q)
        ≡ risk reg a tier band at
      → (row : SummaryRow) × (q ≡ found (some row))
        × (reg ≡ k)
        × (a ≡ build_weighted_risk_assessment cs number row.snapshot)
        × (a.score ≤ 100)
        × (tier ≡ risk_tier_from_score a.score)
        × (band ≡ tier)
  risk_of-risk (found (some row)) number k as_of reg at a tier band h =
      let same = ap assessment_of h in
      let the_tier = ap tier_of h in
      (
        row,
        refl,
        sym (ap reg_of h),
        sym same,
        subst (λ x. x.score ≤ 100) same (score_bound cs number row.snapshot),
        sym the_tier ∙ ap (λ x. risk_tier_from_score x.score) same,
        sym (ap band_of h) ∙ the_tier,
      )
  risk_of-risk (found none) number k as_of reg at a tier band h = cc
  risk_of-risk (thrown m) number k as_of reg at a tier band h = cc

  -- What the table answers for some registration.
  abbrev pub IsAnswer : VehicleSummaryResponse → Type 0
  IsAnswer r = (k : String) × (r ≡ answer k (table k))

  module _ (is_redis : IsRedis redis) (is_codec : IsCodec codec IsAnswer) where
    read-stored :
        (r : VehicleSummaryResponse)
        → IsAnswer r
        → read cs env parse_int redis codec (found (some (codec.stringify r))) ≡ some r
    read-stored r w = rw (is_codec.full r w) (is_codec.round_trip r w)

    written-Agrees :
        (s s' : S) (k : String)
        → is_cache_enabled cs env ≡ true
        → Agrees s
        → redis.set s k (stored k) (vehicle_summary_ttl_seconds parse_int env) ≡ found s'
        → Agrees s'
    written-Agrees s s' k on agrees set j r hit = elim (Bool-cases (j == k)) [
      | inl e ↦
          let same = (eq_iff j k).0 e in
          let held =
            get-on s' k on
            ∙ ap (read cs env parse_int redis codec) (is_redis.here s s' k _ _ set)
            ∙ read-stored (answer k (table k)) (k, refl) in
          subst (λ x. r ≡ answer x (table x)) (sym same)
            (some-injective _ _ (
              sym (
                subst (λ x. get_cached_summary cs env parse_int redis codec s' x ≡ some r) same hit)
              ∙ held))
      | inr e ↦ agrees j r (
          get-on s j on
          ∙ ap (read cs env parse_int redis codec)
              (sym (is_redis.there s s' k _ _ j set (other j k e)))
          ∙ sym (get-on s' j on)
          ∙ hit)
    ]

    set-Agrees :
        (s : S) (k : String)
        → Agrees s
        → Agrees (set_cached_summary cs env parse_int redis codec s k (answer k (table k)))
    unfolding set_cached_summary
    set-Agrees s k agrees = elim (Bool-cases (is_cache_enabled cs env)) [
      | inl on ↦ rw on (after _ (λ s' set. written-Agrees s s' k on agrees set))
      | inr off ↦ rw off agrees
    ]
      where
        after :
            (q : Query S)
            → ((s' : S) → q ≡ found s' → Agrees s')
            → Agrees (after_set cs env parse_int redis codec s q)
        after (found s') h = h s' refl
        after (thrown message) h = agrees

    load-Agrees :
        (s : S) (k : String) (q : Query (Option SummaryRow))
        → table k ≡ q
        → Agrees s
        → ((load cs env parse_int redis codec table s k q).0 ≡ answer k (table k))
          × Agrees (load cs env parse_int redis codec table s k q).1
    load-Agrees s k (found row) e agrees = (
      ap (answer k) (sym e),
      subst (λ x. Agrees (set_cached_summary cs env parse_int redis codec s k (answer k x))) e
          (set-Agrees s k agrees),
    )
    load-Agrees s k (thrown message) e agrees = (ap (answer k) (sym e), agrees)

    -- With a database URL, a Redis that reads back what was written, texts that are read as what
    -- they were written for, and a cache that agrees with the table: a summary is what the table
    -- says of the normalized registration, from the cache or not, and the cache agrees with the
    -- table afterwards.
    pub get_compliance_summary-answer :
        (s : S) (raw url : String)
        → ingest_database_url env ≡ some url
        → Agrees s
        → let k = normalize_reg_norm cs raw in
          let result = get_compliance_summary cs env parse_int redis codec table s raw in
          (result.0 ≡ answer k (table k)) × Agrees result.1
    unfolding get_compliance_summary
    get_compliance_summary-answer s raw url e agrees =
        let k = normalize_reg_norm cs raw in
        elim (Option-cases (get_cached_summary cs env parse_int redis codec s k)) [
          | inl missing ↦
              rw (get_compliance_summary, missing, uncached, e)
                (load-Agrees s k (table k) refl agrees)
          | inr (r, hit) ↦ rw (get_compliance_summary, hit) (agrees k r hit, agrees)
        ]

    -- Under the conditions of the summary, a risk answer with a score is for the normalized
    -- registration and has the assessment of the snapshot in the table; its score is at most 100,
    -- and its tier and its band are the tier of the score.
    pub get_vehicle_risk-risk :
        (number : String → Option ℤ) (s : S) (raw url as_of reg at : String) (a : Assessment)
        (tier band : VehicleRiskTier)
        → ingest_database_url env ≡ some url
        → Agrees s
        → (get_vehicle_risk cs env parse_int redis codec table number s raw as_of).0
          ≡ risk reg a tier band at
        → (row : SummaryRow) × (table (normalize_reg_norm cs raw) ≡ found (some row))
          × (reg ≡ normalize_reg_norm cs raw)
          × (a ≡ build_weighted_risk_assessment cs number row.snapshot)
          × (a.score ≤ 100)
          × (tier ≡ risk_tier_from_score a.score)
          × (band ≡ tier)
    unfolding get_vehicle_risk
    get_vehicle_risk-risk number s raw url as_of reg at a tier band e agrees h =
        let (same, kept) = get_compliance_summary-answer s raw url e agrees in
        risk_of-risk (table (normalize_reg_norm cs raw)) number _ as_of reg at a tier band (
          subst
            (λ x.
              risk_of cs env parse_int redis codec table number (normalize_reg_norm cs raw) as_of x
              ≡ risk reg a tier band at)
            same h)
