-- ===== src/Vehicle/Summary.antt =====
-- apps/api-nest/src/vehicle.service.ts: the compliance summary and the risk of a vehicle.
pub mod Laws
use vahan.Prelude.{ℕ, String, Option, none, some, List, []}
use vahan.Prelude.Int.{ℤ}
use vahan.Js.Text.{trim}
use vahan.Js.Json.{Json}
use vahan.Js.Casing.{Casing}
use vahan.Env.{Env, ingest_database_url}
use vahan.Prisma.{Query, found, thrown}
use vahan.Vehicle.Cache.{Redis, Codec, get_cached_summary, set_cached_summary}
use vahan.Vehicle.Risk.{
  VehicleRiskTier, WeightedRiskFactor, Assessment, risk_tier_from_score,
  build_weighted_risk_assessment,
}

pub record SummaryRow : Type 0 where
  pub id : String
  pub vehicle_reg_no : String
  pub snapshot : Json
  pub updated_at : String

pub data VehicleSummaryResponse : Type 0 where
  ok : SummaryRow → VehicleSummaryResponse
  not_found : (reg_norm : String) → VehicleSummaryResponse
  not_implemented : (reason : String) → VehicleSummaryResponse

unfoldable pub normalize_reg_norm : Casing → String → String
normalize_reg_norm cs reg_norm = cs.upper (trim reg_norm)

-- `processedVehicleComplianceSummary.findUnique` at a registration
abbrev pub Table : Type 0
Table = String → Query (Option SummaryRow)

-- What the table says of a registration.
abbrev pub answer : String → Query (Option SummaryRow) → VehicleSummaryResponse
answer reg_norm (found (some row)) = ok row
answer reg_norm (found none) = not_found reg_norm
answer reg_norm (thrown message) = not_implemented message

pub data VehicleRiskResponse : Type 0 where
  risk :
      (reg_norm : String) (assessment : Assessment) (tier band : VehicleRiskTier) (as_of : String)
      → VehicleRiskResponse
  risk_not_found : (reg_norm as_of : String) → VehicleRiskResponse
  risk_not_implemented : (reg_norm reason as_of : String) → VehicleRiskResponse

module _ {S : Type 0} (cs : Casing) (env : Env) (parse_int : String → Option ℤ) (redis : Redis S)
    (codec : Codec VehicleSummaryResponse) (table : Table) where
  -- The result of a query is written to the cache; an exception is not.
  abbrev pub load : S → String → Query (Option SummaryRow) → VehicleSummaryResponse × S
  load s reg_norm (found row) =
      let result = answer reg_norm (found row) in
      (result, set_cached_summary cs env parse_int redis codec s reg_norm result)
  load s reg_norm (thrown message) = (not_implemented message, s)

  abbrev pub uncached : S → String → VehicleSummaryResponse × S
  uncached s reg_norm = elim (ingest_database_url env) [
    | none ↦ (
      not_implemented
          "INGEST_DATABASE_URL or DATABASE_URL is not set; cannot load processed vehicle summary.",
      s,
    )
    | some url ↦ load s reg_norm (table reg_norm)
  ]

  unfoldable pub get_compliance_summary : S → String → VehicleSummaryResponse × S
  get_compliance_summary s reg_norm_raw =
      let reg_norm = normalize_reg_norm cs reg_norm_raw in
      elim (get_cached_summary cs env parse_int redis codec s reg_norm) [
        | some cached ↦ (cached, s)
        | none ↦ uncached s reg_norm
      ]

  abbrev pub risk_of :
      (String → Option ℤ) → String → String → VehicleSummaryResponse → VehicleRiskResponse
  risk_of number reg_norm as_of (not_found reg) = risk_not_found reg as_of
  risk_of number reg_norm as_of (not_implemented reason) =
      risk_not_implemented reg_norm reason as_of
  risk_of number reg_norm as_of (ok row) =
      let computed = build_weighted_risk_assessment cs number row.snapshot in
      let band = risk_tier_from_score computed.score in risk reg_norm computed band band as_of

  unfoldable pub get_vehicle_risk :
      (String → Option ℤ) → S → String → String → VehicleRiskResponse × S
  get_vehicle_risk number s reg_norm_raw as_of =
      let (summary, s') = get_compliance_summary s reg_norm_raw in
      (risk_of number (normalize_reg_norm cs reg_norm_raw) as_of summary, s')
