-- ===== src/Vehicle/Tests.antt =====
-- The theorems on vehicles at concrete snapshots, tables and a Redis that is a list.
use vahan.Prelude.{
  ℕ, zero, suc, take, nat_eq, Bool, subst, none≢some, eq_iff, ◌≤◌, min, max, String, ◌≡◌, ◌≢◌, refl,
  sym, ap, ◌+◌, true, false, Option, some, none, List, [], ◌∷◌, map, length, All, Bool-cases, inl,
  inr, ◌==◌, eq_refl, if◌then◌else◌, arith,
}
use vahan.Prelude.Int.{ℤ, pos}
use vahan.Js.Json.{Json, Fields, obj, str, num, bool, end, field}
use vahan.Js.Casing.{Casing, HasCase}
use vahan.Env.{Env}
use mathlib.Core.List.{Permᴰ}
use Prim.Native.Char.{code}
use vahan.Js.Text.{is_empty}
use vahan.Env.{ingest_database_url}
use vahan.Prisma.{Where, anything, matches, Query, found, thrown}
use vahan.Vehicle.Cache.{Redis, IsRedis, Codec, IsCodec, get_cached_summary}
use vahan.Vehicle.Summary
use vahan.Vehicle.Timeline
use vahan.Vehicle.Timeline.{
  JobEvent, passes, event_of, map_rows, get_vehicle_timeline, json_references_reg_norm,
}
use vahan.Vehicle.Timeline.Laws.{IsSound, get_vehicle_timeline-scoped}
use vahan.Tenant.{normalize_tenant_slug}
use vahan.Vehicle.Summary.{
  SummaryRow, VehicleSummaryResponse, ok, not_found, not_implemented, answer, normalize_reg_norm,
  get_compliance_summary, get_vehicle_risk, risk,
}
use vahan.Vehicle.Summary.Laws.{
  Agrees, IsAnswer, get_compliance_summary-answer, get_vehicle_risk-risk,
}
use vahan.Vehicle.Risk.Order.{IsDescending}
use vahan.Vehicle.Risk.{
  WeightedRiskFactor, build_weighted_risk_assessment, risk_tier_from_score, high, baseline,
}
use vahan.Vehicle.Risk.Laws.{
  findings, points, violations, score-build_weighted_risk_assessment,
  reasons-build_weighted_risk_assessment,
}

abbrev cs : Casing
cs = record { upper = λ s. s; lower = λ s. s }

cs-HasCase : HasCase cs.upper
cs-HasCase = record { idem = λ s. refl; trims = λ s. refl; keeps = λ s. refl }

abbrev number : String → Option ℤ
number s = if s == "3" then some (pos 3) else none

-- All five findings, three violations among them.
abbrev worst : Fields
worst = field "permit" (obj (field "isValid" (str "no") end)) (
    field "insurance" (obj (field "valid" (bool false) end)) (
      field "fitness" (obj (field "valid" (bool false) end)) (
        field "challanCount" (str "3")
          (field "flags" (obj (field "suspended" (bool true) end)) end))))

abbrev one_challan : Fields
one_challan = field "challanCount" (num (pos 1)) end

score-build_weighted_risk_assessment_example :
    ((build_weighted_risk_assessment cs number (obj worst)).score
      ≡ baseline (findings cs number worst) + points cs number worst)
    × ((build_weighted_risk_assessment cs number (obj worst)).score ≤ 100)
score-build_weighted_risk_assessment_example = score-build_weighted_risk_assessment cs number worst

worst-high :
    risk_tier_from_score (build_weighted_risk_assessment cs number (obj worst)).score ≡ high
unfolding risk_tier_from_score build_weighted_risk_assessment vahan.Vehicle.Risk.assess
    vahan.Vehicle.Risk.found_in vahan.Vehicle.Risk.as_boolean vahan.Js.Json.get
    vahan.Vehicle.Risk.as_finite_number vahan.Js.Text.trim
worst-high = refl

no_findings : findings cs number end ≡ 0
unfolding vahan.Vehicle.Risk.as_boolean vahan.Js.Json.get vahan.Vehicle.Risk.as_finite_number
no_findings = refl

one_finding : findings cs number one_challan ≡ 1
unfolding vahan.Vehicle.Risk.as_boolean vahan.Js.Json.get vahan.Vehicle.Risk.as_finite_number
one_finding = refl

one_violation : violations cs number one_challan ≡ 1
unfolding vahan.Vehicle.Risk.as_finite_number vahan.Js.Json.get
one_violation = refl

reasons-build_weighted_risk_assessment_example :
    (length (build_weighted_risk_assessment cs number (obj worst)).factors
      ≡ findings cs number worst)
    × ((1 ≤ findings cs number worst
        → (fs : List WeightedRiskFactor) × Permᴰ fs
            (build_weighted_risk_assessment cs number (obj worst)).factors
          × IsDescending fs
          × ((build_weighted_risk_assessment cs number (obj worst)).reasons
              ≡ map (λ f. f.reason) fs)))
    × (findings cs number worst ≡ 0
        → (build_weighted_risk_assessment cs number (obj worst)).reasons
          ≡ ("No high-risk factors found in snapshot." ∷ []))
reasons-build_weighted_risk_assessment_example =
    reasons-build_weighted_risk_assessment cs number worst

abbrev env : Env
env name =
    if name == "DATABASE_URL"
    then some "postgres://db"
    else if name == "VEHICLE_CACHE_ENABLED"
    then some "true"
    else if name == "REDIS_URL"
    then some "redis://cache"
    else none

abbrev State : Type 0
State = List (String × String)

abbrev look : String → State → Option String
look k [] = none
look k ((j, v) ∷ s) = if k == j then some v else look k s

abbrev redis : Redis State
redis = record { get = λ s k. found (look k s); set = λ s k v ttl. found ((k, v) ∷ s) }

found-injective : (s t : State) → found s ≡ found t → s ≡ t
found-injective s t h = cc

look-here : (k v : String) (s : State) → look k ((k, v) ∷ s) ≡ some v
look-here k v s = rw (eq_refl k) refl

look-there : (j k v : String) (s : State) → j ≢ k → look j ((k, v) ∷ s) ≡ look j s
look-there j k v s ne = elim (Bool-cases (j == k)) [
  | inl e ↦ absurd (ne ((eq_iff j k).0 e))
  | inr e ↦ rw e refl
]

redis-IsRedis : IsRedis redis
redis-IsRedis = record {
  here = λ s s' k v ttl h.
      subst (λ t. found (look k t) ≡ found (some v)) (found-injective _ _ h)
        (ap found (look-here k v s));
  there = λ s s' k v ttl j h ne.
      subst (λ t. found (look j t) ≡ found (look j s)) (found-injective _ _ h)
        (ap found (look-there j k v s ne));
}

abbrev br01 : SummaryRow
br01 = record { id = "1"; vehicle_reg_no = "BR01"; snapshot = obj worst; updated_at = "t" }

abbrev row_at : Bool → Query (Option SummaryRow)
row_at true = found (some br01)
row_at false = found none

abbrev table : Summary.Table
table reg = row_at (reg == "BR01")

-- Texts for what the table answers: "o" for its row, and "n" in front of a registration.
abbrev parse_text : String → Option VehicleSummaryResponse
parse_text String.[] = none
parse_text (String.◌∷◌ c s) = if nat_eq (code c) 111 then some (ok br01) else some (not_found s)

abbrev stringify_text : VehicleSummaryResponse → String
stringify_text (ok row) = "o"
stringify_text (not_found reg) = String.◌∷◌ "n" reg
stringify_text (not_implemented reason) = "i"

abbrev codec : Codec VehicleSummaryResponse
codec = record { stringify = stringify_text; parse = parse_text }

codec-IsCodec : IsCodec codec (IsAnswer cs env number redis codec table)
codec-IsCodec = record {
  full =
      λ r w. subst (λ x. is_empty (stringify_text x) ≡ false) (sym w.1) (full w.0 (w.0 == "BR01"));
  round_trip = λ r w.
      subst (λ x. parse_text (stringify_text x) ≡ some x) (sym w.1) (back w.0 (w.0 == "BR01"));
}
  where
    full : (k : String) (b : Bool) → is_empty (stringify_text (answer k (row_at b))) ≡ false
    full k true = refl
    full k false = refl

    back :
        (k : String) (b : Bool)
        → parse_text (stringify_text (answer k (row_at b))) ≡ some (answer k (row_at b))
    back k true = refl
    back k false = refl

empty-Agrees : Agrees cs env number redis codec table []
unfolding get_cached_summary vahan.Vehicle.Cache.is_cache_enabled vahan.Js.Text.trim
    vahan.Js.Text.present
empty-Agrees k r h = absurd (none≢some h)

has_url : ingest_database_url env ≡ some "postgres://db"
unfolding ingest_database_url vahan.Js.Text.present vahan.Js.Text.trim
has_url = refl

get_compliance_summary-answer_example :
    ((get_compliance_summary cs env number redis codec table [] "BR01").0
      ≡ answer (normalize_reg_norm cs "BR01") (table (normalize_reg_norm cs "BR01")))
    × Agrees cs env number redis codec table
        (get_compliance_summary cs env number redis codec table [] "BR01").1
get_compliance_summary-answer_example =
    get_compliance_summary-answer cs env number redis codec table redis-IsRedis codec-IsCodec []
      "BR01" "postgres://db" has_url empty-Agrees

the_risk :
    (get_vehicle_risk cs env number redis codec table number [] " BR01" "now").0
    ≡ risk "BR01" (build_weighted_risk_assessment cs number (obj worst)) high high "now"
unfolding get_vehicle_risk get_compliance_summary get_cached_summary
    vahan.Vehicle.Cache.is_cache_enabled vahan.Js.Text.trim vahan.Js.Text.present
    ingest_database_url normalize_reg_norm risk_tier_from_score build_weighted_risk_assessment
    vahan.Vehicle.Risk.assess vahan.Vehicle.Risk.found_in vahan.Vehicle.Risk.as_boolean
    vahan.Js.Json.get vahan.Vehicle.Risk.as_finite_number
the_risk = refl

get_vehicle_risk-risk_example :
    (row : SummaryRow) × (table (normalize_reg_norm cs " BR01") ≡ found (some row))
    × ("BR01" ≡ normalize_reg_norm cs " BR01")
    × (build_weighted_risk_assessment cs number (obj worst)
        ≡ build_weighted_risk_assessment cs number row.snapshot)
    × ((build_weighted_risk_assessment cs number (obj worst)).score ≤ 100)
    × (high ≡ risk_tier_from_score (build_weighted_risk_assessment cs number (obj worst)).score)
    × (high ≡ high)
get_vehicle_risk-risk_example =
    get_vehicle_risk-risk cs env number redis codec table redis-IsRedis codec-IsCodec number []
      " BR01" "postgres://db" "now" "BR01" "now"
      (build_weighted_risk_assessment cs number (obj worst)) high high has_url empty-Agrees the_risk

abbrev event : JobEvent
event = record {
  id = "7";
  event_type = "done";
  occurred_at = "t";
  payload = obj (field "vehicleRegNo" (str "BR01") end);
  job_payload = Json.null;
  tenant_id = "acme";
}

-- The filtered query of this table fails; the scan finds the event.
abbrev events : Timeline.Table
events anything n = found (take n (event ∷ []))
events f n = thrown "no JSON paths"

rows-injective : (xs ys : List JobEvent) → found xs ≡ found ys → xs ≡ ys
rows-injective xs ys h = cc

matches-anything : matches passes anything event ≡ true
unfolding matches
matches-anything = refl

kept : (n : ℕ) → All (λ e. matches passes anything e ≡ true) (take (suc n) (event ∷ []))
kept zero = (matches-anything, tt)
kept (suc n) = (matches-anything, tt)

one_row : (n : ℕ) → length (take (suc n) (event ∷ [])) ≤ suc n
one_row zero = omega arith
one_row (suc n) = omega arith

events-IsSound : IsSound events
events-IsSound anything zero rows h =
    subst (λ xs. All (λ e. matches passes anything e ≡ true) xs × (length xs ≤ 0))
      (rows-injective _ rows h) (tt, omega arith)
events-IsSound anything (suc n) rows h =
    subst (λ xs. All (λ e. matches passes anything e ≡ true) xs × (length xs ≤ suc n))
      (rows-injective _ rows h) (kept n, one_row n)
events-IsSound (Where.test f) n rows h = cc
events-IsSound (Where.both f g) n rows h = cc
events-IsSound (Where.either f g) n rows h = cc

timeline :
    get_vehicle_timeline cs env events "BR01" (pos 5) "acme"
    ≡ Timeline.ok "BR01" (event_of event ∷ [])
unfolding get_vehicle_timeline ingest_database_url vahan.Js.Text.present vahan.Js.Text.trim
    Timeline.timeline_where_by_json_paths normalize_reg_norm Timeline.effective_limit
    normalize_tenant_slug json_references_reg_norm Timeline.norm_reg_field vahan.Js.Json.get
timeline = refl

get_vehicle_timeline-scoped_example :
    (rows : List JobEvent) × ((event_of event ∷ []) ≡ map_rows rows)
    × ("BR01" ≡ normalize_reg_norm cs "BR01")
    × (length rows ≤ min 200 (max 1 5))
    × All
        (λ e.
          (e.tenant_id ≡ normalize_tenant_slug (some "acme"))
          × (json_references_reg_norm cs (normalize_reg_norm cs "BR01") e.payload e.job_payload
              ≡ true))
        rows
get_vehicle_timeline-scoped_example =
    get_vehicle_timeline-scoped cs cs-HasCase env events events-IsSound "BR01" "acme" "BR01" (pos 5)
      (event_of event ∷ []) timeline
