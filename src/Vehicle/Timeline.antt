-- ===== src/Vehicle/Timeline.antt =====
-- apps/api-nest/src/vehicle.service.ts: the timeline of a vehicle. The table of events is a
-- parameter; its rows come with the latest first. A limit is an integer.
pub mod Laws
use vahan.Prelude.{
  ℕ, ◌*◌, min, max, String, Bool, true, false, ◌&&◌, Option, none, some, List, [], ◌∷◌, map, filter,
  take, ◌==◌, if◌then◌else◌,
}
use vahan.Prelude.Int.{ℤ, pos_part}
use vahan.Js.Text.{trim}
use vahan.Js.Json.{Json, Fields, str, obj, get}
use vahan.Js.Casing.{Casing}
use vahan.Env.{Env, ingest_database_url}
use vahan.Prisma.{Where, anything, test, both, either, Query, found, thrown}
use vahan.Tenant.{LinkTest, unlinked, job_tenant, normalize_tenant_slug, job_event_tenant_where}
use vahan.Vehicle.Risk.{at_path}
use vahan.Vehicle.Summary.{normalize_reg_norm}

-- A row of `jobEvent`, with what is read of its job.
pub record JobEvent : Type 0 where
  pub id : String
  pub event_type : String
  pub occurred_at : String
  pub payload : Json
  pub job_payload : Json
  pub tenant_id : String

pub data JobEventTest : Type 0 where
  job_payload_at payload_at : (path : List String) (equals : String) → JobEventTest
  link : LinkTest → JobEventTest

-- `path: [...], equals: s` on a JSON column
abbrev pub json_equals : Option Json → String → Bool
json_equals (some (str s)) reg = s == reg
json_equals _ reg = false

-- An event always has a job.
abbrev pub passes : JobEventTest → JobEvent → Bool
passes (job_payload_at path reg) e = json_equals (at_path path e.job_payload) reg
passes (payload_at path reg) e = json_equals (at_path path e.payload) reg
passes (link unlinked) e = false
passes (link (job_tenant t)) e = e.tenant_id == t

unfoldable pub on_link : Where LinkTest → Where JobEventTest
on_link anything = anything
on_link (test l) = test (link l)
on_link (both a b) = both (on_link a) (on_link b)
on_link (either a b) = either (on_link a) (on_link b)

unfoldable pub timeline_where_by_reg_paths_only : String → Where JobEventTest
timeline_where_by_reg_paths_only reg = either (test (job_payload_at ("vehicleRegNo" ∷ []) reg)) (
    either (test (payload_at ("registrationNoNorm" ∷ []) reg)) (
      either (test (payload_at ("vehicleRegNo" ∷ []) reg))
        (test (payload_at ("jobPayload" ∷ "vehicleRegNo" ∷ []) reg))))

unfoldable pub timeline_where_by_json_paths : String → String → Where JobEventTest
timeline_where_by_json_paths reg tenant_id =
    let t = normalize_tenant_slug (some tenant_id) in
    both (timeline_where_by_reg_paths_only reg) (on_link (job_event_tenant_where t))

unfoldable pub norm_reg_field : Casing → Option Json → String
norm_reg_field cs (some (str s)) = cs.upper (trim s)
norm_reg_field cs _ = ""

-- `isPlainRecord(o) && normRegField(o[key]) === regNorm`
abbrev pub field_is : Casing → String → String → Json → Bool
field_is cs reg key (obj fs) = norm_reg_field cs (get key fs) == reg
field_is cs reg key _ = false

abbrev pub nested_field_is : Casing → String → Option Json → Bool
nested_field_is cs reg none = false
nested_field_is cs reg (some jp) = field_is cs reg "vehicleRegNo" jp

abbrev pub event_references : Casing → String → Json → Bool
event_references cs reg (obj fs) =
    if norm_reg_field cs (get "registrationNoNorm" fs) == reg
    then true
    else if norm_reg_field cs (get "vehicleRegNo" fs) == reg
    then true
    else nested_field_is cs reg (get "jobPayload" fs)
event_references cs reg _ = false

unfoldable pub json_references_reg_norm : Casing → String → Json → Json → Bool
json_references_reg_norm cs reg event_payload job_payload =
    if field_is cs reg "vehicleRegNo" job_payload
    then true
    else event_references cs reg event_payload

pub record TimelineEvent : Type 0 where
  pub id : String
  pub type_name : String
  pub occurred_at : String
  pub payload : Json

pub data VehicleTimelineResponse : Type 0 where
  ok : (reg_norm : String) (events : List TimelineEvent) → VehicleTimelineResponse
  not_implemented : (reg_norm reason : String) → VehicleTimelineResponse

abbrev pub event_of : JobEvent → TimelineEvent
event_of row = record {
  id = row.id;
  type_name = row.event_type;
  occurred_at = row.occurred_at;
  payload = row.payload;
}

abbrev pub map_rows : List JobEvent → List TimelineEvent
map_rows rows = map event_of rows

-- `prisma.jobEvent.findMany` with the latest first: a filter, and how many rows to take.
abbrev pub Table : Type 0
Table = Where JobEventTest → ℕ → Query (List JobEvent)

unfoldable pub effective_limit : ℤ → ℕ
effective_limit limit = min 200 (max 1 (pos_part limit))

-- The test of the scan on a row.
abbrev pub scanned : Casing → String → String → JobEvent → Bool
scanned cs reg tenant row =
    (row.tenant_id == tenant) && json_references_reg_norm cs reg row.payload row.job_payload

abbrev pub scan : Casing → String → String → ℕ → Query (List JobEvent) → VehicleTimelineResponse
scan cs reg tenant limit (found rows) =
    ok reg (map_rows (take limit (filter (scanned cs reg tenant) rows)))
scan cs reg tenant limit (thrown message) = not_implemented reg message

-- The filtered query; if it throws, the scan of the latest events.
abbrev pub filtered_or_scan :
    Casing → Table → String → String → ℕ → Query (List JobEvent) → VehicleTimelineResponse
filtered_or_scan cs table reg tenant limit (found rows) = ok reg (map_rows rows)
filtered_or_scan cs table reg tenant limit (thrown message) =
    scan cs reg tenant limit (table anything (min 2000 (limit * 40)))

unfoldable pub get_vehicle_timeline :
    Casing → Env → Table → String → ℤ → String → VehicleTimelineResponse
get_vehicle_timeline cs env table reg_norm_raw limit tenant_id =
    let reg = normalize_reg_norm cs reg_norm_raw in
    let tenant = normalize_tenant_slug (some tenant_id) in
    elim (ingest_database_url env) [
      | none ↦
          not_implemented reg
            "INGEST_DATABASE_URL or DATABASE_URL is not set; cannot load job timeline."
      | some url ↦
          filtered_or_scan cs table reg tenant (effective_limit limit)
            (table (timeline_where_by_json_paths reg tenant) (effective_limit limit))
    ]
