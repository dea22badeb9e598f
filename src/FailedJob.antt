-- ===== src/FailedJob.antt =====
-- apps/api-nest/src/failed-job.service.ts. The table and Prisma are parameters: a query is a
-- function of its arguments that finds rows or throws.
pub mod Scope
pub mod Tests
use vahan.Prelude.{ℕ, min, String, Bool, Option, none, some, List, map, ◌==◌}
use vahan.Js.Text.{present}
use vahan.Js.Json.{Json}
use vahan.Env.{Env, ingest_database_url}
use vahan.Prisma.{Where, test, both, Query, found, thrown}
use vahan.Tenant.{LinkTest, Link, link_passes, failed_job_tenant_where}

pub record FailedJobListRow : Type 0 where
  pub id : String
  pub queue_name : String
  pub job_name : Option String
  pub bull_job_id : Option String
  pub correlation_id : Option String
  pub scrape_job_id : Option String
  pub payload : Json
  pub error_message : String
  pub error_stack : Option String
  pub attempts : ℕ
  pub created_at : String

-- A row of the table: what the services select, and the tenant of its scrape job.
pub record FailedJob : Type 0 where
  pub row : FailedJobListRow
  pub tenant : Option String

pub data FailedJobTest : Type 0 where
  id_is : String → FailedJobTest
  queue_name_is : String → FailedJobTest
  link : LinkTest → FailedJobTest

abbrev pub link_of : FailedJob → Link
link_of j = record { scrape_job_id = j.row.scrape_job_id; tenant = j.tenant }

abbrev pub passes : FailedJobTest → FailedJob → Bool
passes (id_is id) j = j.row.id == id
passes (queue_name_is q) j = j.row.queue_name == q
passes (link l) j = link_passes l (link_of j)

unfoldable pub on_link : Where LinkTest → Where FailedJobTest
on_link Where.anything = Where.anything
on_link (Where.test l) = test (link l)
on_link (Where.both a b) = both (on_link a) (on_link b)
on_link (Where.either a b) = Where.either (on_link a) (on_link b)

pub data Order : Type 0 where
  asc desc : Order

-- The table `failedJob` of the client.
pub record Table : Type 0 where
  pub find_first : Where FailedJobTest → Query (Option FailedJob)
  pub find_many : Where FailedJobTest → Order → ℕ → Query (List FailedJob)
  pub count : Where FailedJobTest → Query ℕ

pub data ListResponse : Type 0 where
  ok : (as_of : String) (rows : List FailedJobListRow) (total_approx : ℕ) → ListResponse
  not_implemented : (as_of : String) (limit : ℕ) (reason : String) → ListResponse

abbrev pub is_configured : Option String → Bool
is_configured none = Bool.false
is_configured (some url) = Bool.true

unfoldable pub ingest_db_configured : Env → Bool
ingest_db_configured env = is_configured (ingest_database_url env)

-- `where` of `list`
abbrev pub list_where : Option String → String → Where FailedJobTest
list_where none tenant_id = on_link (failed_job_tenant_where tenant_id)
list_where (some queue) tenant_id =
    both (test (queue_name_is queue)) (on_link (failed_job_tenant_where tenant_id))

-- The two queries of `list`; the first that throws decides.
abbrev pub answer : String → ℕ → Query (List FailedJob) → Query ℕ → ListResponse
answer now limit (found rows) (found total) = ok now (map (λ j. j.row) rows) total
answer now limit (thrown message) total = not_implemented now limit message
answer now limit (found rows) (thrown message) = not_implemented now limit message

-- `now` is the text of the current time.
unfoldable pub list : Env → Table → String → ℕ → Option String → Order → String → ListResponse
list env table now limit queue_name order tenant_id =
    let take = min limit 100 in
    let filter = list_where (present queue_name) tenant_id in
    elim (ingest_database_url env) [
      | none ↦
          not_implemented now limit
            "INGEST_DATABASE_URL or DATABASE_URL is not set; cannot load failed jobs."
      | some url ↦ answer now limit (table.find_many filter order take) (table.count filter)
    ]

abbrev pub first_row : Query (Option FailedJob) → Option FailedJobListRow
first_row (found none) = none
first_row (found (some j)) = some j.row
first_row (thrown message) = none

unfoldable pub get_by_id : Env → Table → String → String → Option FailedJobListRow
get_by_id env table id tenant_id = elim (ingest_database_url env) [
  | none ↦ none
  | some url ↦
      first_row
        (table.find_first (both (test (id_is id)) (on_link (failed_job_tenant_where tenant_id))))
]
