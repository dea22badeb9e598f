-- ===== src/Tenant.antt =====
-- apps/api-nest/src/ingest-tenant-scope.ts
pub mod Isolation
mod Tests
use vahan.Prelude.{String, Bool, true, false, Option, none, some, if◌then◌else◌, ◌==◌}
use vahan.Js.Text.{trim, is_empty}
use vahan.Prisma.{Where, test, either}

abbrev pub ingest_default_tenant_slug : String
ingest_default_tenant_slug = "default"

abbrev slug_or_default : String → String
slug_or_default s = if is_empty s then ingest_default_tenant_slug else s

unfoldable pub normalize_tenant_slug : Option String → String
normalize_tenant_slug none = ingest_default_tenant_slug
normalize_tenant_slug (some raw) = slug_or_default (trim raw)

-- The tests on the job of a row: `{ scrapeJobId: null }`, and `{ job: { tenantId: t } }` or
-- `{ scrapeJob: { tenantId: t } }`.
pub data LinkTest : Type 0 where
  unlinked : LinkTest
  job_tenant : String → LinkTest

-- What these tests read of a row: its foreign key, and the tenant of the job that it names.
pub record Link : Type 0 where
  pub scrape_job_id : Option String
  pub tenant : Option String

abbrev pub is_null : Option String → Bool
is_null none = true
is_null (some s) = false

abbrev pub equals : Option String → String → Bool
equals none t = false
equals (some s) t = s == t

abbrev pub link_passes : LinkTest → Link → Bool
link_passes unlinked r = is_null r.scrape_job_id
link_passes (job_tenant t) r = equals r.tenant t

-- Both branches of the two functions below, at a normalized slug.
abbrev linked_to : String → Where LinkTest
linked_to t =
    if t == ingest_default_tenant_slug
    then either (test unlinked) (test (job_tenant ingest_default_tenant_slug))
    else test (job_tenant t)

unfoldable pub raw_rows_linked_to_job_tenant_where : String → Where LinkTest
raw_rows_linked_to_job_tenant_where tenant_id = linked_to (normalize_tenant_slug (some tenant_id))

unfoldable pub failed_job_tenant_where : String → Where LinkTest
failed_job_tenant_where tenant_id = linked_to (normalize_tenant_slug (some tenant_id))

-- `{ tenantId: t }` on a scrape job
unfoldable pub scrape_job_tenant_where : String → String
scrape_job_tenant_where tenant_id = normalize_tenant_slug (some tenant_id)

-- `{ job: { tenantId: t } }` on an event
unfoldable pub job_event_tenant_where : String → Where LinkTest
job_event_tenant_where tenant_id = test (job_tenant (normalize_tenant_slug (some tenant_id)))
