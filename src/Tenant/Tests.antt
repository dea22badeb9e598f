-- ===== src/Tenant/Tests.antt =====
-- The theorems on tenants at a row of tenant "acme".
use vahan.Prelude.{◌≡◌, refl, ◌↔◌, true, some}
use vahan.Prisma.{matches}
use vahan.Tenant.{Link, link_passes, failed_job_tenant_where, normalize_tenant_slug}
use vahan.Tenant.Isolation.{IsLinked, owner, failed_job_tenant_where_iff}

abbrev acme_row : Link
acme_row = record { scrape_job_id = some "job-1"; tenant = some "acme" }

acme_row-IsLinked : IsLinked acme_row
acme_row-IsLinked = (λ h. cc, λ h. cc)

failed_job_tenant_where_iff_example :
    (matches link_passes (failed_job_tenant_where " acme ") acme_row ≡ true)
    ↔ (owner acme_row ≡ normalize_tenant_slug (some " acme "))
failed_job_tenant_where_iff_example =
    failed_job_tenant_where_iff " acme " acme_row acme_row-IsLinked

sees_acme : matches link_passes (failed_job_tenant_where " acme ") acme_row ≡ true
unfolding matches failed_job_tenant_where normalize_tenant_slug vahan.Js.Text.trim
sees_acme = refl

sees_acme' : matches link_passes (failed_job_tenant_where "acme") acme_row ≡ true
unfolding matches failed_job_tenant_where normalize_tenant_slug vahan.Js.Text.trim
sees_acme' = refl
