-- ===== src/Tenant/Isolation.antt =====
-- Which rows a tenant sees.
use vahan.Prelude.{
  String, ◌≡◌, refl, sym, ◌∙◌, ◌↔◌, inl, inr, true, false, Option, none, some, Bool-cases, eq_iff,
  arith,
}
use vahan.Js.Text.{trim, is_empty, present}
use vahan.Js.Text.Laws.{trim_idem}
use vahan.Prisma.{matches}
use vahan.Tenant.{
  ingest_default_tenant_slug, normalize_tenant_slug, Link, link_passes, linked_to,
  raw_rows_linked_to_job_tenant_where, failed_job_tenant_where, slug_or_default,
}

-- A normalized slug is normal: it is never empty, and stays what it is.
trim-slug_or_default :
    (s : String) → trim s ≡ s → slug_or_default (trim (slug_or_default s)) ≡ slug_or_default s
trim-slug_or_default s h = elim (Bool-cases (is_empty s)) [
  | inl blank ↦ rw blank (unfold trim in refl)
  | inr other ↦ rw other (rw h (rw other refl))
]

-- Normalizing a slug twice is normalizing it once.
pub normalize_tenant_slug_idem :
    (raw : Option String)
    → normalize_tenant_slug (some (normalize_tenant_slug raw)) ≡ normalize_tenant_slug raw
unfolding normalize_tenant_slug
normalize_tenant_slug_idem none = unfold trim in refl
normalize_tenant_slug_idem (some raw) = trim-slug_or_default (trim raw) (trim_idem raw)

-- A row without a job names no tenant: the foreign key of the table.
abbrev pub IsLinked : Link → Type 0
IsLinked r = (r.scrape_job_id ≡ none) ↔ (r.tenant ≡ none)

-- The tenant that owns a row: that of its job, or the default for a row without a job.
abbrev pub owner : Link → String
owner r = elim r.tenant [ none ↦ ingest_default_tenant_slug | some t ↦ t ]

some≢none : {s : String} → some s ≡ none → ⊥
some≢none h = cc

linked_to_parts :
    (t : String) (id tenant : Option String)
    → IsLinked (record { scrape_job_id = id; tenant = tenant })
    → (matches link_passes (linked_to t) (record { scrape_job_id = id; tenant = tenant }) ≡ true)
      ↔ (owner (record { scrape_job_id = id; tenant = tenant }) ≡ t)
unfolding matches
linked_to_parts t none none h =
    ground (arith, eq_iff t ingest_default_tenant_slug, eq_iff ingest_default_tenant_slug t)
linked_to_parts t none (some u) h = absurd (some≢none (h.0 refl))
linked_to_parts t (some id) none h = absurd (some≢none (h.1 refl))
linked_to_parts t (some id) (some u) h =
    ground
      (arith, eq_iff t ingest_default_tenant_slug, eq_iff u ingest_default_tenant_slug, eq_iff u t)

-- For a row that names a tenant exactly if it has a job: the filter of a tenant on failed jobs
-- keeps it exactly if the tenant owns it, the default tenant a row without a job too.
pub failed_job_tenant_where_iff :
    (tenant_id : String) (r : Link)
    → IsLinked r
    → (matches link_passes (failed_job_tenant_where tenant_id) r ≡ true)
      ↔ (owner r ≡ normalize_tenant_slug (some tenant_id))
unfolding failed_job_tenant_where
failed_job_tenant_where_iff tenant_id r h = linked_to_parts _ r.scrape_job_id r.tenant h

-- For a row that names a tenant exactly if it has a job: the filter of a tenant on raw rows keeps
-- it exactly if the tenant owns it, the default tenant a row without a job too.
pub raw_rows_linked_to_job_tenant_where_iff :
    (tenant_id : String) (r : Link)
    → IsLinked r
    → (matches link_passes (raw_rows_linked_to_job_tenant_where tenant_id) r ≡ true)
      ↔ (owner r ≡ normalize_tenant_slug (some tenant_id))
unfolding raw_rows_linked_to_job_tenant_where
raw_rows_linked_to_job_tenant_where_iff tenant_id r h = linked_to_parts _ r.scrape_job_id r.tenant h

-- For a row that names a tenant exactly if it has a job: two tenants whose filters on failed jobs
-- both keep it have one normalized slug.
pub tenants_share_no_row :
    (a b : String) (r : Link)
    → IsLinked r
    → matches link_passes (failed_job_tenant_where a) r ≡ true
    → matches link_passes (failed_job_tenant_where b) r ≡ true
    → normalize_tenant_slug (some a) ≡ normalize_tenant_slug (some b)
tenants_share_no_row a b r h p q =
    sym ((failed_job_tenant_where_iff a r h).0 p) ∙ (failed_job_tenant_where_iff b r h).0 q

full-slug_or_default : (s : String) → is_empty (slug_or_default s) ≡ false
full-slug_or_default s = elim (Bool-cases (is_empty s)) [
  | inl blank ↦ rw blank
  | inr other ↦ rw other other
]

-- A slug is there: it is not blank.
pub present-normalize_tenant_slug :
    (raw : Option String)
    → present (some (normalize_tenant_slug raw)) ≡ some (normalize_tenant_slug raw)
unfolding normalize_tenant_slug present
present-normalize_tenant_slug none = unfold trim in refl
present-normalize_tenant_slug (some raw) =
    rw (trim-slug (trim raw) (trim_idem raw)) (rw (full-slug_or_default (trim raw)))
  where
    trim-slug : (s : String) → trim s ≡ s → trim (slug_or_default s) ≡ slug_or_default s
    trim-slug s h = elim (Bool-cases (is_empty s)) [
      | inl blank ↦ rw blank (unfold trim in refl)
      | inr other ↦ rw other h
    ]
