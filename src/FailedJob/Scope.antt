-- ===== src/FailedJob/Scope.antt =====
-- The rows of a failed-job query belong to the tenant that asks.
use mathlib.Core.Option.{some-injective}
use vahan.Prelude.{
  none≢some, All-imp, ◌∙◌, ℕ, ◌≤◌, min, String, ◌≡◌, refl, true, Option, none, some, List, map, All,
  length, &&-true, eq_iff, Option-cases, inl, inr,
}
use vahan.Js.Text.{present}
use vahan.Env.{Env, ingest_database_url}
use vahan.Prisma.{Where, test, both, either, anything, matches, Query, found, thrown}
use vahan.Tenant.{LinkTest, link_passes, normalize_tenant_slug, failed_job_tenant_where}
use vahan.Tenant.Isolation.{IsLinked, owner, failed_job_tenant_where_iff}
use vahan.FailedJob.{
  FailedJobListRow, FailedJob, FailedJobTest, id_is, queue_name_is, Order, link_of, passes, on_link,
  Table, ok, not_implemented, list_where, answer, list, get_by_id, first_row,
}

-- What the services rely on: a query returns rows of the table that its filter keeps, at most as
-- many as it takes, and a row without a job names no tenant (the foreign key).
pub record IsSound (table : Table) : Type 0 where
  pub first :
      (f : Where FailedJobTest) (j : FailedJob)
      → table.find_first f ≡ found (some j)
      → (matches passes f j ≡ true) × IsLinked (link_of j)
  pub many :
      (f : Where FailedJobTest) (o : Order) (n : ℕ) (js : List FailedJob)
      → table.find_many f o n ≡ found js
      → All (λ j. (matches passes f j ≡ true) × IsLinked (link_of j)) js × (length js ≤ n)

-- A filter on the job of a row reads the row's link alone.
matches-on_link :
    (f : Where LinkTest) (j : FailedJob)
    → matches passes (on_link f) j ≡ matches link_passes f (link_of j)
unfolding matches on_link
matches-on_link anything j = refl
matches-on_link (test l) j = refl
matches-on_link (both a b) j = cc (matches-on_link a j, matches-on_link b j)
matches-on_link (either a b) j = cc (matches-on_link a j, matches-on_link b j)

-- The tenant owns a row that its filter keeps.
owned :
    (tenant_id : String) (j : FailedJob)
    → IsLinked (link_of j)
    → matches passes (on_link (failed_job_tenant_where tenant_id)) j ≡ true
    → owner (link_of j) ≡ normalize_tenant_slug (some tenant_id)
owned tenant_id j linked h =
    (failed_job_tenant_where_iff tenant_id (link_of j) linked).0
      (rw (matches-on_link (failed_job_tenant_where tenant_id) j) at h)

first_row-found :
    (q : Query (Option FailedJob)) (row : FailedJobListRow)
    → first_row q ≡ some row
    → (j : FailedJob) × (q ≡ found (some j)) × (j.row ≡ row)
first_row-found (found none) row h = cc
first_row-found (found (some j)) row h = (j, refl, cc)
first_row-found (thrown m) row h = cc

passes_both :
    (a b : Where FailedJobTest) (j : FailedJob)
    → matches passes (both a b) j ≡ true
    → (matches passes a j ≡ true) × (matches passes b j ≡ true)
unfolding matches
passes_both a b j h = &&-true _ _ h

passes_test :
    (f : FailedJobTest) (j : FailedJob) → matches passes (test f) j ≡ true → passes f j ≡ true
unfolding matches
passes_test f j h = h

-- With a sound table, a row that `getById` finds has the id that was asked for and is owned by
-- the tenant.
pub get_by_id-owner :
    (env : Env) (table : Table) (id tenant_id : String) (row : FailedJobListRow)
    → IsSound table
    → get_by_id env table id tenant_id ≡ some row
    → (j : FailedJob) × (j.row ≡ row)
      × (j.row.id ≡ id)
      × (owner (link_of j) ≡ normalize_tenant_slug (some tenant_id))
unfolding get_by_id
get_by_id-owner env table id tenant_id row sound h = elim (Option-cases (ingest_database_url env)) [
  | inl missing ↦ absurd (none≢some (rw (missing, get_by_id) at h))
  | inr (url, e) ↦
      let (j, hit, same) = first_row-found _ row (rw (e, get_by_id) at h) in
      let (kept, linked) = sound.first _ j hit in
      let (by_id, by_tenant) = passes_both _ _ j kept in
      (j, same, (eq_iff _ _).0 (passes_test (id_is id) j by_id), owned tenant_id j linked by_tenant)
]

refused≢ok :
    {now as_of reason : String} {limit total : ℕ} {rows : List FailedJobListRow}
    → not_implemented now limit reason ≡ ok as_of rows total
    → ⊥
refused≢ok h = cc

answer-ok :
    (now as_of : String) (limit total : ℕ) (q : Query (List FailedJob)) (c : Query ℕ)
    (rows : List FailedJobListRow)
    → answer now limit q c ≡ ok as_of rows total
    → (js : List FailedJob) × (q ≡ found js) × (rows ≡ map (λ j. j.row) js)
answer-ok now as_of limit total (found js) (found n) rows h = (js, refl, cc)
answer-ok now as_of limit total (found js) (thrown m) rows h = cc
answer-ok now as_of limit total (thrown m) c rows h = cc

-- A row that the filter of `list` keeps is the tenant's, and on the queue if one is named.
list_where-owned :
    (queue : Option String) (tenant_id : String) (j : FailedJob)
    → (matches passes (list_where queue tenant_id) j ≡ true) × IsLinked (link_of j)
    → (owner (link_of j) ≡ normalize_tenant_slug (some tenant_id))
      × ((q : String) → queue ≡ some q → j.row.queue_name ≡ q)
list_where-owned none tenant_id j (h, linked) = (owned tenant_id j linked h, λ q e. cc)
list_where-owned (some queue) tenant_id j (h, linked) =
    let (on_queue, by_tenant) = passes_both _ _ j h in
    (
      owned tenant_id j linked by_tenant,
      λ q e.
          (eq_iff _ _).0 (passes_test (queue_name_is queue) j on_queue) ∙ some-injective queue q e,
    )

-- With a sound table, what is listed is owned by the tenant, is on the queue that was asked for,
-- if one was, and is at most as many rows as the limit says and a hundred.
pub list-owner :
    (env : Env) (table : Table) (now as_of : String) (limit total : ℕ) (queue_name : Option String)
    (order : Order) (tenant_id : String) (rows : List FailedJobListRow)
    → IsSound table
    → list env table now limit queue_name order tenant_id ≡ ok as_of rows total
    → (js : List FailedJob) × (rows ≡ map (λ j. j.row) js)
      × (length js ≤ min limit 100)
      × All
          (λ j.
            (owner (link_of j) ≡ normalize_tenant_slug (some tenant_id))
            × ((q : String) → present queue_name ≡ some q → j.row.queue_name ≡ q))
          js
unfolding list
list-owner env table now as_of limit total queue_name order tenant_id rows sound h =
    elim (Option-cases (ingest_database_url env)) [
      | inl missing ↦ absurd (refused≢ok (rw (missing, list) at h))
      | inr (url, e) ↦
          let (js, hit, same) = answer-ok now as_of limit total _ _ rows (rw (e, list) at h) in
          let (kept, few) = sound.many _ order _ js hit in
          (js, same, few, All-imp _ _ js (list_where-owned (present queue_name) tenant_id) kept)
    ]
