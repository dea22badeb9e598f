-- ===== src/FailedJob/Tests.antt =====
-- A table of one failed job, which is sound, and the theorems at it.
use vahan.Prelude.{
  ℕ, zero, suc, ◌≤◌, min, subst, String, ◌≡◌, refl, true, Option, some, none, List, [], ◌∷◌, map,
  take, length, All, Bool-cases, inl, inr, ◌==◌, if◌then◌else◌, arith,
}
use vahan.Prelude.Int.{pos}
use vahan.Js.Text.{present}
use vahan.Js.Json.{obj, str, num, end, field}
use vahan.Env.{Env}
use vahan.Prisma.{Where, matches, Query, found}
use vahan.Tenant.{normalize_tenant_slug}
use vahan.Tenant.Isolation.{IsLinked, owner}
use vahan.FailedJob.{
  FailedJob, FailedJobTest, FailedJobListRow, Table, passes, link_of, list, get_by_id, ok, Order,
}
use vahan.FailedJob.Scope.{IsSound, list-owner, get_by_id-owner}

abbrev pub env : Env
env name =
    if name == "INGEST_DATABASE_URL"
    then some "postgres://ingest"
    else if name == "REDIS_URL"
    then some "redis://cache"
    else none

abbrev pub acme_job : FailedJob
acme_job = record {
  row = record {
    id = "f1";
    queue_name = "scrape-ingest";
    job_name = some "master";
    bull_job_id = some "job-1";
    correlation_id = some "c-1";
    scrape_job_id = some "job-1";
    payload = obj (
        field "kind" (str "khanan_date_range")
          (field "password" (str "p") (field "page" (num (pos 2)) end)));
    error_message = "timeout";
    error_stack = none;
    attempts = 3;
    created_at = "2026-05-13T12:00:00.000Z";
  };
  tenant = some "acme";
}

abbrev pub one_job : FailedJob → Table
one_job j = record {
  find_first = λ f. if matches passes f j then found (some j) else found none;
  find_many = λ f o n. if matches passes f j then found (take n (j ∷ [])) else found [];
  count = λ f. if matches passes f j then found 1 else found 0;
}

the_job :
    (j k : FailedJob) → ◌≡◌ {A = Query (Option FailedJob)} (found (some j)) (found (some k)) → j ≡ k
the_job j k h = cc

no_job : (k : FailedJob) → ◌≡◌ {A = Query (Option FailedJob)} (found none) (found (some k)) → ⊥
no_job k h = cc

the_rows : (js ks : List FailedJob) → found js ≡ found ks → js ≡ ks
the_rows js ks h = cc

module _ (j : FailedJob) (linked : IsLinked (link_of j)) where
  at_most :
      (n : ℕ) (f : Where FailedJobTest)
      → matches passes f j ≡ true
      → All (λ x. (matches passes f x ≡ true) × IsLinked (link_of x)) (take n (j ∷ []))
        × (length (take n (j ∷ [])) ≤ n)
  at_most zero f e = (tt, omega arith)
  at_most (suc zero) f e = (((e, linked), tt), omega arith)
  at_most (suc (suc n)) f e = (((e, linked), tt), omega arith)

one_job-IsSound : (j : FailedJob) → IsLinked (link_of j) → IsSound (one_job j)
one_job-IsSound j linked = record {
  first = λ f k h. elim (Bool-cases (matches passes f j)) [
    | inl e ↦
        subst (λ x. (matches passes f x ≡ true) × IsLinked (link_of x)) (the_job j k (rw e at h))
          (e, linked)
    | inr e ↦ absurd (no_job k (rw e at h))
  ];
  many = λ f o n js h. elim (Bool-cases (matches passes f j)) [
    | inl e ↦
        subst
          (λ xs. All (λ x. (matches passes f x ≡ true) × IsLinked (link_of x)) xs × (length xs ≤ n))
          (the_rows _ js (rw e at h)) (at_most j linked n f e)
    | inr e ↦
        subst
          (λ xs. All (λ x. (matches passes f x ≡ true) × IsLinked (link_of x)) xs × (length xs ≤ n))
          (the_rows [] js (rw e at h)) (tt, omega arith)
  ];
}

acme_job-IsLinked : IsLinked (link_of acme_job)
acme_job-IsLinked = (λ h. cc, λ h. cc)

pub acme_table-IsSound : IsSound (one_job acme_job)
acme_table-IsSound = one_job-IsSound acme_job acme_job-IsLinked

found_f1 : get_by_id env (one_job acme_job) "f1" "acme" ≡ some acme_job.row
unfolding get_by_id vahan.Env.ingest_database_url present vahan.Js.Text.trim matches
    vahan.FailedJob.on_link vahan.Tenant.failed_job_tenant_where normalize_tenant_slug
found_f1 = refl

get_by_id-owner_example :
    (j : FailedJob) × (j.row ≡ acme_job.row)
    × (j.row.id ≡ "f1")
    × (owner (link_of j) ≡ normalize_tenant_slug (some "acme"))
get_by_id-owner_example =
    get_by_id-owner env (one_job acme_job) "f1" "acme" acme_job.row acme_table-IsSound found_f1

listed :
    list env (one_job acme_job) "now" 20 (some "scrape-ingest") Order.desc "acme"
    ≡ ok "now" (acme_job.row ∷ []) 1
unfolding list vahan.Env.ingest_database_url present vahan.Js.Text.trim matches
    vahan.FailedJob.on_link vahan.Tenant.failed_job_tenant_where normalize_tenant_slug
listed = refl

list-owner_example :
    (js : List FailedJob) × ((acme_job.row ∷ []) ≡ map (λ j. j.row) js)
    × (length js ≤ min 20 100)
    × All
        (λ j.
          (owner (link_of j) ≡ normalize_tenant_slug (some "acme"))
          × ((q : String) → present (some "scrape-ingest") ≡ some q → j.row.queue_name ≡ q))
        js
list-owner_example =
    list-owner env (one_job acme_job) "now" "now" 20 1 (some "scrape-ingest") Order.desc "acme"
      (acme_job.row ∷ []) acme_table-IsSound listed
