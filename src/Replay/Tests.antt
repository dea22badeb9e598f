-- ===== src/Replay/Tests.antt =====
-- The theorems on replays at three failed jobs: of the master, the child and the retry queue.
use vahan.BullMq.{AddRequest, AddResult, added, ignored, refused, RefusesColons}
use vahan.Prelude.{
  ℕ, ◌≡◌, ◌≢◌, refl, Bool, Bool-cases, inl, inr, ◌||◌, true, some, none, [], length, nat_eq,
  if◌then◌else◌, arith,
}
use vahan.Js.Text.{split}
use vahan.Js.Json.{Fields, obj, str, arr, nil, cons, end, field, get}
use vahan.Contracts.{QueueNames}
use vahan.FailedJob.{FailedJob, FailedJobListRow, get_by_id}
use vahan.FailedJob.Tests.{env, acme_job, one_job}
use vahan.Replay.Redact.{strip_sensitive_deep}
use vahan.Replay.Redact.Laws.{IsRedacted, strip_sensitive_deep-IsRedacted}
use vahan.Replay.Redact.Keys.{IsObject, stripped_at, get-strip_sensitive_deep}
use vahan.Replay.Accept.{
  Result, ok, err, Accepted, accept, resolved_queue_names, classify_failed_queue, master, child,
  retry, ReplayError, failed_job_not_found, ◌>>=◌,
}
use vahan.Replay.Accept.Laws.{IsAccepted, accept-IsAccepted}
use vahan.Replay.Job.{job_request}
use vahan.Replay.Service.{Service, Replayed, replay}
use vahan.Replay.Service.Outcome.{HasRequested, replay-ok}
use vahan.Replay.Service.Failure.{AddedNothing, replay-err, retry_replay-ne-ok}
use vahan.Replay.Service.Queues.{IsValid, replay-IsValid}

-- A document with a secret, a secret in an object, and one in a list.
abbrev document : Fields
document = field "password" (str "p") (
    field "meta" (obj (field "authToken" (str "t") end))
      (field "items" (arr (cons (obj (field "password" (str "p") end)) nil)) end))

document-IsObject : IsObject document
unfolding get
document-IsObject = (refl, (refl, (refl, tt)))

strip_sensitive_deep-IsRedacted_example : IsRedacted (strip_sensitive_deep (obj document) 0)
strip_sensitive_deep-IsRedacted_example = strip_sensitive_deep-IsRedacted (obj document) 0

get-strip_sensitive_deep_example :
    get "items" (strip_sensitive_deep (obj document) 0)
    ≡ stripped_at 0 "items" (get "items" document)
get-strip_sensitive_deep_example = get-strip_sensitive_deep document "items" document-IsObject

-- A queue that refuses the ids that BullMQ refuses.
abbrev pub is_allowed : AddRequest → Bool
is_allowed q = nat_eq (length (split b':' q.job_id)) 1 || nat_eq (length (split b':' q.job_id)) 3

abbrev pub add : AddRequest → AddResult
add q = if is_allowed q then added (some q.job_id) else refused "Custom Id cannot contain :"

pub add-RefusesColons : RefusesColons add
add-RefusesColons q ne1 ne3 = elim (Bool-cases (is_allowed q)) [
  | inl e ↦ absurd (one_or_three (length (split b':' q.job_id)) ne1 ne3 e)
  | inr e ↦ ("Custom Id cannot contain :", rw e refl)
]
  where
    one_or_three : (n : ℕ) → n ≢ 1 → n ≢ 3 → (nat_eq n 1 || nat_eq n 3) ≡ true → ⊥
    one_or_three n ne1 ne3 h = ground arith

abbrev names : QueueNames
names = resolved_queue_names env

abbrev started : Service
started = record { redis = none; queue_cache = [] }

started-IsValid : IsValid started
started-IsValid = record { distinct = tt; shared = tt }

abbrev replayed : Replayed
replayed = record { bull_job_id = some "job-1"; queue_name = "scrape-ingest" }

master_ok : (replay add "1" env (one_job acme_job) started "f1" "acme").answer ≡ ok replayed
unfolding replay vahan.Replay.Service.load_row vahan.FailedJob.ingest_db_configured
    vahan.Env.ingest_database_url vahan.Js.Text.present vahan.Js.Text.trim
    vahan.Replay.Accept.ingest_redis_url get_by_id vahan.Prisma.matches vahan.FailedJob.on_link
    vahan.Tenant.failed_job_tenant_where vahan.Tenant.normalize_tenant_slug accept
    vahan.Replay.Accept.supported_role classify_failed_queue resolved_queue_names
    vahan.Replay.Accept.assert_under_payload_cap vahan.Js.Json.Size.json_utf8_bytes
    vahan.Contracts.ingest_child_job_type get vahan.Js.Json.put vahan.Replay.Accept.with_kind
    job_request vahan.Replay.Redact.ascii_lower vahan.Replay.Redact.contains_word
    vahan.Replay.Redact.sensitive_key vahan.Replay.Redact.starts_word
    vahan.Replay.Redact.strip_entries strip_sensitive_deep vahan.Replay.Service.add_outcome
    vahan.Replay.Service.connection vahan.Replay.Service.enqueue vahan.Replay.Service.finish
    vahan.Replay.Service.is_conflict vahan.Replay.Service.queue_for_name vahan.Replay.Service.send
    split
master_ok = refl

-- A queue that still has a job with the id asked for: the replay answers the same.
abbrev ignore : AddRequest → AddResult
ignore q = ignored (some q.job_id)

master_ignored : (replay ignore "1" env (one_job acme_job) started "f1" "acme").answer ≡ ok replayed
unfolding replay vahan.Replay.Service.load_row vahan.FailedJob.ingest_db_configured
    vahan.Env.ingest_database_url vahan.Js.Text.present vahan.Js.Text.trim
    vahan.Replay.Accept.ingest_redis_url get_by_id vahan.Prisma.matches vahan.FailedJob.on_link
    vahan.Tenant.failed_job_tenant_where vahan.Tenant.normalize_tenant_slug accept
    vahan.Replay.Accept.supported_role classify_failed_queue resolved_queue_names
    vahan.Replay.Accept.assert_under_payload_cap vahan.Js.Json.Size.json_utf8_bytes
    vahan.Contracts.ingest_child_job_type get vahan.Js.Json.put vahan.Replay.Accept.with_kind
    job_request vahan.Replay.Redact.ascii_lower vahan.Replay.Redact.contains_word
    vahan.Replay.Redact.sensitive_key vahan.Replay.Redact.starts_word
    vahan.Replay.Redact.strip_entries strip_sensitive_deep vahan.Replay.Service.add_outcome
    vahan.Replay.Service.connection vahan.Replay.Service.enqueue vahan.Replay.Service.finish
    vahan.Replay.Service.is_conflict vahan.Replay.Service.queue_for_name vahan.Replay.Service.send
    split
master_ignored = refl

replay-ok_example :
    (row : FailedJobListRow) × (get_by_id env (one_job acme_job) "f1" "acme" ≡ some row)
    × HasRequested add "1"
        (resolved_queue_names env)
        row
        (replay add "1" env (one_job acme_job) started "f1" "acme")
        replayed
replay-ok_example = replay-ok add "1" env (one_job acme_job) started "f1" "acme" replayed master_ok

replay-IsValid_example : IsValid (replay add "1" env (one_job acme_job) started "f1" "acme").service
replay-IsValid_example =
    replay-IsValid add "1" env (one_job acme_job) started "f1" "acme" started-IsValid

other_tenant :
    (replay add "1" env (one_job acme_job) started "f1" "other").answer
    ≡ err (failed_job_not_found "f1")
unfolding replay vahan.Replay.Service.load_row vahan.FailedJob.ingest_db_configured
    vahan.Env.ingest_database_url vahan.Js.Text.present vahan.Js.Text.trim
    vahan.Replay.Accept.ingest_redis_url get_by_id vahan.Prisma.matches vahan.FailedJob.on_link
    vahan.Tenant.failed_job_tenant_where vahan.Tenant.normalize_tenant_slug
other_tenant = refl

replay-err_example :
    ((replay add "1" env (one_job acme_job) started "f1" "other").audits ≡ [])
    × AddedNothing add
        (failed_job_not_found "f1")
        (replay add "1" env (one_job acme_job) started "f1" "other").adds
replay-err_example =
    replay-err add "1" env (one_job acme_job) started "f1" "other" (failed_job_not_found "f1")
      other_tenant

abbrev accepted : Accepted
accepted = record {
  role = master;
  scrape_job_id = "job-1";
  correlation_id = "c-1";
  base_payload =
      field "kind" (str "khanan_date_range")
        (field "scrapeJobId" (str "job-1") (field "correlationId" (str "c-1") end));
  kind = "khanan_date_range";
}

-- The master's job with a payload of its kind alone.
abbrev plain_row : FailedJobListRow
plain_row = record acme_job.row { payload = obj (field "kind" (str "khanan_date_range") end) }

is_accepted : accept names plain_row ≡ ok accepted
unfolding accept vahan.Replay.Accept.supported_role classify_failed_queue resolved_queue_names
    vahan.Js.Text.present vahan.Js.Text.trim vahan.Replay.Accept.assert_under_payload_cap
    vahan.Js.Json.Size.json_utf8_bytes strip_sensitive_deep vahan.Replay.Redact.strip_entries
    vahan.Js.Json.put vahan.Replay.Redact.sensitive_key vahan.Replay.Accept.with_kind get
is_accepted = refl

accept-IsAccepted_example : IsAccepted names plain_row accepted
accept-IsAccepted_example = accept-IsAccepted names plain_row accepted is_accepted

abbrev request : AddRequest
request = record {
  queue_name = "scrape-ingest";
  job_name = "master";
  data_fields = vahan.Replay.Job.master_data accepted;
  job_id = "job-1";
}

is_requested : job_request master names plain_row accepted "1" ≡ ok request
unfolding job_request vahan.Replay.Accept.assert_under_payload_cap
    vahan.Js.Json.Size.json_utf8_bytes strip_sensitive_deep vahan.Replay.Redact.strip_entries
    vahan.Js.Json.put vahan.Replay.Redact.sensitive_key
is_requested = refl

abbrev retry_job : FailedJob
retry_job = record acme_job { row = record acme_job.row { queue_name = "scrape-ingest-retry" } }

retry_found : get_by_id env (one_job retry_job) "f1" "acme" ≡ some retry_job.row
unfolding get_by_id vahan.Env.ingest_database_url vahan.Js.Text.present vahan.Js.Text.trim
    vahan.Prisma.matches vahan.FailedJob.on_link vahan.Tenant.failed_job_tenant_where
    vahan.Tenant.normalize_tenant_slug
retry_found = refl

retry_classified : classify_failed_queue retry_job.row.queue_name names ≡ retry
unfolding classify_failed_queue resolved_queue_names vahan.Js.Text.present
retry_classified = refl

retry_replay-ne-ok_example :
    (replay add "1" env (one_job retry_job) started "f1" "acme").answer ≢ ok replayed
retry_replay-ne-ok_example =
    retry_replay-ne-ok add "1" add-RefusesColons env (one_job retry_job) started "f1" "acme"
      retry_job.row retry_found replayed retry_classified

-- The id of the scrape job has a colon.
abbrev child_job : FailedJob
child_job = record acme_job {
  row = record acme_job.row {
    queue_name = "scrape-ingest-child";
    scrape_job_id = some "a:b";
    payload = obj (field "kind" (str "khanan_date_range") (field "step" (str "permit") end));
  };
}

abbrev child_replayed : Replayed
child_replayed = record { bull_job_id = some "a:b:permit"; queue_name = "scrape-ingest-child" }

child_found : get_by_id env (one_job child_job) "f1" "acme" ≡ some child_job.row
unfolding get_by_id vahan.Env.ingest_database_url vahan.Js.Text.present vahan.Js.Text.trim
    vahan.Prisma.matches vahan.FailedJob.on_link vahan.Tenant.failed_job_tenant_where
    vahan.Tenant.normalize_tenant_slug
child_found = refl

child_classified : classify_failed_queue child_job.row.queue_name names ≡ child
unfolding classify_failed_queue resolved_queue_names vahan.Js.Text.present
child_classified = refl

child_ok : (replay add "1" env (one_job child_job) started "f1" "acme").answer ≡ ok child_replayed
unfolding replay vahan.Replay.Service.load_row vahan.FailedJob.ingest_db_configured
    vahan.Env.ingest_database_url vahan.Js.Text.present vahan.Js.Text.trim
    vahan.Replay.Accept.ingest_redis_url get_by_id vahan.Prisma.matches vahan.FailedJob.on_link
    vahan.Tenant.failed_job_tenant_where vahan.Tenant.normalize_tenant_slug accept
    vahan.Replay.Accept.supported_role classify_failed_queue resolved_queue_names
    vahan.Replay.Accept.assert_under_payload_cap vahan.Js.Json.Size.json_utf8_bytes
    vahan.Contracts.ingest_child_job_type get vahan.Js.Json.put vahan.Replay.Accept.with_kind
    job_request vahan.Replay.Redact.ascii_lower vahan.Replay.Redact.contains_word
    vahan.Replay.Redact.sensitive_key vahan.Replay.Redact.starts_word
    vahan.Replay.Redact.strip_entries strip_sensitive_deep vahan.Replay.Service.add_outcome
    vahan.Replay.Service.connection vahan.Replay.Service.enqueue vahan.Replay.Service.finish
    vahan.Replay.Service.is_conflict vahan.Replay.Service.queue_for_name vahan.Replay.Service.send
    split
child_ok = refl
