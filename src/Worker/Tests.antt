-- ===== src/Worker/Tests.antt =====
-- The theorems on the ingest worker at one scrape job.
use vahan.Prelude.{
  ◌+◌, ◌-◌, ◌<◌, ◌≤◌, ◌≡◌, ◌≢◌, refl, String, true, false, none, some, [], ◌∷◌, if◌then◌else◌, ◌==◌,
  arith, length, ℕ, List,
}
use vahan.Js.Json.{Fields, null, num, str, end, field, get, as_string}
use vahan.Js.Json.Size.{json_utf8_bytes}
use vahan.Js.Number.{Reader, Finite}
use vahan.Js.Text.{present}
use vahan.BullMq.{AddRequest, AddResult, added}
use vahan.Contracts.{QueueNames, ingest_bull_queue_defaults}
use vahan.Replay.Accept.{
  ok, accept, stripped, classify_failed_queue, max_replay_payload_bytes, is_supported,
}
use vahan.Replay.Tests.{add, add-RefusesColons}
use vahan.Worker.Data.{
  BullJob, valid_kind, master, resolve_retry_target, strip_for_target_queue, read_replay_attempts,
  child, text,
}
use vahan.Worker.Store.{ScrapeJob, World, Services, smoke_valid, persisted, done, final, find_row}
use vahan.Worker.Store.Laws.{status_of}
use vahan.Worker.Process.{
  RunSettings, enqueued_children, child_ok, fanout_request, process_master_job, process_child_job,
}
use vahan.Worker.Process.Laws.{Frame, processors-Frame}
use vahan.Worker.Process.Claim.{process_master_job-claims_once}
use vahan.Worker.Process.Complete.{process_child_job-IsComplete}
use vahan.Worker.Process.Refusal.{process_master_job-refused}
use vahan.Worker.Retry.{replay, retry_plan, retry_master_request, with_replay}
use vahan.Worker.Failure.{
  Failure, Moment, Store, FailureSettings, dlq_payload, record_terminal_failure_on_dlq, on_failed,
  failed_job_row, optional_uuid_scrape_job_id,
}
use vahan.Worker.Failure.Laws.{
  is_internal, retry-dlq_payload, Rounds, start, next, in_fanout, came_back, Rounds-le,
}
use vahan.Worker.Failure.Handlers.{record_terminal_failure_on_dlq-refused, on_failed-status}
use vahan.Worker.Failure.Replayed.{failed_job_row-accept}
use vahan.Worker.Health.{Monitor, record_failure}
use vahan.Worker.Health.Window.{
  after, since, IsInOrder, IsSpaced, alerts, record_failure-failures, alerts-IsSpaced,
}
use vahan.Worker.Quota.{Quota, Reach, enter, empty, call_step}
use vahan.Worker.Quota.Invariant.{Reach-no_deadlock}
use vahan.Worker.Quota.Release.{Reach-over_quota}

abbrev uuid : String
uuid = "123e4567-e89b-12d3-a456-426614174000"

abbrev read : Reader
read s = none

abbrev accept_all : AddRequest → AddResult
accept_all q = added (some q.job_id)

abbrev services : (AddRequest → AddResult) → Services
services q_add = record {
  fault = λ site. none;
  add = q_add;
  smoke = λ id kind. smoke_valid;
  persist = λ id kind payload. persisted true;
}

abbrev sv : Services
sv = services accept_all

abbrev settings : RunSettings
settings = record {
  is_smoke_enabled = true;
  is_strict = false;
  is_fanout_all = false;
  read = read;
  child_queue = "scrape-ingest-child";
  now = "2026-01-01";
  slice_time = λ t. "1";
}

abbrev job_data : Fields
job_data =
    field "scrapeJobId" (str uuid)
      (field "kind" (str "khanan_date_range") (field "correlationId" (str "c") end))

abbrev master_job : BullJob
master_job = record {
  id = some uuid;
  name = "master";
  job_fields = job_data;
  attempts = some 5;
  attempts_made = 5;
}

abbrev child_job : BullJob
child_job = record {
  id = some "1";
  name = "child";
  job_fields = field "step" (str "persist_stub_result") job_data;
  attempts = some 5;
  attempts_made = 5;
}

abbrev row : String → ScrapeJob
row status = record {
  id = uuid;
  status = status;
  kind = "khanan_date_range";
  payload = null;
  started_at = none;
  completed_at = none;
  last_error = none;
}

abbrev world : String → World
world status = record { jobs = row status ∷ []; events = []; adds = [] }

processors-Frame_example :
    Frame
      (as_string (get "scrapeJobId" job_data))
      (world "queued")
      (final (process_master_job sv settings master_job (world "queued")))
    × Frame
        (as_string (get "scrapeJobId" job_data))
        (world "queued")
        (final (process_child_job sv settings master_job (world "queued")))
processors-Frame_example = processors-Frame sv settings master_job (world "queued")

abbrev running : World
running = final (process_master_job sv settings master_job (world "queued"))

started_once :
    process_master_job sv settings master_job (world "queued") ≡ done (enqueued_children 2) running
unfolding process_master_job get
started_once = refl

is_uuid : as_string (get "scrapeJobId" job_data) ≡ some uuid
unfolding get
is_uuid = refl

process_master_job-claims_once_example :
    ((final (process_master_job sv settings master_job running)).jobs ≡ running.jobs)
    × ((final (process_master_job sv settings master_job running)).adds ≡ running.adds)
    × (process_master_job sv settings master_job running ≢ done (enqueued_children 2) running)
process_master_job-claims_once_example =
    process_master_job-claims_once sv sv settings settings master_job master_job uuid is_uuid
      is_uuid (world "queued") running running 2 2 started_once

abbrev completed : World
completed = final (process_child_job sv settings child_job (world "running"))

child_done : process_child_job sv settings child_job (world "running") ≡ done child_ok completed
unfolding process_child_job get
child_done = refl

is_uuid_of_child : as_string (get "scrapeJobId" child_job.job_fields) ≡ some uuid
unfolding get
is_uuid_of_child = refl

is_last_step : as_string (get "step" child_job.job_fields) ≡ some "persist_stub_result"
unfolding get
is_last_step = refl

process_child_job-IsComplete_example : status_of (find_row uuid completed.jobs) ≡ some "succeeded"
process_child_job-IsComplete_example =
    process_child_job-IsComplete sv settings child_job uuid (world "running") completed
      is_uuid_of_child is_last_step child_done

one_part : vahan.Js.Text.Laws.separators b':' uuid ≡ 0
unfolding vahan.Js.Text.split_at
one_part = refl

process_master_job-refused_example :
    ((final (process_master_job (services add) settings master_job (world "queued"))).adds ≡ [])
    × (process_master_job (services add) settings master_job (world "queued")
        ≢ done (enqueued_children 2) running)
process_master_job-refused_example =
    process_master_job-refused (services add) settings master_job add-RefusesColons uuid one_part
      is_uuid (world "queued") running 2

abbrev failure : Failure
failure = record { message = "boom"; stack = none }

abbrev moment : Moment
moment = record { date = "2026-01-01"; millis = "1" }

untargeted : get "target" job_data ≡ none
unfolding get
untargeted = refl

abbrev names : QueueNames
names = ingest_bull_queue_defaults

retry-dlq_payload_example :
    (resolve_retry_target names (dlq_payload "scrape-ingest" master_job failure moment)
      ≡ (if "scrape-ingest" == names.child then child else master))
    × (get "kind" (strip_for_target_queue (dlq_payload "scrape-ingest" master_job failure moment))
        ≡ (if is_internal "kind" then none else get "kind" job_data))
retry-dlq_payload_example =
    retry-dlq_payload names "scrape-ingest" "kind" master_job failure moment untargeted

abbrev replayed : AddRequest
replayed = retry_master_request names (with_replay names job_data 1) 1 uuid "khanan_date_range" "c"

abbrev replayed_job : BullJob
replayed_job = record master_job { job_fields = replayed.data_fields }

planned : retry_plan names read 5 job_data ≡ replay master replayed
unfolding retry_plan vahan.Js.Number.finite_of get vahan.Js.Json.put vahan.Worker.Data.remove
planned = refl

-- A fan-out child of the replayed master job, and its copy on the dead letter queue.
abbrev fanout_child : BullJob
fanout_child = record child_job {
  job_fields =
      (fanout_request sv settings uuid "khanan_date_range" replayed_job "challan").data_fields;
}

abbrev copy : Fields
copy = dlq_payload "scrape-ingest-child" fanout_child failure moment

one_round : Rounds sv settings names 5 job_data 1 copy
one_round = next start (
    came_back master replayed "scrape-ingest-child" fanout_child failure moment planned
      (in_fanout uuid "khanan_date_range" "challan" replayed_job refl))

Rounds-le_example :
    (1 ≤ 5 - read_replay_attempts read job_data)
    × (read_replay_attempts read copy ≡ read_replay_attempts read job_data + 1)
Rounds-le_example = Rounds-le sv settings names 5 job_data copy 1 (omega arith) one_round

abbrev failure_settings : FailureSettings
failure_settings = record {
  is_dlq_enabled = true;
  names = names;
  row_id = λ q. "f1";
  is_created = λ r. true;
  moment = moment;
}

abbrev store : String → Store
store status = record { world = world status; failed_rows = [] }

record_terminal_failure_on_dlq-refused_example :
    record_terminal_failure_on_dlq
      (services add)
      failure_settings
      master_job
      failure
      "scrape-ingest"
      (store "running")
    ≡ store "running"
record_terminal_failure_on_dlq-refused_example =
    record_terminal_failure_on_dlq-refused (services add) failure_settings add-RefusesColons
      master_job failure "scrape-ingest" (store "running")

row_is_there : find_row uuid (world "succeeded").jobs ≡ some (row "succeeded")
unfolding find_row
row_is_there = refl

on_failed-status_example :
    status_of (
      find_row uuid
        (on_failed sv failure_settings "scrape-ingest" master_job failure
          (store "succeeded")).world.jobs)
    ≡ some "failed"
on_failed-status_example =
    on_failed-status sv failure_settings "scrape-ingest" master_job failure (store "succeeded") uuid
      (row "succeeded") is_uuid row_is_there refl

uuid_read : optional_uuid_scrape_job_id (get "scrapeJobId" job_data) ≡ some uuid
unfolding optional_uuid_scrape_job_id get vahan.Js.Text.trim
uuid_read = refl

correlated : present (as_string (get "correlationId" job_data)) ≡ some "c"
unfolding present get vahan.Js.Text.trim
correlated = refl

kind_known : valid_kind (get "kind" job_data) ≡ some "khanan_date_range"
unfolding get
kind_known = refl

allowed : is_supported (classify_failed_queue "scrape-ingest" names) ≡ true
unfolding classify_failed_queue
allowed = refl

abbrev written : vahan.FailedJob.FailedJobListRow
written = failed_job_row "f1" "2026-01-01" master_job failure "scrape-ingest"

written_bytes : json_utf8_bytes (stripped written uuid "c") ≡ 101
unfolding json_utf8_bytes vahan.Replay.Redact.strip_sensitive_deep vahan.Replay.Redact.strip_entries
    vahan.Js.Json.put failed_job_row get vahan.Replay.Redact.sensitive_key
written_bytes = refl

small : json_utf8_bytes (stripped written uuid "c") ≤ max_replay_payload_bytes
small = rw written_bytes (omega arith)

failed_job_row-accept_example :
    (accept names written
      ≡ ok (record {
        role = classify_failed_queue "scrape-ingest" names;
        scrape_job_id = uuid;
        correlation_id = "c";
        base_payload = stripped written uuid "c";
        kind = "khanan_date_range";
      }))
    × (get "step" (stripped written uuid "c") ≡ text (as_string (get "step" job_data)))
failed_job_row-accept_example =
    failed_job_row-accept names "f1" "2026-01-01" master_job failure "scrape-ingest" uuid "c"
      "khanan_date_range" uuid_read correlated kind_known allowed small

-- Two calls at a quota of one: the second waits.
abbrev one_waits : Quota
one_waits = enter 1 false 2 (enter 1 false 1 empty)

reached : Reach 1 false false one_waits
reached =
    vahan.Worker.Quota.next (vahan.Worker.Quota.next vahan.Worker.Quota.here (call_step 1 _))
      (call_step 2 _)

someone_waits : one_waits.waiters ≢ []
unfolding enter
someone_waits h = cc

Reach-no_deadlock_example : 0 < length one_waits.woken + one_waits.acquiring + one_waits.held
Reach-no_deadlock_example = Reach-no_deadlock 1 one_waits (omega arith) reached someone_waits

Reach-over_quota_example : (s : Quota) × Reach 1 false true s × (s.held ≡ 1 + 1)
Reach-over_quota_example = Reach-over_quota 1 false (omega arith)

abbrev two_of_three : Monitor
two_of_three = record { failure_threshold = 2; window_ms = 10; degraded_cooldown_ms = 5 }

-- Failures at 3, 8 and 15: at 15 the one at 3 is out of the window.
abbrev earlier_failures : List ℕ
earlier_failures = 8 ∷ 3 ∷ []

in_order : IsInOrder (15 ∷ earlier_failures)
in_order = omega arith

record_failure-failures_example :
    (record_failure two_of_three (after two_of_three earlier_failures) 15).failures_in_window
    ≡ since (15 - 10) (15 ∷ earlier_failures)
record_failure-failures_example = record_failure-failures two_of_three 15 earlier_failures in_order

alerts-IsSpaced_example : IsSpaced 5 (alerts two_of_three (15 ∷ earlier_failures))
alerts-IsSpaced_example = alerts-IsSpaced two_of_three (15 ∷ earlier_failures) (omega arith)
