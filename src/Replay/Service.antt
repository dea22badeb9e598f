-- ===== src/Replay/Service.antt =====
-- `FailedJobReplayService` of apps/api-nest/src/failed-job-replay.service.ts: its state and
-- `replay`.
pub mod Outcome
pub mod Failure
pub mod Queues
use vahan.Prelude.{String, Bool, ◌||◌, Option, none, some, List, [], ◌∷◌, any, ◌==◌, if◌then◌else◌}
use vahan.Env.{Env}
use vahan.Contracts.{QueueNames}
use vahan.FailedJob.{FailedJobListRow, Table, ingest_db_configured, get_by_id}
use vahan.Replay.Redact.{contains_word}
use vahan.Replay.Accept.{
  ingest_redis_url, resolved_queue_names, ReplayError, ingest_db_not_configured,
  redis_not_configured, failed_job_not_found, bull_job_id_conflict, bullmq_enqueue_failed, Result,
  ok, err, ◌>>=◌, require, Accepted, accept,
}
use vahan.BullMq.{AddRequest, AddResult, added, ignored, refused}
use vahan.Replay.Job.{job_request}

-- `/already exists|duplicate job id/i.test(msg)`
unfoldable pub is_conflict : String → Bool
unfolding contains_word
is_conflict message =
    contains_word "already exists" message || contains_word "duplicate job id" message

unfoldable pub add_outcome : String → AddResult → Result (Option String)
add_outcome queue_name (added id) = ok id
add_outcome queue_name (ignored id) = ok id
add_outcome queue_name (refused message) =
    if is_conflict message
    then err (bull_job_id_conflict message queue_name)
    else err (bullmq_enqueue_failed message queue_name)

-- A queue that the service has opened, and the connection that it uses.
pub record OpenQueue : Type 0 where
  pub name : String
  pub connection : String

-- The fields `redis` (the URL that its connection was opened with) and `queueCache`.
pub record Service : Type 0 where
  pub redis : Option String
  pub queue_cache : List OpenQueue

unfoldable pub connection : Service → String → Service × String
connection s url = elim s.redis [ none ↦ (record s { redis = some url }, url) | some u ↦ (s, u) ]

abbrev pub is_open : String → List OpenQueue → Bool
is_open name queues = any (λ q. q.name == name) queues

-- `queueForName`; the queue itself is known by its name.
unfoldable pub queue_for_name : Service → String → String → Service
queue_for_name s name redis_url =
    if is_open name s.queue_cache
    then s
    else (let (s', c) = connection s redis_url in
        record s' { queue_cache = (record { name = name; connection = c }) ∷ s'.queue_cache })

-- `onModuleDestroy`
unfoldable pub on_module_destroy : Service → Service
on_module_destroy s = record { redis = none; queue_cache = [] }

-- The entry that `auditLogService.writeEntry` is given.
pub record AuditEntry : Type 0 where
  pub action : String
  pub resource : String
  pub queue_name : String
  pub bull_job_id : Option String
  pub prior_bull_job_id : Option String

-- A replayed job: the body of the answer.
pub record Replayed : Type 0 where
  pub bull_job_id : Option String
  pub queue_name : String

-- What a call of `replay` leaves behind: the service, the jobs that it asked BullMQ to add, the audit
-- entries that it wrote, and its answer.
pub record Run : Type 0 where
  pub service : Service
  pub adds : List AddRequest
  pub audits : List AuditEntry
  pub answer : Result Replayed

-- The row and the URL, or the exception of the three first checks.
unfoldable pub load_row : Env → Table → String → String → Result (FailedJobListRow × String)
load_row env table failed_job_id tenant_id =
    if ingest_db_configured env
    then (do
      redis_url ← require (ingest_redis_url env) redis_not_configured
      elim (get_by_id env table failed_job_id tenant_id) [
        | none ↦ err (failed_job_not_found failed_job_id)
        | some row ↦ ok (row, redis_url)
      ])
    else err ingest_db_not_configured

module _ (add : AddRequest → AddResult) (now : String) where
  -- `q.add`, the answer and the audit entry.
  unfoldable pub finish : Service → FailedJobListRow → AddRequest → Result (Option String) → Run
  finish s row request (err e) = record {
    service = s;
    adds = request ∷ [];
    audits = [];
    answer = err e;
  }
  finish s row request (ok id) = record {
    service = s;
    adds = request ∷ [];
    audits =
        record {
          action = "failed_job.replay";
          resource = row.id;
          queue_name = row.queue_name;
          bull_job_id = id;
          prior_bull_job_id = row.bull_job_id;
        }
        ∷ [];
    answer = ok (record { bull_job_id = id; queue_name = row.queue_name });
  }

  abbrev pub failed : Service → ReplayError → Run
  failed s e = record { service = s; adds = []; audits = []; answer = err e }

  unfoldable pub send : Service → FailedJobListRow → Result AddRequest → Run
  unfolding finish
  send s row (err e) = failed s e
  send s row (ok request) = finish s row request (add_outcome row.queue_name (add request))

  -- The part of `replay` behind the checks of the row.
  unfoldable pub enqueue : Service → QueueNames → FailedJobListRow → String → Result Accepted → Run
  unfolding send
  enqueue s names row redis_url (err e) = failed s e
  enqueue s names row redis_url (ok a) =
      send (queue_for_name s row.queue_name redis_url) row (job_request a.role names row a now)

  abbrev pub from_row : Env → Service → Result (FailedJobListRow × String) → Run
  from_row env s (err e) = failed s e
  from_row env s (ok (row, redis_url)) =
      let names = resolved_queue_names env in enqueue s names row redis_url (accept names row)

  unfoldable pub replay : Env → Table → Service → String → String → Run
  unfolding enqueue
  replay env table s failed_job_id tenant_id =
      from_row env s (load_row env table failed_job_id tenant_id)
