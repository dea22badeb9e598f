-- ===== src/Replay/Job.antt =====
-- The job that `replay` of apps/api-nest/src/failed-job-replay.service.ts adds to a queue.
pub mod Laws
use Prim.Native.String
use vahan.Prelude.{String, Option, none, some}
use vahan.Prelude.Int.{pos}
use vahan.Js.Text.{present}
use vahan.Js.Json.{Fields, num, str, obj, end, field, get, put, as_string}
use vahan.Contracts.{QueueNames, ingest_child_job_type}
use vahan.BullMq.{AddRequest}
use vahan.FailedJob.{FailedJobListRow}
use vahan.Replay.Redact.{strip_sensitive_deep}
use vahan.Replay.Accept.{
  IngestQueueRole, master, child, missing_child_step, Result, ok, ◌>>=◌, require,
  assert_under_payload_cap, Accepted,
}

-- The property `type` of the job, if the payload has a known one.
abbrev pub with_type : Option String → Fields → Fields
with_type none fs = fs
with_type (some t) fs = put "type" (str t) fs

-- `{ scrapeJobId, kind, correlationId, …rest }`
abbrev pub job_data : Accepted → Fields → Fields
job_data a rest =
    field "scrapeJobId" (str a.scrape_job_id)
      (field "kind" (str a.kind) (field "correlationId" (str a.correlation_id) rest))

abbrev pub master_data : Accepted → Fields
master_data a = job_data a (field "replayAttempts" (num (pos 0)) end)

abbrev pub child_data : Accepted → String → Fields
child_data a step =
    with_type (ingest_child_job_type (get "type" a.base_payload))
      (job_data a (field "step" (str step) (field "replayAttempts" (num (pos 0)) end)))

abbrev pub retry_data : Accepted → QueueNames → Option String → Fields
retry_data a names none =
    put "target" (str "master") (job_data a (field "replayAttempts" (num (pos 0)) end))
retry_data a names (some step) = with_type (ingest_child_job_type (get "type" a.base_payload)) (
    put "dlqMeta" (obj (field "sourceQueue" (str names.child) end)) (
      put "target" (str "child")
        (put "step" (str step) (job_data a (field "replayAttempts" (num (pos 0)) end)))))

infixl 65 ◌<>◌
abbrev pub ◌<>◌ : String → String → String
s <> t = String.◌++◌ s t

-- The three branches of the `try` block up to `q.add`; `now` is the text of `Date.now()`.
unfoldable pub job_request :
    IngestQueueRole → QueueNames → FailedJobListRow → Accepted → String → Result AddRequest
job_request master names row a now = do
  cleaned ←
      assert_under_payload_cap "master_job_data" (strip_sensitive_deep (obj (master_data a)) 0)
  ok (record {
    queue_name = row.queue_name;
    job_name = "master";
    data_fields = cleaned;
    job_id = a.scrape_job_id;
  })
job_request child names row a now = do
  step ← require (present (as_string (get "step" a.base_payload))) missing_child_step
  cleaned ←
      assert_under_payload_cap "child_job_data" (strip_sensitive_deep (obj (child_data a step)) 0)
  ok (record {
    queue_name = row.queue_name;
    job_name = "child";
    data_fields = cleaned;
    job_id = a.scrape_job_id <> ":" <> step;
  })
job_request _ names row a now = do
  cleaned ← assert_under_payload_cap "retry_job_data" (
      strip_sensitive_deep
        (obj (retry_data a names (present (as_string (get "step" a.base_payload))))) 0)
  ok (record {
    queue_name = row.queue_name;
    job_name = "retry";
    data_fields = cleaned;
    job_id = "replay:failed-job:" <> row.id <> ":" <> now;
  })
