-- ===== src/Replay/Accept.antt =====
-- The settings and exceptions of `replay` and its checks of a failed job,
-- of apps/api-nest/src/failed-job-replay.service.ts.
pub mod Laws
use vahan.Prelude.{
  ℕ, String, Bool, true, false, Option, none, some, or_else, or_option, ltb, ◌==◌, if◌then◌else◌,
}
use vahan.Js.Text.{present}
use vahan.Js.Json.{Fields, str, obj, end, get, put, as_string, as_object}
use vahan.Js.Json.Size.{json_utf8_bytes}
use vahan.Env.{Env}
use vahan.Contracts.{QueueNames, ingest_bull_queue_defaults, scrape_job_kinds, one_of}
use vahan.FailedJob.{FailedJobListRow}
use vahan.Replay.Redact.{strip_sensitive_deep}

abbrev pub max_replay_payload_bytes : ℕ
max_replay_payload_bytes = 65536

unfoldable pub ingest_redis_url : Env → Option String
ingest_redis_url env = or_option (present (env "BULLMQ_REDIS_URL")) (present (env "REDIS_URL"))

unfoldable pub resolved_queue_names : Env → QueueNames
resolved_queue_names env = record {
  master = or_else (present (env "INGEST_QUEUE_NAME")) ingest_bull_queue_defaults.master;
  child = or_else (present (env "INGEST_CHILD_QUEUE_NAME")) ingest_bull_queue_defaults.child;
  dlq = or_else (present (env "INGEST_DLQ_QUEUE_NAME")) ingest_bull_queue_defaults.dlq;
  retry = or_else (present (env "INGEST_RETRY_QUEUE_NAME")) ingest_bull_queue_defaults.retry;
}

pub data IngestQueueRole : Type 0 where
  master child retry dlq unknown : IngestQueueRole

unfoldable pub classify_failed_queue : String → QueueNames → IngestQueueRole
classify_failed_queue queue_name names =
    if queue_name == names.master
    then master
    else if queue_name == names.child
    then child
    else if queue_name == names.retry
    then retry
    else if queue_name == names.dlq
    then dlq
    else unknown

-- The exceptions of `replay`, by the `error` that their body names.
pub data ReplayError : Type 0 where
  ingest_db_not_configured redis_not_configured : ReplayError
  failed_job_not_found : (id : String) → ReplayError
  queue_not_supported : (queue_name : String) → ReplayError
  missing_scrape_job_id missing_correlation_id : ReplayError
  payload_too_large : (label : String) (bytes : ℕ) → ReplayError
  invalid_or_missing_kind missing_child_step : ReplayError
  bull_job_id_conflict : (detail queue_name : String) → ReplayError
  bullmq_enqueue_failed : (detail queue_name : String) → ReplayError

pub data Result {ℓ} (A : Type ℓ) : Type ℓ where
  ok : A → Result A
  err : ReplayError → Result A

infixl 5 ◌>>=◌
abbrev pub ◌>>=◌ {ℓ κ} : {A : Type ℓ} {B : Type κ} → Result A → (A → Result B) → Result B
err failure >>= rest = err failure
ok value >>= rest = rest value

-- `if (!value) throw …`
abbrev pub require : Option String → ReplayError → Result String
require none e = err e
require (some s) e = ok s

unfoldable pub assert_under_payload_cap : String → Fields → Result Fields
assert_under_payload_cap label value =
    let n = json_utf8_bytes value in
    if ltb max_replay_payload_bytes n then err (payload_too_large label n) else ok value

-- `payloadRecord(row)`: the payload if it is an object, else `{}`
abbrev pub payload_record : FailedJobListRow → Fields
payload_record row = elim (as_object row.payload) [ none ↦ end | some fs ↦ fs ]

-- What is known of a row before its queue is opened.
pub record Accepted : Type 0 where
  pub role : IngestQueueRole
  pub scrape_job_id : String
  pub correlation_id : String
  pub base_payload : Fields
  pub kind : String

abbrev pub is_supported : IngestQueueRole → Bool
is_supported master = true
is_supported child = true
is_supported retry = true
is_supported dlq = false
is_supported unknown = false

unfoldable pub supported_role : String → IngestQueueRole → Result IngestQueueRole
supported_role queue_name role =
    if is_supported role then ok role else err (queue_not_supported queue_name)

-- The check of `basePayload.kind`.
unfoldable pub with_kind : IngestQueueRole → String → String → Fields → Result Accepted
with_kind role scrape_job_id correlation_id base_payload = do
  kind ←
      require (one_of scrape_job_kinds (as_string (get "kind" base_payload)))
        invalid_or_missing_kind
  ok (record {
    role = role;
    scrape_job_id = scrape_job_id;
    correlation_id = correlation_id;
    base_payload = base_payload;
    kind = kind;
  })

-- The payload that is checked: the row's, with its two ids, stripped.
abbrev pub stripped : FailedJobListRow → String → String → Fields
stripped row scrape_job_id correlation_id =
    strip_sensitive_deep
      (obj (
        put "correlationId" (str correlation_id)
          (put "scrapeJobId" (str scrape_job_id) (payload_record row))))
      0

-- `replay` from the row up to `isValidKind(kind)`
unfoldable pub accept : QueueNames → FailedJobListRow → Result Accepted
accept names row = do
  role ← supported_role row.queue_name (classify_failed_queue row.queue_name names)
  scrape_job_id ← require (present row.scrape_job_id) missing_scrape_job_id
  correlation_id ← require (present row.correlation_id) missing_correlation_id
  base_payload ←
      assert_under_payload_cap "sanitized_row_payload" (stripped row scrape_job_id correlation_id)
  with_kind role scrape_job_id correlation_id base_payload
