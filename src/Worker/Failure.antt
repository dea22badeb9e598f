-- ===== src/Worker/Failure.antt =====
-- What apps/worker-ingest/src/index.js does when a job fails: the copy on the dead letter queue, the
-- row of `system.failed_jobs`, and the status of the scrape job.
pub mod Laws
pub mod Handlers
pub mod Replayed
use Prim.Native.String
use Prim.Native.Char.{code}
use vahan.Prelude.{
  ℕ, zero, suc, ◌||◌, ◌&&◌, leb, nat_eq, String, ◌==◌, Bool, true, false, Option, none, some, List,
  [], ◌∷◌, or_else, if◌then◌else◌,
}
use vahan.Prelude.Int.{pos}
use vahan.Js.Text.{trim, is_empty, present}
use vahan.Js.Json.{Json, Fields, null, num, str, obj, end, field, get, put, as_string}
use vahan.BullMq.{AddRequest}
use vahan.Contracts.{QueueNames}
use vahan.FailedJob.{FailedJobListRow}
use vahan.Worker.Data.{BullJob, Entries, object, text, is_terminal_bull_failure}
use vahan.Worker.Store.{
  Thrown, fail_job, Services, Action, Outcome, done, thrown, World, final, pure, ◌>>=◌, ◌>>◌,
  append_event, update_row, fail_row, enqueue,
}
use vahan.Worker.Process.{◌<>◌}

-- `/^[0-9a-f]{8}-[0-9a-f]{4}-[1-5][0-9a-f]{3}-[89ab][0-9a-f]{3}-[0-9a-f]{12}$/i`, one class of
-- characters for each place.
pub data Class : Type 0 where
  hex dash version variant : Class

abbrev pub is_between : ℕ → ℕ → ℕ → Bool
is_between lo hi c = leb lo c && leb c hi

unfoldable pub in_class : Class → ℕ → Bool
in_class hex c = is_between b'0' b'9' c || is_between b'a' b'f' c || is_between b'A' b'F' c
in_class dash c = nat_eq c b'-'
in_class version c = is_between b'1' b'5' c
in_class variant c = is_between b'8' b'9' c || is_between b'a' b'b' c || is_between b'A' b'B' c

abbrev pub hexes : ℕ → List Class → List Class
hexes zero rest = rest
hexes (suc n) rest = hex ∷ hexes n rest

abbrev pub uuid_classes : List Class
uuid_classes =
    hexes 8
      (dash ∷ hexes 4 (dash ∷ version ∷ hexes 3 (dash ∷ variant ∷ hexes 3 (dash ∷ hexes 12 []))))

unfoldable pub matches_classes : List Class → String → Bool
unfolding in_class
matches_classes [] String.[] = true
matches_classes [] (String.◌∷◌ c s) = false
matches_classes (k ∷ ks) String.[] = false
matches_classes (k ∷ ks) (String.◌∷◌ c s) = in_class k (code c) && matches_classes ks s

abbrev pub uuid_or_nothing : String → Option String
uuid_or_nothing s = if matches_classes uuid_classes s then some s else none

abbrev pub optional_uuid : Option String → Option String
optional_uuid none = none
optional_uuid (some s) = uuid_or_nothing (trim s)

unfoldable pub optional_uuid_scrape_job_id : Option Json → Option String
unfolding matches_classes
optional_uuid_scrape_job_id v = optional_uuid (as_string v)

-- `if (typeof raw[k] === 'string') payload[k] = raw[k]`
abbrev pub text_entry : String → Fields → Entries
text_entry k raw = (k, text (as_string (get k raw))) ∷ []

abbrev pub payload_entries : Fields → Entries
payload_entries raw =
    ("kind", text (as_string (get "kind" raw)))
    ∷ ("step", text (as_string (get "step" raw)))
    ∷ ("type", text (as_string (get "type" raw)))
    ∷ []

-- `Object.keys(payload).length > 0 ? payload : undefined`
abbrev pub or_null : Fields → Json
or_null end = null
or_null (field k v fs) = obj (field k v fs)

abbrev pub non_blank : String → Option String
non_blank s = if is_empty (trim s) then none else some s

-- The error as the handlers read it.
pub record Failure : Type 0 where
  pub message : String
  pub stack : Option String

-- The row that `persistSystemFailedJob` creates; the table gives it its id and the time.
unfoldable pub failed_job_row : String → String → BullJob → Failure → String → FailedJobListRow
unfolding object optional_uuid_scrape_job_id
failed_job_row row_id created_at job e queue_name = record {
  id = row_id;
  queue_name = queue_name;
  job_name = non_blank job.name;
  bull_job_id = job.id;
  correlation_id = present (as_string (get "correlationId" job.job_fields));
  scrape_job_id = optional_uuid_scrape_job_id (get "scrapeJobId" job.job_fields);
  payload = or_null (object (payload_entries job.job_fields));
  error_message = e.message;
  error_stack = e.stack;
  attempts = job.attempts_made;
  created_at = created_at;
}

-- What the handlers read of time: the text of `new Date()` and that of `Date.now()`.
pub record Moment : Type 0 where
  pub date : String
  pub millis : String

abbrev pub attempts_entry : Option ℕ → Option Json
attempts_entry none = none
attempts_entry (some n) = some (num (pos n))

-- `dlqMeta`; `attempts` and the id may be missing.
unfoldable pub dlq_meta : String → BullJob → Moment → Fields
unfolding object
dlq_meta source job t = object (
    ("sourceQueue", some (str source))
    ∷ ("sourceJobId", text job.id)
    ∷ ("sourceJobName", some (str job.name))
    ∷ ("failedAt", some (str t.date))
    ∷ ("attemptsMade", some (num (pos job.attempts_made)))
    ∷ ("maxAttempts", attempts_entry job.attempts)
    ∷ [])

-- The data of the copy on the dead letter queue.
unfoldable pub dlq_payload : String → BullJob → Failure → Moment → Fields
unfolding dlq_meta
dlq_payload source job e t =
    put "dlqMeta" (obj (dlq_meta source job t)) (put "failedReason" (str e.message) job.job_fields)

unfoldable pub dlq_request : QueueNames → String → BullJob → Failure → Moment → AddRequest
unfolding dlq_payload
dlq_request names source job e t = record {
  queue_name = names.dlq;
  job_name = "dlq";
  data_fields = dlq_payload source job e t;
  job_id = "dlq:" <> source <> ":" <> or_else job.id "undefined" <> ":" <> t.millis;
}

-- The scrape jobs, events and queues, and the rows of `system.failed_jobs`, newest first.
pub record Store : Type 0 where
  pub world : World
  pub failed_rows : List FailedJobListRow

-- `s.slice(0, n)`, by code points
unfoldable pub slice : ℕ → String → String
slice zero s = ""
slice (suc n) String.[] = ""
slice (suc n) (String.◌∷◌ c s) = String.◌∷◌ c (slice n s)

-- What the handlers use beside the services: whether the dead letter queue is enabled, the names
-- of the queues, what the table gives a new row, and whether `failedJob.create` succeeds.
pub record FailureSettings : Type 0 where
  pub is_dlq_enabled : Bool
  pub names : QueueNames
  pub row_id : String → String
  pub is_created : FailedJobListRow → Bool
  pub moment : Moment

module _ (sv : Services) (fs : FailureSettings) where
  -- `failedJob.create` in its `try`: a row that is not created is only logged.
  abbrev pub create_row : FailedJobListRow → Store → Store
  create_row row s = if fs.is_created row then record s { failed_rows = row ∷ s.failed_rows } else s

  unfoldable pub persist_system_failed_job : BullJob → Failure → String → Store → Store
  unfolding failed_job_row is_terminal_bull_failure
  persist_system_failed_job job e queue_name s =
      if is_terminal_bull_failure job
      then create_row (failed_job_row (fs.row_id queue_name) fs.moment.date job e queue_name) s
      else s

  -- `dlqQueue.add` and the row in their `try`: what is thrown is only logged.
  abbrev pub after_dlq : BullJob → Failure → Store → Outcome (Unit {0}) → Store
  after_dlq job e s (done u w) =
      persist_system_failed_job job e fs.names.dlq (record s { world = w })
  after_dlq job e s (thrown t w) = record s { world = w }

  unfoldable pub record_terminal_failure_on_dlq : BullJob → Failure → String → Store → Store
  unfolding persist_system_failed_job enqueue dlq_request is_terminal_bull_failure
  record_terminal_failure_on_dlq job e source s =
      if fs.is_dlq_enabled && is_terminal_bull_failure job
      then after_dlq job e s (enqueue sv (dlq_request fs.names source job e fs.moment) s.world)
      else s

  abbrev pub mark_failed_id : Option String → Failure → Action (Unit {0})
  mark_failed_id none e = pure tt
  mark_failed_id (some id) e = do
    update_row sv fail_job id (fail_row fs.moment.date (slice 4000 e.message))
    append_event sv id "job.failed" "error"

  unfoldable pub mark_failed : Fields → Failure → Action (Unit {0})
  unfolding update_row append_event slice
  mark_failed job_fields e = mark_failed_id (as_string (get "scrapeJobId" job_fields)) e

  abbrev pub with_world : Store → Outcome (Unit {0}) → Store
  with_world s o = record s { world = final o }

  -- The `failed` handlers of the master and of the child worker, which differ in the queue.
  unfoldable pub on_failed : String → BullJob → Failure → Store → Store
  unfolding record_terminal_failure_on_dlq persist_system_failed_job mark_failed
  on_failed source job e s =
      let recorded = record_terminal_failure_on_dlq job e source s in
      let kept = persist_system_failed_job job e source recorded in
      with_world kept (mark_failed job.job_fields e kept.world)

  -- The `failed` handler of the retry worker.
  unfoldable pub on_retry_failed : BullJob → Failure → Store → Store
  unfolding persist_system_failed_job
  on_retry_failed job e s = persist_system_failed_job job e fs.names.retry s
