-- ===== src/Worker/Data.antt =====
-- What apps/worker-ingest/src/index.js reads and writes in the data of its BullMQ jobs.
pub mod Laws
use vahan.Prelude.{
  ℕ, max, suc, leb, String, ◌==◌, Bool, true, false, Option, none, some, List, [], ◌∷◌, ◌++◌,
  or_else, is_some, if◌then◌else◌,
}
use vahan.Prelude.Int.{pos}
use vahan.Js.Text.{present}
use vahan.Js.Json.{Json, Fields, num, str, obj, end, field, get, put, as_string}
use vahan.Js.Number.{Reader, natural_floor, positive_floor, finite_of}
use vahan.Contracts.{QueueNames, scrape_job_kinds, one_of}

-- What the code reads of a BullMQ job.
pub record BullJob : Type 0 where
  pub id : Option String
  pub name : String
  pub job_fields : Fields
  pub attempts : Option ℕ
  pub attempts_made : ℕ

-- An object literal, less what is `undefined`, as BullMQ stores it. Its keys are distinct.
abbrev pub Entries : Type 0
Entries = List (String × Option Json)

unfoldable pub object : Entries → Fields
object [] = end
object ((k, none) ∷ es) = object es
object ((k, some v) ∷ es) = field k v (object es)

-- `o?.[k]` on a value; only an object has the properties that the code asks for.
abbrev pub prop : String → Option Json → Option Json
prop k (some (obj fs)) = get k fs
prop k _ = none

abbrev pub text : Option String → Option Json
text none = none
text (some s) = some (str s)

-- `const { k: _, …rest } = o`
unfoldable pub remove : String → Fields → Fields
remove k end = end
remove k (field j v fs) = let rest = remove k fs in if j == k then rest else field j v rest

-- `isValidKind(kind) ? kind : undefined`
abbrev pub valid_kind : Option Json → Option String
valid_kind v = one_of scrape_job_kinds (as_string v)

unfoldable pub is_terminal_bull_failure : BullJob → Bool
is_terminal_bull_failure job = leb (max 1 (or_else job.attempts 1)) job.attempts_made

unfoldable pub read_replay_attempts : Reader → Fields → ℕ
read_replay_attempts read fs =
    or_else (natural_floor (finite_of read (get "replayAttempts" fs)))
      (or_else (natural_floor (finite_of read (prop "replayAttempts" (get "dlqMeta" fs)))) 0)

unfoldable pub child_ingest_type_for_step : String → Option String
child_ingest_type_for_step step =
    if step == "prepare"
    then some "validation"
    else if step == "persist_stub_result"
    then some "dedupe"
    else none

unfoldable pub strip_for_target_queue : Fields → Fields
strip_for_target_queue fs = remove "target" (remove "dlqMeta" (remove "failedReason" fs))

pub data Target : Type 0 where
  master child : Target

-- `src === childQueueName`, then `src === masterQueueName`, else the master queue
abbrev pub target_of_source : QueueNames → Option String → Target
target_of_source names none = master
target_of_source names (some src) = if src == names.child then child else master

abbrev pub target_or_source : QueueNames → Option String → Target → Target
target_or_source names none by_source = by_source
target_or_source names (some t) by_source =
    if t == "master" then master else if t == "child" then child else by_source

unfoldable pub resolve_retry_target : QueueNames → Fields → Target
resolve_retry_target names raw =
    target_or_source names (as_string (get "target" raw))
      (target_of_source names (as_string (prop "sourceQueue" (get "dlqMeta" raw))))

-- `...(typeof requestId === 'string' && requestId.length > 0 ? { requestId } : {})`
abbrev pub non_empty : Option String → Option String
non_empty none = none
non_empty (some s) = if s == "" then none else some s

unfoldable pub request_id_entry : Fields → Entries
request_id_entry fs = ("requestId", text (non_empty (as_string (get "requestId" fs)))) ∷ []

unfoldable pub w3c_trace_job_fields : Fields → Entries
w3c_trace_job_fields fs =
    ("traceparent", text (present (as_string (get "traceparent" fs))))
    ∷ ("tracestate", text (present (as_string (get "tracestate" fs))))
    ∷ []

-- `replayFromMaster`, by the floor of the number.
abbrev pub as_number : Option ℕ → Option Json
as_number none = none
as_number (some n) = some (num (pos n))

unfoldable pub replay_from_master : Reader → Fields → Entries
replay_from_master read fs =
    ("replayAttempts", as_number (positive_floor (finite_of read (get "replayAttempts" fs)))) ∷ []
