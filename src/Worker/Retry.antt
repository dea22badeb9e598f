-- ===== src/Worker/Retry.antt =====
-- The processor of the retry queue, `processRetryJob` of apps/worker-ingest/src/index.js.
pub mod Laws
use vahan.Prelude.{
  ℕ, suc, ltb, leb, String, ◌==◌, ◌&&◌, Bool, true, false, Option, none, some, List, [], ◌∷◌, ◌++◌,
  or_option, if◌then◌else◌,
}
use vahan.Prelude.Int.{pos}
use vahan.Js.Json.{Json, Fields, num, str, get, put, as_string}
use vahan.Js.Number.{Reader}
use vahan.BullMq.{AddRequest}
use vahan.Contracts.{QueueNames, ingest_child_job_type}
use vahan.Worker.Data.{
  BullJob, object, text, valid_kind, child_ingest_type_for_step, request_id_entry,
  w3c_trace_job_fields, read_replay_attempts, strip_for_target_queue, resolve_retry_target, Target,
  master, child,
}
use vahan.Worker.Store.{Thrown, error, Services, Action, pure, throw, ◌>>=◌, ◌>>◌, enqueue}
use vahan.Worker.Process.{◌<>◌}

-- What the processor decides before it adds a job.
pub data Plan : Type 0 where
  replay_cap : Plan
  invalid_payload : (message : String) → Plan
  replay : (target : Target) (request : AddRequest) → Plan

-- What the processor answers.
pub data RetryAnswer : Type 0 where
  cap_reached : RetryAnswer
  replayed : Target → RetryAnswer

-- `typeof v === 'number' ? v : undefined`
abbrev pub as_num : Option Json → Option Json
as_num (some (num n)) = some (num n)
as_num _ = none

abbrev pub count : ℕ → Option Json
count n = some (num (pos n))

-- The type that the data names, else the hint for the step.
unfoldable pub type_hint : Fields → String → Option String
type_hint fs step =
    or_option (ingest_child_job_type (get "type" fs)) (child_ingest_type_for_step step)

module _ (names : QueueNames) where
  unfoldable pub retry_child_request : Fields → ℕ → String → String → String → String → AddRequest
  unfolding object request_id_entry w3c_trace_job_fields type_hint
  retry_child_request base next id kind correlation_id step = record {
    queue_name = names.child;
    job_name = "child";
    data_fields = object (
        ("scrapeJobId", some (str id))
        ∷ ("kind", some (str kind))
        ∷ ("correlationId", some (str correlation_id))
        ∷ ("step", some (str step))
        ∷ ("progressPercent", as_num (get "progressPercent" base))
        ∷ (request_id_entry base
            ++ (w3c_trace_job_fields base
                ++ (("type", text (type_hint base step)) ∷ ("replayAttempts", count next) ∷ []))));
    job_id = id <> ":" <> step;
  }

  unfoldable pub retry_master_request : Fields → ℕ → String → String → String → AddRequest
  unfolding object request_id_entry w3c_trace_job_fields
  retry_master_request base next id kind correlation_id = record {
    queue_name = names.master;
    job_name = "master";
    data_fields = object (
        ("scrapeJobId", some (str id))
        ∷ ("kind", some (str kind))
        ∷ ("correlationId", some (str correlation_id))
        ∷ (request_id_entry base
            ++ (w3c_trace_job_fields base ++ (("replayAttempts", count next) ∷ []))));
    job_id = id;
  }

  abbrev pub child_plan :
      Fields → ℕ → Option String → Option String → Option String → Option String → Plan
  child_plan base next (some id) (some kind) (some correlation_id) (some step) =
      replay child (retry_child_request base next id kind correlation_id step)
  child_plan base next _ _ _ _ =
      invalid_payload
        "ingest.retry.invalid_child_payload (need scrapeJobId, kind, correlationId, step)"

  abbrev pub master_plan : Fields → ℕ → Option String → Option String → Option String → Plan
  master_plan base next (some id) (some kind) (some correlation_id) =
      replay master (retry_master_request base next id kind correlation_id)
  master_plan base next _ _ _ =
      invalid_payload "ingest.retry.invalid_master_payload (need scrapeJobId, kind, correlationId)"

  abbrev pub plan_for : Target → Fields → ℕ → Plan
  plan_for child base next =
      child_plan base next (as_string (get "scrapeJobId" base)) (valid_kind (get "kind" base))
        (as_string (get "correlationId" base)) (as_string (get "step" base))
  plan_for master base next =
      master_plan base next (as_string (get "scrapeJobId" base)) (valid_kind (get "kind" base))
        (as_string (get "correlationId" base))

  -- `{ ...base, replayAttempts: nextReplay }`
  abbrev pub with_replay : Fields → ℕ → Fields
  with_replay raw next = put "replayAttempts" (num (pos next)) (strip_for_target_queue raw)

  unfoldable pub retry_plan : Reader → ℕ → Fields → Plan
  unfolding retry_child_request retry_master_request read_replay_attempts strip_for_target_queue
      resolve_retry_target
  retry_plan read max_replays raw =
      let n = read_replay_attempts read raw in
      if ltb 0 max_replays && leb max_replays n
      then replay_cap
      else plan_for (resolve_retry_target names raw) (with_replay raw (suc n)) (suc n)

  abbrev pub carry_out : Services → Plan → Action RetryAnswer
  carry_out sv replay_cap = pure cap_reached
  carry_out sv (invalid_payload message) = throw (error message)
  carry_out sv (replay target request) = do enqueue sv request; pure (replayed target)

  unfoldable pub process_retry_job : Services → Reader → ℕ → BullJob → Action RetryAnswer
  unfolding retry_plan enqueue
  process_retry_job sv read max_replays job =
      carry_out sv (retry_plan read max_replays job.job_fields)
