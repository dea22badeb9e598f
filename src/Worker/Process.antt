-- ===== src/Worker/Process.antt =====
-- The processors of the master and the child queue, of apps/worker-ingest/src/index.js.
pub mod Runs
pub mod Laws
pub mod Refusal
pub mod Claim
pub mod Complete
use Prim.Native.String
use vahan.Prelude.{
  ℕ, zero, suc, ◌+◌, nat_eq, String, ◌==◌, ◌&&◌, Bool, true, false, Option, none, some, List, [],
  ◌∷◌, ◌++◌, length, or_else, if◌then◌else◌,
}
use vahan.Prelude.Int.{pos}
use vahan.Js.Json.{Json, Fields, num, str, get, as_string}
use vahan.Js.Number.{Reader}
use vahan.BullMq.{AddRequest}
use vahan.Contracts.{ingest_child_job_types}
use vahan.Worker.Data.{
  BullJob, Entries, object, text, valid_kind, child_ingest_type_for_step, request_id_entry,
  w3c_trace_job_fields, replay_from_master,
}
use vahan.Worker.Store.{
  Thrown, error, ScrapeJob, find_job, claim_job, find_payload, complete_job, Smoke, smoke_thrown,
  smoke_valid, smoke_invalid, Persisted, persisted, persist_thrown, Services, Action, pure, throw,
  ◌>>=◌, ◌>>◌, catch_with, append_event, find_unique, claim, update_one, complete_row, enqueue,
  update_progress, progress, final_progress,
}

infixl 65 ◌<>◌
abbrev pub ◌<>◌ : String → String → String
s <> t = String.◌++◌ s t

-- What a processor answers.
pub data Answer : Type 0 where
  skipped : (reason : Option String) → Answer
  enqueued_children : ℕ → Answer
  child_ok : Answer

-- The settings of a run: what its environment says, and the texts of the times that it reads.
pub record RunSettings : Type 0 where
  pub is_smoke_enabled : Bool
  pub is_strict : Bool
  pub is_fanout_all : Bool
  pub read : Reader
  pub child_queue : String
  pub now : String
  pub slice_time : String → String

-- The error that `strict` throws when the validation failed.
abbrev pub selector_error : String → Thrown
selector_error message = record { name = "SelectorValidationError"; message = message }

module _ (sv : Services) (cfg : RunSettings) where
  abbrev pub when : Bool → Action (Unit {0}) → Action (Unit {0})
  when true act = act
  when false act = pure tt

  -- The body of `try` in `runOptionalPlaywrightSmoke`.
  abbrev pub smoke_body : String → Smoke → Action (Unit {0})
  smoke_body id (smoke_thrown e) = throw e
  smoke_body id smoke_valid = append_event sv id "scrape.smoke.ok" "info"
  smoke_body id (smoke_invalid alert message) = do
    append_event sv id "selector.validation.failed" "warn"
    when alert (append_event sv id "selector.health.degraded" "warn")
    when cfg.is_strict (throw (selector_error message))
    append_event sv id "scrape.smoke.ok" "info"

  abbrev pub smoke_failed : String → Thrown → Action (Unit {0})
  smoke_failed id e = do
    append_event sv id "scrape.smoke.failed" "warn"
    when (cfg.is_strict && e.name == "SelectorValidationError") (throw e)

  unfoldable pub run_optional_playwright_smoke : String → String → Action (Unit {0})
  unfolding append_event
  run_optional_playwright_smoke id kind =
      catch_with (smoke_body id (sv.smoke id kind)) (smoke_failed id)

  -- The data that every child job of a master job starts with, and what stands behind it.
  abbrev pub child_head : String → String → Fields → Entries
  child_head id kind fs =
      ("scrapeJobId", some (str id))
      ∷ ("kind", some (str kind))
      ∷ ("correlationId", get "correlationId" fs)
      ∷ []

  abbrev pub child_tail : Fields → Entries
  child_tail fs = request_id_entry fs ++ (replay_from_master cfg.read fs ++ w3c_trace_job_fields fs)

  unfoldable pub child_request : String → String → Fields → String → ℕ → AddRequest
  unfolding object request_id_entry w3c_trace_job_fields replay_from_master
      child_ingest_type_for_step
  child_request id kind fs step percent = record {
    queue_name = cfg.child_queue;
    job_name = "child";
    data_fields = object (
        child_head id kind fs
        ++ (child_tail fs
            ++ (("step", some (str step))
                ∷ ("progressPercent", some (num (pos percent)))
                ∷ ("type", text (child_ingest_type_for_step step))
                ∷ [])));
    job_id = id <> ":" <> step;
  }

  unfoldable pub fanout_request : String → String → BullJob → String → AddRequest
  unfolding object request_id_entry w3c_trace_job_fields replay_from_master
  fanout_request id kind job type_name =
      let slice_key = type_name <> ":" <> cfg.slice_time type_name in
      record {
        queue_name = cfg.child_queue;
        job_name = "child";
        data_fields = object (
            child_head id kind job.job_fields
            ++ (("parentJobId", some (str (or_else job.id "undefined"))) ∷ [])
            ++ (child_tail job.job_fields
                ++ (("step", some (str "multi_type_slice"))
                    ∷ ("progressPercent", some (num (pos 52)))
                    ∷ ("type", some (str type_name))
                    ∷ ("sliceKey", some (str slice_key))
                    ∷ [])));
        job_id = id <> ":fanout-all:" <> type_name <> ":" <> slice_key;
      }

  -- `for (const ingestType of INGEST_CHILD_JOB_TYPES) …`; the number of jobs that it
  -- asked for.
  pub fanout_loop : String → String → BullJob → List String → Action ℕ
  fanout_loop id kind job [] = pure 0
  fanout_loop id kind job (t ∷ ts) = do
    enqueue sv (fanout_request id kind job t)
    n ← fanout_loop id kind job ts
    pure (suc n)

  unfoldable pub fanout : String → String → BullJob → Action ℕ
  unfolding fanout_loop
  fanout id kind job =
      if cfg.is_fanout_all then fanout_loop id kind job ingest_child_job_types else pure 0

  -- The part of `processMasterJob` that adds the children.
  unfoldable pub add_children : String → String → BullJob → Action Answer
  unfolding enqueue fanout update_progress
  add_children id kind job = do
    enqueue sv (child_request id kind job.job_fields "prepare" 50)
    enqueue sv (child_request id kind job.job_fields "persist_stub_result" 90)
    extra ← fanout id kind job
    update_progress sv progress
    pure (enqueued_children (2 + extra))

  -- Behind the claim, by the number of rows that it changed.
  abbrev pub claimed : String → String → BullJob → String → ℕ → Action Answer
  claimed id kind job status zero = do
    append_event sv id "job.skipped" "info"
    pure (skipped (some ("status_" <> status)))
  claimed id kind job status (suc n) = do
    append_event sv id "job.started" "info"
    when cfg.is_smoke_enabled (run_optional_playwright_smoke id kind)
    add_children id kind job

  abbrev pub found_master : String → String → BullJob → Option ScrapeJob → Action Answer
  found_master id kind job none = throw (error ("Scrape job not found: " <> id))
  found_master id kind job (some row) =
      if row.status == "succeeded"
      then pure (skipped (some "already_succeeded"))
      else (claim sv id cfg.now >>= claimed id kind job row.status)

  abbrev pub master_of : BullJob → Option String → Option String → Action Answer
  master_of job (some id) (some kind) = find_unique sv find_job id >>= found_master id kind job
  master_of job _ _ = throw (error "Invalid scrape-ingest job data")

  unfoldable pub process_master_job : BullJob → Action Answer
  unfolding claim find_unique run_optional_playwright_smoke add_children append_event
  process_master_job job =
      master_of job (as_string (get "scrapeJobId" job.job_fields))
        (valid_kind (get "kind" job.job_fields))

  -- `persistIngestArtifacts` and the event for what it wrote.
  abbrev pub persist_event : String → Persisted → Action (Unit {0})
  persist_event id (persisted is_any) = when is_any (append_event sv id "ingest.persisted" "info")
  persist_event id (persist_thrown e) = throw e

  abbrev pub persist_row : String → String → Option ScrapeJob → Action (Unit {0})
  persist_row id kind none = pure tt
  persist_row id kind (some row) =
      persist_event id (sv.persist id (if row.kind == "" then kind else row.kind) row.payload)

  -- The step `persist_stub_result`.
  abbrev pub complete : String → String → Action (Unit {0})
  complete id kind = do
    row ← find_unique sv find_payload id
    persist_row id kind row
    update_one sv complete_job id (complete_row cfg.now)
    append_event sv id "job.completed" "info"
    update_progress sv final_progress

  abbrev pub is_step : String → Option String → Bool
  is_step step none = false
  is_step step (some s) = s == step

  -- Of a row that is there and not yet complete.
  abbrev pub work_child : String → String → BullJob → Action Answer
  work_child id kind job = do
    append_event sv id "job.progress" "info"
    update_progress sv progress
    when (is_step "persist_stub_result" (as_string (get "step" job.job_fields))) (complete id kind)
    pure child_ok

  abbrev pub found_child : String → String → BullJob → Option ScrapeJob → Action Answer
  found_child id kind job none = pure (skipped none)
  found_child id kind job (some row) =
      if row.status == "succeeded" then pure (skipped none) else work_child id kind job

  abbrev pub child_of : BullJob → Option String → Option String → Action Answer
  child_of job (some id) (some kind) = find_unique sv find_job id >>= found_child id kind job
  child_of job _ _ = throw (error "Invalid scrape-ingest-child job data")

  unfoldable pub process_child_job : BullJob → Action Answer
  unfolding find_unique update_one append_event update_progress
  process_child_job job =
      child_of job (as_string (get "scrapeJobId" job.job_fields))
        (valid_kind (get "kind" job.job_fields))
