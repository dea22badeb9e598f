-- ===== src/Worker/Startup.antt =====
-- How `main` of apps/worker-ingest/src/index.js sets the processors and handlers up.
use vahan.Prelude.{
  String, Bool, true, false, Option, none, some, List, [], ◌∷◌, if◌then◌else◌, ◌≡◌, refl, ◌==◌,
}
use vahan.Env.{Env}
use vahan.Js.Casing.{Casing}
use vahan.Js.Number.{Reader}
use vahan.FailedJob.{FailedJobListRow}
use vahan.Worker.Settings.{
  is_ingest_dlq_enabled, is_ingest_retry_worker_enabled, is_main_workers_enabled,
  is_ingest_fanout_all_child_types_enabled, is_playwright_smoke_enabled,
  get_selector_validation_config, worker_queue_names,
}
use vahan.Worker.Process.{RunSettings}
use vahan.Worker.Failure.{FailureSettings, Moment}

-- What the processors read of the environment.
unfoldable pub run_settings : Casing → Reader → Env → String → (String → String) → RunSettings
unfolding is_playwright_smoke_enabled get_selector_validation_config
    is_ingest_fanout_all_child_types_enabled worker_queue_names
run_settings cs read env now slice_time = record {
  is_smoke_enabled = is_playwright_smoke_enabled env;
  is_strict = (get_selector_validation_config cs read env).strict;
  is_fanout_all = is_ingest_fanout_all_child_types_enabled env;
  read = read;
  child_queue = (worker_queue_names env).child;
  now = now;
  slice_time = slice_time;
}

-- What the handlers read of it.
unfoldable pub failure_settings :
    Env → (String → String) → (FailedJobListRow → Bool) → Moment → FailureSettings
unfolding is_ingest_dlq_enabled worker_queue_names
failure_settings env row_id is_created moment = record {
  is_dlq_enabled = is_ingest_dlq_enabled env;
  names = worker_queue_names env;
  row_id = row_id;
  is_created = is_created;
  moment = moment;
}

abbrev when_enabled : Bool → List String → List String
when_enabled true queues = queues
when_enabled false queues = []

-- The queues whose workers start; `main` throws where there would be none.
unfoldable pub workers : Env → Option (List String)
unfolding is_main_workers_enabled is_ingest_retry_worker_enabled worker_queue_names
workers env =
    let names = worker_queue_names env in
    if is_main_workers_enabled env
    then some (
        names.master
        ∷ names.child
        ∷ when_enabled (is_ingest_retry_worker_enabled env) (names.retry ∷ []))
    else if is_ingest_retry_worker_enabled env
    then some (names.retry ∷ [])
    else none

-- Without settings the master and the child queue are worked on, and the retry queue is not.
workers_test : workers (λ name. none) ≡ some ("scrape-ingest" ∷ "scrape-ingest-child" ∷ [])
unfolding workers vahan.Js.Text.present
workers_test = refl

workers_off_test :
    workers (λ name. if name == "INGEST_MAIN_WORKERS_ENABLED" then some "0" else none) ≡ none
unfolding workers
workers_off_test = refl
