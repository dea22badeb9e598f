-- ===== src/Worker/Settings.antt =====
-- The settings that apps/worker-ingest/src/index.js reads from `process.env`. A read that throws
-- is `none`.
use vahan.Prelude.{
  ℕ, String, ◌==◌, ◌||◌, Bool, true, false, Option, none, some, or_else, or_option, if◌then◌else◌,
}
use vahan.Js.Text.{present, trim, is_empty}
use vahan.Js.Number.{Finite, Reader, is_at_least, positive_floor, env_number}
use vahan.Js.Casing.{Casing}
use vahan.Env.{Env}
use vahan.Contracts.{QueueNames, ingest_bull_queue_defaults}

-- `v === 'true' || v === '1'`
abbrev pub is_true_or_one : Option String → Bool
is_true_or_one none = false
is_true_or_one (some v) = v == "true" || v == "1"

unfoldable pub is_ingest_dlq_enabled : Env → Bool
is_ingest_dlq_enabled env = is_true_or_one (env "INGEST_DLQ_ENABLED")

unfoldable pub is_ingest_retry_worker_enabled : Env → Bool
is_ingest_retry_worker_enabled env = is_true_or_one (env "INGEST_RETRY_WORKER_ENABLED")

abbrev pub is_not_off : Option String → Bool
is_not_off none = true
is_not_off (some v) = if v == "false" || v == "0" then false else true

unfoldable pub is_main_workers_enabled : Env → Bool
is_main_workers_enabled env = is_not_off (env "INGEST_MAIN_WORKERS_ENABLED")

unfoldable pub is_ingest_fanout_all_child_types_enabled : Env → Bool
is_ingest_fanout_all_child_types_enabled env = is_true_or_one (env "INGEST_FANOUT_ALL_CHILD_TYPES")

abbrev pub is_url_given : Option String → Bool
is_url_given none = false
is_url_given (some url) = if is_empty (trim url) then false else true

unfoldable pub is_playwright_smoke_enabled : Env → Bool
is_playwright_smoke_enabled env =
    if is_true_or_one (env "PLAYWRIGHT_ENABLED")
    then is_url_given (env "PLAYWRIGHT_SMOKE_URL")
    else false

abbrev pub flag_value : Casing → Option String → Bool
flag_value cs none = false
flag_value cs (some v) =
    let s = cs.lower (trim v) in
    if is_empty (trim v) then false else s == "1" || s == "true" || s == "yes" || s == "on"

unfoldable pub env_flag_true : Casing → Env → String → Bool
env_flag_true cs env name = flag_value cs (env name)

unfoldable pub parse_positive_int_env : Reader → Env → String → ℕ → ℕ
parse_positive_int_env read env name fallback =
    or_else (positive_floor (env_number read env name)) fallback

pub record SelectorValidationConfig : Type 0 where
  pub strict : Bool
  pub failure_threshold : ℕ
  pub window_ms : ℕ
  pub degraded_cooldown_ms : ℕ
  pub page_key : String

unfoldable pub get_selector_validation_config : Casing → Reader → Env → SelectorValidationConfig
unfolding env_flag_true parse_positive_int_env
get_selector_validation_config cs read env = record {
  strict = env_flag_true cs env "SELECTOR_VALIDATION_STRICT";
  failure_threshold = parse_positive_int_env read env "SELECTOR_ALERT_FAILURE_THRESHOLD" 5;
  window_ms = parse_positive_int_env read env "SELECTOR_ALERT_WINDOW_MS" 600000;
  degraded_cooldown_ms = parse_positive_int_env read env "SELECTOR_DEGRADED_COOLDOWN_MS" 300000;
  page_key = or_else (present (env "PLAYWRIGHT_SMOKE_PAGE_KEY")) "default";
}

unfoldable pub get_required_redis_url : Env → Option String
get_required_redis_url env =
    or_option (present (env "BULLMQ_REDIS_URL")) (present (env "REDIS_URL"))

-- The names that `main` gives its four queues.
unfoldable pub worker_queue_names : Env → QueueNames
worker_queue_names env = record {
  master = or_else (present (env "INGEST_QUEUE_NAME")) ingest_bull_queue_defaults.master;
  child = or_else (present (env "INGEST_CHILD_QUEUE_NAME")) ingest_bull_queue_defaults.child;
  dlq = or_else (present (env "INGEST_DLQ_QUEUE_NAME")) ingest_bull_queue_defaults.dlq;
  retry = or_else (present (env "INGEST_RETRY_QUEUE_NAME")) ingest_bull_queue_defaults.retry;
}

unfoldable pub get_ingest_retry_max_replays : Reader → Env → ℕ
get_ingest_retry_max_replays read env =
    or_else (positive_floor (env_number read env "INGEST_RETRY_MAX_REPLAY_ATTEMPTS"))
      (or_else (positive_floor (env_number read env "INGEST_RETRY_MAX_REPLAYS")) 5)

-- The options of a BullMQ worker beside its connection; a key that is not set is `none`.
pub record WorkerOptions : Type 0 where
  pub concurrency : Finite
  pub lock_duration : Option Finite
  pub stalled_interval : Option Finite

abbrev pub at_least_5000 : Option Finite → Option Finite
at_least_5000 none = none
at_least_5000 (some f) = if is_at_least 5000 f.floor then some f else none

unfoldable pub build_worker_runtime_options : Reader → Env → Finite → WorkerOptions
build_worker_runtime_options read env concurrency = record {
  concurrency = concurrency;
  lock_duration = at_least_5000 (env_number read env "BULLMQ_LOCK_DURATION_MS");
  stalled_interval = at_least_5000 (env_number read env "BULLMQ_STALLED_INTERVAL_MS");
}
