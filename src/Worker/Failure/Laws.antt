-- ===== src/Worker/Failure/Laws.antt =====
-- What the copy on the dead letter queue keeps, and how often a job can come back from it.
use vahan.Prelude.{
  ℕ, zero, suc, ◌+◌, ◌-◌, ◌<◌, ◌≤◌, String, ◌≡◌, refl, subst, sym, Bool, ◌||◌, none, some,
  if◌then◌else◌, ◌==◌, arith,
}
use vahan.Js.Json.{Fields, str, obj, get}
use vahan.Js.Json.Laws.{get-put}
use vahan.Js.Number.{finite_of}
use vahan.BullMq.{AddRequest}
use vahan.Contracts.{QueueNames}
use vahan.Worker.Data.{
  BullJob, Target, master, child, strip_for_target_queue, resolve_retry_target,
  read_replay_attempts, replay_from_master, request_id_entry, w3c_trace_job_fields,
}
use vahan.Worker.Data.Laws.{get-object, get-remove}
use vahan.Worker.Store.{Services}
use vahan.Worker.Process.{RunSettings, child_request, fanout_request}
use vahan.Worker.Retry.{replay, retry_plan}
use vahan.Worker.Retry.Laws.{Counts, read_replay_attempts-Counts, retry_plan-Counts}
use vahan.Worker.Failure.{Failure, Moment, dlq_meta, dlq_payload}

-- The keys that only the dead letter queue and the retry queue use.
abbrev pub is_internal : String → Bool
is_internal k = "failedReason" == k || "dlqMeta" == k || "target" == k

get-dlq_payload :
    (source k : String) (job : BullJob) (e : Failure) (t : Moment)
    → get k (dlq_payload source job e t) ≡ (
        if "dlqMeta" == k
        then some (obj (dlq_meta source job t))
        else if "failedReason" == k
        then some (str e.message)
        else get k job.job_fields)
unfolding dlq_payload
get-dlq_payload source k job e t = rw (get-put, get-put)

get-strip_for_target_queue :
    (k : String) (fs : Fields)
    → get k (strip_for_target_queue fs) ≡ (if is_internal k then none else get k fs)
unfolding strip_for_target_queue
get-strip_for_target_queue k fs = rw (get-remove, get-remove, get-remove) (ground arith)

dlq_payload-target :
    (names : QueueNames) (source : String) (job : BullJob) (e : Failure) (t : Moment)
    → get "target" job.job_fields ≡ none
    → resolve_retry_target names (dlq_payload source job e t)
      ≡ (if source == names.child then child else master)
unfolding resolve_retry_target dlq_meta
dlq_payload-target names source job e t untargeted =
    rw (get-dlq_payload, get-dlq_payload, untargeted, get-object) refl

-- A failed job whose data has no target comes back from the dead letter queue whole: the retry
-- processor sends it to the child queue if it failed there, else to the master queue, and what it
-- strips leaves the data of the failed job at every key but the three internal ones, where nothing
-- is left.
pub retry-dlq_payload :
    (names : QueueNames) (source k : String) (job : BullJob) (e : Failure) (t : Moment)
    → get "target" job.job_fields ≡ none
    → (resolve_retry_target names (dlq_payload source job e t)
        ≡ (if source == names.child then child else master))
      × (get k (strip_for_target_queue (dlq_payload source job e t))
          ≡ (if is_internal k then none else get k job.job_fields))
retry-dlq_payload names source k job e t untargeted = (
  dlq_payload-target names source job e t untargeted,
  rw (get-strip_for_target_queue, get-dlq_payload) (ground arith),
)

dlq_payload-Counts :
    (source : String) (n : ℕ) (job : BullJob) (e : Failure) (t : Moment)
    → Counts n job.job_fields
    → Counts n (dlq_payload source job e t)
dlq_payload-Counts source n job e t h = rw get-dlq_payload h

-- A master job hands its count on to its children.
child_request-Counts :
    (sv : Services) (cfg : RunSettings) (id kind step : String) (percent n : ℕ) (fs : Fields)
    → Counts (suc n) fs
    → Counts (suc n) (child_request sv cfg id kind fs step percent).data_fields
unfolding child_request request_id_entry w3c_trace_job_fields replay_from_master finite_of
child_request-Counts sv cfg id kind step percent n fs h = rw (get-object, h) refl

fanout_request-Counts :
    (sv : Services) (cfg : RunSettings) (id kind type_name : String) (n : ℕ) (job : BullJob)
    → Counts (suc n) job.job_fields
    → Counts (suc n) (fanout_request sv cfg id kind job type_name).data_fields
unfolding fanout_request request_id_entry w3c_trace_job_fields replay_from_master finite_of
fanout_request-Counts sv cfg id kind type_name n job h = rw (get-object, h) refl

module _ (sv : Services) (cfg : RunSettings) (names : QueueNames) (max_replays : ℕ) where
  -- The data of the jobs that stem from a job with the data `fs`: its own, and for a master job
  -- that of the children that its processor adds, those of the fan-out to all types among them.
  pub data StemsFrom (fs : Fields) : Fields → Type 0 where
    itself : StemsFrom fs fs
    in_child :
        (id kind step : String) (percent : ℕ)
        → StemsFrom fs (child_request sv cfg id kind fs step percent).data_fields
    in_fanout :
        (id kind type_name : String) (parent : BullJob)
        → parent.job_fields ≡ fs
        → StemsFrom fs (fanout_request sv cfg id kind parent type_name).data_fields

  -- From one job of the retry queue to the next by way of the dead letter queue: a job that stems
  -- from the replay fails, and its copy on the dead letter queue is put on the retry queue as it is.
  -- A replay by the API of a row of `system.failed_jobs` is no such way: its job starts at count 0.
  pub data Round (raw : Fields) : Fields → Type 0 where
    came_back :
        (target : Target) (q : AddRequest) (source : String) (job : BullJob) (e : Failure)
        (t : Moment)
        → retry_plan names cfg.read max_replays raw ≡ replay target q
        → StemsFrom q.data_fields job.job_fields
        → Round raw (dlq_payload source job e t)

  StemsFrom-Counts :
      {fs gs : Fields} (n : ℕ) → StemsFrom fs gs → Counts (suc n) fs → Counts (suc n) gs
  StemsFrom-Counts n itself h = h
  StemsFrom-Counts {fs} n (in_child id kind step percent) h =
      child_request-Counts sv cfg id kind step percent n fs h
  StemsFrom-Counts n (in_fanout id kind type_name parent same) h =
      fanout_request-Counts sv cfg id kind type_name n parent (subst (Counts (suc n)) (sym same) h)

  pub data Rounds (raw : Fields) : ℕ → Fields → Type 0 where
    start : Rounds raw zero raw
    next :
        {n : ℕ} {last last' : Fields}
        → Rounds raw n last
        → Round last last'
        → Rounds raw (suc n) last'

  Round-count :
      {raw raw' : Fields}
      → 0 < max_replays
      → Round raw raw'
      → (read_replay_attempts cfg.read raw < max_replays)
        × (read_replay_attempts cfg.read raw' ≡ suc (read_replay_attempts cfg.read raw))
  Round-count {raw} positive (came_back target q source job e t planned stems) =
      let (below, counted) =
        retry_plan-Counts names cfg.read max_replays raw target q positive planned in
      (
        below,
        read_replay_attempts-Counts cfg.read _ _
            (dlq_payload-Counts source _ job e t (StemsFrom-Counts _ stems counted)),
      )

  -- With a positive cap, a job of the retry queue comes back to it by way of the dead letter queue,
  -- as itself or in a child or fan-out child of a master job, and with no replay by an API in
  -- between, at most as often as the cap exceeds its count, and its count then is the old one and
  -- one for each time.
  pub Rounds-le :
      (raw raw' : Fields) (n : ℕ)
      → 0 < max_replays
      → Rounds raw n raw'
      → (n ≤ max_replays - read_replay_attempts cfg.read raw)
        × (read_replay_attempts cfg.read raw' ≡ read_replay_attempts cfg.read raw + n)
  Rounds-le raw _ _ positive start = (omega arith, omega arith)
  Rounds-le raw raw' _ positive (next {n} {last} before round) =
      let (bound, counted) = Rounds-le raw last n positive before in
      let (below, one_more) = Round-count positive round in (omega arith, omega arith)
