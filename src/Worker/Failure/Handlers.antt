-- ===== src/Worker/Failure/Handlers.antt =====
-- What the `failed` handlers of the workers leave behind.
use vahan.Prelude.{
  String, ◌≡◌, refl, ap, ◌∙◌, Bool, true, false, ◌&&◌, Bool-cases, inl, inr, Option, none, some,
  List, ◌∷◌, if◌then◌else◌, eq_iff,
}
use vahan.Js.Json.{Fields, get, as_string}
use vahan.BullMq.{AddRequest, AddResult, added, ignored, refused, RefusesColons}
use vahan.BullMq.Laws.{four_parts-refused}
use vahan.Worker.Data.{BullJob, is_terminal_bull_failure}
use vahan.Worker.Store.{
  Services, ScrapeJob, Thrown, Outcome, done, thrown, final, continue, World, find_row, has_id,
  update_where, update_row, fail_row, fail_job, call, raise, append_event, enqueue, accept_add,
  write_event,
}
use vahan.Worker.Store.Laws.{status_of, find_row-update_where, find_row-id}
use vahan.Worker.Failure.{
  Failure, Store, FailureSettings, dlq_request, slice, persist_system_failed_job, after_dlq,
  create_row, record_terminal_failure_on_dlq, mark_failed, on_failed,
}

module _ (sv : Services) (fs : FailureSettings) where
  -- While BullMQ refuses an id with a colon that has not three parts, the dead letter queue gets
  -- nothing: no job is added to it, and no row of `system.failed_jobs` is written in its name.
  pub record_terminal_failure_on_dlq-refused :
      (rule : RefusesColons sv.add) (job : BullJob) (e : Failure) (source : String) (s : Store)
      → record_terminal_failure_on_dlq sv fs job e source s ≡ s
  unfolding record_terminal_failure_on_dlq enqueue dlq_request
  record_terminal_failure_on_dlq-refused rule job e source s =
      let (m, is) =
        four_parts-refused sv.add (dlq_request fs.names source job e fs.moment) _ _ _ rule refl in
      rw is (both_same _)
    where
      both_same : (b : Bool) → (if b then s else s) ≡ s
      both_same true = refl
      both_same false = refl

  create_row-world :
      (row : vahan.FailedJob.FailedJobListRow) (s : Store)
      → (create_row sv fs row s).world ≡ s.world
  create_row-world row s = if_same (fs.is_created row)
    where
      if_same :
          (b : Bool)
          → (if b then record s { failed_rows = row ∷ s.failed_rows } else s).world ≡ s.world
      if_same true = refl
      if_same false = refl

  persist-world :
      (job : BullJob) (e : Failure) (q : String) (s : Store)
      → (persist_system_failed_job sv fs job e q s).world ≡ s.world
  unfolding persist_system_failed_job
  persist-world job e q s = elim (Bool-cases (is_terminal_bull_failure job)) [
    | inl terminal ↦ rw terminal (create_row-world _ s)
    | inr again ↦ rw again refl
  ]

  record-jobs :
      (job : BullJob) (e : Failure) (source : String) (s : Store)
      → (record_terminal_failure_on_dlq sv fs job e source s).world.jobs ≡ s.world.jobs
  unfolding record_terminal_failure_on_dlq enqueue
  record-jobs job e source s = branch (fs.is_dlq_enabled && is_terminal_bull_failure job)
    where
      answered :
          (q : AddRequest) (r : AddResult)
          → (after_dlq sv fs job e s (accept_add q r s.world)).world.jobs ≡ s.world.jobs
      answered q (added i) = ap (λ (w : World). w.jobs) (persist-world job e fs.names.dlq _)
      answered q (ignored i) = ap (λ (w : World). w.jobs) (persist-world job e fs.names.dlq _)
      answered q (refused m) = refl

      branch :
          (b : Bool)
          → (if b
              then after_dlq sv fs job e s (
                  accept_add
                    (dlq_request fs.names source job e fs.moment)
                    (sv.add (dlq_request fs.names source job e fs.moment))
                    s.world)
              else s).world.jobs
            ≡ s.world.jobs
      branch true = answered _ _
      branch false = refl

  kept_jobs :
      (job : BullJob) (e : Failure) (source : String) (s : Store)
      → (persist_system_failed_job sv fs job e source
          (record_terminal_failure_on_dlq sv fs job e source s)).world.jobs
        ≡ s.world.jobs
  kept_jobs job e source s =
      ap (λ (w : World). w.jobs) (persist-world job e source _) ∙ record-jobs job e source s

  failed_row :
      (message id : String) (j : ScrapeJob) (js : List ScrapeJob)
      → find_row id js ≡ some j
      → status_of (find_row id (update_where (has_id id) (fail_row fs.moment.date message) js))
        ≡ some "failed"
  failed_row message id j js is = rw (
    find_row-update_where id (has_id id) (fail_row fs.moment.date message) js (λ i. refl),
    is,
    (eq_iff j.id id).1 (find_row-id id js j is),
  )

  mark_failed-status :
      (job_fields : Fields) (e : Failure) (w : World) (id : String) (j : ScrapeJob)
      → as_string (get "scrapeJobId" job_fields) ≡ some id
      → find_row id w.jobs ≡ some j
      → sv.fault fail_job ≡ none
      → status_of (find_row id (final (mark_failed sv fs job_fields e w)).jobs) ≡ some "failed"
  unfolding mark_failed update_row call append_event
  mark_failed-status job_fields e w id j is_id is ok =
      rw (is_id, ok) (logged (sv.fault (write_event "job.failed")))
    where
      logged :
          (o : Option Thrown)
          → status_of (
              find_row id
                (final (
                  continue
                    (raise o (record w {
                      jobs =
                          update_where
                            (has_id id)
                            (fail_row fs.moment.date (slice 4000 e.message))
                            w.jobs;
                    }))
                    (λ u.
                      vahan.Worker.Store.write_event_row (record {
                        job_id = id;
                        level = "error";
                        event_type = "job.failed";
                      })))).jobs)
            ≡ some "failed"
      logged none = failed_row (slice 4000 e.message) id j w.jobs is
      logged (some t) = failed_row (slice 4000 e.message) id j w.jobs is

  -- The handler of a failed master or child job sets its scrape job to failed whatever status the
  -- row had, "succeeded" included, unless that update throws.
  pub on_failed-status :
      (source : String) (job : BullJob) (e : Failure) (s : Store) (id : String) (j : ScrapeJob)
      → as_string (get "scrapeJobId" job.job_fields) ≡ some id
      → find_row id s.world.jobs ≡ some j
      → sv.fault fail_job ≡ none
      → status_of (find_row id (on_failed sv fs source job e s).world.jobs) ≡ some "failed"
  unfolding on_failed
  on_failed-status source job e s id j is_id is ok =
      mark_failed-status job.job_fields e _ id j is_id
        (ap (find_row id) (kept_jobs job e source s) ∙ is) ok
