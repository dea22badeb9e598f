-- ===== src/Worker/Process/Complete.antt =====
-- The last step of a scrape job.
use vahan.Prelude.{String, ◌≡◌, refl, Option, none, some, ◌==◌, eq_iff}
use vahan.Js.Json.{get, as_string}
use vahan.Worker.Data.{BullJob, valid_kind}
use vahan.Worker.Store.{
  World, ScrapeJob, Services, Outcome, done, thrown, error, Site, find_row, has_id, complete_row,
  update_one, update_row, call, complete_job, raise, Thrown,
}
use vahan.Worker.Store.Ends.{
  Ends, Ends-done, Ends-imp, ends_done, ends_pure, ends_throw, ends_continue, if-Ends,
}
use vahan.Worker.Store.Laws.{status_of, find_row-update_where, find_row-id}
use vahan.Worker.Process.{
  Answer, skipped, enqueued_children, child_ok, RunSettings, complete, work_child, found_child,
  child_of, process_child_job,
}
use vahan.Worker.Process.Runs.{
  Nothing, find_unique-Ends, call-Ends, append_event-Ends, persist_row-Ends,
}
use vahan.Worker.Process.Laws.{Frame, Frame-same, Frame-along, Frame-Allows, Frame-complete}

abbrev IsComplete : String → World → Type 0
IsComplete id v = status_of (find_row id v.jobs) ≡ some "succeeded"

-- What an answer of the processor of the child queue says of the row.
abbrev Completes : String → Answer → World → Type 0
Completes id child_ok v = IsComplete id v
Completes id (skipped reason) v = Unit
Completes id (enqueued_children n) v = Unit

module _ (sv : Services) (cfg : RunSettings) (id : String) where
  abbrev RowFrame : World → World → Type 0
  RowFrame = Frame (some id)

  abbrev chain :
      {A B : Type 0} {Q : A → World → Type 0} {P : B → World → Type 0} {w : World}
      {rest : A → vahan.Worker.Store.Action B} {o : Outcome A}
      → Ends RowFrame Q w o
      → ((a : A) (v : World) → Q a v → Ends RowFrame P v (rest a v))
      → Ends RowFrame P w (vahan.Worker.Store.continue o rest)
  chain = ends_continue RowFrame (Frame-same (some id)) (Frame-along (some id))

  completed_row :
      (j : ScrapeJob) (w : World)
      → find_row id w.jobs ≡ some j
      → IsComplete id (record w {
        jobs = vahan.Worker.Store.update_where (has_id id) (complete_row cfg.now) w.jobs;
      })
  completed_row j w is = rw (
    find_row-update_where id (has_id id) (complete_row cfg.now) w.jobs (λ i. refl),
    is,
    (eq_iff j.id id).1 (find_row-id id w.jobs j is),
  )

  update_one-IsComplete :
      (w : World)
      → Ends RowFrame
          (λ u v. IsComplete id v)
          w
          (update_one sv complete_job id (complete_row cfg.now) w)
  unfolding update_one update_row call
  update_one-IsComplete w = row_known (find_row id w.jobs) refl
    where
      raised :
          (j : ScrapeJob) (o : Option Thrown)
          → find_row id w.jobs ≡ some j
          → Ends RowFrame
              (λ u v. IsComplete id v)
              w
              (vahan.Worker.Store.continue (raise o w) (λ u.
                vahan.Worker.Store.write_jobs
                  (vahan.Worker.Store.update_where (has_id id) (complete_row cfg.now))))
      raised j none is = ends_done tt _ (Frame-complete cfg.now id w) (completed_row j w is)
      raised j (some e) is = ends_throw RowFrame (Frame-same (some id)) (Frame-along (some id)) e w

      row_known :
          (o : Option ScrapeJob)
          → find_row id w.jobs ≡ o
          → Ends RowFrame
              (λ u v. IsComplete id v)
              w
              (elim o [
                | none ↦ thrown (error "Record to update not found.") w
                | some j ↦ update_row sv complete_job id (complete_row cfg.now) w
              ])
      row_known none is = ends_throw RowFrame (Frame-same (some id)) (Frame-along (some id)) _ w
      row_known (some j) is = raised j (sv.fault complete_job) is

  -- Calls behind the update leave the row complete.
  still :
      {A : Type 0} {w : World} {o : Outcome A}
      → IsComplete id w
      → Ends RowFrame Nothing w o
      → Ends RowFrame (λ a v. IsComplete id v) w o
  still is e = Ends-imp e (λ a v r p. r.succeeded id is)

  al : vahan.Worker.Process.Runs.Allows RowFrame cfg.now id
  al = Frame-Allows cfg.now id

  complete-IsComplete :
      (kind : String) (w : World)
      → Ends RowFrame (λ u v. IsComplete id v) w (complete sv cfg id kind w)
  unfolding vahan.Worker.Store.update_progress
  complete-IsComplete kind w = chain (find_unique-Ends sv cfg RowFrame id al _ w) λ row w1 _.
      chain (persist_row-Ends sv cfg RowFrame id al kind row w1) λ _ w2 _.
        chain (update_one-IsComplete w2) λ _ w3 is3.
          chain (still is3 (append_event-Ends sv cfg RowFrame id al _ _ w3))
            λ _ w4 is4. still is4 (call-Ends sv cfg RowFrame id al _ w4)

  module _ (kind : String) (job : BullJob)
      (is_last : as_string (get "step" job.job_fields) ≡ some "persist_stub_result") where
    work_child-Completes :
        (w : World) → Ends RowFrame (Completes id) w (work_child sv cfg id kind job w)
    unfolding vahan.Worker.Store.update_progress
    work_child-Completes w = chain (append_event-Ends sv cfg RowFrame id al _ _ w) λ _ w1 _.
        chain (call-Ends sv cfg RowFrame id al _ w1) λ _ w2 _.
          chain {Q = λ u v. IsComplete id v} (rw is_last (complete-IsComplete kind w2)) λ _ w3 is3.
            ends_pure RowFrame (Frame-same (some id)) (Frame-along (some id)) child_ok w3 is3

    found_child-Completes :
        (row : Option ScrapeJob) (w : World)
        → Ends RowFrame (Completes id) w (found_child sv cfg id kind job row w)
    found_child-Completes none w =
        ends_pure RowFrame (Frame-same (some id)) (Frame-along (some id)) _ w tt
    found_child-Completes (some row) w =
        if-Ends (row.status == "succeeded") _ _
          (ends_pure RowFrame (Frame-same (some id)) (Frame-along (some id)) _ w tt)
          (work_child-Completes w)

    child_of-Completes :
        (w : World) → Ends RowFrame (Completes id) w (child_of sv cfg job (some id) (some kind) w)
    child_of-Completes w =
        chain (find_unique-Ends sv cfg RowFrame id al _ w) λ row v _. found_child-Completes row v

-- A child job of the step `persist_stub_result` that is answered ok leaves its scrape job
-- succeeded.
pub process_child_job-IsComplete :
    (sv : Services) (cfg : RunSettings) (job : BullJob) (id : String) (w v : World)
    → as_string (get "scrapeJobId" job.job_fields) ≡ some id
    → as_string (get "step" job.job_fields) ≡ some "persist_stub_result"
    → process_child_job sv cfg job w ≡ done child_ok v
    → status_of (find_row id v.jobs) ≡ some "succeeded"
unfolding process_child_job
process_child_job-IsComplete sv cfg job id w v is_id is_last h =
    known (valid_kind (get "kind" job.job_fields)) (rw is_id at h)
  where
    known :
        (kind : Option String)
        → child_of sv cfg job (some id) kind w ≡ done child_ok v
        → IsComplete id v
    known none h = cc
    known (some kind) h = Ends-done child_ok v h (child_of-Completes sv cfg id kind job is_last w)
