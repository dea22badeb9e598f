-- ===== src/Worker/Process/Refusal.antt =====
-- The ids that `processMasterJob` gives its child jobs, where BullMQ refuses them.
use vahan.Prelude.{ℕ, String, ◌≡◌, ◌≢◌, refl, ◌∙◌, Option, none, some}
use vahan.Js.Json.{get, as_string}
use vahan.Js.Text.Laws.{separators}
use vahan.BullMq.{RefusesColons}
use vahan.BullMq.Laws.{two_parts-refused}
use vahan.Worker.Data.{BullJob, valid_kind}
use vahan.Worker.Store.{World, Services, done, final, enqueue}
use vahan.Worker.Store.Ends.{Ends, Ends-final, Ends-done, ends_throw}
use vahan.Worker.Process.{
  enqueued_children, RunSettings, master_of, process_master_job, child_request,
}
use vahan.Worker.Process.Runs.{Allows, Shows, master_of-Ends}

-- The queues accepted nothing new.
abbrev AddsKept : World → World → Type 0
AddsKept w v = v.adds ≡ w.adds

AddsKept-along : (u v w : World) → AddsKept u v → AddsKept v w → AddsKept u w
AddsKept-along u v w p q = q ∙ p

AddsKept-Allows : (now id : String) → Allows AddsKept now id
AddsKept-Allows now id = record {
  same = λ w. refl;
  along = AddsKept-along;
  event_ok = λ l t w. refl;
  start_ok = λ w. refl;
}

module _ (sv : Services) (cfg : RunSettings) (job : BullJob) (rule : RefusesColons sv.add)
    (id : String) (one_part : separators b':' id ≡ 0) where
  child_request-refused :
      (kind step : String) (percent : ℕ) (w : World)
      → separators b':' step ≡ 0
      → Ends AddsKept
          (λ u v. ⊥)
          w
          (enqueue sv (child_request sv cfg id kind job.job_fields step percent) w)
  unfolding enqueue child_request
  child_request-refused kind step percent w plain =
      let (m, is) =
        two_parts-refused sv.add (child_request sv cfg id kind job.job_fields step percent) id step
          rule refl one_part plain in
      rw is (ends_throw AddsKept (λ w. refl) AddsKept-along _ w)

  refused_of :
      (kind : Option String) (w : World)
      → Ends AddsKept (Shows ⊥) w (master_of sv cfg job (some id) kind w)
  refused_of none w = ends_throw AddsKept (λ w. refl) AddsKept-along _ w
  refused_of (some kind) w =
      master_of-Ends sv cfg AddsKept id (AddsKept-Allows cfg.now id) ⊥ kind job
        (child_request-refused kind) (λ q. absurd q) w

  -- While BullMQ refuses an id with a colon that has not three parts, the processor of the master
  -- queue adds no job for a scrape job whose id has no colon, and never answers that it added
  -- children, whatever the store holds.
  pub process_master_job-refused :
      as_string (get "scrapeJobId" job.job_fields) ≡ some id
      → (w v : World) (n : ℕ)
      → ((final (process_master_job sv cfg job w)).adds ≡ w.adds)
        × (process_master_job sv cfg job w ≢ done (enqueued_children n) v)
  unfolding process_master_job
  process_master_job-refused is_id w v n = rw is_id (
    Ends-final (refused_of (valid_kind (get "kind" job.job_fields)) w),
    λ h.
        Ends-done (enqueued_children n) v h (refused_of (valid_kind (get "kind" job.job_fields)) w),
  )
