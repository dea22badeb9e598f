-- ===== src/Worker/Process/Claim.antt =====
-- Which run of a master job starts its scrape job.
use vahan.Prelude.{
  ℕ, zero, suc, String, ◌≡◌, ◌≢◌, refl, ap, ◌∙◌, ◌==◌, Bool, false, Bool-cases, inl, inr, Option,
  none, some, List, [], ◌∷◌, arith,
}
use vahan.Js.Json.{get, as_string}
use vahan.BullMq.{AddRequest, AddResult, added, ignored, refused}
use vahan.Worker.Data.{BullJob, valid_kind}
use vahan.Worker.Store.{
  World, ScrapeJob, Services, done, final, claims, is_claimable, start_row, complete_row,
  update_where, count_where, claim, enqueue, accept_add,
}
use vahan.Worker.Store.Ends.{
  Ends, Ends-final, Ends-done, Ends-imp, ends_done, ends_pure, ends_throw, ends_continue, if-Ends,
}
use vahan.Worker.Process.{
  Answer, skipped, enqueued_children, child_ok, RunSettings, claimed, found_master, master_of,
  process_master_job,
}
use vahan.Worker.Process.Runs.{Allows, find_unique-Ends, claimed-Ends, call-Ends, append_event-Ends}

-- No row with the id is queued or failed.
abbrev pub IsTaken : String → World → Type 0
IsTaken id w = count_where (claims id) w.jobs ≡ 0

-- An update after which no row can be claimed that could not be claimed before.
count_where-update_where :
    (p q : ScrapeJob → Bool) (f : ScrapeJob → ScrapeJob) (js : List ScrapeJob)
    → ((j : ScrapeJob) → q (f j) ≡ false)
    → count_where q js ≡ 0
    → count_where q (update_where p f js) ≡ 0
unfolding count_where update_where
count_where-update_where p q f [] never h = refl
count_where-update_where p q f (j ∷ js) never h =
    ground (arith, never j, count_where-update_where p q f js never)

-- An update of all rows that can be claimed.
count_where-update_self :
    (q : ScrapeJob → Bool) (f : ScrapeJob → ScrapeJob) (js : List ScrapeJob)
    → ((j : ScrapeJob) → q (f j) ≡ false)
    → count_where q (update_where q f js) ≡ 0
unfolding count_where update_where
count_where-update_self q f [] never = refl
count_where-update_self q f (j ∷ js) never =
    ground (arith, never j, count_where-update_self q f js never)

-- Nothing is updated where no row passes.
update_where-none :
    (q : ScrapeJob → Bool) (f : ScrapeJob → ScrapeJob) (js : List ScrapeJob)
    → count_where q js ≡ 0
    → update_where q f js ≡ js
unfolding count_where update_where
update_where-none q f [] h = refl
update_where-none q f (j ∷ js) h = ground (arith, update_where-none q f js)

start_row-claims : (id now : String) (j : ScrapeJob) → claims id (start_row now j) ≡ false
unfolding is_claimable
start_row-claims id now j = elim (Bool-cases (j.id == id)) [
  | inl mine ↦ rw mine refl
  | inr other ↦ rw other refl
]

complete_row-claims : (id now : String) (j : ScrapeJob) → claims id (complete_row now j) ≡ false
unfolding is_claimable
complete_row-claims id now j = elim (Bool-cases (j.id == id)) [
  | inl mine ↦ rw mine refl
  | inr other ↦ rw other refl
]

-- A row that is taken stays taken.
abbrev TakenKept : String → World → World → Type 0
TakenKept id w v = IsTaken id w → IsTaken id v

TakenKept-Allows : (now id : String) → Allows (TakenKept id) now id
TakenKept-Allows now id = record {
  same = λ w h. h;
  along = λ u v w f g h. g (f h);
  event_ok = λ l t w h. h;
  start_ok = λ w h.
      count_where-update_where (claims id) (claims id) (start_row now) w.jobs
        (start_row-claims id now) h;
}

-- A store whose rows with the id are all taken keeps its rows and its queues.
abbrev Quiet : String → World → World → Type 0
Quiet id w v = IsTaken id w → (v.jobs ≡ w.jobs) × (v.adds ≡ w.adds)

Quiet-IsTaken : (id : String) (w v : World) → Quiet id w v → IsTaken id w → IsTaken id v
Quiet-IsTaken id w v q t = ap (count_where (claims id)) (q t).0 ∙ t

Quiet-along : (id : String) (u v w : World) → Quiet id u v → Quiet id v w → Quiet id u w
Quiet-along id u v w p q t =
    let (jobs, adds) = q (Quiet-IsTaken id u v p t) in (jobs ∙ (p t).0, adds ∙ (p t).1)

Quiet-Allows : (now id : String) → Allows (Quiet id) now id
Quiet-Allows now id = record {
  same = λ w t. (refl, refl);
  along = Quiet-along id;
  event_ok = λ l n w t. (refl, refl);
  start_ok = λ w t. (update_where-none (claims id) (start_row now) w.jobs t, refl);
}

-- An answer that counts no children.
abbrev pub CountsNone : Answer → World → Type 0
CountsNone (enqueued_children n) v = ⊥
CountsNone (skipped reason) v = Unit
CountsNone child_ok v = Unit

abbrev TakenAfter : String → Answer → World → Type 0
TakenAfter id (enqueued_children n) v = IsTaken id v
TakenAfter id (skipped reason) v = Unit
TakenAfter id child_ok v = Unit

taken_answer : (id : String) (a : Answer) (v : World) → IsTaken id v → TakenAfter id a v
taken_answer id (enqueued_children n) v t = t
taken_answer id (skipped reason) v t = tt
taken_answer id child_ok v t = tt

module _ (sv : Services) (cfg : RunSettings) (id : String) where
  claim-IsTaken : (w : World) → Ends (TakenKept id) (λ n v. IsTaken id v) w (claim sv id cfg.now w)
  unfolding claim
  claim-IsTaken w =
      let al = TakenKept-Allows cfg.now id in
      ends_continue (TakenKept id) al.same al.along (call-Ends sv cfg (TakenKept id) id al _ w)
        λ u v q. ends_done _ _ (al.start_ok v) (
          count_where-update_self (claims id) (start_row cfg.now) v.jobs
            (start_row-claims id cfg.now))

  claim-none : (w : World) → IsTaken id w → Ends (Quiet id) (λ n v. n ≡ 0) w (claim sv id cfg.now w)
  unfolding claim
  claim-none w t =
      let al = Quiet-Allows cfg.now id in
      ends_continue (Quiet id) al.same al.along
        (Ends-imp {P' = λ u v. IsTaken id v} (call-Ends sv cfg (Quiet id) id al _ w)
          (λ u v r p. Quiet-IsTaken id w v r t))
        λ u v taken. ends_done _ _ (al.start_ok v) taken

  enqueue-TakenKept :
      (q : AddRequest) (w : World) → Ends (TakenKept id) (λ u v. Unit {0}) w (enqueue sv q w)
  unfolding enqueue
  enqueue-TakenKept q w = answered (sv.add q)
    where
      answered : (r : AddResult) → Ends (TakenKept id) (λ u v. Unit {0}) w (accept_add q r w)
      answered (added i) = ends_done tt _ (λ h. h) tt
      answered (ignored i) = ends_done tt _ (λ h. h) tt
      answered (refused m) = ends_throw (TakenKept id) (λ w h. h) (λ u v w f g h. g (f h)) _ w

  module _ (kind : String) (job : BullJob) where
    found_master-IsTaken :
        (row : Option ScrapeJob) (w : World)
        → Ends (TakenKept id) (TakenAfter id) w (found_master sv cfg id kind job row w)
    found_master-IsTaken none w = ends_throw (TakenKept id) (λ w h. h) (λ u v w f g h. g (f h)) _ w
    found_master-IsTaken (some row) w =
        let al = TakenKept-Allows cfg.now id in
        if-Ends (row.status == "succeeded") _ _ (ends_pure (TakenKept id) al.same al.along _ w tt) (
          ends_continue (TakenKept id) al.same al.along (claim-IsTaken w) λ n v t.
            Ends-imp
              (claimed-Ends sv cfg (TakenKept id) id al (Unit {0}) kind job
                (λ s m u z. enqueue-TakenKept _ u) (λ q x u. enqueue-TakenKept _ u) row.status n v)
              (λ a u r p. taken_answer id a u (r t)))

    found_master-Quiet :
        (row : Option ScrapeJob) (w : World)
        → IsTaken id w
        → Ends (Quiet id) CountsNone w (found_master sv cfg id kind job row w)
    found_master-Quiet none w t = ends_throw (Quiet id) (λ w t. (refl, refl)) (Quiet-along id) _ w
    found_master-Quiet (some row) w t =
        let al = Quiet-Allows cfg.now id in
        if-Ends (row.status == "succeeded") _ _ (ends_pure (Quiet id) al.same al.along _ w tt)
          (ends_continue (Quiet id) al.same al.along (claim-none w t) (skips row.status))
      where
        skips :
            (status : String) (n : ℕ) (v : World)
            → n ≡ 0
            → Ends (Quiet id) CountsNone v (claimed sv cfg id kind job status n v)
        skips status zero v e =
            let al = Quiet-Allows cfg.now id in
            ends_continue (Quiet id) al.same al.along
              (append_event-Ends sv cfg (Quiet id) id al _ _ v)
              λ _ u _. ends_pure (Quiet id) al.same al.along _ u tt
        skips status (suc n) v e = absurd (omega arith)

    master_of-IsTaken :
        (w : World)
        → Ends (TakenKept id) (TakenAfter id) w (master_of sv cfg job (some id) (some kind) w)
    master_of-IsTaken w =
        let al = TakenKept-Allows cfg.now id in
        ends_continue (TakenKept id) al.same al.along
          (find_unique-Ends sv cfg (TakenKept id) id al _ w) λ row v _. found_master-IsTaken row v

    master_of-Quiet :
        (w : World)
        → IsTaken id w
        → Ends (Quiet id) CountsNone w (master_of sv cfg job (some id) (some kind) w)
    master_of-Quiet w t =
        let al = Quiet-Allows cfg.now id in
        ends_continue (Quiet id) al.same al.along
          (Ends-imp {P' = λ row v. IsTaken id v} (find_unique-Ends sv cfg (Quiet id) id al _ w)
            (λ row v r p. Quiet-IsTaken id w v r t))
          λ row v taken. found_master-Quiet row v taken

  module _ (job : BullJob) (is_id : as_string (get "scrapeJobId" job.job_fields) ≡ some id) where
    process_master_job-IsTaken :
        (w v : World) (n : ℕ)
        → process_master_job sv cfg job w ≡ done (enqueued_children n) v
        → IsTaken id v
    unfolding process_master_job
    process_master_job-IsTaken w v n h =
        known (valid_kind (get "kind" job.job_fields)) (rw is_id at h)
      where
        known :
            (kind : Option String)
            → master_of sv cfg job (some id) kind w ≡ done (enqueued_children n) v
            → IsTaken id v
        known none h = cc
        known (some kind) h = Ends-done (enqueued_children n) v h (master_of-IsTaken kind job w)

    process_master_job-Quiet :
        (w : World) → IsTaken id w → Ends (Quiet id) CountsNone w (process_master_job sv cfg job w)
    unfolding process_master_job
    process_master_job-Quiet w t = rw is_id (known (valid_kind (get "kind" job.job_fields)))
      where
        known :
            (kind : Option String)
            → Ends (Quiet id) CountsNone w (master_of sv cfg job (some id) kind w)
        known none = ends_throw (Quiet id) (λ w t. (refl, refl)) (Quiet-along id) _ w
        known (some kind) = master_of-Quiet kind job w t

-- Once a run of the processor of the master queue has answered that it added children, a second
-- run for the same scrape job, whatever throws in it, changes no row, adds no job, and does not
-- answer so again.
pub process_master_job-claims_once :
    (sv sv' : Services) (cfg cfg' : RunSettings) (job job' : BullJob) (id : String)
    → as_string (get "scrapeJobId" job.job_fields) ≡ some id
    → as_string (get "scrapeJobId" job'.job_fields) ≡ some id
    → (w v u : World) (n m : ℕ) → process_master_job sv cfg job w ≡ done (enqueued_children n) v
    → ((final (process_master_job sv' cfg' job' v)).jobs ≡ v.jobs)
      × ((final (process_master_job sv' cfg' job' v)).adds ≡ v.adds)
      × (process_master_job sv' cfg' job' v ≢ done (enqueued_children m) u)
process_master_job-claims_once sv sv' cfg cfg' job job' id is_id is_id' w v u n m h =
    let t = process_master_job-IsTaken sv cfg id job is_id w v n h in
    let e = process_master_job-Quiet sv' cfg' id job' is_id' v t in
    let (jobs, adds) = Ends-final e t in (jobs, adds, λ h'. Ends-done (enqueued_children m) u h' e)
