-- ===== src/Worker/Process/Laws.antt =====
-- What the processors of the master and the child queue do to the rows of `scrapeJob`.
use vahan.Prelude.{
  String, ◌≡◌, ◌≢◌, refl, sym, ap, ◌∙◌, ◌==◌, Bool, true, Bool-cases, inl, inr, Option, none, some,
  Option-cases, arith, eq_iff,
}
use vahan.Js.Json.{get, as_string}
use vahan.Worker.Data.{BullJob, valid_kind}
use vahan.Worker.Store.{
  World, ScrapeJob, Services, final, find_row, update_where, has_id, claims, is_claimable,
  start_row, complete_row, enqueue, accept_add,
}
use vahan.BullMq.{AddRequest, AddResult, added, ignored, refused}
use vahan.Worker.Store.Ends.{Ends, Ends-final, ends_done, ends_thrown}
use vahan.Worker.Store.Laws.{change, status_of, find_row-update_where, find_row-id}
use vahan.Worker.Process.{RunSettings, master_of, child_of, process_master_job, process_child_job}
use vahan.Worker.Process.Runs.{Allows, AllowsCompletion, master_of-Ends, child_of-Ends}

-- Rows that have succeeded stay so, and only the row of the job changes.
pub record Frame (job_id : Option String) (w v : World) : Type 0 where
  pub succeeded :
      (k : String)
      → status_of (find_row k w.jobs) ≡ some "succeeded"
      → status_of (find_row k v.jobs) ≡ some "succeeded"
  pub others : (k : String) → job_id ≢ some k → find_row k v.jobs ≡ find_row k w.jobs

pub Frame-same : (o : Option String) (w : World) → Frame o w w
Frame-same o w = record { succeeded = λ k h. h; others = λ k h. refl }

pub Frame-along : (o : Option String) (u v w : World) → Frame o u v → Frame o v w → Frame o u w
Frame-along o u v w f g = record {
  succeeded = λ k h. g.succeeded k (f.succeeded k h);
  others = λ k h. g.others k h ∙ f.others k h;
}

-- An update of the row of the job that leaves a status "succeeded" alone.
Frame-update :
    (id : String) (p : ScrapeJob → Bool) (f : ScrapeJob → ScrapeJob) (w : World)
    → ((j : ScrapeJob) → (f j).id ≡ j.id)
    → ((j : ScrapeJob) → p j ≡ true → j.id ≡ id)
    → ((j : ScrapeJob) → j.status ≡ "succeeded" → (change p f j).status ≡ "succeeded")
    → Frame (some id) w (record w { jobs = update_where p f w.jobs })
Frame-update id p f w keep mine stays = record { succeeded = kept; others = untouched }
  where
    kept :
        (k : String)
        → status_of (find_row k w.jobs) ≡ some "succeeded"
        → status_of (find_row k (update_where p f w.jobs)) ≡ some "succeeded"
    kept k h = elim (Option-cases (find_row k w.jobs)) [
      | inl gone ↦ cc (gone, h)
      | inr (j, is) ↦
          rw (find_row-update_where k p f w.jobs keep, is)
            (ap some (stays j (succeeded_row j (rw is at h))))
    ]
      where
        succeeded_row : (j : ScrapeJob) → some j.status ≡ some "succeeded" → j.status ≡ "succeeded"
        succeeded_row j e = cc

    untouched :
        (k : String) → some id ≢ some k → find_row k (update_where p f w.jobs) ≡ find_row k w.jobs
    untouched k other = elim (Option-cases (find_row k w.jobs)) [
      | inl gone ↦ rw (find_row-update_where k p f w.jobs keep, gone)
      | inr (j, is) ↦
          rw (find_row-update_where k p f w.jobs keep, is)
            (elim (Bool-cases (p j)) [
              | inl hit ↦ absurd (other (ap some (sym (mine j hit) ∙ find_row-id k w.jobs j is)))
              | inr miss ↦ rw miss
            ])
    ]

claims-id : (id : String) (j : ScrapeJob) → claims id j ≡ true → j.id ≡ id
claims-id id j h = ground (arith, eq_iff j.id id)

start_row-succeeded :
    (id now : String) (j : ScrapeJob)
    → j.status ≡ "succeeded"
    → (change (claims id) (start_row now) j).status ≡ "succeeded"
unfolding is_claimable
start_row-succeeded id now j h =
    rw h (elim (Bool-cases (j.id == id)) [ inl mine ↦ rw mine refl | inr other ↦ rw other refl ])

complete_row-succeeded :
    (p : ScrapeJob → Bool) (now : String) (j : ScrapeJob)
    → j.status ≡ "succeeded"
    → (change p (complete_row now) j).status ≡ "succeeded"
complete_row-succeeded p now j h = elim (Bool-cases (p j)) [
  | inl hit ↦ rw hit refl
  | inr miss ↦ rw miss h
]

pub Frame-Allows : (now id : String) → Allows (Frame (some id)) now id
Frame-Allows now id = record {
  same = Frame-same (some id);
  along = Frame-along (some id);
  event_ok = λ l t w. record { succeeded = λ k h. h; others = λ k h. refl };
  start_ok = λ w.
      Frame-update id (claims id) (start_row now) w (λ j. refl) (claims-id id)
        (start_row-succeeded id now);
}

pub Frame-complete : (now id : String) → AllowsCompletion (Frame (some id)) now id
Frame-complete now id w =
    Frame-update id (has_id id) (complete_row now) w (λ j. refl) (λ j h. (eq_iff j.id id).0 h)
      (complete_row-succeeded (has_id id) now)

module _ (sv : Services) (cfg : RunSettings) (job : BullJob) where
  -- To add a job changes no row.
  enqueue-Frame :
      (o : Option String) (q : AddRequest) (w : World)
      → Ends (Frame o) (λ u v. Unit {0}) w (enqueue sv q w)
  unfolding enqueue
  enqueue-Frame o q w = answered (sv.add q)
    where
      answered : (r : AddResult) → Ends (Frame o) (λ u v. Unit {0}) w (accept_add q r w)
      answered (added id) =
          ends_done tt _ (record { succeeded = λ k h. h; others = λ k h. refl }) tt
      answered (ignored id) = ends_done tt _ (Frame-same o w) tt
      answered (refused m) = ends_thrown _ w (Frame-same o w)

  -- Whatever a processor of the master or of the child queue does, and whichever of its calls
  -- throws: no row that has succeeded gets another status, and no row but that of its scrape job
  -- changes.
  pub processors-Frame :
      (w : World)
      → Frame
          (as_string (get "scrapeJobId" job.job_fields))
          w
          (final (process_master_job sv cfg job w))
        × Frame
            (as_string (get "scrapeJobId" job.job_fields))
            w
            (final (process_child_job sv cfg job w))
  unfolding process_master_job process_child_job
  processors-Frame w = framed _ _ refl refl
    where
      framed :
          (o k : Option String)
          → as_string (get "scrapeJobId" job.job_fields) ≡ o
          → valid_kind (get "kind" job.job_fields) ≡ k
          → Frame o w (final (master_of sv cfg job o k w))
            × Frame o w (final (child_of sv cfg job o k w))
      framed none k is_o is_k = (Frame-same none w, Frame-same none w)
      framed (some id) none is_o is_k = (Frame-same (some id) w, Frame-same (some id) w)
      framed (some id) (some kind) is_o is_k =
          let al = Frame-Allows cfg.now id in
          (
            Ends-final (
                master_of-Ends sv cfg (Frame (some id)) id al (Unit {0}) kind job
                  (λ s n v z. enqueue-Frame (some id) _ v) (λ q t v. enqueue-Frame (some id) _ v)
                  w),
            Ends-final (
                child_of-Ends sv cfg (Frame (some id)) id al (Frame-complete cfg.now id) kind job
                  w),
          )
