-- ===== src/Worker/Process/Runs.antt =====
-- One walk through each processor of the master and the child queue, for every relation on stores
-- that their calls satisfy.
use vahan.Prelude.{
  ℕ, zero, suc, String, ◌==◌, Bool, true, false, Option, none, some, List, [], ◌∷◌, ◌≡◌, refl,
}
use vahan.Js.Text.{split_at}
use vahan.Js.Text.Laws.{separators}
use vahan.Contracts.{ingest_child_job_types}
use vahan.Worker.Data.{BullJob}
use vahan.Worker.Store.{
  ScrapeJob, JobEvent, Thrown, Site, World, Smoke, smoke_thrown, smoke_valid, smoke_invalid,
  Persisted, persisted, persist_thrown, Services, Outcome, Action, done, thrown, call, raise,
  find_row, update_where, claims, has_id, start_row, complete_row, append_event, find_unique, claim,
  update_one, update_row, enqueue, update_progress, find_job, find_payload, complete_job,
  count_where,
}
use vahan.Worker.Store.Ends.{
  Ends, ends_pure, ends_throw, ends_continue, ends_recover, ends_done, if-Ends,
}
use vahan.Worker.Process.{
  Answer, skipped, enqueued_children, child_ok, RunSettings, when, smoke_body,
  run_optional_playwright_smoke, child_request, fanout_request, fanout_loop, fanout, add_children,
  claimed, found_master, master_of, persist_event, persist_row, complete, work_child, found_child,
  child_of,
}

-- A relation that every call on the job with the id satisfies, the calls of BullMQ apart.
pub record Allows (R : World → World → Type 0) (now id : String) : Type 0 where
  pub same : (w : World) → R w w
  pub along : (u v w : World) → R u v → R v w → R u w
  pub event_ok :
      (level type_name : String) (w : World)
      → R w (record w {
        events = (record { job_id = id; level = level; event_type = type_name }) ∷ w.events;
      })
  pub start_ok :
      (w : World) → R w (record w { jobs = update_where (claims id) (start_row now) w.jobs })

-- What a relation satisfies that the completion of the job satisfies too.
abbrev pub AllowsCompletion : (World → World → Type 0) → String → String → Type 0
AllowsCompletion R now id =
    (w : World) → R w (record w { jobs = update_where (has_id id) (complete_row now) w.jobs })

abbrev pub Nothing : {A : Type 0} → A → World → Type 0
Nothing a v = Unit

-- An answer that counts children says that adding them has shown `Q`.
abbrev pub Shows : Type 0 → Answer → World → Type 0
Shows Q (enqueued_children n) v = Q
Shows Q (skipped reason) v = Unit
Shows Q child_ok v = Unit

module _ (sv : Services) (cfg : RunSettings) (R : World → World → Type 0) (id : String)
    (al : Allows R cfg.now id) where
  abbrev chain :
      {A B : Type 0} {Q : A → World → Type 0} {P : B → World → Type 0} {w : World}
      {rest : A → Action B} {o : Outcome A}
      → Ends R Q w o
      → ((a : A) (v : World) → Q a v → Ends R P v (rest a v))
      → Ends R P w (vahan.Worker.Store.continue o rest)
  chain = ends_continue R al.same al.along

  pub call-Ends : (site : Site) (w : World) → Ends R Nothing w (call sv site w)
  unfolding call
  call-Ends site w = raised (sv.fault site)
    where
      raised : (o : Option Thrown) → Ends R Nothing w (raise o w)
      raised none = ends_pure R al.same al.along tt w tt
      raised (some e) = ends_throw R al.same al.along e w

  pub append_event-Ends : (t l : String) (w : World) → Ends R Nothing w (append_event sv id t l w)
  unfolding append_event
  append_event-Ends t l w = chain (call-Ends _ w) (λ u v q. ends_done tt _ (al.event_ok l t v) tt)

  when-Ends :
      (b : Bool) (act : Action (Unit {0})) (w : World)
      → ((v : World) → Ends R Nothing v (act v))
      → Ends R Nothing w (when sv cfg b act w)
  when-Ends true act w e = e w
  when-Ends false act w e = ends_pure R al.same al.along tt w tt

  smoke_body-Ends : (r : Smoke) (w : World) → Ends R Nothing w (smoke_body sv cfg id r w)
  smoke_body-Ends (smoke_thrown e) w = ends_throw R al.same al.along e w
  smoke_body-Ends smoke_valid w = append_event-Ends _ _ w
  smoke_body-Ends (smoke_invalid alert message) w = chain (append_event-Ends _ _ w) λ _ w1 _.
      chain (when-Ends alert _ w1 (append_event-Ends _ _)) λ _ w2 _.
        chain (when-Ends cfg.is_strict _ w2 (ends_throw R al.same al.along _))
          λ _ w3 _. append_event-Ends _ _ w3

  smoke-Ends :
      (kind : String) (w : World)
      → Ends R Nothing w (run_optional_playwright_smoke sv cfg id kind w)
  unfolding run_optional_playwright_smoke
  smoke-Ends kind w = ends_recover R al.same al.along (smoke_body-Ends (sv.smoke id kind) w) λ e v.
      chain (append_event-Ends _ _ v) λ _ w1 _. when-Ends _ _ w1 (ends_throw R al.same al.along e)

  read-Ends :
      {A : Type 0} (f : List ScrapeJob → A) (w : World)
      → Ends R (λ a v. a ≡ f v.jobs) w (vahan.Worker.Store.read_jobs f w)
  read-Ends f w = ends_pure R al.same al.along (f w.jobs) w refl

  pub find_unique-Ends :
      (site : Site) (w : World)
      → Ends R (λ a v. a ≡ find_row id v.jobs) w (find_unique sv site id w)
  unfolding find_unique
  find_unique-Ends site w = chain (call-Ends site w) λ _ v _. read-Ends (find_row id) v

  -- What the claim counts is known of the rows before it.
  claim-Ends : (w : World) → Ends R Nothing w (claim sv id cfg.now w)
  unfolding claim
  claim-Ends w = chain (call-Ends _ w) λ _ w1 _.
      chain (read-Ends (count_where (claims id)) w1) λ n w2 _.
        chain {Q = Nothing} (ends_done tt _ (al.start_ok w2) tt)
          λ _ w3 _. ends_pure R al.same al.along n w3 tt

  module _ (Q : Type 0) (kind : String) (job : BullJob)
      (add_child : (step : String) (percent : ℕ) (w : World)
        → separators b':' step ≡ 0
        → Ends R
            (λ u v. Q)
            w
            (enqueue sv (child_request sv cfg id kind job.job_fields step percent) w))
      (add_slice : Q
        → (t : String) (w : World)
        → Ends R Nothing w (enqueue sv (fanout_request sv cfg id kind job t) w)) where
    fanout_loop-Ends :
        Q → (ts : List String) (w : World) → Ends R Nothing w (fanout_loop sv cfg id kind job ts w)
    unfolding fanout_loop
    fanout_loop-Ends q [] w = ends_pure R al.same al.along 0 w tt
    fanout_loop-Ends q (t ∷ ts) w =
        chain (add_slice q t w) λ _ v _.
          chain (fanout_loop-Ends q ts v) λ n u _. ends_pure R al.same al.along (suc n) u tt

    fanout-Ends : Q → (w : World) → Ends R Nothing w (fanout sv cfg id kind job w)
    unfolding fanout
    fanout-Ends q w =
        if-Ends cfg.is_fanout_all _ _ (fanout_loop-Ends q ingest_child_job_types w)
          (ends_pure R al.same al.along 0 w tt)

    add_children-Ends : (w : World) → Ends R (Shows Q) w (add_children sv cfg id kind job w)
    unfolding add_children update_progress split_at
    add_children-Ends w = chain (add_child "prepare" 50 w refl) λ _ w1 q.
        chain (add_child "persist_stub_result" 90 w1 refl) λ _ w2 _.
          chain (fanout-Ends q w2)
            λ n w3 _. chain (call-Ends _ w3) λ _ w4 _. ends_pure R al.same al.along _ w4 q

    pub claimed-Ends :
        (status : String) (n : ℕ) (w : World)
        → Ends R (Shows Q) w (claimed sv cfg id kind job status n w)
    claimed-Ends status zero w =
        chain (append_event-Ends _ _ w) λ _ v _. ends_pure R al.same al.along _ v tt
    claimed-Ends status (suc n) w = chain (append_event-Ends _ _ w) λ _ w1 _.
        chain (when-Ends cfg.is_smoke_enabled _ w1 (smoke-Ends kind)) λ _ w2 _. add_children-Ends w2

    found_master-Ends :
        (row : Option ScrapeJob) (w : World)
        → Ends R (Shows Q) w (found_master sv cfg id kind job row w)
    found_master-Ends none w = ends_throw R al.same al.along _ w
    found_master-Ends (some row) w =
        if-Ends (row.status == "succeeded") _ _ (ends_pure R al.same al.along _ w tt)
          (chain (claim-Ends w) λ n v _. claimed-Ends row.status n v)

    pub master_of-Ends :
        (w : World) → Ends R (Shows Q) w (master_of sv cfg job (some id) (some kind) w)
    master_of-Ends w = chain (find_unique-Ends _ w) λ row v _. found_master-Ends row v

  pub persist_row-Ends :
      (kind : String) (row : Option ScrapeJob) (w : World)
      → Ends R Nothing w (persist_row sv cfg id kind row w)
  persist_row-Ends kind none w = ends_pure R al.same al.along tt w tt
  persist_row-Ends kind (some row) w = stored _
    where
      stored : (p : Persisted) → Ends R Nothing w (persist_event sv cfg id p w)
      stored (persisted is_any) = when-Ends is_any _ w (append_event-Ends _ _)
      stored (persist_thrown e) = ends_throw R al.same al.along e w

  update_one-Ends :
      AllowsCompletion R cfg.now id
      → (site : Site) (w : World)
      → Ends R Nothing w (update_one sv site id (complete_row cfg.now) w)
  unfolding update_one
  update_one-Ends complete_ok site w = row_known (find_row id w.jobs)
    where
      row_known :
          (o : Option ScrapeJob)
          → Ends R Nothing w (elim o [
            | none ↦ thrown (vahan.Worker.Store.error "Record to update not found.") w
            | some j ↦ update_row sv site id (complete_row cfg.now) w
          ])
      row_known none = ends_throw R al.same al.along _ w
      row_known (some j) = chain (call-Ends site w) λ _ v _. ends_done tt _ (complete_ok v) tt

  complete-Ends :
      AllowsCompletion R cfg.now id
      → (kind : String) (w : World) → Ends R Nothing w (complete sv cfg id kind w)
  unfolding update_progress
  complete-Ends complete_ok kind w = chain (find_unique-Ends _ w) λ row w1 _.
      chain (persist_row-Ends kind row w1) λ _ w2 _.
        chain (update_one-Ends complete_ok _ w2)
          λ _ w3 _. chain (append_event-Ends _ _ w3) λ _ w4 _. call-Ends _ w4

  module _ (complete_ok : AllowsCompletion R cfg.now id) (kind : String) (job : BullJob) where
    work_child-Ends : (w : World) → Ends R Nothing w (work_child sv cfg id kind job w)
    unfolding update_progress
    work_child-Ends w = chain (append_event-Ends _ _ w) λ _ w1 _. chain (call-Ends _ w1) λ _ w2 _.
        chain (when-Ends _ _ w2 (complete-Ends complete_ok kind))
          λ _ w3 _. ends_pure R al.same al.along child_ok w3 tt

    found_child-Ends :
        (row : Option ScrapeJob) (w : World)
        → Ends R Nothing w (found_child sv cfg id kind job row w)
    found_child-Ends none w = ends_pure R al.same al.along _ w tt
    found_child-Ends (some row) w =
        if-Ends (row.status == "succeeded") _ _ (ends_pure R al.same al.along _ w tt)
          (work_child-Ends w)

    pub child_of-Ends : (w : World) → Ends R Nothing w (child_of sv cfg job (some id) (some kind) w)
    child_of-Ends w = chain (find_unique-Ends _ w) λ row v _. found_child-Ends row v
