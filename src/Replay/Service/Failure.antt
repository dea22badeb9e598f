-- ===== src/Replay/Service/Failure.antt =====
-- What a call of `replay` does when it fails, and what it adds in any case.
use mathlib.Core.Option.{some-injective}
use vahan.BullMq.Laws.{prefix-separators, child_id-parts}
use vahan.BullMq.{AddRequest, AddResult, added, ignored, refused, RefusesColons}
use vahan.Prelude.{
  ◌<◌, ℕ, ◌+◌, String, ◌≡◌, refl, sym, ◌∙◌, ap, subst, ◌⊎◌, inl, inr, ◌≢◌, Option, some, List, [],
  ◌∷◌, length, arith, if◌then◌else◌,
}
use vahan.Js.Text.{split}
use vahan.Js.Text.Laws.{separators, separators-append, length-split}
use vahan.Env.{Env}
use vahan.Contracts.{QueueNames}
use vahan.FailedJob.{FailedJobListRow, Table, get_by_id}
use vahan.Replay.Accept.{
  resolved_queue_names, classify_failed_queue, retry, child, ReplayError, bull_job_id_conflict,
  bullmq_enqueue_failed, Result, ok, err, Accepted,
}
use vahan.Replay.Accept.Laws.{IsAccepted}
use vahan.Replay.Job.{job_request, ◌<>◌}
use vahan.Replay.Job.Laws.{step_of, IsJobOf, IsSafe, job_request-ok}
use vahan.Replay.Service.{
  is_conflict, add_outcome, Service, Replayed, load_row, finish, send, enqueue, from_row, replay,
}
use vahan.Replay.Service.Outcome.{IsTaken, HasRequested, replay-ok}

-- The exception for a job that BullMQ refused.
abbrev pub refusal : String → String → ReplayError
refusal queue message =
    if is_conflict message
    then bull_job_id_conflict message queue
    else bullmq_enqueue_failed message queue

-- Nothing was added, or BullMQ refused the one job, and the exception says so.
abbrev pub AddedNothing : (AddRequest → AddResult) → ReplayError → List AddRequest → Type 0
AddedNothing add e adds =
    (adds ≡ [])
    ⊎ ((q : AddRequest) × (message : String) × (adds ≡ q ∷ [])
        × (add q ≡ refused message)
        × (e ≡ refusal q.queue_name message)
        × IsSafe q.data_fields)

add_outcome-err :
    (queue : String) (result : AddResult) (e : ReplayError)
    → add_outcome queue result ≡ err e
    → (message : String) × (result ≡ refused message) × (e ≡ refusal queue message)
unfolding add_outcome
add_outcome-err queue (added j) e h = cc
add_outcome-err queue (ignored j) e h = cc
add_outcome-err queue (refused m) e h = (m, refl, ground arith)

err-injective {ℓ} : {A : Type ℓ} {d e : ReplayError} → ◌≡◌ {A = Result A} (err d) (err e) → d ≡ e
err-injective h = cc

module _ (add : AddRequest → AddResult) (now : String) where
  finish-err :
      (names : QueueNames) (s : Service) (row : FailedJobListRow) (a : Accepted)
      (request : AddRequest) (o : Result (Option String)) (e : ReplayError)
      → job_request a.role names row a now ≡ ok request
      → add_outcome row.queue_name (add request) ≡ o
      → (finish add now s row request o).answer ≡ err e
      → ((finish add now s row request o).audits ≡ [])
        × AddedNothing add e (finish add now s row request o).adds
  unfolding finish
  finish-err names s row a request (ok id) e made out h = cc
  finish-err names s row a request (err e') e made out h =
      let (on_queue, is_job, is_safe) = job_request-ok a.role names row a now request made in
      let (m, was, is) = add_outcome-err row.queue_name (add request) e' out in
      (refl, inr (request, m, refl, was, rw on_queue (sym (err-injective h) ∙ is), is_safe))

  send-err :
      (names : QueueNames) (s : Service) (row : FailedJobListRow) (a : Accepted)
      (made : Result AddRequest) (e : ReplayError)
      → job_request a.role names row a now ≡ made
      → (send add now s row made).answer ≡ err e
      → ((send add now s row made).audits ≡ []) × AddedNothing add e (send add now s row made).adds
  unfolding send
  send-err names s row a (err e') e made h = (refl, inl refl)
  send-err names s row a (ok request) e made h = finish-err names s row a request _ e made refl h

  enqueue-err :
      (names : QueueNames) (s : Service) (row : FailedJobListRow) (url : String)
      (accepted : Result Accepted) (e : ReplayError)
      → (enqueue add now s names row url accepted).answer ≡ err e
      → ((enqueue add now s names row url accepted).audits ≡ [])
        × AddedNothing add e (enqueue add now s names row url accepted).adds
  unfolding enqueue
  enqueue-err names s row url (err e') e h = (refl, inl refl)
  enqueue-err names s row url (ok a) e h = send-err names _ row a _ e refl h

  -- A replay that fails writes no audit entry. It has added nothing, or BullMQ refused its one
  -- job, which was redacted and under the cap: then the exception is a conflict if the message
  -- says that the id exists, else that the job could not be enqueued.
  pub replay-err :
      (env : Env) (table : Table) (s : Service) (id tenant_id : String) (e : ReplayError)
      → (replay add now env table s id tenant_id).answer ≡ err e
      → ((replay add now env table s id tenant_id).audits ≡ [])
        × AddedNothing add e (replay add now env table s id tenant_id).adds
  unfolding replay
  replay-err env table s id tenant_id e h = from_row-err (load_row env table id tenant_id) h
    where
      from_row-err :
          (loaded : Result (FailedJobListRow × String))
          → (from_row add now env s loaded).answer ≡ err e
          → ((from_row add now env s loaded).audits ≡ [])
            × AddedNothing add e (from_row add now env s loaded).adds
      from_row-err (err e') h = (refl, inl refl)
      from_row-err (ok (row, url)) h = enqueue-err (resolved_queue_names env) s row url _ e h

taken≢refused : (o : Option String) (m : String) → IsTaken (refused m) o → ⊥
taken≢refused o m (inl h) = cc
taken≢refused o m (inr h) = cc

retry_id-parts :
    (id now : String)
    → length (split b':' ("replay:failed-job:" <> id <> ":" <> now))
      ≡ 4 + (separators b':' id + separators b':' now)
retry_id-parts id now = rw length-split (
    omega (
      arith,
      separators-append b':' ("replay:failed-job:" <> id <> ":") now,
      separators-append b':' ("replay:failed-job:" <> id) ":",
      separators-append b':' "replay:failed-job:" id,
      prefix-separators,
    ))

zero_or_pos : (n : ℕ) → (n ≡ 0) ⊎ (0 < n)
zero_or_pos n = grind arith

module _ (add : AddRequest → AddResult) (now : String) (rule : RefusesColons add) (env : Env)
    (table : Table) (s : Service) (id tenant_id : String) (row : FailedJobListRow)
    (is_found : get_by_id env table id tenant_id ≡ some row) (r : Replayed) where
  -- What BullMQ was asked for the row that was found.
  requested_for :
      (replay add now env table s id tenant_id).answer ≡ ok r
      → HasRequested add now
          (resolved_queue_names env)
          row
          (replay add now env table s id tenant_id)
          r
  requested_for h =
      let (row', is_found', has) = replay-ok add now env table s id tenant_id r h in
      subst
        (λ o.
          HasRequested add now (resolved_queue_names env) o
            (replay add now env table s id tenant_id) r)
        (some-injective row' row (sym is_found' ∙ is_found)) has

  colons_refused :
      (q : AddRequest) (j : Option String) (n : ℕ)
      → length (split b':' q.job_id) ≡ n
      → n ≢ 1
      → n ≢ 3
      → IsTaken (add q) j
      → ⊥
  colons_refused q j n parts ne1 ne3 was =
      let (m, is) = rule q (rw parts ne1) (rw parts ne3) in
      taken≢refused j m (subst (λ r. IsTaken r j) is was)

  -- While BullMQ refuses an id with a colon that has not three parts, no replay of a job found on
  -- the retry queue answers ok: the id that the service chooses has four parts or more.
  pub retry_replay-ne-ok :
      classify_failed_queue row.queue_name (resolved_queue_names env) ≡ retry
      → (replay add now env table s id tenant_id).answer ≢ ok r
  retry_replay-ne-ok is_retry h =
      let has = requested_for h in
      let (name, fs, job_id) =
        subst (λ role. IsJobOf role (resolved_queue_names env) row has.accepted now has.request)
          (has.is_accepted.role ∙ is_retry) has.is_job in
      colons_refused has.request r.bull_job_id _
        (ap (λ i. length (split b':' i)) job_id ∙ retry_id-parts row.id now) (omega arith)
        (omega arith) has.is_taken

  -- While BullMQ refuses an id with a colon that has not three parts, a replay of a job found on
  -- the child queue answers ok only if the id of its scrape job or its step has a colon.
  pub child_replay-colons :
      classify_failed_queue row.queue_name (resolved_queue_names env) ≡ child
      → (replay add now env table s id tenant_id).answer ≡ ok r
      → (a : Accepted) × (step : String) × (step_of a ≡ some step)
        × IsAccepted (resolved_queue_names env) row a
        × (0 < separators b':' a.scrape_job_id + separators b':' step)
  child_replay-colons is_child h =
      let has = requested_for h in
      let (step, stepped, name, fs, job_id) =
        subst (λ role. IsJobOf role (resolved_queue_names env) row has.accepted now has.request)
          (has.is_accepted.role ∙ is_child) has.is_job in
      elim (zero_or_pos (separators b':' has.accepted.scrape_job_id + separators b':' step)) [
        | inl none_there ↦ absurd (
            colons_refused has.request r.bull_job_id 2
              (ap (λ i. length (split b':' i)) job_id
                ∙ child_id-parts has.accepted.scrape_job_id step
                ∙ ap (λ (n : ℕ). 2 + n) none_there)
              (omega arith) (omega arith) has.is_taken)
        | inr some_there ↦ (has.accepted, step, stepped, has.is_accepted, some_there)
      ]
