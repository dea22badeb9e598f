-- ===== src/Replay/Service/Outcome.antt =====
-- What a call of `replay` does, by its answer.
use vahan.BullMq.{AddRequest, AddResult, added, ignored, refused}
use vahan.Prelude.{String, ◌≡◌, refl, subst, ◌⊎◌, inl, inr, Option, some, [], ◌∷◌, arith}
use vahan.Env.{Env}
use vahan.Contracts.{QueueNames}
use vahan.FailedJob.{FailedJobListRow, Table, get_by_id}
use vahan.Replay.Accept.{ingest_redis_url, resolved_queue_names, Result, ok, err, Accepted, accept}
use vahan.Replay.Accept.Laws.{ok-injective, IsAccepted, accept-IsAccepted}
use vahan.Replay.Job.{job_request}
use vahan.Replay.Job.Laws.{IsJobOf, IsSafe, job_request-ok}
use vahan.Replay.Service.{
  add_outcome, Service, queue_for_name, AuditEntry, Replayed, Run, load_row, finish, send, enqueue,
  from_row, replay,
}

abbrev pub audit_entry : FailedJobListRow → Option String → AuditEntry
audit_entry row id = record {
  action = "failed_job.replay";
  resource = row.id;
  queue_name = row.queue_name;
  bull_job_id = id;
  prior_bull_job_id = row.bull_job_id;
}

load_row-ok :
    (env : Env) (table : Table) (id tenant_id : String) (row : FailedJobListRow) (url : String)
    → load_row env table id tenant_id ≡ ok (row, url)
    → (get_by_id env table id tenant_id ≡ some row) × (ingest_redis_url env ≡ some url)
unfolding load_row
load_row-ok env table id tenant_id row url h = ground arith

-- BullMQ has added the job, or ignored it since a job with its id was there.
abbrev pub IsTaken : AddResult → Option String → Type 0
IsTaken result id = (result ≡ added id) ⊎ (result ≡ ignored id)

add_outcome-ok :
    (queue : String) (result : AddResult) (id : Option String)
    → add_outcome queue result ≡ ok id
    → IsTaken result id
unfolding add_outcome
add_outcome-ok queue (added j) id h = inl cc
add_outcome-ok queue (ignored j) id h = inr cc
add_outcome-ok queue (refused m) id h = ground arith

-- The one job that a successful replay asks BullMQ to add, with what is recorded of it.
pub record HasRequested (add : AddRequest → AddResult) (now : String) (names : QueueNames)
    (row : FailedJobListRow) (run : Run) (r : Replayed) : Type 0 where
  pub accepted : Accepted
  pub request : AddRequest
  pub is_accepted : IsAccepted names row accepted
  pub on_queue : request.queue_name ≡ row.queue_name
  pub is_job : IsJobOf accepted.role names row accepted now request
  pub is_safe : IsSafe request.data_fields
  pub is_taken : IsTaken (add request) r.bull_job_id
  pub answer : r.queue_name ≡ row.queue_name
  pub only_request : run.adds ≡ request ∷ []
  pub audit : run.audits ≡ audit_entry row r.bull_job_id ∷ []

module _ (add : AddRequest → AddResult) (now : String) where
  finish-ok :
      (names : QueueNames) (s : Service) (row : FailedJobListRow) (a : Accepted)
      (request : AddRequest) (o : Result (Option String)) (r : Replayed)
      → IsAccepted names row a
      → job_request a.role names row a now ≡ ok request
      → add_outcome row.queue_name (add request) ≡ o
      → (finish add now s row request o).answer ≡ ok r
      → HasRequested add now names row (finish add now s row request o) r
  unfolding finish
  finish-ok names s row a request (err e) r acc made out h = cc
  finish-ok names s row a request (ok id) r acc made out h =
      let (on_queue, is_job, is_safe) = job_request-ok a.role names row a now request made in
      subst (λ r. HasRequested add now names row (finish add now s row request (ok id)) r)
        (ok-injective h)
        (record {
          accepted = a;
          request = request;
          is_accepted = acc;
          on_queue = on_queue;
          is_job = is_job;
          is_safe = is_safe;
          is_taken = add_outcome-ok row.queue_name (add request) id out;
          answer = refl;
          only_request = refl;
          audit = refl;
        })

  send-ok :
      (names : QueueNames) (s : Service) (row : FailedJobListRow) (a : Accepted)
      (made : Result AddRequest) (r : Replayed)
      → IsAccepted names row a
      → job_request a.role names row a now ≡ made
      → (send add now s row made).answer ≡ ok r
      → HasRequested add now names row (send add now s row made) r
  unfolding send
  send-ok names s row a (err e) r acc e' h = cc
  send-ok names s row a (ok request) r acc made h =
      finish-ok names s row a request _ r acc made refl h

  enqueue-ok :
      (names : QueueNames) (s : Service) (row : FailedJobListRow) (url : String)
      (accepted : Result Accepted) (r : Replayed)
      → accept names row ≡ accepted
      → (enqueue add now s names row url accepted).answer ≡ ok r
      → HasRequested add now names row (enqueue add now s names row url accepted) r
  unfolding enqueue
  enqueue-ok names s row url (err e) r acc h = cc
  enqueue-ok names s row url (ok a) r acc h =
      send-ok names (queue_for_name s row.queue_name url) row a _ r
        (accept-IsAccepted names row a acc) refl h

  from_row-ok :
      (env : Env) (table : Table) (s : Service) (id tenant_id : String)
      (loaded : Result (FailedJobListRow × String)) (r : Replayed)
      → load_row env table id tenant_id ≡ loaded
      → (from_row add now env s loaded).answer ≡ ok r
      → (row : FailedJobListRow) × (get_by_id env table id tenant_id ≡ some row)
        × HasRequested add now (resolved_queue_names env) row (from_row add now env s loaded) r
  from_row-ok env table s id tenant_id (err e) r e' h = cc
  from_row-ok env table s id tenant_id (ok (row, url)) r l h = (
    row,
    (load_row-ok env table id tenant_id row url l).0,
    enqueue-ok (resolved_queue_names env) s row url _ r refl h,
  )

  -- A replay that answers ok has found the row for the tenant, accepted it, and asked BullMQ for
  -- exactly one job, on the row's own queue, with the id and the data of its role, redacted and
  -- under the cap, which BullMQ has added, or has ignored since a job with its id was there. In
  -- both cases it has written exactly one audit entry, which names both job ids.
  pub replay-ok :
      (env : Env) (table : Table) (s : Service) (id tenant_id : String) (r : Replayed)
      → (replay add now env table s id tenant_id).answer ≡ ok r
      → (row : FailedJobListRow) × (get_by_id env table id tenant_id ≡ some row)
        × HasRequested add now
            (resolved_queue_names env)
            row
            (replay add now env table s id tenant_id)
            r
  unfolding replay
  replay-ok env table s id tenant_id r h = from_row-ok env table s id tenant_id _ r refl h
