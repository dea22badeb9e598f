-- ===== src/Replay/Job/Laws.antt =====
-- The job that a replay adds.
use vahan.BullMq.{AddRequest}
use vahan.Prelude.{◌≤◌, String, ◌≡◌, refl, Option, none, some, subst, sym, ◌∙◌}
use vahan.Prelude.Int.{pos}
use vahan.Js.Text.{present}
use vahan.Js.Json.{Json, Fields, num, str, obj, end, field, get, put, as_string}
use vahan.Js.Json.Size.{json_utf8_bytes}
use vahan.Contracts.{QueueNames}
use vahan.FailedJob.{FailedJobListRow}
use vahan.Replay.Redact.{sensitive_key, strip_entries, strip_sensitive_deep}
use vahan.Replay.Redact.Laws.{IsRedacted, strip_sensitive_deep-IsRedacted}
use vahan.Replay.Accept.{
  assert_under_payload_cap, missing_child_step, max_replay_payload_bytes, IngestQueueRole, master,
  child, retry, dlq, unknown, ok, require, Accepted,
}
use vahan.Replay.Accept.Laws.{>>=-ok_inv, require-ok, assert_under_payload_cap-ok, ok-injective}
use vahan.Replay.Job.{with_type, job_data, master_data, child_data, retry_data, job_request, ◌<>◌}

-- None of the keys of a job is sensitive, so stripping its data changes nothing.
pub strip-master_data :
    (a : Accepted) → strip_sensitive_deep (obj (master_data a)) 0 ≡ master_data a
unfolding strip_sensitive_deep strip_entries sensitive_key put
strip-master_data a = refl

strip-with_type :
    (t : Option String) (a : Accepted) (step : String)
    → strip_sensitive_deep
        (obj (
          with_type t
            (job_data a (field "step" (str step) (field "replayAttempts" (num (pos 0)) end)))))
        0
      ≡ with_type t
          (job_data a (field "step" (str step) (field "replayAttempts" (num (pos 0)) end)))
unfolding strip_sensitive_deep strip_entries sensitive_key put
strip-with_type none a step = refl
strip-with_type (some t) a step = refl

pub strip-child_data :
    (a : Accepted) (step : String)
    → strip_sensitive_deep (obj (child_data a step)) 0 ≡ child_data a step
strip-child_data a step = strip-with_type _ a step

strip-retry_typed :
    (t : Option String) (a : Accepted) (names : QueueNames) (step : String)
    → strip_sensitive_deep
        (obj (
          with_type t (
            put "dlqMeta" (obj (field "sourceQueue" (str names.child) end)) (
              put "target"
                (str "child")
                (put "step" (str step) (job_data a (field "replayAttempts" (num (pos 0)) end)))))))
        0
      ≡ with_type t (
          put "dlqMeta" (obj (field "sourceQueue" (str names.child) end)) (
            put "target"
              (str "child")
              (put "step" (str step) (job_data a (field "replayAttempts" (num (pos 0)) end)))))
unfolding strip_sensitive_deep strip_entries sensitive_key put
strip-retry_typed none a names step = refl
strip-retry_typed (some t) a names step = refl

pub strip-retry_data :
    (a : Accepted) (names : QueueNames) (step : Option String)
    → strip_sensitive_deep (obj (retry_data a names step)) 0 ≡ retry_data a names step
unfolding strip_sensitive_deep strip_entries sensitive_key put
strip-retry_data a names none = refl
strip-retry_data a names (some step) = strip-retry_typed _ a names step

-- The step of the payload, if it has one that is not blank.
abbrev pub step_of : Accepted → Option String
step_of a = present (as_string (get "step" a.base_payload))

-- The job of each role.
abbrev pub IsJobOf :
    IngestQueueRole → QueueNames → FailedJobListRow → Accepted → String → AddRequest → Type 0
IsJobOf master names row a now r =
    (r.job_name ≡ "master") × (r.data_fields ≡ master_data a) × (r.job_id ≡ a.scrape_job_id)
IsJobOf child names row a now r =
    (step : String) × (step_of a ≡ some step)
    × (r.job_name ≡ "child")
    × (r.data_fields ≡ child_data a step)
    × (r.job_id ≡ a.scrape_job_id <> ":" <> step)
IsJobOf _ names row a now r =
    (r.job_name ≡ "retry")
    × (r.data_fields ≡ retry_data a names (step_of a))
    × (r.job_id ≡ "replay:failed-job:" <> row.id <> ":" <> now)

-- The data of a job is redacted and fits the cap.
pub record IsSafe (fs : Fields) : Type 0 where
  pub redacted : IsRedacted fs
  pub small : json_utf8_bytes fs ≤ max_replay_payload_bytes

cap-IsSafe :
    (label : String) (j : Json) (out : Fields)
    → assert_under_payload_cap label (strip_sensitive_deep j 0) ≡ ok out
    → (out ≡ strip_sensitive_deep j 0) × IsSafe out
cap-IsSafe label j out h =
    let (same, small) = assert_under_payload_cap-ok label _ out h in
    (
      same,
      record {
        redacted = subst IsRedacted (sym same) (strip_sensitive_deep-IsRedacted j 0);
        small = small;
      },
    )

-- The branch of `retry`, which the last clause of `job_request` is.
retry-ok :
    (names : QueueNames) (row : FailedJobListRow) (a : Accepted) (now : String) (r : AddRequest)
    → job_request retry names row a now ≡ ok r
    → (r.queue_name ≡ row.queue_name) × IsJobOf retry names row a now r × IsSafe r.data_fields
unfolding job_request
retry-ok names row a now r h =
    let (fs, h1, k1) = >>=-ok_inv (assert_under_payload_cap "retry_job_data" _) _ h in
    let (same, safe) = cap-IsSafe "retry_job_data" (obj (retry_data a names (step_of a))) fs h1 in
    subst
      (λ r.
        (r.queue_name ≡ row.queue_name) × IsJobOf retry names row a now r × IsSafe r.data_fields)
      (ok-injective k1) (refl, (refl, same ∙ strip-retry_data a names (step_of a), refl), safe)

-- A request is for the row's own queue, has the name, the data and the id of its role, and its
-- data is redacted and under the cap.
pub job_request-ok :
    (role : IngestQueueRole) (names : QueueNames) (row : FailedJobListRow) (a : Accepted)
    (now : String) (r : AddRequest)
    → job_request role names row a now ≡ ok r
    → (r.queue_name ≡ row.queue_name) × IsJobOf role names row a now r × IsSafe r.data_fields
unfolding job_request
job_request-ok master names row a now r h =
    let (fs, h1, k1) = >>=-ok_inv (assert_under_payload_cap "master_job_data" _) _ h in
    let (same, safe) = cap-IsSafe "master_job_data" (obj (master_data a)) fs h1 in
    subst
      (λ r.
        (r.queue_name ≡ row.queue_name) × IsJobOf master names row a now r × IsSafe r.data_fields)
      (ok-injective k1) (refl, (refl, same ∙ strip-master_data a, refl), safe)
job_request-ok child names row a now r h =
    let (step, h0, k0) = >>=-ok_inv (require (step_of a) missing_child_step) _ h in
    let (fs, h1, k1) = >>=-ok_inv (assert_under_payload_cap "child_job_data" _) _ k0 in
    let (same, safe) = cap-IsSafe "child_job_data" (obj (child_data a step)) fs h1 in
    subst
      (λ r.
        (r.queue_name ≡ row.queue_name) × IsJobOf child names row a now r × IsSafe r.data_fields)
      (ok-injective k1)
      (
        refl,
        (
          step,
          require-ok (step_of a) missing_child_step step h0,
          refl,
          same ∙ strip-child_data a step,
          refl,
        ),
        safe,
      )
job_request-ok retry names row a now r h = retry-ok names row a now r h
job_request-ok dlq names row a now r h = retry-ok names row a now r h
job_request-ok unknown names row a now r h = retry-ok names row a now r h
