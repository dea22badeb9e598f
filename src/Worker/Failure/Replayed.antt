-- ===== src/Worker/Failure/Replayed.antt =====
-- The rows that the worker writes to `system.failed_jobs`, as the replay service of
-- apps/api-nest/src/failed-job-replay.service.ts reads them.
use vahan.Prelude.{
  ◌≤◌, String, ◌≡◌, refl, ap, ◌∙◌, subst, true, false, Option, none, some, [], ◌∷◌, Bool-cases, inl,
  inr,
}
use vahan.Js.Text.{trim, is_empty, present}
use vahan.Js.Text.Laws.{trim_idem, present-some}
use vahan.Js.Json.{Fields, str, obj, field, get, put, as_string}
use vahan.Js.Json.Size.{json_utf8_bytes}
use vahan.Contracts.{QueueNames, scrape_job_kinds}
use vahan.FailedJob.{FailedJobListRow}
use vahan.Replay.Redact.{sensitive_key, strip_value, strip_sensitive_deep}
use vahan.Replay.Redact.Keys.{IsObject, stripped_at, get-strip_sensitive_deep}
use vahan.Replay.Accept.{
  max_replay_payload_bytes, classify_failed_queue, is_supported, ok, accept, stripped,
}
use vahan.Replay.Accept.Laws.{one_of-some, IsAccepted-accept}
use vahan.Worker.Data.{BullJob, object, text, valid_kind}
use vahan.Worker.Failure.{
  Failure, failed_job_row, optional_uuid_scrape_job_id, optional_uuid, uuid_or_nothing,
  uuid_classes, matches_classes,
}

not_empty : (s : String) → matches_classes uuid_classes s ≡ true → is_empty s ≡ false
unfolding matches_classes
not_empty String.[] h = cc
not_empty (String.◌∷◌ c s) h = refl

uuid_or_nothing-some :
    (s id : String) → uuid_or_nothing (trim s) ≡ some id → (trim id ≡ id) × (is_empty id ≡ false)
uuid_or_nothing-some s id h = elim (Bool-cases (matches_classes uuid_classes (trim s))) [
  | inl good ↦
      let same = some_same (rw good at h) in
      (
        subst (λ t. trim t ≡ t) same (trim_idem s),
        subst (λ t. is_empty t ≡ false) same (not_empty (trim s) good),
      )
  | inr bad ↦ absurd (none_some (rw bad at h))
]
  where
    some_same : {a b : String} → some a ≡ some b → a ≡ b
    some_same e = cc

    none_some : {a : String} → none ≡ some a → ⊥
    none_some e = cc

optional_uuid-some :
    (o : Option String) (id : String)
    → optional_uuid o ≡ some id
    → (trim id ≡ id) × (is_empty id ≡ false)
optional_uuid-some none id h = cc
optional_uuid-some (some s) id h = uuid_or_nothing-some s id h

present_again : (t : String) → trim t ≡ t → is_empty t ≡ false → present (some t) ≡ some t
unfolding present
present_again t h e = rw (h, e) refl

-- The payload of the row, with the two ids that the replay adds.
abbrev with_ids : String → String → String → Option String → Option String → Fields
with_ids id cid kind step type_name = put "correlationId" (str cid) (
    put "scrapeJobId" (str id)
      (field "kind" (str kind) (object (("step", text step) ∷ ("type", text type_name) ∷ []))))

with_ids-IsObject :
    (id cid kind : String) (step type_name : Option String)
    → IsObject (with_ids id cid kind step type_name)
unfolding put get object
with_ids-IsObject id cid kind none none = (refl, (refl, (refl, tt)))
with_ids-IsObject id cid kind none (some t) = (refl, (refl, (refl, (refl, tt))))
with_ids-IsObject id cid kind (some s) none = (refl, (refl, (refl, (refl, tt))))
with_ids-IsObject id cid kind (some s) (some t) = (refl, (refl, (refl, (refl, (refl, tt)))))

get-with_ids :
    (id cid kind : String) (step type_name : Option String)
    → (get "kind" (with_ids id cid kind step type_name) ≡ some (str kind))
      × (get "step" (with_ids id cid kind step type_name) ≡ text step)
unfolding put get object
get-with_ids id cid kind none none = (refl, refl)
get-with_ids id cid kind none (some t) = (refl, refl)
get-with_ids id cid kind (some s) none = (refl, refl)
get-with_ids id cid kind (some s) (some t) = (refl, refl)

stripped_at-text :
    (o : Option String)
    → (stripped_at 0 "kind" (text o) ≡ text o) × (stripped_at 0 "step" (text o) ≡ text o)
unfolding sensitive_key strip_value
stripped_at-text none = (refl, refl)
stripped_at-text (some s) = (refl, refl)

module _ (names : QueueNames) (row_id created_at : String) (job : BullJob) (e : Failure)
    (queue id cid kind : String) where
  abbrev row : FailedJobListRow
  row = failed_job_row row_id created_at job e queue

  -- The payload that the replay service strips.
  payload_row :
      as_string (get "kind" job.job_fields) ≡ some kind
      → stripped row id cid
        ≡ strip_sensitive_deep
            (obj (
              with_ids id cid kind
                (as_string (get "step" job.job_fields))
                (as_string (get "type" job.job_fields))))
            0
  unfolding failed_job_row object
  payload_row h = rw h refl

  kind_of_row :
      as_string (get "kind" job.job_fields) ≡ some kind
      → get "kind" (stripped row id cid) ≡ some (str kind)
  kind_of_row h =
      let step = as_string (get "step" job.job_fields) in
      let t = as_string (get "type" job.job_fields) in
      ap (get "kind") (payload_row h)
      ∙ get-strip_sensitive_deep _ "kind" (with_ids-IsObject id cid kind step t)
      ∙ ap (stripped_at 0 "kind") (get-with_ids id cid kind step t).0
      ∙ (stripped_at-text (some kind)).0

  step_of_row :
      as_string (get "kind" job.job_fields) ≡ some kind
      → get "step" (stripped row id cid) ≡ text (as_string (get "step" job.job_fields))
  step_of_row h =
      let step = as_string (get "step" job.job_fields) in
      let t = as_string (get "type" job.job_fields) in
      ap (get "step") (payload_row h)
      ∙ get-strip_sensitive_deep _ "step" (with_ids-IsObject id cid kind step t)
      ∙ ap (stripped_at 0 "step") (get-with_ids id cid kind step t).1
      ∙ (stripped_at-text step).1

  -- A failure of a job with a known kind, a correlation id and a UUID, on a queue that replays are
  -- allowed for, is written to a row that the replay service accepts, if it is under its cap, with
  -- the same ids and kind; the step of the row that it reads is the job's.
  pub failed_job_row-accept :
      optional_uuid_scrape_job_id (get "scrapeJobId" job.job_fields) ≡ some id
      → present (as_string (get "correlationId" job.job_fields)) ≡ some cid
      → valid_kind (get "kind" job.job_fields) ≡ some kind
      → is_supported (classify_failed_queue queue names) ≡ true
      → json_utf8_bytes (stripped row id cid) ≤ max_replay_payload_bytes
      → (accept names row
          ≡ ok (record {
            role = classify_failed_queue queue names;
            scrape_job_id = id;
            correlation_id = cid;
            base_payload = stripped row id cid;
            kind = kind;
          }))
        × (get "step" (stripped row id cid) ≡ text (as_string (get "step" job.job_fields)))
  unfolding failed_job_row optional_uuid_scrape_job_id
  failed_job_row-accept is_id is_cid is_kind supported small =
      let (kind_read, known) =
        one_of-some scrape_job_kinds (as_string (get "kind" job.job_fields)) kind is_kind in
      let (trimmed, filled) = optional_uuid-some _ id is_id in
      let (trimmed', filled') = present-some _ cid is_cid in
      (
        IsAccepted-accept names row _ (record {
          role = refl;
          supported = supported;
          scrape_job_id = ap present is_id ∙ present_again id trimmed filled;
          correlation_id = ap present is_cid ∙ present_again cid trimmed' filled';
          base_payload = refl;
          small = small;
          has_kind = kind_of_row kind_read;
          known_kind = known;
        }),
        step_of_row kind_read,
      )
