-- ===== src/BullMq.antt =====
-- What the services use of BullMQ, a package: `Queue.add`.
pub mod Laws
use vahan.Prelude.{String, Option, ◌≢◌, ◌≡◌, length}
use vahan.Js.Text.{split}
use vahan.Js.Json.{Fields}

-- The arguments of `q.add`.
pub record AddRequest : Type 0 where
  pub queue_name : String
  pub job_name : String
  pub data_fields : Fields
  pub job_id : String

-- `q.add` resolves with the id of the job: of one that it added, or of one that is on the queue with
-- the id asked for, and then it adds nothing. Or it throws a message.
pub data AddResult : Type 0 where
  added : Option String → AddResult
  ignored : Option String → AddResult
  refused : String → AddResult

-- BullMQ's rule for the ids that its caller chooses: an id with a colon has three parts.
abbrev pub RefusesColons : (AddRequest → AddResult) → Type 0
RefusesColons add =
    (q : AddRequest)
    → length (split b':' q.job_id) ≢ 1
    → length (split b':' q.job_id) ≢ 3
    → (message : String) × (add q ≡ refused message)
