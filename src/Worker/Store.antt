-- ===== src/Worker/Store.antt =====
-- What the processors of apps/worker-ingest/src/index.js act on: the rows of `scrapeJob` and of
-- `jobEvent`, and the jobs that its queues accepted. A call of Prisma or BullMQ may throw; which
-- call throws what is given by `Services`.
pub mod Ends
pub mod Laws
use vahan.Prelude.{
  ℕ, zero, suc, String, ◌==◌, ◌&&◌, ◌||◌, Bool, true, false, Option, none, some, List, [], ◌∷◌, map,
  filter, length, if◌then◌else◌,
}
use vahan.Js.Json.{Json}
use vahan.BullMq.{AddRequest, AddResult, added, ignored, refused}

-- What is thrown: the `name` and the `message` of an error.
pub record Thrown : Type 0 where
  pub name : String
  pub message : String

abbrev pub error : String → Thrown
error message = record { name = "Error"; message = message }

pub record ScrapeJob : Type 0 where
  pub id : String
  pub status : String
  pub kind : String
  pub payload : Json
  pub started_at : Option String
  pub completed_at : Option String
  pub last_error : Option String

-- An event by its job, its level and its type; its payload is for display only.
pub record JobEvent : Type 0 where
  pub job_id : String
  pub level : String
  pub event_type : String

-- Events and jobs stand newest first.
pub record World : Type 0 where
  pub jobs : List ScrapeJob
  pub events : List JobEvent
  pub adds : List AddRequest

-- The calls that may throw, each by what it is for.
pub data Site : Type 0 where
  find_job claim_job find_payload complete_job fail_job progress final_progress : Site
  write_event : String → Site

-- The run of the smoke test in a browser: it throws, or its validation has passed or failed; then
-- the health monitor says whether to alert.
pub data Smoke : Type 0 where
  smoke_thrown : Thrown → Smoke
  smoke_valid : Smoke
  smoke_invalid : (should_alert : Bool) (message : String) → Smoke

-- `persistIngestArtifacts`: whether its summary names a row, or what it throws.
pub data Persisted : Type 0 where
  persisted : (is_any : Bool) → Persisted
  persist_thrown : Thrown → Persisted

pub record Services : Type 0 where
  pub fault : Site → Option Thrown
  pub add : AddRequest → AddResult
  pub smoke : String → String → Smoke
  pub persist : String → String → Json → Persisted

pub data Outcome {ℓ} (A : Type ℓ) : Type ℓ where
  done : A → World → Outcome A
  thrown : Thrown → World → Outcome A

abbrev pub Action {ℓ} : Type ℓ → Type ℓ
Action A = World → Outcome A

abbrev pub final {ℓ} : {A : Type ℓ} → Outcome A → World
final (done a w) = w
final (thrown e w) = w

abbrev pub pure {ℓ} : {A : Type ℓ} → A → Action A
pure a w = done a w

abbrev pub throw {ℓ} : {A : Type ℓ} → Thrown → Action A
throw e w = thrown e w

abbrev pub continue {ℓ κ} : {A : Type ℓ} {B : Type κ} → Outcome A → (A → Action B) → Outcome B
continue (done a w) rest = rest a w
continue (thrown e w) rest = thrown e w

infixl 5 ◌>>=◌ ◌>>◌
abbrev pub ◌>>=◌ {ℓ κ} : {A : Type ℓ} {B : Type κ} → Action A → (A → Action B) → Action B
◌>>=◌ act rest w = continue (act w) rest

abbrev pub ◌>>◌ {ℓ κ} : {A : Type ℓ} {B : Type κ} → Action A → Action B → Action B
act >> rest = act >>= λ _. rest

-- `try { … } catch (err) { … }`
abbrev pub recover {ℓ} : {A : Type ℓ} → Outcome A → (Thrown → Action A) → Outcome A
recover (done a w) handler = done a w
recover (thrown e w) handler = handler e w

abbrev pub catch_with {ℓ} : {A : Type ℓ} → Action A → (Thrown → Action A) → Action A
catch_with act handler w = recover (act w) handler

abbrev pub raise : Option Thrown → Action (Unit {0})
raise none w = done tt w
raise (some e) w = thrown e w

-- `where: { id }`
unfoldable pub find_row : String → List ScrapeJob → Option ScrapeJob
find_row id [] = none
find_row id (j ∷ js) = if j.id == id then some j else find_row id js

-- `updateMany`: the rows that pass are changed.
unfoldable pub update_where :
    (ScrapeJob → Bool) → (ScrapeJob → ScrapeJob) → List ScrapeJob → List ScrapeJob
update_where p f [] = []
update_where p f (j ∷ js) = (if p j then f j else j) ∷ update_where p f js

unfoldable pub count_where : (ScrapeJob → Bool) → List ScrapeJob → ℕ
count_where p [] = 0
count_where p (j ∷ js) = let rest = count_where p js in if p j then suc rest else rest

abbrev pub has_id : String → ScrapeJob → Bool
has_id id j = j.id == id

-- `status: { in: ['queued', 'failed'] }`
unfoldable pub is_claimable : ScrapeJob → Bool
is_claimable j = j.status == "queued" || j.status == "failed"

abbrev pub claims : String → ScrapeJob → Bool
claims id j = has_id id j && is_claimable j

abbrev pub start_row : String → ScrapeJob → ScrapeJob
start_row now j = record j {
  status = "running";
  started_at = some now;
  completed_at = none;
  last_error = none;
}

abbrev pub complete_row : String → ScrapeJob → ScrapeJob
complete_row now j = record j { status = "succeeded"; completed_at = some now; last_error = none }

abbrev pub fail_row : String → String → ScrapeJob → ScrapeJob
fail_row now message j = record j {
  status = "failed";
  completed_at = some now;
  last_error = some message;
}

-- The calls of Prisma and BullMQ, once they have not thrown.
abbrev pub write_jobs : (List ScrapeJob → List ScrapeJob) → Action (Unit {0})
write_jobs f w = done tt (record w { jobs = f w.jobs })

abbrev pub write_event_row : JobEvent → Action (Unit {0})
write_event_row e w = done tt (record w { events = e ∷ w.events })

abbrev pub accept_add : AddRequest → AddResult → Action (Unit {0})
accept_add q (added id) w = done tt (record w { adds = q ∷ w.adds })
accept_add q (ignored id) w = done tt w
accept_add q (refused message) w = thrown (error message) w

abbrev pub read_jobs {ℓ} : {A : Type ℓ} → (List ScrapeJob → A) → Action A
read_jobs f w = done (f w.jobs) w

module _ (sv : Services) where
  unfoldable pub call : Site → Action (Unit {0})
  call site = raise (sv.fault site)

  unfoldable pub append_event : String → String → String → Action (Unit {0})
  unfolding call
  append_event job_id event_type level = do
    call (write_event event_type)
    write_event_row (record { job_id = job_id; level = level; event_type = event_type })

  -- `prisma.scrapeJob.findUnique`
  unfoldable pub find_unique : Site → String → Action (Option ScrapeJob)
  unfolding call find_row
  find_unique site id = do call site; read_jobs (find_row id)

  -- `prisma.scrapeJob.updateMany` for the claim; the number of rows that it changed.
  unfoldable pub claim : String → String → Action ℕ
  unfolding call count_where update_where is_claimable
  claim id now = do
    call claim_job
    n ← read_jobs (count_where (claims id))
    write_jobs (update_where (claims id) (start_row now))
    pure n

  -- An update of the row with the id.
  unfoldable pub update_row : Site → String → (ScrapeJob → ScrapeJob) → Action (Unit {0})
  unfolding call update_where
  update_row site id f = do call site; write_jobs (update_where (has_id id) f)

  -- `prisma.scrapeJob.update`, which throws where there is no such row.
  unfoldable pub update_one : Site → String → (ScrapeJob → ScrapeJob) → Action (Unit {0})
  unfolding update_row find_row
  update_one site id f w = elim (find_row id w.jobs) [
    | none ↦ thrown (error "Record to update not found.") w
    | some j ↦ update_row site id f w
  ]

  unfoldable pub enqueue : AddRequest → Action (Unit {0})
  enqueue q = accept_add q (sv.add q)

  unfoldable pub update_progress : Site → Action (Unit {0})
  unfolding call
  update_progress site = call site
