-- ===== src/Contracts.antt =====
-- packages/contracts: job kinds, child job types and the default names of the queues.
use vahan.Prelude.{String, List, [], ◌∷◌, Option, none, some, includes, true, false}
use vahan.Js.Json.{Json, as_string}

abbrev pub scrape_job_kinds : List String
scrape_job_kinds =
    "khanan_date_range" ∷ "vehicle_permit_snapshot" ∷ "vehicle_insurance_snapshot"
    ∷ "vehicle_fitness_snapshot" ∷ "vehicle_registration_snapshot" ∷ "consigner_digest"
    ∷ "trip_intelligence_rollup" ∷ "raw_challan_backfill" ∷ []

abbrev pub ingest_child_job_types : List String
ingest_child_job_types =
    "consigner" ∷ "vehicle" ∷ "challan_detail" ∷ "permit" ∷ "insurance" ∷ "fitness" ∷ "registration"
    ∷ "trip_summary" ∷ "analytics_rollup" ∷ "validation" ∷ "dedupe" ∷ []

-- A value of type `unknown` that is one of the texts: the text, else `undefined`.
abbrev pub one_of : List String → Option String → Option String
one_of texts none = none
one_of texts (some s) = elim (includes texts s) [ true ↦ some s | false ↦ none ]

-- `isIngestChildJobType(value) ? value : undefined`
unfoldable pub ingest_child_job_type : Option Json → Option String
ingest_child_job_type value = one_of ingest_child_job_types (as_string value)

pub record QueueNames : Type 0 where
  pub master : String
  pub child : String
  pub dlq : String
  pub retry : String

abbrev pub ingest_bull_queue_defaults : QueueNames
ingest_bull_queue_defaults = record {
  master = "scrape-ingest";
  child = "scrape-ingest-child";
  dlq = "scrape-ingest-dlq";
  retry = "scrape-ingest-retry";
}
