-- ===== src/Worker/Retry/Laws.antt =====
-- What the processor of the retry queue replays, and with which count.
use vahan.Prelude.{
  ℕ, suc, ◌<◌, String, ◌≡◌, refl, subst, ◌&&◌, ltb, leb, Bool-cases, inl, inr, Option, none, some,
  arith,
}
use vahan.Prelude.Int.{pos}
use vahan.Js.Json.{Fields, num, get}
use vahan.Js.Number.{Reader, finite_of}
use vahan.BullMq.{AddRequest}
use vahan.Contracts.{QueueNames}
use vahan.Worker.Data.{
  read_replay_attempts, Target, master, child, request_id_entry, w3c_trace_job_fields,
}
use vahan.Worker.Data.Laws.{get-object}
use vahan.Worker.Retry.{
  replay_cap, replay, retry_child_request, retry_master_request, child_plan, master_plan, plan_for,
  retry_plan,
}

-- The data carries the count.
abbrev pub Counts : ℕ → Fields → Type 0
Counts n fs = get "replayAttempts" fs ≡ some (num (pos n))

pub read_replay_attempts-Counts :
    (read : Reader) (n : ℕ) (fs : Fields) → Counts n fs → read_replay_attempts read fs ≡ n
unfolding read_replay_attempts finite_of
read_replay_attempts-Counts read n fs h = rw h refl

replay-injective : {s t : Target} {p q : AddRequest} → replay s p ≡ replay t q → p ≡ q
replay-injective h = cc

module _ (names : QueueNames) where
  retry_child_request-Counts :
      (base : Fields) (next : ℕ) (id kind cid step : String)
      → Counts next (retry_child_request names base next id kind cid step).data_fields
  unfolding retry_child_request request_id_entry w3c_trace_job_fields
  retry_child_request-Counts base next id kind cid step = rw get-object refl

  retry_master_request-Counts :
      (base : Fields) (next : ℕ) (id kind cid : String)
      → Counts next (retry_master_request names base next id kind cid).data_fields
  unfolding retry_master_request request_id_entry w3c_trace_job_fields
  retry_master_request-Counts base next id kind cid = rw get-object refl

  child_plan-Counts :
      (base : Fields) (next : ℕ) (id kind cid step : Option String) (t : Target) (q : AddRequest)
      → child_plan names base next id kind cid step ≡ replay t q
      → Counts next q.data_fields
  child_plan-Counts base next (some id) (some kind) (some cid) (some step) t q h =
      subst (λ r. Counts next r.data_fields) (replay-injective h)
        (retry_child_request-Counts base next id kind cid step)
  child_plan-Counts base next none kind cid step t q h = cc
  child_plan-Counts base next (some id) none cid step t q h = cc
  child_plan-Counts base next (some id) (some kind) none step t q h = cc
  child_plan-Counts base next (some id) (some kind) (some cid) none t q h = cc

  master_plan-Counts :
      (base : Fields) (next : ℕ) (id kind cid : Option String) (t : Target) (q : AddRequest)
      → master_plan names base next id kind cid ≡ replay t q
      → Counts next q.data_fields
  master_plan-Counts base next (some id) (some kind) (some cid) t q h =
      subst (λ r. Counts next r.data_fields) (replay-injective h)
        (retry_master_request-Counts base next id kind cid)
  master_plan-Counts base next none kind cid t q h = cc
  master_plan-Counts base next (some id) none cid t q h = cc
  master_plan-Counts base next (some id) (some kind) none t q h = cc

  plan_for-Counts :
      (target : Target) (base : Fields) (next : ℕ) (t : Target) (q : AddRequest)
      → plan_for names target base next ≡ replay t q
      → Counts next q.data_fields
  plan_for-Counts child base next t q h = child_plan-Counts base next _ _ _ _ t q h
  plan_for-Counts master base next t q h = master_plan-Counts base next _ _ _ t q h

  -- A replay is below the cap, and what it adds counts one replay more.
  pub retry_plan-Counts :
      (read : Reader) (max_replays : ℕ) (raw : Fields) (t : Target) (q : AddRequest)
      → 0 < max_replays
      → retry_plan names read max_replays raw ≡ replay t q
      → (read_replay_attempts read raw < max_replays)
        × Counts (suc (read_replay_attempts read raw)) q.data_fields
  unfolding retry_plan
  retry_plan-Counts read max_replays raw t q positive h =
      elim (Bool-cases (ltb 0 max_replays && leb max_replays (read_replay_attempts read raw))) [
        | inl capped ↦ absurd (no_replay (rw capped at h))
        | inr free ↦ (ground arith, plan_for-Counts _ _ _ t q (rw free at h))
      ]
    where
      no_replay : replay_cap ≡ replay t q → ⊥
      no_replay e = cc
