-- ===== src/Replay/Service/Queues.antt =====
-- The connection and the queues that the service keeps.
use vahan.BullMq.{AddRequest, AddResult}
use vahan.Prelude.{
  String, ◌≡◌, refl, true, false, inl, inr, Option, some, List, [], ◌∷◌, All, All-imp, sym, ◌∙◌,
  Option-cases, none≢some, eq_refl, Bool-cases, arith,
}
use vahan.Env.{Env}
use vahan.FailedJob.{FailedJobListRow, Table}
use vahan.Replay.Service.{
  Service, OpenQueue, is_open, connection, queue_for_name, on_module_destroy, finish, send, enqueue,
  from_row, replay,
}
use vahan.Contracts.{QueueNames}
use vahan.Replay.Accept.{Result, ok, err, Accepted, resolved_queue_names}

-- No two queues have one name.
abbrev pub Distinct : List OpenQueue → Type 0
Distinct [] = Unit
Distinct (q ∷ qs) = (is_open q.name qs ≡ false) × Distinct qs

-- Each name is opened once, and every queue uses the one connection of the service.
pub record IsValid (s : Service) : Type 0 where
  pub distinct : Distinct s.queue_cache
  pub shared : All (λ q. s.redis ≡ some q.connection) s.queue_cache

connection-kept : (s : Service) (u url : String) → s.redis ≡ some u → connection s url ≡ (s, u)
unfolding connection
connection-kept s u url e = rw e

-- A name that is in use is one of a queue that is open.
pub queue_for_name-IsValid :
    (s : Service) (name url : String) → IsValid s → IsValid (queue_for_name s name url)
unfolding queue_for_name connection
queue_for_name-IsValid s name url v = elim (Bool-cases (is_open name s.queue_cache)) [
  | inl old ↦ rw old v
  | inr new ↦ elim (Option-cases s.redis) [
    | inl closed ↦
        rw (new, closed)
          (record {
            distinct = (new, v.distinct);
            shared = (
              refl,
              All-imp _ _ s.queue_cache (λ q same. absurd (none≢some (sym closed ∙ same))) v.shared,
            );
          })
    | inr (u, e) ↦
        rw (new, connection-kept s u url e)
          (record { distinct = (new, v.distinct); shared = (e, v.shared) })
  ]
]

queue_for_name-opens :
    (s : Service) (name url : String) → is_open name (queue_for_name s name url).queue_cache ≡ true
unfolding queue_for_name connection
queue_for_name-opens s name url = ground (arith, eq_refl name)

on_module_destroy-IsValid : (s : Service) → IsValid (on_module_destroy s)
unfolding on_module_destroy
on_module_destroy-IsValid s = record { distinct = tt; shared = tt }

module _ (add : AddRequest → AddResult) (now : String) where
  finish-service :
      (s : Service) (row : FailedJobListRow) (request : AddRequest) (o : Result (Option String))
      → (finish add now s row request o).service ≡ s
  unfolding finish
  finish-service s row request (ok id) = refl
  finish-service s row request (err e) = refl

  send-service :
      (s : Service) (row : FailedJobListRow) (made : Result AddRequest)
      → (send add now s row made).service ≡ s
  unfolding send
  send-service s row (ok request) = finish-service s row request _
  send-service s row (err e) = refl

  enqueue-service :
      (s : Service) (names : QueueNames) (row : FailedJobListRow) (url : String)
      (accepted : Result Accepted)
      → IsValid s
      → IsValid (enqueue add now s names row url accepted).service
  unfolding enqueue
  enqueue-service s names row url (ok a) v =
      rw (send-service (queue_for_name s row.queue_name url) row _)
        (queue_for_name-IsValid s row.queue_name url v)
  enqueue-service s names row url (err e) v = v

  from_row-service :
      (env : Env) (s : Service) (loaded : Result (FailedJobListRow × String))
      → IsValid s
      → IsValid (from_row add now env s loaded).service
  from_row-service env s (ok (row, url)) v =
      enqueue-service s (resolved_queue_names env) row url _ v
  from_row-service env s (err e) v = v

  -- Whatever a replay answers, the service afterwards has opened each queue name at most once,
  -- and every queue on its one connection, if that was so before.
  pub replay-IsValid :
      (env : Env) (table : Table) (s : Service) (id tenant_id : String)
      → IsValid s
      → IsValid (replay add now env table s id tenant_id).service
  unfolding replay
  replay-IsValid env table s id tenant_id v = from_row-service env s _ v
