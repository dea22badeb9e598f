-- ===== src/Replay/Accept/Laws.antt =====
-- What an accepted row is known to satisfy.
use vahan.Prelude.{
  ◌≤◌, String, ◌≡◌, refl, true, Option, none, some, List, subst, sym, ap, ltb, false, includes,
  arith,
}
use vahan.Js.Text.{present}
use vahan.Js.Json.{Json, Fields, str, get, as_string}
use vahan.Js.Json.Size.{json_utf8_bytes}
use vahan.Contracts.{QueueNames, one_of, scrape_job_kinds}
use vahan.FailedJob.{FailedJobListRow}
use vahan.Replay.Accept.{
  max_replay_payload_bytes, IngestQueueRole, classify_failed_queue, ReplayError, Result, ok, err,
  ◌>>=◌, require, assert_under_payload_cap, Accepted, is_supported, supported_role, accept,
  stripped, with_kind, missing_scrape_job_id, missing_correlation_id, invalid_or_missing_kind,
}

-- Inversion of a step that succeeded.
pub >>=-ok_inv {ℓ κ} :
    {A : Type ℓ} {B : Type κ} (step : Result A) (rest : A → Result B) {last : B}
    → (step >>= rest) ≡ ok last
    → (first : A) × (step ≡ ok first) × (rest first ≡ ok last)
>>=-ok_inv (err failure) rest done = cc
>>=-ok_inv (ok first) rest done = (first, refl, done)

pub require-ok :
    (o : Option String) (e : ReplayError) (s : String) → require o e ≡ ok s → o ≡ some s
require-ok none e s h = cc
require-ok (some t) e s h = cc

pub assert_under_payload_cap-ok :
    (label : String) (value out : Fields)
    → assert_under_payload_cap label value ≡ ok out
    → (out ≡ value) × (json_utf8_bytes out ≤ max_replay_payload_bytes)
unfolding assert_under_payload_cap
assert_under_payload_cap-ok label value out h = ground arith

supported_role-ok :
    (q : String) (role r : IngestQueueRole)
    → supported_role q role ≡ ok r
    → (r ≡ role) × (is_supported role ≡ true)
unfolding supported_role
supported_role-ok q role r h = ground arith

pub one_of-some :
    (texts : List String) (o : Option String) (s : String)
    → one_of texts o ≡ some s
    → (o ≡ some s) × (includes texts s ≡ true)
one_of-some texts none s h = cc
one_of-some texts (some t) s h = ground arith

pub record IsAccepted (names : QueueNames) (row : FailedJobListRow) (a : Accepted) : Type 0 where
  pub role : a.role ≡ classify_failed_queue row.queue_name names
  pub supported : is_supported a.role ≡ true
  pub scrape_job_id : present row.scrape_job_id ≡ some a.scrape_job_id
  pub correlation_id : present row.correlation_id ≡ some a.correlation_id
  pub base_payload : a.base_payload ≡ stripped row a.scrape_job_id a.correlation_id
  pub small : json_utf8_bytes a.base_payload ≤ max_replay_payload_bytes
  pub has_kind : get "kind" a.base_payload ≡ some (str a.kind)
  pub known_kind : includes scrape_job_kinds a.kind ≡ true

as_string-some : (o : Option Json) (s : String) → as_string o ≡ some s → o ≡ some (str s)
as_string-some o s h = ground arith

pub ok-injective {ℓ} : {A : Type ℓ} {a b : A} → ok a ≡ ok b → a ≡ b
ok-injective h = cc

with_kind-ok :
    (role : IngestQueueRole) (id cid : String) (base : Fields) (a : Accepted)
    → with_kind role id cid base ≡ ok a
    → (kind : String) × (get "kind" base ≡ some (str kind))
      × (includes scrape_job_kinds kind ≡ true)
      × (record {
        role = role;
        scrape_job_id = id;
        correlation_id = cid;
        base_payload = base;
        kind = kind;
      }
          ≡ a)
unfolding with_kind
with_kind-ok role id cid base a h =
    let (kind, h1, k1) =
      >>=-ok_inv
        (require (one_of scrape_job_kinds (as_string (get "kind" base))) invalid_or_missing_kind) _
        h in
    let (o1, o2) =
      one_of-some scrape_job_kinds _ kind (require-ok _ invalid_or_missing_kind kind h1) in
    (kind, as_string-some _ kind o1, o2, ok-injective k1)

-- An accepted row has a supported queue, two ids that are not blank, a known kind, and a
-- stripped payload under the cap.
pub accept-IsAccepted :
    (names : QueueNames) (row : FailedJobListRow) (a : Accepted)
    → accept names row ≡ ok a
    → IsAccepted names row a
unfolding accept
accept-IsAccepted names row a h =
    let (role, h1, k1) = >>=-ok_inv _ _ h in
    let (id, h2, k2) = >>=-ok_inv _ _ k1 in
    let (cid, h3, k3) = >>=-ok_inv _ _ k2 in
    let (base, h4, k4) = >>=-ok_inv _ _ k3 in
    let (s1, s2) =
      supported_role-ok row.queue_name (classify_failed_queue row.queue_name names) role h1 in
    let (c1, c2) =
      assert_under_payload_cap-ok "sanitized_row_payload" (stripped row id cid) base h4 in
    let (kind, o1, o2, same) = with_kind-ok role id cid base a k4 in
    subst (IsAccepted names row) same (record {
      role = s1;
      supported = rw s1 s2;
      scrape_job_id = require-ok (present row.scrape_job_id) missing_scrape_job_id id h2;
      correlation_id = require-ok (present row.correlation_id) missing_correlation_id cid h3;
      base_payload = c1;
      small = c2;
      has_kind = o1;
      known_kind = o2;
    })

-- And so is every row that is known to be so.
pub IsAccepted-accept :
    (names : QueueNames) (row : FailedJobListRow) (a : Accepted)
    → IsAccepted names row a
    → accept names row ≡ ok a
unfolding accept supported_role assert_under_payload_cap with_kind
IsAccepted-accept names row a h =
    rw
      (
        supported_now,
        h.scrape_job_id,
        h.correlation_id,
        sym h.base_payload,
        under,
        h.has_kind,
        known_now,
      )
      (ap (λ r. ok (record a { role = r })) (sym h.role))
  where
    supported_now : is_supported (classify_failed_queue row.queue_name names) ≡ true
    supported_now = subst (λ r. is_supported r ≡ true) h.role h.supported

    under : ltb max_replay_payload_bytes (json_utf8_bytes a.base_payload) ≡ false
    under = let small = h.small in ground arith

    known_now : one_of scrape_job_kinds (some a.kind) ≡ some a.kind
    known_now = let known = h.known_kind in ground arith
