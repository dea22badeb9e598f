-- ===== src/Worker/Quota.antt =====
-- The quota of browser contexts of a tenant, apps/worker-ingest/src/lib/tenantQuota.js. The state
-- is what the three maps hold for the tenant, and the callers by where they stand between two
-- awaits. An event is what runs from one await to the next.
pub mod Invariant
pub mod Release
use mathlib.Core.List.{Permᴰ}
use vahan.Prelude.{
  ℕ, suc, ◌+◌, ◌-◌, ◌<◌, ltb, nat_eq, String, Bool, true, false, Option, none, some, or_else,
  or_option, List, [], ◌∷◌, ◌++◌, if◌then◌else◌, ◌≡◌, Any,
}
use vahan.Prelude.Int.{pos}
use vahan.Env.{Env}
use vahan.Js.Text.{present}
use vahan.Js.Json.{Json, Fields, num, end, get, as_object}
use vahan.Js.Number.{Reader, positive_floor, env_number}

-- `JSON.parse` is given; what is no object, or no JSON, is the empty map.
abbrev pub object_or_empty : Option Json → Fields
object_or_empty none = end
object_or_empty (some v) = or_else (as_object v) end

abbrev pub parsed : (String → Option Json) → Option String → Fields
parsed parse_json none = end
parsed parse_json (some raw) = object_or_empty (parse_json raw)

unfoldable pub parse_quota_map : (String → Option Json) → Env → Fields
parse_quota_map parse_json env = parsed parse_json (present (env "BROWSER_POOL_QUOTAS_JSON"))

-- `typeof v === 'number' && v > 0 ? Math.floor(v) : undefined`
abbrev pub positive_number : Option Json → Option ℕ
positive_number (some (num (pos (suc n)))) = some (suc n)
positive_number _ = none

unfoldable pub get_quota_for_tenant : (String → Option Json) → Reader → Env → String → ℕ
unfolding parse_quota_map
get_quota_for_tenant parse_json read env tenant_id =
    let quotas = parse_quota_map parse_json env in
    or_else
      (or_option (positive_number (get tenant_id quotas)) (
        or_option (positive_number (get "default" quotas))
          (positive_floor (env_number read env "BROWSER_POOL_TENANT_MAX_CONTEXTS"))))
      0

-- `active`, `rejections` and `waiters` are the maps' entries. Callers have been woken and not yet
-- run again, are in `acquire()`, or hold a handle that they have not released; `released` counts the
-- handles that were released.
pub record Quota : Type 0 where
  pub active : ℕ
  pub rejections : ℕ
  pub waiters : List ℕ
  pub woken : List ℕ
  pub acquiring : ℕ
  pub held : ℕ
  pub released : ℕ

-- `_signalNextWaiter`
abbrev pub woken_first : Quota → List ℕ → Quota
woken_first s [] = s
woken_first s (i ∷ rest) = record s { waiters = rest; woken = i ∷ s.woken }

unfoldable pub signal_next_waiter : Quota → Quota
signal_next_waiter s = woken_first s s.waiters

-- `decrement`; `Math.max(0, n - 1)` is the subtraction of natural numbers.
unfoldable pub decrement : Quota → Quota
unfolding signal_next_waiter
decrement s = signal_next_waiter (record s { active = s.active - 1 })

unfoldable pub increment : Quota → Quota
increment s = record s { active = s.active + 1 }

-- The loop's test of `withQuota` by the caller `i`, up to its next await: `acquire()`, a rejection
-- or `_waitForSlot`.
unfoldable pub enter : ℕ → Bool → ℕ → Quota → Quota
unfolding increment
enter quota reject_fast i s =
    if ltb s.active quota
    then record (increment s) { acquiring = s.acquiring + 1 }
    else if reject_fast
    then record s { rejections = s.rejections + 1 }
    else record s { waiters = s.waiters ++ i ∷ [] }

-- `list.splice(list.indexOf(resolveSlot), 1)`
unfoldable pub splice : ℕ → List ℕ → List ℕ
splice i [] = []
splice i (j ∷ js) = let rest = splice i js in if nat_eq j i then js else j ∷ rest

-- The timer of the waiter `i`.
unfoldable pub time_out : ℕ → Quota → Quota
unfolding splice
time_out i s = record s { waiters = splice i s.waiters; rejections = s.rejections + 1 }

-- The caller `i`, who was woken, runs the test again.
unfoldable pub resume : ℕ → Bool → ℕ → List ℕ → Quota → Quota
unfolding enter
resume quota reject_fast i others s = enter quota reject_fast i (record s { woken = others })

-- `acquire()` has given a handle.
unfoldable pub acquired : Quota → Quota
acquired s = record s { acquiring = s.acquiring - 1; held = s.held + 1 }

-- `acquire()` has thrown.
unfoldable pub acquire_failed : Quota → Quota
unfolding decrement
acquire_failed s = decrement (record s { acquiring = s.acquiring - 1 })

-- The wrapped `release` of a handle that is held, up to its end.
unfoldable pub release : Quota → Quota
unfolding decrement
release s = decrement (record s { held = s.held - 1; released = s.released + 1 })

-- The wrapped `release` of a handle that was released before: nothing stops it.
unfoldable pub release_again : Quota → Quota
unfolding decrement
release_again s = decrement s

-- The events; `again` says whether handles that were released are released again. Any caller who
-- was woken may be the next one to run.
pub data Step (quota : ℕ) (reject_fast : Bool) (again : Bool) : Quota → Quota → Type 0 where
  call_step : (i : ℕ) (s : Quota) → Step quota reject_fast again s (enter quota reject_fast i s)
  resume_step :
      (i : ℕ) (others : List ℕ) (s : Quota)
      → Permᴰ s.woken (i ∷ others)
      → Step quota reject_fast again s (resume quota reject_fast i others s)
  time_out_step :
      (i : ℕ) (s : Quota)
      → Any (λ j. j ≡ i) s.waiters
      → Step quota reject_fast again s (time_out i s)
  acquired_step : (s : Quota) → 0 < s.acquiring → Step quota reject_fast again s (acquired s)
  acquire_failed_step :
      (s : Quota) → 0 < s.acquiring → Step quota reject_fast again s (acquire_failed s)
  release_step : (s : Quota) → 0 < s.held → Step quota reject_fast again s (release s)
  release_again_step :
      (s : Quota) → again ≡ true → 0 < s.released → Step quota reject_fast again s (release_again s)

abbrev pub empty : Quota
empty = record {
  active = 0;
  rejections = 0;
  waiters = [];
  woken = [];
  acquiring = 0;
  held = 0;
  released = 0;
}

pub data Reach (quota : ℕ) (reject_fast : Bool) (again : Bool) : Quota → Type 0 where
  here : Reach quota reject_fast again empty
  next :
      {s t : Quota}
      → Reach quota reject_fast again s
      → Step quota reject_fast again s t
      → Reach quota reject_fast again t
