-- ===== src/Pool.antt =====
-- One engine of the browser pool, `createPoolEngine` of packages/browser-pool/src/index.js. The state
-- is its variables, and the callers by where they stand between two awaits. A step is what runs
-- from one await to the next; of the ticks in which an async function returns, only those between
-- picking a slot and taking it are steps of their own. Browsers are known by the number in their id.
pub mod Bound
pub mod Count
pub mod Pick
pub mod Overfull
pub mod Stuck
mod Tests
use vahan.Prelude.{
  ℕ, zero, suc, ◌+◌, ◌-◌, ◌<◌, ltb, leb, nat_eq, ◌&&◌, ◌||◌, not, String, Bool, true, false, Option,
  none, some, or_else, List, [], ◌∷◌, ◌++◌, filter, length, if◌then◌else◌, ◌≡◌,
}
use mathlib.Core.List.{Permᴰ}
use vahan.Prelude.Int.{ℤ, pos, negsuc}
use vahan.Env.{Env}
use vahan.Js.Number.{Finite, Reader, is_at_least, natural, env_number}

abbrev pub at_least_or : ℕ → Option Finite → ℕ → ℕ
at_least_or least none fallback = fallback
at_least_or least (some f) fallback =
    if is_at_least least f.floor then or_else (natural f.floor) fallback else fallback

unfoldable pub env_int : Reader → Env → String → ℕ → ℕ → ℕ
env_int read env name fallback least = at_least_or least (env_number read env name) fallback

pub record PoolConfig : Type 0 where
  pub max_browsers : ℕ
  pub max_contexts_per_browser : ℕ
  pub recycle_uses : ℕ
  pub idle_ttl_ms : ℕ
  pub cleanup_interval_ms : ℕ
  pub launch_timeout_ms : ℕ
  pub soft_memory_mb : Option Finite
  pub hard_memory_mb : Option Finite

-- `Number(v) || 0`, where 0 means no limit as `none` does.
unfoldable pub get_pool_config : Reader → Env → PoolConfig
unfolding env_int
get_pool_config read env = record {
  max_browsers =
      env_int read env "BROWSER_POOL_MAX_BROWSERS" (env_int read env "BROWSER_POOL_MAX" 1 1) 1;
  max_contexts_per_browser = env_int read env "BROWSER_POOL_MAX_CONTEXTS_PER_BROWSER" 2 1;
  recycle_uses = env_int read env "BROWSER_POOL_CONTEXT_RECYCLE_USES" 50 1;
  idle_ttl_ms = env_int read env "BROWSER_POOL_IDLE_TTL_MS" 60000 1;
  cleanup_interval_ms = env_int read env "BROWSER_POOL_CLEANUP_INTERVAL_MS" 15000 1;
  launch_timeout_ms = env_int read env "BROWSER_POOL_LAUNCH_TIMEOUT_MS" 30000 1000;
  soft_memory_mb = env_number read env "BROWSER_POOL_MEMORY_SOFT_LIMIT_MB";
  hard_memory_mb = env_number read env "BROWSER_POOL_MEMORY_HARD_LIMIT_MB";
}

pub record Slot : Type 0 where
  pub id : ℕ
  pub active_contexts : ℕ
  pub created_contexts : ℕ
  pub last_used_at : ℕ
  pub closing : Bool

-- `browsers`, `launch_in_flight`, `waiters` and `next_id` are the engine's variables; `detached` are
-- slots that callers may know and that are no longer in the list. Callers have
-- been woken and not yet run again, have picked a slot and not yet taken it, or hold a context or
-- a lease of a slot.
pub record Pool : Type 0 where
  pub browsers : List Slot
  pub detached : List Slot
  pub launch_in_flight : ℕ
  pub waiters : ℕ
  pub next_id : ℕ
  pub woken : ℕ
  pub picked : List ℕ
  pub held : List ℕ

-- The filter of `pickBrowserWithCapacity`.
unfoldable pub has_capacity : PoolConfig → Slot → Bool
has_capacity cfg s = not s.closing && ltb s.active_contexts cfg.max_contexts_per_browser

-- The order of its sort: whether `b` comes before `a`.
unfoldable pub comes_before : Slot → Slot → Bool
comes_before b a =
    ltb b.active_contexts a.active_contexts
    || (nat_eq b.active_contexts a.active_contexts && ltb b.last_used_at a.last_used_at)

-- The first of a sorted list, which stands first among its equals.
abbrev pub earlier : Slot → Option Slot → Option Slot
earlier a none = some a
earlier a (some b) = some (if comes_before b a then b else a)

unfoldable pub first_sorted : List Slot → Option Slot
unfolding comes_before
first_sorted [] = none
first_sorted (a ∷ rest) = earlier a (first_sorted rest)

unfoldable pub pick_browser_with_capacity : PoolConfig → List Slot → Option Slot
unfolding first_sorted has_capacity
pick_browser_with_capacity cfg slots = first_sorted (filter (has_capacity cfg) slots)

unfoldable pub update_slot : ℕ → (Slot → Slot) → List Slot → List Slot
update_slot k f [] = []
update_slot k f (s ∷ rest) = (if nat_eq s.id k then f s else s) ∷ update_slot k f rest

-- A write to the slot with the number, in the list or not.
unfoldable pub write_slot : ℕ → (Slot → Slot) → Pool → Pool
unfolding update_slot
write_slot k f p = record p {
  browsers = update_slot k f p.browsers;
  detached = update_slot k f p.detached;
}

-- `signalNextWaiter`; waiters are told apart by their order only.
abbrev pub wake : Pool → ℕ → Pool
wake p zero = p
wake p (suc n) = record p { waiters = n; woken = p.woken + 1 }

unfoldable pub signal_next_waiter : Pool → Pool
signal_next_waiter p = wake p p.waiters

-- What `memoryAllowsBrowserLaunch` says: it throws, or gives a truth value.
pub data Memory : Type 0 where
  hard_limit soft_limit enough : Memory

-- `n > 0 && rss >= n`
abbrev pub is_reached : ℕ → ℤ → Bool → Bool
is_reached rss (negsuc n) w = false
is_reached rss (pos zero) true = false
is_reached rss (pos zero) false = leb 1 rss
is_reached rss (pos (suc n)) true = leb (suc n) rss
is_reached rss (pos (suc n)) false = ltb (suc n) rss

abbrev pub is_over : ℕ → Option Finite → Bool
is_over rss none = false
is_over rss (some f) = is_reached rss f.floor f.is_whole

unfoldable pub memory_allows_browser_launch : PoolConfig → ℕ → Memory
memory_allows_browser_launch cfg rss =
    if is_over rss cfg.hard_memory_mb
    then hard_limit
    else if is_over rss cfg.soft_memory_mb
    then soft_limit
    else enough

abbrev pub wait_for_slot : Pool → Pool
wait_for_slot p = record p { waiters = p.waiters + 1 }

-- `launchBrowserSlot` up to its await, or the wait behind it; a throw leaves the pool as it is.
abbrev pub launch_or_wait : Memory → Pool → Pool
launch_or_wait hard_limit p = p
launch_or_wait soft_limit p = wait_for_slot p
launch_or_wait enough p = record p { launch_in_flight = p.launch_in_flight + 1 }

abbrev pub pick_or_create : PoolConfig → ℕ → Pool → Option Slot → Pool
pick_or_create cfg rss p (some s) = record p { picked = s.id ∷ p.picked }
pick_or_create cfg rss p none =
    if ltb (length p.browsers + p.launch_in_flight) cfg.max_browsers
    then launch_or_wait (memory_allows_browser_launch cfg rss) p
    else wait_for_slot p

-- A round of the loop of `pickOrCreateSlot` up to its next await or its end.
unfoldable pub pick_or_create_slot : PoolConfig → ℕ → Pool → Pool
unfolding pick_browser_with_capacity memory_allows_browser_launch
pick_or_create_slot cfg rss p = pick_or_create cfg rss p (pick_browser_with_capacity cfg p.browsers)

-- The rest of `launchBrowserSlot` where the browser is there; its slot is picked.
unfoldable pub launched : ℕ → Pool → Pool
launched now p = record p {
  browsers =
      p.browsers
      ++ record {
        id = p.next_id;
        active_contexts = 0;
        created_contexts = 0;
        last_used_at = now;
        closing = false;
      }
        ∷ [];
  launch_in_flight = p.launch_in_flight - 1;
  next_id = p.next_id + 1;
  picked = p.next_id ∷ p.picked;
}

-- The rest where the launch failed or timed out: its caller gets the error.
unfoldable pub launch_failed : Pool → Pool
launch_failed p = record p { launch_in_flight = p.launch_in_flight - 1 }

-- `acquireContext` behind its first await, for a context or, where it is a lease, without the count
-- of created contexts.
abbrev pub taken_at : Bool → ℕ → Slot → Slot
taken_at is_lease now s = record s {
  active_contexts = s.active_contexts + 1;
  created_contexts = if is_lease then s.created_contexts else s.created_contexts + 1;
  last_used_at = now;
}

unfoldable pub take : Bool → ℕ → ℕ → List ℕ → Pool → Pool
unfolding write_slot
take is_lease now k others p =
    write_slot k (taken_at is_lease now) (record p { picked = others; held = k ∷ p.held })

abbrev pub one_less : Slot → Slot
one_less s = record s { active_contexts = s.active_contexts - 1 }

-- `newContext` or `wsEndpoint` has thrown.
unfoldable pub take_failed : ℕ → List ℕ → Pool → Pool
unfolding write_slot signal_next_waiter
take_failed k others p = signal_next_waiter (write_slot k one_less (record p { held = others }))

abbrev pub used_at : ℕ → Slot → Slot
used_at now s = record s { active_contexts = s.active_contexts - 1; last_used_at = now }

unfoldable pub find_slot : ℕ → List Slot → Option Slot
find_slot k [] = none
find_slot k (s ∷ rest) = if nat_eq s.id k then some s else find_slot k rest

abbrev pub is_worn : PoolConfig → Option Slot → ℕ → Bool
is_worn cfg none n = false
is_worn cfg (some s) n =
    nat_eq s.active_contexts 0 && leb cfg.recycle_uses s.created_contexts && ltb 1 n

-- `closeBrowserSlot` up to its await. A slot that is closing already stays as it is.
unfoldable pub close_browser_slot : ℕ → Pool → Pool
unfolding write_slot
close_browser_slot k p = write_slot k (λ s. record s { closing = true }) p

-- The first `release` of a context, once the context is closed.
abbrev pub close_or_signal : Bool → ℕ → Pool → Pool
close_or_signal true k p = close_browser_slot k p
close_or_signal false k p = signal_next_waiter p

unfoldable pub release : PoolConfig → ℕ → ℕ → List ℕ → Pool → Pool
unfolding write_slot close_browser_slot signal_next_waiter find_slot
release cfg now k others p =
    let p' = write_slot k (used_at now) (record p { held = others }) in
    close_or_signal (is_worn cfg (find_slot k (p'.browsers ++ p'.detached)) (length p'.browsers)) k
      p'

-- `releaseRemoteLease` of a lease that is there.
unfoldable pub release_remote_lease : ℕ → ℕ → List ℕ → Pool → Pool
unfolding write_slot signal_next_waiter
release_remote_lease now k others p =
    signal_next_waiter (write_slot k (used_at now) (record p { held = others }))

-- What `cleanupIdleBrowsers` closes, at a time when `cutoff` is `Date.now() - cfg.idleTtlMs`.
unfoldable pub is_idle : ℕ → Slot → ℕ → Bool
is_idle cutoff s n =
    not s.closing && nat_eq s.active_contexts 0 && ltb s.last_used_at cutoff && ltb 1 n

-- `_browsers.splice(_browsers.indexOf(slot), 1)`
unfoldable pub remove_slot : ℕ → List Slot → List Slot
remove_slot k [] = []
remove_slot k (s ∷ rest) = let kept = remove_slot k rest in if nat_eq s.id k then rest else s ∷ kept

abbrev pub as_list : Option Slot → List Slot
as_list none = []
as_list (some s) = s ∷ []

-- The rest of `closeBrowserSlot`.
unfoldable pub closed : ℕ → Pool → Pool
unfolding remove_slot signal_next_waiter find_slot
closed k p = signal_next_waiter (record p {
  browsers = remove_slot k p.browsers;
  detached = as_list (find_slot k p.browsers) ++ p.detached;
})

-- The steps of the callers, of the launches and of the clean-up, until `shutdownPool`. A list of
-- callers is matched up to order: one of them is in front.
pub data Step (cfg : PoolConfig) : Pool → Pool → Type 0 where
  call_step : (rss : ℕ) (p : Pool) → Step cfg p (pick_or_create_slot cfg rss p)
  resume_step :
      (rss n : ℕ) (p : Pool)
      → p.woken ≡ suc n
      → Step cfg p (pick_or_create_slot cfg rss (record p { woken = n }))
  launched_step : (now : ℕ) (p : Pool) → 0 < p.launch_in_flight → Step cfg p (launched now p)
  launch_failed_step : (p : Pool) → 0 < p.launch_in_flight → Step cfg p (launch_failed p)
  take_step :
      (is_lease : Bool) (now k : ℕ) (others : List ℕ) (p : Pool)
      → Permᴰ p.picked (k ∷ others)
      → Step cfg p (take is_lease now k others p)
  take_failed_step :
      (k : ℕ) (others : List ℕ) (p : Pool)
      → Permᴰ p.held (k ∷ others)
      → Step cfg p (take_failed k others p)
  release_step :
      (now k : ℕ) (others : List ℕ) (p : Pool)
      → Permᴰ p.held (k ∷ others)
      → Step cfg p (release cfg now k others p)
  release_remote_lease_step :
      (now k : ℕ) (others : List ℕ) (p : Pool)
      → Permᴰ p.held (k ∷ others)
      → Step cfg p (release_remote_lease now k others p)
  cleanup_step :
      (cutoff k : ℕ) (s : Slot) (p : Pool)
      → find_slot k p.browsers ≡ some s
      → is_idle cutoff s (length p.browsers) ≡ true
      → Step cfg p (close_browser_slot k p)
  closed_step :
      (k : ℕ) (s : Slot) (p : Pool)
      → find_slot k p.browsers ≡ some s
      → s.closing ≡ true
      → Step cfg p (closed k p)

abbrev pub started : Pool
started = record {
  browsers = [];
  detached = [];
  launch_in_flight = 0;
  waiters = 0;
  next_id = 1;
  woken = 0;
  picked = [];
  held = [];
}

pub data Reach (cfg : PoolConfig) : Pool → Type 0 where
  here : Reach cfg started
  next : {p q : Pool} → Reach cfg p → Step cfg p q → Reach cfg q
