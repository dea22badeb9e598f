-- ===== src/Pool/Bound.antt =====
-- How many browsers there are.
use vahan.Prelude.{
  ℕ, zero, suc, ◌+◌, ◌<◌, ◌≤◌, ◌≡◌, refl, ltb, Bool, true, false, Option, none, some, List, [], ◌∷◌,
  ◌++◌, length, if◌then◌else◌, arith,
}
use vahan.Pool.{
  Slot, Pool, PoolConfig, Memory, hard_limit, soft_limit, enough, update_slot, write_slot, wake,
  signal_next_waiter, launch_or_wait, pick_or_create, pick_or_create_slot, launched, launch_failed,
  take, taken_at, take_failed, one_less, used_at, close_browser_slot, close_or_signal, release,
  release_remote_lease, remove_slot, closed, as_list, find_slot, is_worn,
  memory_allows_browser_launch, Step, call_step, resume_step, launched_step, launch_failed_step,
  take_step, take_failed_step, release_step, release_remote_lease_step, cleanup_step, closed_step,
  Reach, here, next, pick_browser_with_capacity,
}

-- Browsers, and launches that are under way.
abbrev pub total : Pool → ℕ
total p = length p.browsers + p.launch_in_flight

length-append : (xs ys : List Slot) → length (xs ++ ys) ≡ length xs + length ys
length-append [] ys = omega arith
length-append (x ∷ xs) ys = omega (arith, length-append xs ys)

length-update_slot :
    (k : ℕ) (f : Slot → Slot) (ss : List Slot) → length (update_slot k f ss) ≡ length ss
unfolding update_slot
length-update_slot k f [] = refl
length-update_slot k f (s ∷ ss) = omega (arith, length-update_slot k f ss)

length-remove_slot : (k : ℕ) (ss : List Slot) → length (remove_slot k ss) ≤ length ss
unfolding remove_slot
length-remove_slot k [] = omega arith
length-remove_slot k (s ∷ ss) = ground (arith, length-remove_slot k ss)

total-wake : (p : Pool) (n : ℕ) → total (wake p n) ≡ total p
total-wake p zero = refl
total-wake p (suc n) = refl

total-signal : (p : Pool) → total (signal_next_waiter p) ≡ total p
unfolding signal_next_waiter
total-signal p = total-wake p p.waiters

total-write_slot : (k : ℕ) (f : Slot → Slot) (p : Pool) → total (write_slot k f p) ≡ total p
unfolding write_slot
total-write_slot k f p = omega (arith, length-update_slot k f p.browsers)

total-close : (k : ℕ) (p : Pool) → total (close_browser_slot k p) ≡ total p
unfolding close_browser_slot
total-close k p = total-write_slot k _ p

total-close_or_signal : (b : Bool) (k : ℕ) (p : Pool) → total (close_or_signal b k p) ≡ total p
total-close_or_signal true k p = total-close k p
total-close_or_signal false k p = total-signal p

launch_or_wait-le :
    (m : Memory) (p : Pool) (max : ℕ) → total p < max → total (launch_or_wait m p) ≤ max
launch_or_wait-le hard_limit p max h = omega arith
launch_or_wait-le soft_limit p max h = omega arith
launch_or_wait-le enough p max h = omega arith

pick_or_create-le :
    (cfg : PoolConfig) (rss : ℕ) (p : Pool) (o : Option Slot)
    → total p ≤ cfg.max_browsers
    → total (pick_or_create cfg rss p o) ≤ cfg.max_browsers
pick_or_create-le cfg rss p (some s) h = h
pick_or_create-le cfg rss p none h = branch (ltb (total p) cfg.max_browsers) refl
  where
    branch :
        (b : Bool)
        → ltb (total p) cfg.max_browsers ≡ b
        → total (
            if b
            then launch_or_wait (memory_allows_browser_launch cfg rss) p
            else vahan.Pool.wait_for_slot p)
          ≤ cfg.max_browsers
    branch true e = launch_or_wait-le (memory_allows_browser_launch cfg rss) p _ (ground arith)
    branch false e = h

Step-total :
    {cfg : PoolConfig} {p q : Pool}
    → Step cfg p q
    → total p ≤ cfg.max_browsers
    → total q ≤ cfg.max_browsers
unfolding pick_or_create_slot launched launch_failed take take_failed release release_remote_lease
    closed
Step-total {cfg} (call_step rss p) h = pick_or_create-le cfg rss p _ h
Step-total {cfg} (resume_step rss n p e) h = pick_or_create-le cfg rss (record p { woken = n }) _ h
Step-total (launched_step now p flying) h = omega (arith, length-append p.browsers (_ ∷ []))
Step-total (launch_failed_step p flying) h = omega arith
Step-total (take_step l now k others p e) h =
    omega
      (arith, total-write_slot k (taken_at l now) (record p { picked = others; held = k ∷ p.held }))
Step-total (take_failed_step k others p e) h = omega (
  arith,
  total-signal (write_slot k one_less (record p { held = others })),
  total-write_slot k one_less (record p { held = others }),
)
Step-total {cfg} (release_step now k others p e) h =
    let p' = write_slot k (used_at now) (record p { held = others }) in
    omega (
      arith,
      total-close_or_signal
          (is_worn cfg (find_slot k (p'.browsers ++ p'.detached)) (length p'.browsers)) k p',
      total-write_slot k (used_at now) (record p { held = others }),
    )
Step-total (release_remote_lease_step now k others p e) h = omega (
  arith,
  total-signal (write_slot k (used_at now) (record p { held = others })),
  total-write_slot k (used_at now) (record p { held = others }),
)
Step-total (cleanup_step cutoff k s p is idle) h = omega (arith, total-close k p)
Step-total (closed_step k s p is closing) h = omega (
  arith,
  total-signal (record p {
    browsers = remove_slot k p.browsers;
    detached = as_list (find_slot k p.browsers) ++ p.detached;
  }),
  length-remove_slot k p.browsers,
)

-- In whatever order the callers, the launches and the clean-up run, the browsers of an engine and
-- its launches under way are together at most `BROWSER_POOL_MAX_BROWSERS`.
pub Reach-total :
    (cfg : PoolConfig) (p : Pool)
    → Reach cfg p
    → length p.browsers + p.launch_in_flight ≤ cfg.max_browsers
Reach-total cfg _ here = omega arith
Reach-total cfg _ (next {p} r st) = Step-total st (Reach-total cfg p r)
