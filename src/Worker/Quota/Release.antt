-- ===== src/Worker/Quota/Release.antt =====
-- A handle that is released again.
use vahan.Prelude.{ℕ, zero, suc, ◌+◌, ◌<◌, ◌≤◌, ◌-◌, ◌≡◌, refl, subst, Bool, true, [], arith}
use vahan.Worker.Quota.{
  Quota, enter, increment, acquired, release, release_again, decrement, signal_next_waiter, Reach,
  call_step, acquired_step, release_step, release_again_step, here, next,
}

-- The tenant with `n` counted, `m` handles held, `k` released and nobody waiting.
abbrev pub holding : ℕ → ℕ → ℕ → Quota
holding n m k = record {
  active = n;
  rejections = 0;
  waiters = [];
  woken = [];
  acquiring = 0;
  held = m;
  released = k;
}

-- A call below the quota that is given its handle.
called :
    (quota n m k : ℕ) (fast again : Bool)
    → n < quota
    → Reach quota fast again (holding n m k)
    → Reach quota fast again (holding (n + 1) (m + 1) k)
unfolding acquired enter increment
called quota n m k fast again below r =
    subst (Reach quota fast again) given
      (next (next r (call_step 0 _)) (acquired_step _ some_running))
  where
    some_running : 0 < (enter quota fast 0 (holding n m k)).acquiring
    some_running = ground arith

    given : acquired (enter quota fast 0 (holding n m k)) ≡ holding (n + 1) (m + 1) k
    given = ground arith

-- One handle that was given and released.
one_released : (quota : ℕ) (fast again : Bool) → 0 < quota → Reach quota fast again (holding 0 0 1)
unfolding release decrement signal_next_waiter
one_released quota fast again positive =
    next (called quota 0 0 0 fast again positive here) (release_step _ (omega arith))

-- Then the quota is filled.
filled :
    (quota n : ℕ) (fast again : Bool)
    → 0 < quota
    → n ≤ quota
    → Reach quota fast again (holding n n 1)
filled quota zero fast again positive le = one_released quota fast again positive
filled quota (suc n) fast again positive le =
    subst (λ k. Reach quota fast again (holding k k 1)) (omega arith)
      (called quota n n 1 fast again (omega arith)
        (filled quota n fast again positive (omega arith)))

-- A handle that is released twice gives its tenant a context over the quota: where a handle that
-- was released may be released again, more handles than the quota can be held at once.
pub Reach-over_quota :
    (quota : ℕ) (fast : Bool)
    → 0 < quota
    → (s : Quota) × Reach quota fast true s × (s.held ≡ quota + 1)
unfolding release_again decrement signal_next_waiter
Reach-over_quota quota fast positive =
    let r : Reach quota fast true (holding (quota - 1) quota 1) =
      next (filled quota quota fast true positive (omega arith))
        (release_again_step _ refl (omega arith)) in
    (
      holding (quota - 1 + 1) (quota + 1) 1,
      called quota (quota - 1) quota 1 fast true (omega arith) r,
      refl,
    )
