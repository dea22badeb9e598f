-- ===== src/Pool/Stuck.antt =====
-- Callers who wait for a slot that nobody will signal.
use vahan.Prelude.{ℕ, zero, suc, ◌+◌, ◌<◌, ◌≤◌, ◌≡◌, refl, subst, ap, ltb, true, false, arith}
use vahan.Pool.{
  Pool, PoolConfig, enough, pick_or_create_slot, launch_failed, memory_allows_browser_launch,
  call_step, launch_failed_step, started, Reach, here, next,
}

-- No browser, `n` launches under way and `m` callers who wait.
abbrev pub launching : ℕ → ℕ → Pool
launching n m = record started { launch_in_flight = n; waiters = m }

module _ (cfg : PoolConfig) (rss : ℕ)
    (has_memory : memory_allows_browser_launch cfg rss ≡ enough) where
  launches :
      (n : ℕ)
      → n < cfg.max_browsers
      → pick_or_create_slot cfg rss (launching n 0) ≡ launching (suc n) 0
  unfolding pick_or_create_slot
  launches n below =
      rw (below_max n cfg.max_browsers below, has_memory) (ap (λ k. launching k 0) (one_more n))
    where
      below_max : (a b : ℕ) → a < b → ltb (0 + a) b ≡ true
      below_max a b h = ground arith

      one_more : (n : ℕ) → n + 1 ≡ suc n
      one_more n = omega arith

  waits :
      (n : ℕ) → n ≡ cfg.max_browsers → pick_or_create_slot cfg rss (launching n 0) ≡ launching n 1
  unfolding pick_or_create_slot
  waits n full = rw (at_max n cfg.max_browsers full) refl
    where
      at_max : (a b : ℕ) → a ≡ b → ltb (0 + a) b ≡ false
      at_max a b h = ground arith

  all_launching : (n : ℕ) → n ≤ cfg.max_browsers → Reach cfg (launching n 0)
  all_launching zero le = here
  all_launching (suc n) le =
      subst (Reach cfg) (launches n (omega arith))
        (next (all_launching n (omega arith)) (call_step rss _))

  all_failed : (n : ℕ) → Reach cfg (launching n 1) → Reach cfg (launching 0 1)
  unfolding launch_failed
  all_failed zero r = r
  all_failed (suc n) r = all_failed n (
      subst (λ k. Reach cfg (launching k 1)) (omega arith)
        (next r (launch_failed_step _ (omega arith))))

  -- A launch that fails signals nobody: where memory allows a launch, an engine can be reached in
  -- which a caller waits, and no browser, no launch, no context, no lease and no woken caller is
  -- left that could signal it.
  pub Reach-stuck : Reach cfg (launching 0 1)
  Reach-stuck = all_failed cfg.max_browsers (
      subst (Reach cfg) (waits cfg.max_browsers refl)
        (next (all_launching cfg.max_browsers (omega arith)) (call_step rss _)))
