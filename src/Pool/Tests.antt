-- ===== src/Pool/Tests.antt =====
-- The theorems on the browser pool at one browser with two contexts.
use vahan.Prelude.{
  ℕ, ◌+◌, ◌<◌, ◌≤◌, ◌≡◌, refl, true, false, none, some, [], ◌∷◌, length, inl, arith,
}
use vahan.Pool.{
  Slot, Pool, PoolConfig, enough, memory_allows_browser_launch, has_capacity,
  pick_browser_with_capacity, Reach, pick_or_create_slot, started, call_step, here, next,
}
use vahan.Pool.Bound.{Reach-total}
use vahan.Pool.Count.{CountsHolders, Reach-CountsHolders}
use vahan.Pool.Overfull.{Reach-overfull}
use vahan.Pool.Stuck.{launching, Reach-stuck}
use vahan.Pool.Pick.{IsIn, pick-least}

abbrev cfg : PoolConfig
cfg = record {
  max_browsers = 1;
  max_contexts_per_browser = 2;
  recycle_uses = 50;
  idle_ttl_ms = 60000;
  cleanup_interval_ms = 15000;
  launch_timeout_ms = 30000;
  soft_memory_mb = none;
  hard_memory_mb = none;
}

has_memory : memory_allows_browser_launch cfg 100 ≡ enough
unfolding memory_allows_browser_launch
has_memory = refl

abbrev called : Pool
called = pick_or_create_slot cfg 100 started

Reach-total_example : length called.browsers + called.launch_in_flight ≤ 1
Reach-total_example = Reach-total cfg called (next here (call_step 100 started))

Reach-CountsHolders_example : CountsHolders called
Reach-CountsHolders_example = Reach-CountsHolders cfg called (next here (call_step 100 started))

Reach-overfull_example :
    (p : Pool) × (s : Slot) × Reach cfg p × (p.browsers ≡ s ∷ []) × (s.active_contexts ≡ 2 + 1)
Reach-overfull_example = Reach-overfull cfg 100 has_memory (omega arith) (omega arith)

Reach-stuck_example : Reach cfg (launching 0 1)
Reach-stuck_example = Reach-stuck cfg 100 has_memory

abbrev slot : ℕ → ℕ → Slot
slot k n = record {
  id = k;
  active_contexts = n;
  created_contexts = n;
  last_used_at = 0;
  closing = false;
}

picked_second : pick_browser_with_capacity cfg (slot 1 1 ∷ slot 2 0 ∷ []) ≡ some (slot 2 0)
unfolding pick_browser_with_capacity
picked_second = refl

first_is_able : has_capacity cfg (slot 1 1) ≡ true
unfolding has_capacity
first_is_able = refl

pick-least_example :
    IsIn (slot 2 0) (slot 1 1 ∷ slot 2 0 ∷ [])
    × ((slot 2 0).closing ≡ false)
    × ((slot 2 0).active_contexts < 2)
    × ((slot 2 0).active_contexts ≤ (slot 1 1).active_contexts)
pick-least_example =
    pick-least cfg (slot 1 1 ∷ slot 2 0 ∷ []) (slot 2 0) (slot 1 1) picked_second (inl refl)
      first_is_able
