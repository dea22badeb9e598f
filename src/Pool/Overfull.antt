-- ===== src/Pool/Overfull.antt =====
-- Contexts over `BROWSER_POOL_MAX_CONTEXTS_PER_BROWSER`.
use mathlib.Core.List.Permᴰ
use vahan.Prelude.{
  ℕ, zero, suc, ◌+◌, ◌-◌, ◌<◌, ◌≡◌, refl, subst, ap, ltb, true, false, List, [], ◌∷◌, arith,
}
use vahan.Pool.{
  Slot, Pool, PoolConfig, enough, update_slot, write_slot, pick_or_create_slot, launched, take,
  memory_allows_browser_launch, call_step, launched_step, take_step, started, Reach, here, next,
}

-- One browser with `n` contexts.
abbrev slot : ℕ → Slot
slot n = record {
  id = 1;
  active_contexts = n;
  created_contexts = n;
  last_used_at = 0;
  closing = false;
}

abbrev one_browser : ℕ → List ℕ → List ℕ → Pool
one_browser n picked held = record {
  browsers = slot n ∷ [];
  detached = [];
  launch_in_flight = 0;
  waiters = 0;
  next_id = 2;
  woken = 0;
  picked = picked;
  held = held;
}

abbrev ones : ℕ → List ℕ
ones zero = []
ones (suc n) = 1 ∷ ones n

ltb-true : (a b : ℕ) → a < b → ltb a b ≡ true
ltb-true a b h = ground arith

-- A caller who has picked the browser takes a context of it.
takes :
    (n : ℕ) (rest held : List ℕ)
    → take false 0 1 rest (one_browser n (1 ∷ rest) held) ≡ one_browser (suc n) rest (1 ∷ held)
unfolding take write_slot update_slot
takes n rest held = ap (λ k. one_browser k rest (1 ∷ held)) (n+1-eq n)
  where
    n+1-eq : (n : ℕ) → n + 1 ≡ suc n
    n+1-eq n = omega arith

module _ (cfg : PoolConfig) (rss : ℕ)
    (has_memory : memory_allows_browser_launch cfg rss ≡ enough) where
  -- A caller picks the browser while it has capacity, whoever else has picked it.
  picks :
      (n : ℕ) (picked held : List ℕ)
      → n < cfg.max_contexts_per_browser
      → pick_or_create_slot cfg rss (one_browser n picked held) ≡ one_browser n (1 ∷ picked) held
  unfolding pick_or_create_slot
  picks n picked held below = rw (ltb-true n cfg.max_contexts_per_browser below) refl

  first_launch : 0 < cfg.max_browsers → Reach cfg (one_browser 0 (1 ∷ []) [])
  unfolding pick_or_create_slot launched
  first_launch some_browser =
      next {p = record started { launch_in_flight = 1 }}
        (subst (Reach cfg) launches (next here (call_step rss started)))
        (launched_step 0 _ (omega arith))
    where
      launches : pick_or_create_slot cfg rss started ≡ record started { launch_in_flight = 1 }
      launches = rw (ltb-true 0 cfg.max_browsers some_browser, has_memory) refl

  call_and_pick :
      (n : ℕ) (picked held : List ℕ)
      → n < cfg.max_contexts_per_browser
      → Reach cfg (one_browser n picked held)
      → Reach cfg (one_browser n (1 ∷ picked) held)
  call_and_pick n picked held below r =
      subst (Reach cfg) (picks n picked held below) (next r (call_step rss _))

  take_context :
      (n : ℕ) (rest held : List ℕ)
      → Reach cfg (one_browser n (1 ∷ rest) held)
      → Reach cfg (one_browser (suc n) rest (1 ∷ held))
  take_context n rest held r =
      subst (Reach cfg) (takes n rest held)
        (next r (take_step false 0 1 rest _ (Permᴰ.refl (1 ∷ rest))))

  filled :
      (n : ℕ)
      → 0 < cfg.max_browsers
      → n < cfg.max_contexts_per_browser
      → Reach cfg (one_browser n (1 ∷ []) (ones n))
  filled zero some_browser below = first_launch some_browser
  filled (suc n) some_browser below =
      call_and_pick (suc n) [] (ones (suc n)) below
        (take_context n [] (ones n) (filled n some_browser (omega arith)))

  -- Between picking a slot and counting the context other callers run, and pick the same slot: where
  -- memory allows a launch, a browser with one context more than
  -- `BROWSER_POOL_MAX_CONTEXTS_PER_BROWSER` can be reached.
  pub Reach-overfull :
      0 < cfg.max_browsers
      → 0 < cfg.max_contexts_per_browser
      → (p : Pool) × (s : Slot) × Reach cfg p
        × (p.browsers ≡ s ∷ [])
        × (s.active_contexts ≡ cfg.max_contexts_per_browser + 1)
  Reach-overfull some_browser some_context =
      let n = cfg.max_contexts_per_browser - 1 in
      let r = filled n some_browser (omega arith) in
      let r2 = call_and_pick n (1 ∷ []) (ones n) (omega arith) r in
      let r3 = take_context n (1 ∷ []) (ones n) r2 in
      (
        one_browser (suc (suc n)) [] (1 ∷ 1 ∷ ones n),
        slot (suc (suc n)),
        take_context (suc n) [] (1 ∷ ones n) r3,
        refl,
        omega arith,
      )
