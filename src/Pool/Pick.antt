-- ===== src/Pool/Pick.antt =====
-- Which slot `pickBrowserWithCapacity` picks.
use vahan.Prelude.{
  ◌≤◌, ◌<◌, ◌≡◌, refl, sym, subst, ◌⊎◌, inl, inr, Bool, true, false, Bool-cases, none, some,
  Option-cases, List, [], ◌∷◌, filter, Any, arith,
}
use vahan.Pool.{
  Slot, PoolConfig, has_capacity, comes_before, earlier, first_sorted, pick_browser_with_capacity,
}

abbrev pub IsIn : Slot → List Slot → Type 0
IsIn s = Any (λ u. u ≡ s)

pub filter-IsIn :
    (p : Slot → Bool) (ss : List Slot) (s : Slot) → IsIn s (filter p ss) → (p s ≡ true) × IsIn s ss
filter-IsIn p [] s h = absurd h
filter-IsIn p (t ∷ ss) s h = elim (Bool-cases (p t)) [
  | inl yes_there ↦ kept (filter-IsIn p ss s) yes_there (rw yes_there at h)
  | inr other ↦ let (a, b) = filter-IsIn p ss s (rw other at h) in (a, inr b)
]
  where
    kept :
        (IsIn s (filter p ss) → (p s ≡ true) × IsIn s ss)
        → p t ≡ true
        → IsIn s (t ∷ filter p ss)
        → (p s ≡ true) × IsIn s (t ∷ ss)
    kept later e (inl same) = (subst (λ u. p u ≡ true) same e, inl same)
    kept later e (inr there) = let (a, b) = later there in (a, inr b)

IsIn-filter :
    (p : Slot → Bool) (ss : List Slot) (s : Slot) → IsIn s ss → p s ≡ true → IsIn s (filter p ss)
IsIn-filter p [] s there e = absurd there
IsIn-filter p (t ∷ ss) s (inl same) e = rw (subst (λ u. p u ≡ true) (sym same) e) (inl same)
IsIn-filter p (t ∷ ss) s (inr there) e = elim (Bool-cases (p t)) [
  | inl kept ↦ rw kept (inr (IsIn-filter p ss s there e))
  | inr dropped ↦ rw dropped (IsIn-filter p ss s there e)
]

comes_before-le :
    (b a : Slot)
    → (comes_before b a ≡ true → b.active_contexts ≤ a.active_contexts)
      × (comes_before b a ≡ false → a.active_contexts ≤ b.active_contexts)
unfolding comes_before
comes_before-le b a = (λ h. ground arith, λ h. ground arith)

some-same : {x y : Slot} → some x ≡ some y → x ≡ y
some-same e = cc

-- The first of two is one of them, and has no more contexts than the other.
earlier-le :
    (a b s : Slot)
    → earlier a (some b) ≡ some s
    → ((a ≡ s) ⊎ (b ≡ s))
      × (s.active_contexts ≤ a.active_contexts)
      × (s.active_contexts ≤ b.active_contexts)
earlier-le a b s h = elim (Bool-cases (comes_before b a)) [
  | inl yes_before ↦
      let same = some-same (rw yes_before at h) in
      (
        inr same,
        subst (λ u. u.active_contexts ≤ a.active_contexts) same
            ((comes_before-le b a).0 yes_before),
        subst (λ u. u.active_contexts ≤ b.active_contexts) same (omega arith),
      )
  | inr behind ↦
      let same = some-same (rw behind at h) in
      (
        inl same,
        subst (λ u. u.active_contexts ≤ a.active_contexts) same (omega arith),
        subst (λ u. u.active_contexts ≤ b.active_contexts) same ((comes_before-le b a).1 behind),
      )
]

first_sorted-none : (ss : List Slot) → first_sorted ss ≡ none → ss ≡ []
unfolding first_sorted
first_sorted-none [] h = refl
first_sorted-none (a ∷ ss) h = elim (Option-cases (first_sorted ss)) [
  | inl gone ↦ cc (rw gone at h)
  | inr (b, is) ↦ cc (rw is at h)
]

pub first_sorted-IsIn : (ss : List Slot) (s : Slot) → first_sorted ss ≡ some s → IsIn s ss
unfolding first_sorted
first_sorted-IsIn [] s h = cc
first_sorted-IsIn (a ∷ ss) s h = elim (Option-cases (first_sorted ss)) [
  | inl gone ↦ inl (some-same (rw gone at h))
  | inr (b, is) ↦ which (first_sorted-IsIn ss b is) (earlier-le a b s (rw is at h)).0
]
  where
    which : {b : Slot} → IsIn b ss → (a ≡ s) ⊎ (b ≡ s) → IsIn s (a ∷ ss)
    which later (inl same) = inl same
    which later (inr same) = inr (subst (λ u. IsIn u ss) same later)

first_sorted-least :
    (ss : List Slot) (s t : Slot)
    → first_sorted ss ≡ some s
    → IsIn t ss
    → s.active_contexts ≤ t.active_contexts
unfolding first_sorted
first_sorted-least [] s t h there = absurd there
first_sorted-least (a ∷ ss) s t h (inl same) = elim (Option-cases (first_sorted ss)) [
  | inl gone ↦
      subst (λ u. u.active_contexts ≤ t.active_contexts) (some-same (rw gone at h))
        (subst (λ u. a.active_contexts ≤ u.active_contexts) same (omega arith))
  | inr (b, is) ↦
      subst (λ u. s.active_contexts ≤ u.active_contexts) same (earlier-le a b s (rw is at h)).1
]
first_sorted-least (a ∷ ss) s t h (inr later) = elim (Option-cases (first_sorted ss)) [
  | inl gone ↦ absurd (subst (IsIn t) (first_sorted-none ss gone) later)
  | inr (b, is) ↦
      let le = (earlier-le a b s (rw is at h)).2 in
      let le' = first_sorted-least ss b t is later in omega arith
]

-- A slot that is picked is one of the browsers, is not closing and has capacity, and no other such
-- slot has fewer contexts.
pub pick-least :
    (cfg : PoolConfig) (slots : List Slot) (s t : Slot)
    → pick_browser_with_capacity cfg slots ≡ some s
    → IsIn t slots
    → has_capacity cfg t ≡ true
    → IsIn s slots
      × (s.closing ≡ false)
      × (s.active_contexts < cfg.max_contexts_per_browser)
      × (s.active_contexts ≤ t.active_contexts)
unfolding pick_browser_with_capacity has_capacity
pick-least cfg slots s t h there able =
    let (able', is_in) = filter-IsIn (has_capacity cfg) slots s (first_sorted-IsIn _ s h) in
    (
      is_in,
      ground arith,
      ground arith,
      first_sorted-least _ s t h (IsIn-filter (has_capacity cfg) slots t there able),
    )
