-- ===== src/Pool/Count.antt =====
-- The count of contexts of a browser.
use mathlib.Core.List.{Permᴰ}
use vahan.Prelude.{
  ℕ, zero, suc, ◌+◌, ◌-◌, ◌<◌, ◌≡◌, ◌≢◌, refl, ap, ◌∙◌, subst, sym, nat_eq, ltb, Bool, true, false,
  Bool-cases, inl, inr, Option, none, some, List, [], ◌∷◌, ◌++◌, All, All-imp, length,
  if◌then◌else◌, arith,
}
use vahan.Pool.{
  Slot, Pool, PoolConfig, Memory, hard_limit, soft_limit, enough, update_slot, write_slot, wake,
  signal_next_waiter, launch_or_wait, pick_or_create, pick_or_create_slot,
  pick_browser_with_capacity, launched, launch_failed, take, taken_at, take_failed, one_less,
  used_at, close_browser_slot, close_or_signal, release, release_remote_lease, remove_slot, closed,
  memory_allows_browser_launch, Step, call_step, resume_step, launched_step, launch_failed_step,
  take_step, take_failed_step, release_step, release_remote_lease_step, cleanup_step, closed_step,
  Reach, here, next, has_capacity,
}
use vahan.Pool.Pick.{IsIn, filter-IsIn, first_sorted-IsIn}

-- How often a slot is held.
abbrev pub count : ℕ → List ℕ → ℕ
count k [] = 0
count k (j ∷ js) = let rest = count k js in if nat_eq j k then suc rest else rest

-- The count of a browser is that of the callers who hold a context or a lease of it, and no slot
-- that anyone knows has a number that is still to be given.
pub record CountsHolders (p : Pool) : Type 0 where
  pub counted : All (λ s. s.active_contexts ≡ count s.id p.held) p.browsers
  pub known : All (λ s. s.id < p.next_id) p.browsers
  pub held_known : All (λ k. k < p.next_id) p.held
  pub picked_known : All (λ k. k < p.next_id) p.picked

count-perm : {xs ys : List ℕ} (k : ℕ) → Permᴰ xs ys → count k xs ≡ count k ys
count-perm k Permᴰ.nil = refl
count-perm k (Permᴰ.cons e r) = ground (arith, count-perm k r)
count-perm k (Permᴰ.swap e d) = ground arith
count-perm k (Permᴰ.trans r q) = count-perm k r ∙ count-perm k q

All-perm : {xs ys : List ℕ} (P : ℕ → Type 0) → Permᴰ xs ys → All P xs → All P ys
All-perm P Permᴰ.nil h = tt
All-perm P (Permᴰ.cons e r) (p, h) = (subst P e p, All-perm P r h)
All-perm P (Permᴰ.swap e d) (p, (q, h)) = (subst P d q, (subst P e p, h))
All-perm P (Permᴰ.trans r q) h = All-perm P q (All-perm P r h)

All-append {ℓ} :
    {A : Type ℓ} (P : A → Type 0) (xs : List A) (y : A) → All P xs → P y → All P (xs ++ y ∷ [])
All-append P [] y h p = (p, tt)
All-append P (x ∷ xs) y (q, h) p = (q, All-append P xs y h p)

All-IsIn : (P : Slot → Type 0) (ss : List Slot) (s : Slot) → All P ss → IsIn s ss → P s
All-IsIn P [] s h there = absurd there
All-IsIn P (t ∷ ss) s (p, h) (inl same) = subst P same p
All-IsIn P (t ∷ ss) s (p, h) (inr there) = All-IsIn P ss s h there

-- A write to the slots of one number.
All-update_slot :
    (P Q : Slot → Type 0) (k : ℕ) (f : Slot → Slot) (ss : List Slot)
    → ((s : Slot) → s.id ≡ k → P s → Q (f s))
    → ((s : Slot) → s.id ≢ k → P s → Q s)
    → All P ss
    → All Q (update_slot k f ss)
unfolding update_slot
All-update_slot P Q k f [] hit miss h = tt
All-update_slot P Q k f (s ∷ ss) hit miss (p, h) = elim (Bool-cases (nat_eq s.id k)) [
  | inl same ↦ rw same (hit s (ground arith) p, All-update_slot P Q k f ss hit miss h)
  | inr other ↦ rw other (miss s (ground arith) p, All-update_slot P Q k f ss hit miss h)
]

All-remove_slot : (P : Slot → Type 0) (k : ℕ) (ss : List Slot) → All P ss → All P (remove_slot k ss)
unfolding remove_slot
All-remove_slot P k [] h = tt
All-remove_slot P k (s ∷ ss) (p, h) = elim (Bool-cases (nat_eq s.id k)) [
  | inl same ↦ rw same h
  | inr other ↦ rw other (p, All-remove_slot P k ss h)
]

count-fresh : (k : ℕ) (xs : List ℕ) → All (λ j. j < k) xs → count k xs ≡ 0
count-fresh k [] h = refl
count-fresh k (x ∷ xs) (p, h) = ground (arith, count-fresh k xs h)

wake-CountsHolders : (p : Pool) (n : ℕ) → CountsHolders p → CountsHolders (wake p n)
wake-CountsHolders p zero v = v
wake-CountsHolders p (suc n) v = record {
  counted = v.counted;
  known = v.known;
  held_known = v.held_known;
  picked_known = v.picked_known;
}

signal-CountsHolders : (p : Pool) → CountsHolders p → CountsHolders (signal_next_waiter p)
unfolding signal_next_waiter
signal-CountsHolders p v = wake-CountsHolders p p.waiters v

-- A write with a change of the callers who hold the slot.
write-CountsHolders :
    (k : ℕ) (f : Slot → Slot) (p : Pool) (held picked : List ℕ)
    → ((s : Slot) → (f s).id ≡ s.id)
    → ((s : Slot) → s.active_contexts ≡ count k p.held → (f s).active_contexts ≡ count k held)
    → ((i : ℕ) → i ≢ k → count i held ≡ count i p.held)
    → All (λ j. j < p.next_id) held
    → All (λ j. j < p.next_id) picked
    → CountsHolders p
    → CountsHolders (write_slot k f (record p { held = held; picked = picked }))
unfolding write_slot
write-CountsHolders k f p held picked keep hit miss held_known picked_known v = record {
  counted =
      All-update_slot _ _ k f p.browsers
        (λ s is h.
          hit s (h ∙ ap (λ i. count i p.held) is) ∙ ap (λ i. count i held) (sym (keep s ∙ is)))
        (λ s other h. h ∙ sym (miss s.id other)) v.counted;
  known =
      All-update_slot _ _ k f p.browsers (λ s is h. subst (λ i. i < p.next_id) (sym (keep s)) h)
        (λ s other h. h) v.known;
  held_known = held_known;
  picked_known = picked_known;
}

-- One of the callers who hold the slot gives it back.
give_back-CountsHolders :
    (k : ℕ) (f : Slot → Slot) (p : Pool) (others : List ℕ)
    → Permᴰ p.held (k ∷ others)
    → ((s : Slot) → (f s).id ≡ s.id)
    → ((s : Slot) → (f s).active_contexts ≡ s.active_contexts - 1)
    → CountsHolders p
    → CountsHolders (write_slot k f (record p { held = others }))
give_back-CountsHolders k f p others one keep less v =
    write-CountsHolders k f p others p.picked keep
      (λ s h. less s ∙ ap (λ (n : ℕ). n - 1) (h ∙ count-perm k one) ∙ one_fewer k others)
      (λ i other. sym (count-perm i one ∙ elsewhere i k others other))
      (All-perm _ one v.held_known).1 v.picked_known v
  where
    one_fewer : (k : ℕ) (xs : List ℕ) → count k (k ∷ xs) - 1 ≡ count k xs
    one_fewer k xs = ground arith

    elsewhere : (i k : ℕ) (xs : List ℕ) → i ≢ k → count i (k ∷ xs) ≡ count i xs
    elsewhere i k xs other = ground (arith, other)

-- A write that leaves every count alone.
close-CountsHolders : (k : ℕ) (p : Pool) → CountsHolders p → CountsHolders (close_browser_slot k p)
unfolding close_browser_slot
close-CountsHolders k p v =
    write-CountsHolders k (λ s. record s { closing = true }) p p.held p.picked (λ s. refl)
      (λ s h. h) (λ i other. refl) v.held_known v.picked_known v

close_or_signal-CountsHolders :
    (b : Bool) (k : ℕ) (p : Pool) → CountsHolders p → CountsHolders (close_or_signal b k p)
close_or_signal-CountsHolders true k p v = close-CountsHolders k p v
close_or_signal-CountsHolders false k p v = signal-CountsHolders p v

launch_or_wait-CountsHolders :
    (m : Memory) (p : Pool) → CountsHolders p → CountsHolders (launch_or_wait m p)
launch_or_wait-CountsHolders hard_limit p v = v
launch_or_wait-CountsHolders soft_limit p v = record {
  counted = v.counted;
  known = v.known;
  held_known = v.held_known;
  picked_known = v.picked_known;
}
launch_or_wait-CountsHolders enough p v = record {
  counted = v.counted;
  known = v.known;
  held_known = v.held_known;
  picked_known = v.picked_known;
}

pick_or_create-CountsHolders :
    (cfg : PoolConfig) (rss : ℕ) (p : Pool) (o : Option Slot)
    → pick_browser_with_capacity cfg p.browsers ≡ o
    → CountsHolders p
    → CountsHolders (pick_or_create cfg rss p o)
unfolding pick_browser_with_capacity
pick_or_create-CountsHolders cfg rss p (some s) e v =
    let there = (filter-IsIn (has_capacity cfg) p.browsers s (first_sorted-IsIn _ s e)).1 in
    record {
      counted = v.counted;
      known = v.known;
      held_known = v.held_known;
      picked_known = (All-IsIn _ p.browsers s v.known there, v.picked_known);
    }
pick_or_create-CountsHolders cfg rss p none e v =
    branch (ltb (length p.browsers + p.launch_in_flight) cfg.max_browsers)
  where
    branch :
        (b : Bool)
        → CountsHolders (
            if b
            then launch_or_wait (memory_allows_browser_launch cfg rss) p
            else launch_or_wait soft_limit p)
    branch true = launch_or_wait-CountsHolders (memory_allows_browser_launch cfg rss) p v
    branch false = launch_or_wait-CountsHolders soft_limit p v

launched-CountsHolders : (now : ℕ) (p : Pool) → CountsHolders p → CountsHolders (launched now p)
unfolding launched
launched-CountsHolders now p v = record {
  counted = All-append _ p.browsers _ v.counted (sym (count-fresh p.next_id p.held v.held_known));
  known = All-append _ p.browsers _ (All-imp _ _ p.browsers (λ s h. later h) v.known) (omega arith);
  held_known = All-imp _ _ p.held (λ j h. later h) v.held_known;
  picked_known = (omega arith, All-imp _ _ p.picked (λ j h. later h) v.picked_known);
}
  where
    later : {i n : ℕ} → i < n → i < n + 1
    later h = omega arith

Step-CountsHolders :
    {cfg : PoolConfig} {p q : Pool} → Step cfg p q → CountsHolders p → CountsHolders q
unfolding pick_or_create_slot launch_failed take take_failed release release_remote_lease closed
Step-CountsHolders {cfg} (call_step rss p) v = pick_or_create-CountsHolders cfg rss p _ refl v
Step-CountsHolders {cfg} (resume_step rss n p e) v =
    pick_or_create-CountsHolders cfg rss (record p { woken = n }) _ refl
      (record {
        counted = v.counted;
        known = v.known;
        held_known = v.held_known;
        picked_known = v.picked_known;
      })
Step-CountsHolders (launched_step now p flying) v = launched-CountsHolders now p v
Step-CountsHolders (launch_failed_step p flying) v = record {
  counted = v.counted;
  known = v.known;
  held_known = v.held_known;
  picked_known = v.picked_known;
}
Step-CountsHolders (take_step l now k others p one) v =
    let mine = All-perm _ one v.picked_known in
    write-CountsHolders k (taken_at l now) p (k ∷ p.held) others (λ s. refl)
      (λ s h. one_more k p.held s.active_contexts h) (λ i other. elsewhere i k p.held other)
      (mine.0, v.held_known) mine.1 v
  where
    one_more : (k : ℕ) (xs : List ℕ) (n : ℕ) → n ≡ count k xs → n + 1 ≡ count k (k ∷ xs)
    one_more k xs n h = ground arith

    elsewhere : (i k : ℕ) (xs : List ℕ) → i ≢ k → count i (k ∷ xs) ≡ count i xs
    elsewhere i k xs other = ground (arith, other)
Step-CountsHolders (take_failed_step k others p one) v =
    signal-CountsHolders _
      (give_back-CountsHolders k one_less p others one (λ s. refl) (λ s. refl) v)
Step-CountsHolders (release_step now k others p one) v =
    close_or_signal-CountsHolders _ k _
      (give_back-CountsHolders k (used_at now) p others one (λ s. refl) (λ s. refl) v)
Step-CountsHolders (release_remote_lease_step now k others p one) v =
    signal-CountsHolders _
      (give_back-CountsHolders k (used_at now) p others one (λ s. refl) (λ s. refl) v)
Step-CountsHolders (cleanup_step cutoff k s p is idle) v = close-CountsHolders k p v
Step-CountsHolders (closed_step k s p is closing) v = signal-CountsHolders _ (record {
  counted = All-remove_slot _ k p.browsers v.counted;
  known = All-remove_slot _ k p.browsers v.known;
  held_known = v.held_known;
  picked_known = v.picked_known;
})

-- In whatever order the callers, the launches and the clean-up run, the count of each browser is
-- the number of the contexts and leases of it that are held, and no slot that anyone knows has a
-- number that is still to be given.
pub Reach-CountsHolders : (cfg : PoolConfig) (p : Pool) → Reach cfg p → CountsHolders p
Reach-CountsHolders cfg _ here = record {
  counted = tt;
  known = tt;
  held_known = tt;
  picked_known = tt;
}
Reach-CountsHolders cfg _ (next {p} r st) = Step-CountsHolders st (Reach-CountsHolders cfg p r)
