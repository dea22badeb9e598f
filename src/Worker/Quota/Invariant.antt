-- ===== src/Worker/Quota/Invariant.antt =====
-- The count of a tenant while each handle is released once, and the callers who wait.
use mathlib.Core.List.{Permᴰ}
use vahan.Prelude.{
  ℕ, suc, ◌+◌, ◌-◌, ◌<◌, ◌≤◌, ◌≡◌, ◌≢◌, refl, ◌⊎◌, inl, inr, ltb, Bool, true, false, List, [], ◌∷◌,
  ◌++◌, length, if◌then◌else◌, arith, ap, ◌∙◌,
}
use vahan.Worker.Quota.{
  Quota, woken_first, signal_next_waiter, decrement, increment, enter, splice, time_out, resume,
  acquired, acquire_failed, release, release_again, Step, Reach, call_step, resume_step,
  time_out_step, acquired_step, acquire_failed_step, release_step, release_again_step, here, next,
}

-- The count is that of the callers in `acquire()` and of the handles that are held, and is within
-- the quota.
pub record IsCounted (quota : ℕ) (s : Quota) : Type 0 where
  pub counted : s.active ≡ s.acquiring + s.held
  pub bounded : s.active ≤ quota

decrement-IsCounted :
    (quota : ℕ) (s : Quota)
    → s.active ≡ suc (s.acquiring + s.held)
    → s.active ≤ quota
    → IsCounted quota (decrement s)
unfolding decrement signal_next_waiter
decrement-IsCounted quota s counted bounded = signalled s.waiters
  where
    signalled :
        (ws : List ℕ) → IsCounted quota (woken_first (record s { active = s.active - 1 }) ws)
    signalled [] = record { counted = omega arith; bounded = omega arith }
    signalled (i ∷ rest) = record { counted = omega arith; bounded = omega arith }

enter-IsCounted :
    (quota : ℕ) (fast : Bool) (i : ℕ) (s : Quota)
    → IsCounted quota s
    → IsCounted quota (enter quota fast i s)
unfolding enter increment
enter-IsCounted quota fast i s v = ground arith

Step-IsCounted :
    {quota : ℕ} {fast : Bool} {s t : Quota}
    → Step quota fast false s t
    → IsCounted quota s
    → IsCounted quota t
unfolding resume time_out acquired acquire_failed release
Step-IsCounted {quota} {fast} (call_step i s) v = enter-IsCounted quota fast i s v
Step-IsCounted {quota} {fast} (resume_step i others s e) v =
    enter-IsCounted quota fast i _ (record { counted = v.counted; bounded = v.bounded })
Step-IsCounted (time_out_step i s waits) v = record { counted = v.counted; bounded = v.bounded }
Step-IsCounted (acquired_step s some_running) v = ground arith
Step-IsCounted {quota} (acquire_failed_step s some_running) v =
    let counted = v.counted in decrement-IsCounted quota _ (omega arith) v.bounded
Step-IsCounted {quota} (release_step s some_held) v =
    let counted = v.counted in decrement-IsCounted quota _ (omega arith) v.bounded
Step-IsCounted (release_again_step s allowed some_released) v = cc

pub Reach-IsCounted :
    (quota : ℕ) (fast : Bool) (s : Quota) → Reach quota fast false s → IsCounted quota s
Reach-IsCounted quota fast _ here = record { counted = refl; bounded = omega arith }
Reach-IsCounted quota fast _ (next {s} r st) = Step-IsCounted st (Reach-IsCounted quota fast s r)

-- While someone waits, the count and the callers woken make up the quota.
abbrev NoneLost : ℕ → Quota → Type 0
NoneLost quota s = (s.waiters ≡ []) ⊎ (quota ≤ s.active + length s.woken)

waits-NoneLost :
    (quota n : ℕ) (active woken : ℕ) (ws : List ℕ)
    → (ws ≡ []) ⊎ (quota ≤ active + n)
    → n ≤ suc woken
    → (ws ≡ []) ⊎ (quota ≤ active + 1 + woken)
waits-NoneLost quota n active woken ws (inl e) le = inl e
waits-NoneLost quota n active woken ws (inr e) le = inr (omega arith)

enter-NoneLost :
    (quota i n : ℕ) (s : Quota)
    → (s.waiters ≡ []) ⊎ (quota ≤ s.active + n)
    → n ≤ suc (length s.woken)
    → NoneLost quota (enter quota false i s)
unfolding enter increment
enter-NoneLost quota i n s v le = branch (ltb s.active quota) refl
  where
    branch :
        (b : Bool)
        → ltb s.active quota ≡ b
        → NoneLost quota (
            if b
            then record (increment s) { acquiring = s.acquiring + 1 }
            else record s { waiters = s.waiters ++ i ∷ [] })
    branch true e = waits-NoneLost quota n s.active (length s.woken) s.waiters v le
    branch false e = inr (ground arith)

decrement-NoneLost : (quota : ℕ) (s : Quota) → NoneLost quota s → NoneLost quota (decrement s)
unfolding decrement signal_next_waiter
decrement-NoneLost quota s v = signalled s.waiters v
  where
    signalled :
        (ws : List ℕ)
        → (ws ≡ []) ⊎ (quota ≤ s.active + length s.woken)
        → NoneLost quota (woken_first (record s { active = s.active - 1; waiters = ws }) ws)
    signalled [] v = inl refl
    signalled (i ∷ rest) (inl e) = cc
    signalled (i ∷ rest) (inr e) = inr (omega arith)

Permᴰ-length : {xs ys : List ℕ} → Permᴰ xs ys → length xs ≡ length ys
Permᴰ-length Permᴰ.nil = refl
Permᴰ-length (Permᴰ.cons e p) = ap suc (Permᴰ-length p)
Permᴰ-length (Permᴰ.swap e e') = refl
Permᴰ-length (Permᴰ.trans p q) = Permᴰ-length p ∙ Permᴰ-length q

splice-empty : (i : ℕ) (ws : List ℕ) → ws ≡ [] → splice i ws ≡ []
unfolding splice
splice-empty i [] e = refl
splice-empty i (j ∷ js) e = cc

Step-NoneLost :
    {quota : ℕ} {again : Bool} {s t : Quota}
    → Step quota false again s t
    → NoneLost quota s
    → NoneLost quota t
unfolding resume time_out acquired acquire_failed release release_again
Step-NoneLost {quota} (call_step i s) v = enter-NoneLost quota i (length s.woken) s v (omega arith)
Step-NoneLost {quota} (resume_step i others s e) v =
    enter-NoneLost quota i (suc (length others)) _ (counted v) (omega arith)
  where
    counted : NoneLost quota s → (s.waiters ≡ []) ⊎ (quota ≤ s.active + suc (length others))
    counted (inl none_waits) = inl none_waits
    counted (inr enough) = inr (omega (arith, Permᴰ-length e))
Step-NoneLost (time_out_step i s waits) (inl e) = inl (splice-empty i s.waiters e)
Step-NoneLost (time_out_step i s waits) (inr e) = inr e
Step-NoneLost (acquired_step s some_running) v = v
Step-NoneLost {quota} (acquire_failed_step s some_running) v = decrement-NoneLost quota _ v
Step-NoneLost {quota} (release_step s some_held) v = decrement-NoneLost quota _ v
Step-NoneLost {quota} (release_again_step s allowed some_released) v = decrement-NoneLost quota _ v

Reach-NoneLost :
    (quota : ℕ) (again : Bool) (s : Quota) → Reach quota false again s → NoneLost quota s
Reach-NoneLost quota again _ here = inl refl
Reach-NoneLost quota again _ (next {s} r st) = Step-NoneLost st (Reach-NoneLost quota again s r)

-- No caller waits in vain: where handles are released once and a quota is set, then while someone
-- waits for a slot, someone else was woken and will run, or is in `acquire()`, or holds a handle.
pub Reach-no_deadlock :
    (quota : ℕ) (s : Quota)
    → 0 < quota
    → Reach quota false false s
    → s.waiters ≢ []
    → 0 < length s.woken + s.acquiring + s.held
Reach-no_deadlock quota s positive r someone =
    decide (Reach-NoneLost quota false s r) (Reach-IsCounted quota false s r)
  where
    decide : NoneLost quota s → IsCounted quota s → 0 < length s.woken + s.acquiring + s.held
    decide (inl e) v = absurd (someone e)
    decide (inr e) v = let counted = v.counted in omega arith
