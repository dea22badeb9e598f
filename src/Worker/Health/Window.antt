-- ===== src/Worker/Health/Window.antt =====
-- What the monitor reports after any failures of a portal.
use vahan.Prelude.{
  ℕ, suc, ◌+◌, ◌-◌, ◌<◌, ◌≤◌, ◌≡◌, refl, ap, ◌∙◌, subst, leb, true, Bool-cases, inl, inr, Option,
  none, some, or_else, List, [], ◌∷◌, ◌++◌, filter, length, if◌then◌else◌, arith,
}
use vahan.Worker.Health.{
  Monitor, Portal, fresh, recent, is_cooling_down, alerts_now, record_failure,
}

-- The portal after failures at these times, the last of them first.
abbrev pub after : Monitor → List ℕ → Portal
after m [] = fresh
after m (now ∷ before) = (record_failure m (after m before) now).portal

-- Each time is no earlier than those before it.
abbrev pub IsLater : ℕ → List ℕ → Type 0
IsLater now [] = Unit
IsLater now (t ∷ before) = t ≤ now

abbrev pub IsInOrder : List ℕ → Type 0
IsInOrder [] = Unit
IsInOrder (now ∷ before) = IsLater now before × IsInOrder before

-- How many of the times are at or after one.
abbrev pub since : ℕ → List ℕ → ℕ
since floor ts = length (filter (λ t. leb floor t) ts)

since-append : (floor now : ℕ) (ts : List ℕ) → since floor (ts ++ now ∷ []) ≡ since floor (now ∷ ts)
since-append floor now [] = refl
since-append floor now (t ∷ ts) = ground (arith, since-append floor now ts)

since-filter :
    (floor low : ℕ) (ts : List ℕ)
    → low ≤ floor
    → since floor (filter (λ t. leb low t) ts) ≡ since floor ts
since-filter floor low [] le = refl
since-filter floor low (t ∷ ts) le = ground (arith, since-filter floor low ts)

since-cons :
    (floor t : ℕ) (xs ys : List ℕ)
    → since floor xs ≡ since floor ys
    → since floor (t ∷ xs) ≡ since floor (t ∷ ys)
since-cons floor t xs ys e = elim (Bool-cases (leb floor t)) [
  | inl in_it ↦ rw in_it (ap suc e)
  | inr out ↦ rw out e
]

-- Nothing that a later window can hold is forgotten.
since-after :
    (m : Monitor) (floor : ℕ) (before : List ℕ)
    → IsInOrder before
    → (now : ℕ) → IsLater now before
    → now - m.window_ms ≤ floor
    → since floor (after m before).failure_timestamps ≡ since floor before
unfolding record_failure recent
since-after m floor [] ordered now later le = refl
since-after m floor (t ∷ before) (later_t, ordered) now later le =
    since-filter floor (t - m.window_ms) ((after m before).failure_timestamps ++ t ∷ [])
      (omega arith)
    ∙ since-append floor t (after m before).failure_timestamps
    ∙ since-cons floor t _ before (since-after m floor before ordered t later_t (omega arith))

-- After failures of a portal at times in order, the number that the monitor reports for one more is
-- that of all failures so far whose time is at most the window before it.
pub record_failure-failures :
    (m : Monitor) (now : ℕ) (before : List ℕ)
    → IsInOrder (now ∷ before)
    → (record_failure m (after m before) now).failures_in_window
      ≡ since (now - m.window_ms) (now ∷ before)
unfolding record_failure recent
record_failure-failures m now before (later, ordered) =
    since-append (now - m.window_ms) now (after m before).failure_timestamps
    ∙ since-cons (now - m.window_ms) now _ before
        (since-after m (now - m.window_ms) before ordered now later (omega arith))

-- The times at which the monitor says to alert, the last of them first.
abbrev pub alerts : Monitor → List ℕ → List ℕ
alerts m [] = []
alerts m (now ∷ before) =
    if (record_failure m (after m before) now).should_alert
    then now ∷ alerts m before
    else alerts m before

abbrev pub IsSpaced : ℕ → List ℕ → Type 0
IsSpaced gap [] = Unit
IsSpaced gap (t ∷ []) = Unit
IsSpaced gap (t ∷ u ∷ ts) = (u + gap ≤ t) × IsSpaced gap (u ∷ ts)

abbrev first_of : List ℕ → Option ℕ
first_of [] = none
first_of (t ∷ ts) = some t

last_alert : (m : Monitor) (ts : List ℕ) → (after m ts).last_degraded_at ≡ first_of (alerts m ts)
unfolding record_failure
last_alert m [] = refl
last_alert m (now ∷ before) = elim (Bool-cases (alerts_now m (after m before) now)) [
  | inl alerted ↦ rw alerted refl
  | inr silent ↦ rw silent (last_alert m before)
]

cooled_down :
    (m : Monitor) (p : Portal) (now : ℕ)
    → 0 < m.degraded_cooldown_ms
    → alerts_now m p now ≡ true
    → or_else p.last_degraded_at 0 + m.degraded_cooldown_ms ≤ now
unfolding alerts_now is_cooling_down
cooled_down m p now positive h = ground arith

IsSpaced-cons :
    (gap now : ℕ) (ts : List ℕ)
    → or_else (first_of ts) 0 + gap ≤ now
    → IsSpaced gap ts
    → IsSpaced gap (now ∷ ts)
IsSpaced-cons gap now [] le h = tt
IsSpaced-cons gap now (t ∷ ts) le h = (le, h)

-- Two alerts for a portal are apart by the cool-down, whatever the times of its failures are, if
-- the cool-down is positive.
pub alerts-IsSpaced :
    (m : Monitor) (ts : List ℕ)
    → 0 < m.degraded_cooldown_ms
    → IsSpaced m.degraded_cooldown_ms (alerts m ts)
unfolding record_failure
alerts-IsSpaced m [] positive = tt
alerts-IsSpaced m (now ∷ before) positive = elim (Bool-cases (alerts_now m (after m before) now)) [
  | inl alerted ↦ rw alerted (
      IsSpaced-cons m.degraded_cooldown_ms now (alerts m before)
        (subst (λ o. or_else o 0 + m.degraded_cooldown_ms ≤ now) (last_alert m before)
          (cooled_down m (after m before) now positive alerted))
        (alerts-IsSpaced m before positive))
  | inr silent ↦ rw silent (alerts-IsSpaced m before positive)
]
