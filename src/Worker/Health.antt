-- ===== src/Worker/Health.antt =====
-- The monitor of selector failures, apps/worker-ingest/src/lib/selectorHealthMonitor.js. The state is
-- what its two maps hold for one portal; a failure of another portal does not touch it.
pub mod Window
use vahan.Prelude.{
  ℕ, ◌+◌, ◌-◌, max, ltb, leb, nat_eq, ◌&&◌, not, Bool, true, false, Option, none, some, or_else,
  List, [], ◌∷◌, ◌++◌, filter, length, if◌then◌else◌,
}
use vahan.Worker.Settings.{SelectorValidationConfig}

pub record Monitor : Type 0 where
  pub failure_threshold : ℕ
  pub window_ms : ℕ
  pub degraded_cooldown_ms : ℕ

-- `n || d`
abbrev pub or_default : ℕ → ℕ → ℕ
or_default n d = if nat_eq n 0 then d else n

-- The constructor.
unfoldable pub monitor : SelectorValidationConfig → Monitor
monitor config = record {
  failure_threshold = max 1 (or_default config.failure_threshold 5);
  window_ms = max 1000 (or_default config.window_ms 600000);
  degraded_cooldown_ms = max 1000 (or_default config.degraded_cooldown_ms 300000);
}

pub record Portal : Type 0 where
  pub failure_timestamps : List ℕ
  pub last_degraded_at : Option ℕ

abbrev pub fresh : Portal
fresh = record { failure_timestamps = []; last_degraded_at = none }

pub record Report : Type 0 where
  pub portal : Portal
  pub should_alert : Bool
  pub failures_in_window : ℕ

unfoldable pub recent : Monitor → Portal → ℕ → List ℕ
recent m p now = filter (λ t. leb (now - m.window_ms) t) (p.failure_timestamps ++ now ∷ [])

unfoldable pub is_cooling_down : Monitor → Portal → ℕ → Bool
is_cooling_down m p now = ltb (now - or_else p.last_degraded_at 0) m.degraded_cooldown_ms

unfoldable pub alerts_now : Monitor → Portal → ℕ → Bool
unfolding recent is_cooling_down
alerts_now m p now =
    leb m.failure_threshold (length (recent m p now)) && not (is_cooling_down m p now)

unfoldable pub record_failure : Monitor → Portal → ℕ → Report
unfolding recent alerts_now
record_failure m p now = record {
  portal = record {
    failure_timestamps = recent m p now;
    last_degraded_at = if alerts_now m p now then some now else p.last_degraded_at;
  };
  should_alert = alerts_now m p now;
  failures_in_window = length (recent m p now);
}
