-- ===== src/Scoreboard.antt =====
-- The shared state of src/main.rs: `ScoreboardState`, its methods, and the watch `EVENTS` that
-- wakes the event streams. The whole state stands under one mutex; a method is one critical
-- section with no await in it, and `now` is the time of that section in microseconds (one tick of
-- the RP2040's time driver), so all its clock readings agree.
pub mod Fields
pub mod Publish
pub mod Pending
use scoreboard_ctrl.Base.{
  ℕ, ◌+◌, ◌-◌, ◌/◌, min, Bool, true, false, not, ◌&&◌, ◌||◌, Option, none, some, ◌==◌, bool_eq,
  if◌then◌else◌, unwrap_or, is_none,
}
use scoreboard_ctrl.Decode.{clock_is_running, start_stop_pulse_needed, resolve_pending_running}

pub record Visible : Type 0 where
  pub minutes : ℕ
  pub seconds : ℕ
  pub running : Bool
  pub home : ℕ
  pub away : ℕ
  pub led : Bool

-- The derived `==`.
abbrev pub visible_eq : Visible → Visible → Bool
visible_eq a b =
    a.minutes == b.minutes
    && a.seconds == b.seconds
    && bool_eq a.running b.running
    && a.home == b.home
    && a.away == b.away
    && bool_eq a.led b.led

-- An `Instant` is its number of ticks.
pub record ScoreboardState : Type 0 where
  pub minutes : ℕ
  pub seconds : ℕ
  pub running : Bool
  pub home : ℕ
  pub away : ℕ
  pub led : Bool
  pub last_change : Option ℕ
  pub pending_running : Option Bool
  pub pending_at : Option ℕ
  pub announced : Visible

abbrev pub period_min : ℕ
period_min = 7

abbrev pub period_sec : ℕ
period_sec = 30

abbrev pub default : ScoreboardState
default = record {
  minutes = period_min;
  seconds = period_sec;
  running = false;
  home = 0;
  away = 0;
  led = false;
  last_change = none;
  pending_running = none;
  pending_at = none;
  announced = record {
    minutes = period_min;
    seconds = period_sec;
    running = false;
    home = 0;
    away = 0;
    led = false;
  };
}

-- The state under the mutex, and how often `EVENTS` was sent to.
pub record Shared : Type 0 where
  pub state : ScoreboardState
  pub events : ℕ

abbrev pub u32_max : ℕ
u32_max = 4294967295

-- `t.elapsed().as_millis()`
abbrev pub elapsed_ms : ℕ → ℕ → ℕ
elapsed_ms now t = (now - t) / 1000

unfoldable pub age_ms : ℕ → Option ℕ → ℕ
age_ms now (some t) = min (elapsed_ms now t) u32_max
age_ms now none = u32_max

unfoldable pub pending_age_ms : ℕ → Option ℕ → ℕ
pending_age_ms now (some t) = elapsed_ms now t
pending_age_ms now none = 0

abbrev pub visible : ScoreboardState → Visible
visible s = record {
  minutes = s.minutes;
  seconds = s.seconds;
  running = s.running;
  home = s.home;
  away = s.away;
  led = s.led;
}

unfoldable pub publish : Shared → Shared
publish w =
    let view = visible w.state in
    if not (visible_eq view w.state.announced)
    then record { state = record (w.state) { announced = view }; events = w.events + 1 }
    else w

-- `refresh_running` up to its call of `publish`.
abbrev pub refreshed : ℕ → Shared → Shared
refreshed now w =
    let s = w.state in
    let running = clock_is_running s.minutes s.seconds (age_ms now s.last_change) in
    let pending =
      resolve_pending_running s.pending_running running (pending_age_ms now s.pending_at) in
    record w {
      state = record s {
        running = running;
        pending_running = pending;
        pending_at = if is_none pending then none else s.pending_at;
      };
    }

unfoldable pub refresh_running : ℕ → Shared → Shared
refresh_running now w = publish (refreshed now w)

-- `set_clock` up to its call of `refresh_running`.
abbrev pub clock_set : ℕ → ℕ → ℕ → Shared → Shared
clock_set now minutes seconds w =
    let s = w.state in
    let changed = not (s.minutes == minutes) || not (s.seconds == seconds) in
    record w {
      state = record s {
        last_change = if changed then some now else s.last_change;
        minutes = minutes;
        seconds = seconds;
      };
    }

unfoldable pub set_clock : ℕ → ℕ → ℕ → Shared → Shared
set_clock now minutes seconds w = refresh_running now (clock_set now minutes seconds w)

-- What the next pulse on the start pin is taken to change.
abbrev pub effective : ScoreboardState → Bool
effective s = unwrap_or s.pending_running s.running

-- Whether a pulse is needed, and the state after the call.
unfoldable pub start_stop_pulse_for : ℕ → Option Bool → Shared → Shared × Bool
start_stop_pulse_for now want w =
    let w' = refresh_running now w in
    let eff = effective w'.state in
    let pulse_needed = start_stop_pulse_needed eff want in
    let pulsed = record w' {
      state = record (w'.state) {
        pending_running = some (unwrap_or want (not eff));
        pending_at = some now;
      };
    } in
    (if pulse_needed then pulsed else w', pulse_needed)
