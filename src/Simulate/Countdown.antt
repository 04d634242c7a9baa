-- ===== src/Simulate/Countdown.antt =====
-- The simulated clock of src/main.rs, second by second.
use scoreboard_ctrl.Base.{ℕ, ◌+◌, ◌*◌, ◌<◌, min, ◌≡◌, true, false, some, arith}
use scoreboard_ctrl.Decode.{clock_is_running, total_seconds}
use scoreboard_ctrl.Scoreboard.{
  ScoreboardState, Shared, age_ms, publish, refresh_running, set_clock,
}
use scoreboard_ctrl.Simulate.{tick, sim_start_stop, sim_reset, sim_set_timer}

abbrev pub shown_seconds : ScoreboardState → ℕ
shown_seconds s = s.minutes * 60 + s.seconds

-- A second of a clock that runs and shows some time takes one second off.
pub tick_counts :
    (now : ℕ) (w : Shared)
    → w.state.running ≡ true
    → 0 < shown_seconds w.state
    → shown_seconds (tick now w).state + 1 ≡ shown_seconds w.state
unfolding tick set_clock refresh_running publish
tick_counts now w r h = ground arith

-- A clock that runs and shows none goes on showing none, and does not run after the next second.
pub tick_ends :
    (now : ℕ) (w : Shared)
    → w.state.running ≡ true
    → shown_seconds w.state ≡ 0
    → (shown_seconds (tick now w).state ≡ 0) × ((tick now w).state.running ≡ false)
unfolding tick set_clock refresh_running publish clock_is_running total_seconds
tick_ends now w r h = ground arith

-- A command that sets the simulated clock leaves it stopped at what it was given, within its bounds; a reset
-- leaves the time and stops it, and forgets what was pending.
pub sim_commands :
    (now m s : ℕ) (w : Shared)
    → ((sim_set_timer now m s w).state.minutes ≡ min m 99)
      × ((sim_set_timer now m s w).state.seconds ≡ min s 59)
      × ((sim_set_timer now m s w).state.running ≡ false)
      × ((sim_reset now w).state.minutes ≡ w.state.minutes)
      × ((sim_reset now w).state.seconds ≡ w.state.seconds)
      × ((sim_reset now w).state.running ≡ false)
      × ((sim_start_stop now (some false) w).state.running ≡ false)
unfolding sim_set_timer sim_reset sim_start_stop set_clock refresh_running publish clock_is_running
    age_ms
sim_commands now m s w = ground arith
