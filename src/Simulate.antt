-- ===== src/Simulate.antt =====
-- The build with the feature `simulate`, for a Pico without a scoreboard, src/main.rs: `timer_task` counts the
-- clock down, and `board_task` starts, stops, resets and sets it. Here is what this does to the shared state;
-- the commands with their pulses are in Commands.
pub mod Countdown
pub mod Commands
pub mod Scores
use scoreboard_ctrl.Base.{
  ℕ, ◌-◌, min, Bool, true, false, not, Option, none, some, ltb, if◌then◌else◌, unwrap_or,
}
use scoreboard_ctrl.Scoreboard.{ScoreboardState, Shared, refresh_running, set_clock}

-- `s.last_change = c; s.refresh_running();`
abbrev pub refresh_from : Option ℕ → ℕ → Shared → Shared
refresh_from c now w =
    refresh_running now (record w { state = record (w.state) { last_change = c } })

-- The body of the loop of `timer_task`, each second.
unfoldable pub tick : ℕ → Shared → Shared
tick now w =
    let m = w.state.minutes in
    let s = w.state.seconds in
    if w.state.running
    then (if ltb 0 s
        then set_clock now m (s - 1) w
        else if ltb 0 m
        then set_clock now (m - 1) 59 w
        else refresh_from none now w)
    else w

-- `StartStop`, `Start` and `Stop`, with `want` as in the other build.
unfoldable pub sim_start_stop : ℕ → Option Bool → Shared → Shared
sim_start_stop now want w =
    let start = unwrap_or want (not w.state.running) in
    refresh_from (if start then some now else none) now w

-- `Reset`
unfoldable pub sim_reset : ℕ → Shared → Shared
sim_reset now w =
    let w' = refresh_from none now w in
    record w' { state = record (w'.state) { pending_running = none; pending_at = none } }

-- `SetTimer`
unfoldable pub sim_set_timer : ℕ → ℕ → ℕ → Shared → Shared
sim_set_timer now min_arg sec_arg w =
    refresh_from none now (set_clock now (min min_arg 99) (min sec_arg 59) w)
