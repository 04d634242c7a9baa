-- ===== src/Simulate/Commands.antt =====
-- `board_task` of src/main.rs, built with the feature `simulate`: its commands with their pulses, and
-- its round without a command. `env` is what other tasks did to the shared state during the pulses.
use scoreboard_ctrl.Base.{
  ℕ, ◌-◌, Bool, true, false, Option, none, some, List, [], ◌∷◌, ltb, if◌then◌else◌, pos,
}
use scoreboard_ctrl.Scoreboard.{Shared}
use scoreboard_ctrl.Board.{
  Board, Command, start_stop, start, stop, reset, set_timer, Pin, press, blink_onboard, led_of,
  handle, drain_timer, has_pending,
}
use scoreboard_ctrl.Simulate.{sim_start_stop, sim_reset, sim_set_timer}

unfoldable pub sim_do_start_stop : ℕ → (Shared → Shared) → Option Bool → Board → Board
sim_do_start_stop now env want b =
    let b' = blink_onboard (led_of b) (press Pin.start b) in
    record b' { shared = sim_start_stop now want (env b.shared) }

unfoldable pub sim_do_reset : ℕ → Board → Board
sim_do_reset now b =
    let w = sim_reset now b.shared in
    let b' = record b { shared = w; pending_min = pos 0; pending_sec = pos 0 } in
    blink_onboard w.state.led (press Pin.reset b')

-- The `match cmd` of the loop; what is not built otherwise is as in the other build.
unfoldable pub sim_handle : ℕ → (Shared → Shared) → Command → Board → Board
sim_handle now env start_stop b = sim_do_start_stop now env none b
sim_handle now env start b = sim_do_start_stop now env (some true) b
sim_handle now env stop b = sim_do_start_stop now env (some false) b
sim_handle now env reset b = sim_do_reset now b
sim_handle now env (set_timer m s) b = record b { shared = sim_set_timer now m s b.shared }
sim_handle now env c b = handle now env c b

-- A round in which no command waits.
unfoldable pub sim_drain : Board → Board
sim_drain b =
    if ltb 0 b.pending_home_dec
    then record (press Pin.home_dec b) { pending_home_dec = b.pending_home_dec - 1 }
    else if ltb 0 b.pending_away_dec
    then record (press Pin.away_dec b) { pending_away_dec = b.pending_away_dec - 1 }
    else drain_timer b

unfoldable pub sim_iterate : ℕ → (Shared → Shared) → List Command → Board → List Command × Board
sim_iterate now env (c ∷ cs) b = (cs, sim_handle now env c b)
sim_iterate now env [] b = ([], if has_pending b then sim_drain b else b)
