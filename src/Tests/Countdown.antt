-- ===== src/Tests/Countdown.antt =====
-- The simulated clock of src/main.rs.
use scoreboard_ctrl.Base.{true}
use scoreboard_ctrl.Board.{Board, Command}
use scoreboard_ctrl.Board.Tasks.{boot}
use scoreboard_ctrl.Simulate.Commands.{sim_handle}
use scoreboard_ctrl.Simulate.Scores.{SimOthers, SimStep, SimReach}
use scoreboard_ctrl.Scoreboard.{Shared, default}

-- Running, at 07:30 and at 00:00.
abbrev at_seven : Shared
at_seven = record { state = record default { running = true }; events = 0 }

abbrev at_zero : Shared
at_zero = record { state = record default { running = true; minutes = 0; seconds = 0 }; events = 0 }

-- The home team scores, and the clock is started.
abbrev scored : Board
scored = sim_handle 9 (λ w. w) Command.start (sim_handle 5 (λ w. w) Command.home_inc boot)

scored-SimReach : SimReach scored
scored-SimReach =
    SimReach.next
      (SimReach.next SimReach.booted (SimStep.command 5 (λ w. w) Command.home_inc SimOthers.idle))
      (SimStep.command 9 (λ w. w) Command.start SimOthers.idle)
