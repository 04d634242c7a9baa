-- ===== src/Tests/Whole.antt =====
-- The handlers of src/main.rs with `board_task`: a goal is posted and shown.
use scoreboard_ctrl.Base.{◌≤◌, ◌≡◌, refl, true, false, none, [], ◌∷◌, codes, done, arith}
use scoreboard_ctrl.Scoreboard.{age_ms, refresh_running}
use scoreboard_ctrl.Board.{Command, handle, score_max}
use scoreboard_ctrl.Board.Scores.{home_shown, away_shown}
use scoreboard_ctrl.Board.Tasks
use scoreboard_ctrl.Status.{Build, status_of, time_str}
use scoreboard_ctrl.Web.Agent.{Parts}
use scoreboard_ctrl.Web.Routes.{Site, ok, json, build_app, serve}
use scoreboard_ctrl.Web.Routes.Paths.{request-command_path}
use scoreboard_ctrl.Firmware.{Firmware, site_of, answered, booted, Step, Reach}
use scoreboard_ctrl.Firmware.Asked.{scores, scores_asked}
use scoreboard_ctrl.Decode.{clock_is_running}
use scoreboard_ctrl.Firmware.Answers.{status_answered}
use scoreboard_ctrl.Tests.Portal.{router}

abbrev version : Build
version = record { sim = false; ver = codes "0.1.0"; git = []; date = [] }

abbrev goal_request : Parts
goal_request = record {
  method = codes "POST";
  path = codes "/api/ctrl/home-inc";
  header = λ name. none;
}

abbrev status_request : Parts
status_request = record { method = codes "GET"; path = codes "/api/status"; header = λ name. none }

abbrev goal_site : Site
goal_site = record (site_of booted) { sent = Command.home_inc ∷ [] }

abbrev goal_posted : Firmware
goal_posted = answered goal_site booted

goal_posted-Reach : Reach router false version (Command.home_inc ∷ []) goal_posted
unfolding build_app
goal_posted-Reach = Reach.next Reach.start (
    Step.http true 0 goal_request goal_site ok
      (request-command_path router false version true 0 goal_request (site_of booted)
        Command.home_inc refl refl)
      (omega arith))

abbrev goal_counted : Firmware
goal_counted = record goal_posted {
  board = handle 5 (λ w. w) Command.home_inc goal_posted.board;
  channel = [];
}

goal_counted-Reach : Reach router false version (Command.home_inc ∷ []) goal_counted
goal_counted-Reach =
    Reach.next goal_posted-Reach
      (Step.command 5 (λ w. w) Command.home_inc [] (λ w. Tasks.Others.idle) refl)

scores_asked_example :
    scores goal_counted.channel
      (home_shown goal_counted.board.log, away_shown goal_counted.board.log)
    ≡ scores (Command.home_inc ∷ []) (0, 0)
scores_asked_example = scores_asked goal_counted-Reach

status_answered_example :
    let w = refresh_running 9 goal_counted.board.shared in
    let j = status_of version 9 w.state in
    (serve version true 9 status_request
        (router.dispatch (build_app false) status_request.method status_request.path)
        (site_of goal_counted)
      ≡ done (record (site_of goal_counted) { shared = w }, json j))
    × (j.home ≡ home_shown goal_counted.board.log)
    × (j.away ≡ away_shown goal_counted.board.log)
    × (j.home ≤ score_max)
    × (j.away ≤ score_max)
    × (j.led ≡ goal_counted.board.shared.state.led)
    × (j.running
        ≡ clock_is_running goal_counted.board.shared.state.minutes
            goal_counted.board.shared.state.seconds
            (age_ms 9 goal_counted.board.shared.state.last_change))
    × (j.time
        ≡ time_str goal_counted.board.shared.state.minutes goal_counted.board.shared.state.seconds)
status_answered_example =
    status_answered router false version goal_counted true 9 status_request goal_counted-Reach refl
      refl
