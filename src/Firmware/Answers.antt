-- ===== src/Firmware/Answers.antt =====
-- What phones are answered, against what stands on the scoreboard: the handlers of src/main.rs with
-- `board_task`.
use scoreboard_ctrl.Base.{
  ℕ, ◌≤◌, ◌≡◌, refl, sym, ap, ap₂, ◌∙◌, Bool, List, take, drop, codes, done, arith,
}
use scoreboard_ctrl.Scoreboard.{Shared, age_ms, publish, refresh_running}
use scoreboard_ctrl.Scoreboard.Fields.{refresh_running-SameShown}
use scoreboard_ctrl.Decode.{clock_is_running}
use scoreboard_ctrl.Board.{Command, score_max}
use scoreboard_ctrl.Board.Scores.{home_shown, away_shown, scores_shown}
use scoreboard_ctrl.Status.{Build, status_of, time_str}
use scoreboard_ctrl.Web.Agent.{Parts}
use scoreboard_ctrl.Web.Routes.{Router, json, build_app, found, status, get_status, serve}
use scoreboard_ctrl.Firmware.{Firmware, site_of, Reach}
use scoreboard_ctrl.Firmware.Order.{Reach-refines}

abbrev status_path : List ℕ
status_path = codes "/api/status"

refresh_running-running :
    (now : ℕ) (w : Shared)
    → (refresh_running now w).state.running
      ≡ clock_is_running w.state.minutes w.state.seconds (age_ms now w.state.last_change)
unfolding refresh_running publish
refresh_running-running now w = ground arith

module _ (router : Router) (feature_ota : Bool) (build : Build) where
  status_found : router.dispatch (build_app feature_ota) (codes "GET") status_path ≡ found status
  unfolding build_app
  status_found =
      router.to_first (take 18 (build_app feature_ota)) (drop 19 (build_app feature_ota))
        (codes "GET") status_path status refl

  -- In every state that the firmware reaches, a request for the status is answered with the scores that the
  -- pressed buttons have put on the scoreboard, both at most 99, with the time and the LED of the shared
  -- state, and as running exactly if the clock shows a time other than 0 and has changed less than two seconds
  -- ago; it sends no command.
  pub status_answered :
      {cs : List Command} (f : Firmware) (rx : Bool) (now : ℕ) (parts : Parts)
      → Reach router feature_ota build cs f
      → parts.method ≡ codes "GET"
      → parts.path ≡ status_path
      → let w = refresh_running now f.board.shared in
        let j = status_of build now w.state in
        (serve build rx now parts
            (router.dispatch (build_app feature_ota) parts.method parts.path)
            (site_of f)
          ≡ done (record (site_of f) { shared = w }, json j))
        × (j.home ≡ home_shown f.board.log)
        × (j.away ≡ away_shown f.board.log)
        × (j.home ≤ score_max)
        × (j.away ≤ score_max)
        × (j.led ≡ f.board.shared.state.led)
        × (j.running
            ≡ clock_is_running f.board.shared.state.minutes f.board.shared.state.seconds
                (age_ms now f.board.shared.state.last_change))
        × (j.time ≡ time_str f.board.shared.state.minutes f.board.shared.state.seconds)
  unfolding serve get_status status_of
  status_answered f rx now parts r m p =
      let (h, a, hm, am) = scores_shown (Reach-refines r) in
      let same = refresh_running-SameShown now f.board.shared in
      let dispatched : router.dispatch (build_app feature_ota) parts.method parts.path
          ≡ found status =
        ap (λ x. router.dispatch (build_app feature_ota) x parts.path) m
        ∙ ap (λ x. router.dispatch (build_app feature_ota) (codes "GET") x) p
        ∙ status_found in
      (
        ap (λ x. serve build rx now parts x (site_of f)) dispatched,
        same.scores.home ∙ sym h,
        same.scores.away ∙ sym a,
        omega (arith, same.scores.home, hm),
        omega (arith, same.scores.away, am),
        same.scores.led,
        refresh_running-running now f.board.shared,
        ap₂ time_str same.minutes same.seconds,
      )
