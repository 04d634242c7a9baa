-- ===== src/Board/Heartbeat.antt =====
-- A round of `heartbeat_task` of src/main.rs. The state is locked twice; what the LED's setting is at the
-- second lock is an argument, since other tasks may run in between.
use scoreboard_ctrl.Base.{ℕ, Bool, true, false, not, ◌&&◌, List, [], ◌∷◌, ◌++◌, if◌then◌else◌}
use scoreboard_ctrl.Scoreboard.{Shared, refresh_running}

-- The onboard LED, `Timer::after_millis`, and the line of the log.
pub data Beat : Type 0 where
  gpio_set : Bool → Beat
  after_millis : ℕ → Beat
  frozen : Beat

unfoldable pub beat : ℕ → Bool → Shared → Shared × List Beat
beat now led_later w =
    let w' = refresh_running now w in
    let logged : List Beat =
      if w.state.running && not w'.state.running then Beat.frozen ∷ [] else [] in
    let off : List Beat = if not led_later then Beat.gpio_set false ∷ [] else [] in
    (
      w',
      logged
          ++ (if w'.state.led
              then Beat.gpio_set true ∷ Beat.after_millis 200 ∷ []
              else Beat.gpio_set true
                ∷ Beat.after_millis 80
                ∷ (off ++ (Beat.after_millis 920 ∷ []))),
    )
