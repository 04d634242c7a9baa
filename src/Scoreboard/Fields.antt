-- ===== src/Scoreboard/Fields.antt =====
-- What the methods of the state of src/main.rs leave alone.
use scoreboard_ctrl.Base.{ℕ, Bool, Option, ◌≡◌, arith}
use scoreboard_ctrl.Scoreboard.{
  Shared, publish, refreshed, refresh_running, clock_set, set_clock, start_stop_pulse_for,
}

-- `w'` shows the same scores and the same LED as `w`.
pub record SameScores (w w' : Shared) : Type 0 where
  pub home : w'.state.home ≡ w.state.home
  pub away : w'.state.away ≡ w.state.away
  pub led : w'.state.led ≡ w.state.led

-- It shows the same time, too.
pub record SameShown (w w' : Shared) : Type 0 where
  pub scores : SameScores w w'
  pub minutes : w'.state.minutes ≡ w.state.minutes
  pub seconds : w'.state.seconds ≡ w.state.seconds

pub publish-SameShown : (w : Shared) → SameShown w (publish w)
unfolding publish
publish-SameShown w = ground arith

pub refresh_running-SameShown : (now : ℕ) (w : Shared) → SameShown w (refresh_running now w)
unfolding refresh_running
refresh_running-SameShown now w = ground (arith, publish-SameShown (refreshed now w))

pub set_clock-SameScores :
    (now m s : ℕ) (w : Shared)
    → SameScores w (set_clock now m s w)
      × ((set_clock now m s w).state.minutes ≡ m)
      × ((set_clock now m s w).state.seconds ≡ s)
unfolding set_clock
set_clock-SameScores now m s w = ground (arith, refresh_running-SameShown now (clock_set now m s w))

pub start_stop_pulse_for-SameShown :
    (now : ℕ) (want : Option Bool) (w : Shared) → SameShown w (start_stop_pulse_for now want w).0
unfolding start_stop_pulse_for
start_stop_pulse_for-SameShown now want w = ground (arith, refresh_running-SameShown now w)
