-- ===== src/Board/Timer.antt =====
-- Setting the timer in `board_task` of src/main.rs: one round of the train of pulses.
use scoreboard_ctrl.Base.{
  ℕ, ◌+◌, ◌<◌, true, false, ◌≡◌, ◌⊎◌, ◌∙◌, some, List, [], ◌∷◌, pos_part, neg_part, arith,
}
use scoreboard_ctrl.Decode.{start_stop_pulse_needed}
use scoreboard_ctrl.Scoreboard.{Shared, effective, refresh_running, start_stop_pulse_for}
use scoreboard_ctrl.Board.{Board, Pin, Effect, drain_timer, drain}

-- How often a button was pressed.
abbrev pub eq_pin : Pin → Pin → ℕ
eq_pin Pin.start Pin.start = 1
eq_pin Pin.home_inc Pin.home_inc = 1
eq_pin Pin.home_dec Pin.home_dec = 1
eq_pin Pin.away_inc Pin.away_inc = 1
eq_pin Pin.away_dec Pin.away_dec = 1
eq_pin Pin.reset Pin.reset = 1
eq_pin Pin.min_inc Pin.min_inc = 1
eq_pin Pin.min_dec Pin.min_dec = 1
eq_pin Pin.sec_inc Pin.sec_inc = 1
eq_pin Pin.sec_dec Pin.sec_dec = 1
eq_pin Pin.clear Pin.clear = 1
eq_pin Pin.aux Pin.aux = 1
eq_pin _ _ = 0

abbrev pub presses : Pin → List Effect → ℕ
presses p [] = 0
presses p (Effect.pulse q ∷ log) = eq_pin p q + presses p log
presses p (Effect.gpio_set on ∷ log) = presses p log

-- What is still to be pressed.
abbrev pub distance : Board → ℕ
distance b =
    pos_part b.pending_min
    + neg_part b.pending_min
    + pos_part b.pending_sec
    + neg_part b.pending_sec

-- From `b` to `c` the pulses on the minute and second buttons and the distances left add up: what is
-- pressed is taken off, and nothing else.
pub record Accounted (b c : Board) : Type 0 where
  pub minutes :
      presses Pin.min_inc c.log
        + pos_part c.pending_min
        + presses Pin.min_dec b.log
        + neg_part b.pending_min
      ≡ presses Pin.min_inc b.log
        + pos_part b.pending_min
        + presses Pin.min_dec c.log
        + neg_part c.pending_min
  pub seconds :
      presses Pin.sec_inc c.log
        + pos_part c.pending_sec
        + presses Pin.sec_dec b.log
        + neg_part b.pending_sec
      ≡ presses Pin.sec_inc b.log
        + pos_part b.pending_sec
        + presses Pin.sec_dec c.log
        + neg_part c.pending_sec

-- An idle round keeps the account
pub drain-Accounted : (now : ℕ) (b : Board) → Accounted b (drain now b)
unfolding drain drain_timer
drain-Accounted now b = ground arith

-- An idle round with a distance left and no score presses delayed either presses the start button,
-- because the clock counts as running, and leaves the distance; or it does not, the clock counts as
-- stopped, and the distance is one less.
pub drain_progress :
    (now : ℕ) (b : Board)
    → b.pending_home_dec ≡ 0
    → b.pending_away_dec ≡ 0
    → 0 < distance b
    → let c = drain now b in
      let running = effective (refresh_running now b.shared).state in
      ((running ≡ true) × (distance c ≡ distance b) × (c.log ≡ Effect.pulse Pin.start ∷ b.log))
      ⊎ ((running ≡ false)
          × (distance b ≡ distance c + 1)
          × (presses Pin.start c.log ≡ presses Pin.start b.log))
unfolding drain drain_timer start_stop_pulse_for start_stop_pulse_needed
drain_progress now b h a d = ground arith

stop_pulse :
    (now : ℕ) (w : Shared)
    → (start_stop_pulse_for now (some false) w).1 ≡ effective (refresh_running now w).state
unfolding start_stop_pulse_for start_stop_pulse_needed
stop_pulse now w = ground arith

drain_gated_at :
    (now : ℕ) (b : Board)
    → (start_stop_pulse_for now (some false) b.shared).1 ≡ true
    → let c = drain now b in
      (presses Pin.min_inc c.log ≡ presses Pin.min_inc b.log)
      × (presses Pin.min_dec c.log ≡ presses Pin.min_dec b.log)
      × (presses Pin.sec_inc c.log ≡ presses Pin.sec_inc b.log)
      × (presses Pin.sec_dec c.log ≡ presses Pin.sec_dec b.log)
unfolding drain
drain_gated_at now b h = ground arith

-- An idle round presses no minute or second button while the clock counts as running.
pub drain_gated :
    (now : ℕ) (b : Board)
    → effective (refresh_running now b.shared).state ≡ true
    → let c = drain now b in
      (presses Pin.min_inc c.log ≡ presses Pin.min_inc b.log)
      × (presses Pin.min_dec c.log ≡ presses Pin.min_dec b.log)
      × (presses Pin.sec_inc c.log ≡ presses Pin.sec_inc b.log)
      × (presses Pin.sec_dec c.log ≡ presses Pin.sec_dec b.log)
drain_gated now b h = drain_gated_at now b (stop_pulse now b.shared ∙ h)
