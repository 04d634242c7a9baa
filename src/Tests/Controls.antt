-- ===== src/Tests/Controls.antt =====
-- The shared state and `board_task` of src/main.rs: the scores, the set-timer command, start and stop.
use scoreboard_ctrl.Base.{
  ℕ, ◌+◌, ◌≤◌, ◌<◌, min, ◌≡◌, ◌≢◌, refl, ◌∷◌, ◌↔◌, ◌⊎◌, true, false, not, none, some, List,
  replicate, pos_part, neg_part, unwrap_or, arith,
}
use scoreboard_ctrl.Decode.{clock_is_running, start_stop_pulse_needed, resolve_pending_running}
use scoreboard_ctrl.Scoreboard.{
  Shared, publish, age_ms, pending_age_ms, refresh_running, set_clock, effective,
  start_stop_pulse_for,
}
use scoreboard_ctrl.Scoreboard.Pending.{start_stop_effective}
use scoreboard_ctrl.Board.{Board, Command, Pin, score_max, do_set_timer, drain, drain_timer, handle}
use scoreboard_ctrl.Board.Tasks.{Others, Step, Reach, boot}
use scoreboard_ctrl.Board.Scores.{home_shown, away_shown, scores_shown, nothing_delayed}
use scoreboard_ctrl.Board.Timer.{presses, distance}
use scoreboard_ctrl.Board.Train.{drains, running_rounds, set_timer_arrives}

abbrev alone : Shared → Shared
alone w = w

abbrev goal : Board
goal = handle 5 alone Command.home_inc boot

abbrev corrected : Board
corrected = handle 9 alone Command.home_dec goal

abbrev led_lit : Board
led_lit = handle 12 alone Command.led_on corrected

led_lit-Reach : Reach led_lit
led_lit-Reach =
    Reach.next
      (Reach.next
        (Reach.next Reach.booted (Step.command 5 alone Command.home_inc (λ w. Others.idle)))
        (Step.command 9 alone Command.home_dec (λ w. Others.idle)))
      (Step.command 12 alone Command.led_on (λ w. Others.idle))

scores_shown_example :
    (home_shown led_lit.log ≡ led_lit.shared.state.home)
    × (away_shown led_lit.log ≡ led_lit.shared.state.away)
    × (led_lit.shared.state.home ≤ score_max)
    × (led_lit.shared.state.away ≤ score_max)
scores_shown_example = scores_shown led_lit-Reach

nothing_delayed_example :
    (led_lit.pending_home_dec ≡ 0)
    × (led_lit.pending_away_dec ≡ 0)
    × (pos_part led_lit.pending_min + neg_part led_lit.pending_min < 32768)
    × (pos_part led_lit.pending_sec + neg_part led_lit.pending_sec < 32768)
nothing_delayed_example = nothing_delayed led_lit-Reach

-- A set-timer command at boot, and the rounds behind it.
abbrev asked : Board
asked = do_set_timer 0 alone 10 0 boot

-- A frame comes between the first two of them, and the clock seems to run.
abbrev rounds : List (ℕ × (Shared → Shared))
rounds = (1000, alone) ∷ ((1100, set_clock 1050 8 30) ∷ replicate 158 (1200, alone))

rounds-running : running_rounds rounds asked ≡ 1
unfolding running_rounds drain drain_timer do_set_timer start_stop_pulse_for refresh_running
    set_clock publish clock_is_running age_ms resolve_pending_running start_stop_pulse_needed
    pending_age_ms
rounds-running = refl

set_timer_arrives_example :
    let e = drains rounds asked in
    (distance e ≡ 0)
    × (presses Pin.min_inc e.log + asked.shared.state.minutes + presses Pin.min_dec asked.log
        ≡ presses Pin.min_inc asked.log + min 10 99 + presses Pin.min_dec e.log)
    × (presses Pin.sec_inc e.log + asked.shared.state.seconds + presses Pin.sec_dec asked.log
        ≡ presses Pin.sec_inc asked.log + min 0 59 + presses Pin.sec_dec e.log)
    × (presses Pin.start e.log ≡ presses Pin.start asked.log + running_rounds rounds asked)
set_timer_arrives_example =
    set_timer_arrives 0 alone 10 0 rounds Reach.booted (λ v. Others.idle)
      (omega (arith, rounds-running))

asked-distance : (asked.pending_home_dec ≡ 0) × (asked.pending_away_dec ≡ 0) × (0 < distance asked)
unfolding do_set_timer start_stop_pulse_for refresh_running publish clock_is_running age_ms
    resolve_pending_running start_stop_pulse_needed
asked-distance = (refl, refl, omega arith)

-- The clock ticks on while the rounds go.
abbrev ticking : Board
ticking = record asked { shared = set_clock 500 7 29 asked.shared }

ticking-effective : effective (refresh_running 1000 ticking.shared).state ≡ true
unfolding do_set_timer start_stop_pulse_for refresh_running set_clock publish clock_is_running
    age_ms resolve_pending_running start_stop_pulse_needed
ticking-effective = refl

-- A clock frame has just come.
abbrev running : Shared
running = set_clock 500 7 29 (boot.shared)

start_stop_effective_example :
    let seen = refresh_running 600 running in
    let asked = unwrap_or none (not (effective seen.state)) in
    let (w', pulse) = start_stop_pulse_for 600 none running in
    ((pulse ≡ true) ↔ (asked ≢ effective seen.state))
    × (((pulse ≡ true) × (effective (refresh_running 1_000_600 w').state ≡ asked))
        ⊎ ((pulse ≡ false) × (w' ≡ seen) × (effective w'.state ≡ asked)))
start_stop_effective_example = start_stop_effective 600 1_000_600 none running (omega arith)

stop_pulses : (start_stop_pulse_for 600 (some false) running).1 ≡ true
unfolding start_stop_pulse_for refresh_running set_clock publish clock_is_running age_ms
    resolve_pending_running start_stop_pulse_needed
stop_pulses = refl

ticked_at : running.state.last_change ≡ some 500
unfolding refresh_running set_clock publish clock_is_running age_ms resolve_pending_running
ticked_at = refl

abbrev stop_asked : Shared
stop_asked = (start_stop_pulse_for 600 (some false) running).0

pulsed_at : stop_asked.state.pending_at ≡ some 600
unfolding start_stop_pulse_for refresh_running set_clock publish clock_is_running age_ms
    resolve_pending_running start_stop_pulse_needed
pulsed_at = refl
