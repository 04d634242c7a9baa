-- ===== src/Board/Scores.antt =====
-- The scores and the invariant of `board_task` of src/main.rs among the other tasks.
use scoreboard_ctrl.Base.{
  ℕ, suc, ◌+◌, ◌-◌, ◌≤◌, ◌<◌, Bool, true, false, ◌≡◌, Option, none, some, List, [], ◌∷◌, pos_part,
  neg_part, arith,
}
use scoreboard_ctrl.Decode.{max_minutes, max_seconds}
use scoreboard_ctrl.Scoreboard.{ScoreboardState, Shared, publish, start_stop_pulse_for}
use scoreboard_ctrl.Scoreboard.Fields.{
  SameScores, publish-SameShown, refresh_running-SameShown, set_clock-SameScores,
  start_stop_pulse_for-SameShown,
}
use scoreboard_ctrl.Scoreboard.Publish.{IsAnnounced, publish-Told, methods-Told}
use scoreboard_ctrl.Board.{
  Board, Command, start_stop, start, stop, home_inc, home_dec, away_inc, away_dec, scores_zero,
  reset, led_on, led_off, set_timer, aux, Pin, Effect, score_max, set_led, do_start_stop,
  do_home_inc, do_home_dec, do_away_inc, do_away_dec, do_scores_zero, do_reset, do_set_timer,
  do_aux, handle, drain_timer, drain,
}
use scoreboard_ctrl.Board.Tasks.{
  Others, idle, frame, look, Step, command, drained, others, Reach, booted, next,
}

-- The scores on the scoreboard after the given effects, the newest first: the buttons count up and
-- down and the clear button sets both to 0. It starts at 0, as the program does.
abbrev pub home_shown : List Effect → ℕ
home_shown [] = 0
home_shown (Effect.pulse Pin.home_inc ∷ log) = suc (home_shown log)
home_shown (Effect.pulse Pin.home_dec ∷ log) = home_shown log - 1
home_shown (Effect.pulse Pin.clear ∷ log) = 0
home_shown (_ ∷ log) = home_shown log

abbrev pub away_shown : List Effect → ℕ
away_shown [] = 0
away_shown (Effect.pulse Pin.away_inc ∷ log) = suc (away_shown log)
away_shown (Effect.pulse Pin.away_dec ∷ log) = away_shown log - 1
away_shown (Effect.pulse Pin.clear ∷ log) = 0
away_shown (_ ∷ log) = away_shown log

-- What the shared state keeps between the sections.
pub record StateInv (w : Shared) : Type 0 where
  pub home_max : w.state.home ≤ score_max
  pub away_max : w.state.away ≤ score_max
  pub minutes_max : w.state.minutes ≤ max_minutes
  pub seconds_max : w.state.seconds ≤ max_seconds
  pub announced : IsAnnounced w

pub record Inv (b : Board) : Type 0 where
  pub state : StateInv b.shared
  pub home : home_shown b.log ≡ b.shared.state.home
  pub away : away_shown b.log ≡ b.shared.state.away
  pub no_home_dec : b.pending_home_dec ≡ 0
  pub no_away_dec : b.pending_away_dec ≡ 0
  pub min_range : (pos_part b.pending_min ≤ 99) × (neg_part b.pending_min ≤ 99)
  pub sec_range : (pos_part b.pending_sec ≤ 59) × (neg_part b.pending_sec ≤ 59)

Others-SameScores : {w v : Shared} → Others w v → SameScores w v
Others-SameScores idle = ground arith
Others-SameScores (frame {v} now m s hm hs o) =
    ground (arith, Others-SameScores o, set_clock-SameScores now m s v)
Others-SameScores (look {v} now o) =
    ground (arith, Others-SameScores o, refresh_running-SameShown now v)

-- A frame, or a look at the clock, keeps the invariant of the shared state.
pub Others-StateInv : {w v : Shared} → StateInv w → Others w v → StateInv v
Others-StateInv i idle = i
Others-StateInv i (frame {v} now m s hm hs o) =
    ground
      (arith, Others-StateInv i o, set_clock-SameScores now m s v, (methods-Told now m s none v).1)
Others-StateInv i (look {v} now o) =
    ground
      (arith, Others-StateInv i o, refresh_running-SameShown now v, (methods-Told now 0 0 none v).0)

start_stop-StateInv :
    (now : ℕ) (want : Option Bool) (w : Shared)
    → StateInv w
    → StateInv (start_stop_pulse_for now want w).0
start_stop-StateInv now want w i =
    ground (arith, start_stop_pulse_for-SameShown now want w, (methods-Told now 0 0 want w).2)

-- A section that writes `s` and publishes it.
published :
    (s : ScoreboardState) (w : Shared)
    → s.home ≤ score_max
    → s.away ≤ score_max
    → s.minutes ≤ max_minutes
    → s.seconds ≤ max_seconds
    → let w' = publish (record w { state = s }) in
      StateInv w' × (w'.state.home ≡ s.home) × (w'.state.away ≡ s.away)
published s w h a m k =
    ground
      (arith, publish-SameShown (record w { state = s }), publish-Told (record w { state = s }))

module _ (b : Board) (i : Inv b) where
  abbrev s : ScoreboardState
  s = b.shared.state

  set_led-Inv : (on : Bool) → Inv (set_led on b)
  unfolding set_led
  set_led-Inv on = ground (arith, published (record s { led = on }) b.shared)

  do_start_stop-Inv : (now : ℕ) (want : Option Bool) → Inv (do_start_stop now want b)
  unfolding do_start_stop
  do_start_stop-Inv now want = ground (
    arith,
    start_stop-StateInv now want b.shared i.state,
    start_stop_pulse_for-SameShown now want b.shared,
  )

  do_home_inc-Inv : Inv (do_home_inc b)
  unfolding do_home_inc
  do_home_inc-Inv = ground (arith, published (record s { home = s.home + 1 }) b.shared)

  do_home_dec-Inv : Inv (do_home_dec b)
  unfolding do_home_dec
  do_home_dec-Inv = ground (arith, published (record s { home = s.home - 1 }) b.shared)

  do_away_inc-Inv : Inv (do_away_inc b)
  unfolding do_away_inc
  do_away_inc-Inv = ground (arith, published (record s { away = s.away + 1 }) b.shared)

  do_away_dec-Inv : Inv (do_away_dec b)
  unfolding do_away_dec
  do_away_dec-Inv = ground (arith, published (record s { away = s.away - 1 }) b.shared)

  do_scores_zero-Inv : Inv (do_scores_zero b)
  unfolding do_scores_zero
  do_scores_zero-Inv = ground (arith, published (record s { home = 0; away = 0 }) b.shared)

  do_reset-Inv : Inv (do_reset b)
  unfolding do_reset
  do_reset-Inv = ground arith

  do_aux-Inv : Inv (do_aux b)
  unfolding do_aux
  do_aux-Inv = ground arith

  module _ (now : ℕ) where
    abbrev w : Shared
    w = (start_stop_pulse_for now (some false) b.shared).0

    do_set_timer-Inv :
        (env : Shared → Shared) (m k : ℕ)
        → ((v : Shared) → Others v (env v))
        → Inv (do_set_timer now env m k b)
    unfolding do_set_timer
    do_set_timer-Inv env m k o = ground (
      arith,
      start_stop-StateInv now (some false) b.shared i.state,
      start_stop_pulse_for-SameShown now (some false) b.shared,
      Others-SameScores (o w),
      Others-StateInv (start_stop-StateInv now (some false) b.shared i.state) (o w),
    )

    drain-Inv : Inv (drain now b)
    unfolding drain drain_timer
    drain-Inv = ground (
      arith,
      start_stop-StateInv now (some false) b.shared i.state,
      start_stop_pulse_for-SameShown now (some false) b.shared,
    )

pub handle-Inv :
    (now : ℕ) (env : Shared → Shared) (c : Command) (b : Board)
    → ((v : Shared) → Others v (env v))
    → Inv b
    → Inv (handle now env c b)
unfolding handle
handle-Inv now env led_on b o i = set_led-Inv b i true
handle-Inv now env led_off b o i = set_led-Inv b i false
handle-Inv now env start_stop b o i = do_start_stop-Inv b i now none
handle-Inv now env start b o i = do_start_stop-Inv b i now (some true)
handle-Inv now env stop b o i = do_start_stop-Inv b i now (some false)
handle-Inv now env home_inc b o i = do_home_inc-Inv b i
handle-Inv now env home_dec b o i = do_home_dec-Inv b i
handle-Inv now env away_inc b o i = do_away_inc-Inv b i
handle-Inv now env away_dec b o i = do_away_dec-Inv b i
handle-Inv now env scores_zero b o i = do_scores_zero-Inv b i
handle-Inv now env reset b o i = do_reset-Inv b i
handle-Inv now env (set_timer m k) b o i = do_set_timer-Inv b i now env m k o
handle-Inv now env aux b o i = do_aux-Inv b i

-- Every round of the board task keeps the invariant, and so does what the other tasks do.
pub Step-Inv : {b c : Board} → Inv b → Step b c → Inv c
Step-Inv {b} i (command now env c o) = handle-Inv now env c b o i
Step-Inv {b} i (drained now p) = drain-Inv b i now
Step-Inv {b} i (others w o) = ground (arith, Others-StateInv i.state o, Others-SameScores o)

pub Reach-Inv : {b : Board} → Reach b → Inv b
Reach-Inv booted = ground arith
Reach-Inv (next r st) = Step-Inv (Reach-Inv r) st

-- In every state that the firmware reaches, the scores kept for the phones are at most 99 and equal
-- to those that the pressed buttons have put on the scoreboard, for both teams.
pub scores_shown :
    {b : Board}
    → Reach b
    → (home_shown b.log ≡ b.shared.state.home)
      × (away_shown b.log ≡ b.shared.state.away)
      × (b.shared.state.home ≤ score_max)
      × (b.shared.state.away ≤ score_max)
scores_shown r = let i = Reach-Inv r in (i.home, i.away, i.state.home_max, i.state.away_max)

-- In every state that the firmware reaches, what the event streams announced last is what the phones
-- are shown.
pub reached-IsAnnounced : {b : Board} → Reach b → IsAnnounced b.shared
reached-IsAnnounced r = (Reach-Inv r).state.announced

-- No presses of the score buttons are ever put off: in every state that the firmware reaches, both
-- counters of delayed decrements are 0, and the delays of the timer fit their `i16`.
pub nothing_delayed :
    {b : Board}
    → Reach b
    → (b.pending_home_dec ≡ 0)
      × (b.pending_away_dec ≡ 0)
      × (pos_part b.pending_min + neg_part b.pending_min < 32768)
      × (pos_part b.pending_sec + neg_part b.pending_sec < 32768)
nothing_delayed r = let i = Reach-Inv r in ground (arith, i)
