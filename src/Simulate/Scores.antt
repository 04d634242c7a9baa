-- ===== src/Simulate/Scores.antt =====
-- The scores of `board_task` of src/main.rs, built with the feature `simulate`, among the other tasks.
use scoreboard_ctrl.Base.{
  ℕ, ◌-◌, ◌≤◌, Bool, true, false, ◌≡◌, Option, none, some, pos, ltb, not, unwrap_or, if◌then◌else◌,
  refl, arith, min,
}
use scoreboard_ctrl.Scoreboard.{Shared, refresh_running, set_clock}
use scoreboard_ctrl.Scoreboard.Fields.{SameScores, refresh_running-SameShown, set_clock-SameScores}
use scoreboard_ctrl.Scoreboard.Publish.{methods-Told}
use scoreboard_ctrl.Board.{
  Board, Command, start_stop, start, stop, home_inc, home_dec, away_inc, away_dec, scores_zero,
  reset, led_on, led_off, set_timer, aux, score_max, has_pending, handle, set_led, do_home_inc,
  do_home_dec, do_away_inc, do_away_dec, do_scores_zero, do_aux,
}
use scoreboard_ctrl.Board.Tasks.{Others, boot}
use scoreboard_ctrl.Board.Scores.{home_shown, away_shown, StateInv, Inv, handle-Inv}
use scoreboard_ctrl.Simulate.{refresh_from, tick, sim_start_stop, sim_reset, sim_set_timer}
use scoreboard_ctrl.Simulate.Commands.{sim_do_start_stop, sim_do_reset, sim_handle, sim_drain}

-- What the other tasks of this build do to the shared state: `timer_task` counts, and the heartbeat and
-- the handlers look at the clock.
pub data SimOthers (w : Shared) : Shared → Type 0 where
  idle : SimOthers w w
  ticked : {v : Shared} (now : ℕ) → SimOthers w v → SimOthers w (tick now v)
  look : {v : Shared} (now : ℕ) → SimOthers w v → SimOthers w (refresh_running now v)

refresh_from-StateInv :
    (c : Option ℕ) (now : ℕ) (w : Shared)
    → StateInv w
    → StateInv (refresh_from c now w) × SameScores w (refresh_from c now w)
refresh_from-StateInv c now w i =
    let w' = record w { state = record (w.state) { last_change = c } } in
    ground (arith, refresh_running-SameShown now w', (methods-Told now 0 0 none w').0)

set_clock-StateInv :
    (now m s : ℕ) (w : Shared)
    → m ≤ 99
    → s ≤ 59
    → StateInv w
    → StateInv (set_clock now m s w) × SameScores w (set_clock now m s w)
set_clock-StateInv now m s w h k i =
    ground (arith, set_clock-SameScores now m s w, (methods-Told now m s none w).1)

-- The shared state keeps its invariant and shows the same scores.
abbrev Keeps : Shared → Shared → Type 0
Keeps w v = StateInv v × SameScores w v

Keeps-if :
    (w : Shared) (b : Bool) (x y : Shared)
    → (b ≡ true → Keeps w x)
    → (b ≡ false → Keeps w y)
    → Keeps w (if b then x else y)
Keeps-if w true x y f g = f refl
Keeps-if w false x y f g = g refl

tick-StateInv : (now : ℕ) (w : Shared) → StateInv w → Keeps w (tick now w)
unfolding tick
tick-StateInv now w i =
    Keeps-if w w.state.running _ _
      (λ _.
        Keeps-if w (ltb 0 w.state.seconds) _ _
          (λ h.
            set_clock-StateInv now w.state.minutes (w.state.seconds - 1) w i.minutes_max
              (omega (arith, i.seconds_max)) i)
          (λ _.
            Keeps-if w (ltb 0 w.state.minutes) _ _
              (λ h.
                set_clock-StateInv now (w.state.minutes - 1) 59 w (omega (arith, i.minutes_max))
                  (omega arith) i)
              (λ _. refresh_from-StateInv none now w i)))
      (λ _. (i, record { home = refl; away = refl; led = refl }))

SimOthers-Keeps : {w v : Shared} → StateInv w → SimOthers w v → Keeps w v
SimOthers-Keeps i idle = (i, record { home = refl; away = refl; led = refl })
SimOthers-Keeps i (ticked {v} now o) =
    let k = SimOthers-Keeps i o in ground (arith, k, tick-StateInv now v k.0)
SimOthers-Keeps i (look {v} now o) =
    let k = SimOthers-Keeps i o in
    ground (arith, k, refresh_running-SameShown now v, (methods-Told now 0 0 none v).0)

-- No pulse waits to set the timer.
abbrev NoTrain : Board → Type 0
NoTrain b = (b.pending_min ≡ pos 0) × (b.pending_sec ≡ pos 0)

module _ (b : Board) (i : Inv b) (n : NoTrain b) where
  sim_start_stop-Inv :
      (now : ℕ) (env : Shared → Shared) (want : Option Bool)
      → SimOthers b.shared (env b.shared)
      → Inv (sim_do_start_stop now env want b) × NoTrain (sim_do_start_stop now env want b)
  unfolding sim_do_start_stop sim_start_stop
  sim_start_stop-Inv now env want o =
      let k = SimOthers-Keeps i.state o in
      let c = if unwrap_or want (not (env b.shared).state.running) then some now else none in
      ground (arith, n, k, refresh_from-StateInv c now (env b.shared) k.0)

  sim_reset-Inv : (now : ℕ) → Inv (sim_do_reset now b) × NoTrain (sim_do_reset now b)
  unfolding sim_do_reset sim_reset
  sim_reset-Inv now = ground (arith, n, refresh_from-StateInv none now b.shared i.state)

  sim_set_timer-Inv :
      (now m s : ℕ)
      → let b' = record b { shared = sim_set_timer now m s b.shared } in Inv b' × NoTrain b'
  unfolding sim_set_timer
  sim_set_timer-Inv now m s =
      let k =
        set_clock-StateInv now (min m 99) (min s 59) b.shared (omega arith) (omega arith) i.state in
      ground (
        arith,
        n,
        k,
        refresh_from-StateInv none now (set_clock now (min m 99) (min s 59) b.shared) k.0,
      )

-- The commands that both builds share.
kept :
    (c : Command) (b : Board)
    → Inv b
    → NoTrain b
    → NoTrain (handle 0 (λ w. w) c b)
    → Inv (handle 0 (λ w. w) c b) × NoTrain (handle 0 (λ w. w) c b)
kept c b i n m = (handle-Inv 0 (λ w. w) c b (λ w. Others.idle) i, m)

sim_handle-Inv :
    (now : ℕ) (env : Shared → Shared) (c : Command) (b : Board)
    → SimOthers b.shared (env b.shared)
    → Inv b
    → NoTrain b
    → Inv (sim_handle now env c b) × NoTrain (sim_handle now env c b)
unfolding sim_handle handle set_led do_home_inc do_home_dec do_away_inc do_away_dec do_scores_zero
    do_aux
sim_handle-Inv now env led_on b o i n = kept led_on b i n (ground (arith, n))
sim_handle-Inv now env led_off b o i n = kept led_off b i n (ground (arith, n))
sim_handle-Inv now env start_stop b o i n = sim_start_stop-Inv b i n now env none o
sim_handle-Inv now env start b o i n = sim_start_stop-Inv b i n now env (some true) o
sim_handle-Inv now env stop b o i n = sim_start_stop-Inv b i n now env (some false) o
sim_handle-Inv now env home_inc b o i n = kept home_inc b i n (ground (arith, n))
sim_handle-Inv now env home_dec b o i n = kept home_dec b i n (ground (arith, n))
sim_handle-Inv now env away_inc b o i n = kept away_inc b i n (ground (arith, n))
sim_handle-Inv now env away_dec b o i n = kept away_dec b i n (ground (arith, n))
sim_handle-Inv now env scores_zero b o i n = kept scores_zero b i n (ground (arith, n))
sim_handle-Inv now env reset b o i n = sim_reset-Inv b i n now
sim_handle-Inv now env (set_timer m s) b o i n = sim_set_timer-Inv b i n now m s
sim_handle-Inv now env aux b o i n = kept aux b i n (ground (arith, n))

-- A command of `board_task`, or work of another task.
pub data SimStep (b : Board) : Board → Type 0 where
  command :
      (now : ℕ) (env : Shared → Shared) (c : Command)
      → SimOthers b.shared (env b.shared)
      → SimStep b (sim_handle now env c b)
  drained : has_pending b ≡ true → SimStep b (sim_drain b)
  others : (w : Shared) → SimOthers b.shared w → SimStep b (record b { shared = w })

pub data SimReach : Board → Type 0 where
  booted : SimReach boot
  next : {b c : Board} → SimReach b → SimStep b c → SimReach c

nothing_waits : (b : Board) → Inv b → NoTrain b → has_pending b ≡ false
nothing_waits b i n = rw (i.no_home_dec, i.no_away_dec, n.0, n.1) refl

SimReach-Inv : {b : Board} → SimReach b → Inv b × NoTrain b
SimReach-Inv booted = ground arith
SimReach-Inv (next r (command now env c o)) =
    let k = SimReach-Inv r in sim_handle-Inv now env c _ o k.0 k.1
SimReach-Inv (next {b} r (drained p)) =
    let k = SimReach-Inv r in absurd (ground (arith, nothing_waits b k.0 k.1))
SimReach-Inv (next {b} r (others w o)) =
    let k = SimReach-Inv r in ground (arith, k, SimOthers-Keeps k.0.state o)

-- In every state that the build with the feature `simulate` reaches, the scores kept for the phones are at most 99 and
-- equal to those of the pressed buttons, for both teams, the clock shows at most 99:59, and no pulse waits.
pub sim_scores_shown :
    {b : Board}
    → SimReach b
    → (home_shown b.log ≡ b.shared.state.home)
      × (away_shown b.log ≡ b.shared.state.away)
      × (b.shared.state.home ≤ score_max)
      × (b.shared.state.away ≤ score_max)
      × (b.shared.state.minutes ≤ 99)
      × (b.shared.state.seconds ≤ 59)
      × (has_pending b ≡ false)
sim_scores_shown {b} r =
    let (i, n) = SimReach-Inv r in
    (
      i.home,
      i.away,
      i.state.home_max,
      i.state.away_max,
      i.state.minutes_max,
      i.state.seconds_max,
      nothing_waits b i n,
    )
