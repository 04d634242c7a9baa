-- ===== src/Board.antt =====
-- `board_task` of src/main.rs, built for the real scoreboard (without the feature `simulate`): the
-- commands of the phones become pulses on the scoreboard's buttons. Its state is the locals of the
-- task, the shared state and, newest first, what it did to the pins. Waiting for 50 ms within a pulse
-- is not modelled; only a set-timer command looks at the shared state again after one, and `env` is
-- what the other tasks did to the shared state by then.
pub mod Tasks
pub mod Heartbeat
pub mod Scores
pub mod Timer
pub mod Train
use scoreboard_ctrl.Base.{
  ℕ, ◌+◌, ◌-◌, min, Bool, true, false, not, ◌&&◌, ◌||◌, Option, none, some, List, [], ◌∷◌, ltb,
  if◌then◌else◌, ℤ, pos, sub_ℕ, add_one, sub_one, is_pos, is_neg,
}
use scoreboard_ctrl.Scoreboard.{ScoreboardState, Shared, publish, start_stop_pulse_for}

abbrev pub score_max : ℕ
score_max = 99

pub data Command : Type 0 where
  start_stop start stop home_inc home_dec away_inc away_dec scores_zero reset led_on led_off :
      Command
  set_timer : ℕ → ℕ → Command
  aux : Command

-- The outputs of `Io`.
pub data Pin : Type 0 where
  start home_inc home_dec away_inc away_dec reset min_inc min_dec sec_inc sec_dec clear aux : Pin

-- `pulse(pin)`, and `gpio_set(0, on)` of the onboard LED.
pub data Effect : Type 0 where
  pulse : Pin → Effect
  gpio_set : Bool → Effect

pub record Board : Type 0 where
  pub shared : Shared
  pub pending_home_dec : ℕ  -- u16
  pub pending_away_dec : ℕ  -- u16
  pub pending_min : ℤ  -- i16
  pub pending_sec : ℤ  -- i16
  pub log : List Effect

abbrev pub emit : Effect → Board → Board
emit e b = record b { log = e ∷ b.log }

abbrev pub press : Pin → Board → Board
press p b = emit (Effect.pulse p) b

abbrev pub press_if : Bool → Pin → Board → Board
press_if c p b = if c then press p b else b

-- `hold_led` is the state's `led`, which no other task writes.
abbrev pub blink_onboard : Bool → Board → Board
blink_onboard hold_led b =
    if hold_led then b else emit (Effect.gpio_set false) (emit (Effect.gpio_set true) b)

-- A critical section that changes the state and then publishes it.
abbrev pub with_state : ScoreboardState → Board → Board
with_state s b = record b { shared = publish (record (b.shared) { state = s }) }

abbrev pub led_of : Board → Bool
led_of b = b.shared.state.led

unfoldable pub set_led : Bool → Board → Board
set_led on b =
    let b' = emit (Effect.gpio_set on) b in with_state (record (b'.shared.state) { led = on }) b'

unfoldable pub do_start_stop : ℕ → Option Bool → Board → Board
do_start_stop now want b =
    let led = led_of b in
    let (w, pulse_needed) = start_stop_pulse_for now want b.shared in
    blink_onboard led (press_if pulse_needed Pin.start (record b { shared = w }))

unfoldable pub do_home_inc : Board → Board
do_home_inc b =
    let s = b.shared.state in
    let counted = with_state (record s { home = s.home + 1 }) b in
    let shown =
      if ltb 0 b.pending_home_dec
      then record counted { pending_home_dec = b.pending_home_dec - 1 }
      else press Pin.home_inc counted in
    if ltb s.home score_max then blink_onboard s.led shown else b

-- `saturating_add` on a u16.
unfoldable pub do_home_dec : Board → Board
do_home_dec b =
    let s = b.shared.state in
    let counted = with_state (record s { home = s.home - 1 }) b in
    let shown =
      if ltb 0 b.pending_home_dec
      then record counted { pending_home_dec = min (b.pending_home_dec + 1) 65535 }
      else press Pin.home_dec counted in
    if ltb 0 s.home then blink_onboard s.led shown else b

unfoldable pub do_away_inc : Board → Board
do_away_inc b =
    let s = b.shared.state in
    let counted = with_state (record s { away = s.away + 1 }) b in
    let shown =
      if ltb 0 b.pending_away_dec
      then record counted { pending_away_dec = b.pending_away_dec - 1 }
      else press Pin.away_inc counted in
    if ltb s.away score_max then blink_onboard s.led shown else b

unfoldable pub do_away_dec : Board → Board
do_away_dec b =
    let s = b.shared.state in
    let counted = with_state (record s { away = s.away - 1 }) b in
    let shown =
      if ltb 0 b.pending_away_dec
      then record counted { pending_away_dec = min (b.pending_away_dec + 1) 65535 }
      else press Pin.away_dec counted in
    if ltb 0 s.away then blink_onboard s.led shown else b

unfoldable pub do_scores_zero : Board → Board
do_scores_zero b =
    let s = b.shared.state in
    let zeroed = with_state (record s { home = 0; away = 0 }) b in
    blink_onboard s.led
      (press Pin.clear (record zeroed { pending_home_dec = 0; pending_away_dec = 0 }))

unfoldable pub do_reset : Board → Board
do_reset b =
    let s = b.shared.state in
    blink_onboard s.led (
      press Pin.reset (record b {
        shared = record (b.shared) {
          state = record s { pending_running = none; pending_at = none };
        };
        pending_min = pos 0;
        pending_sec = pos 0;
      }))

-- The clock is stopped first; then the distance to the target is taken from what it shows.
unfoldable pub do_set_timer : ℕ → (Shared → Shared) → ℕ → ℕ → Board → Board
do_set_timer now env min_arg sec_arg b =
    let target_min = min min_arg 99 in
    let target_sec = min sec_arg 59 in
    let (w, pulse_stop) = start_stop_pulse_for now (some false) b.shared in
    let stopped = press_if pulse_stop Pin.start (record b { shared = w }) in
    let seen = if pulse_stop then env w else w in
    record stopped {
      shared = seen;
      pending_min = sub_ℕ target_min seen.state.minutes;
      pending_sec = sub_ℕ target_sec seen.state.seconds;
    }

unfoldable pub do_aux : Board → Board
do_aux b = blink_onboard (led_of b) (press Pin.aux b)

-- The `match cmd` of the loop.
unfoldable pub handle : ℕ → (Shared → Shared) → Command → Board → Board
handle now env led_on b = set_led true b
handle now env led_off b = set_led false b
handle now env start_stop b = do_start_stop now none b
handle now env start b = do_start_stop now (some true) b
handle now env stop b = do_start_stop now (some false) b
handle now env home_inc b = do_home_inc b
handle now env home_dec b = do_home_dec b
handle now env away_inc b = do_away_inc b
handle now env away_dec b = do_away_dec b
handle now env scores_zero b = do_scores_zero b
handle now env reset b = do_reset b
handle now env (set_timer m s) b = do_set_timer now env m s b
handle now env aux b = do_aux b

abbrev pub has_pending : Board → Bool
has_pending b =
    ltb 0 b.pending_home_dec
    || ltb 0 b.pending_away_dec
    || (is_pos b.pending_min || is_neg b.pending_min)
    || (is_pos b.pending_sec || is_neg b.pending_sec)

-- The last part of the train of pulses, once the clock is stopped.
unfoldable pub drain_timer : Board → Board
drain_timer b =
    if is_pos b.pending_min
    then record (press Pin.min_inc b) { pending_min = sub_one b.pending_min }
    else if is_neg b.pending_min
    then record (press Pin.min_dec b) { pending_min = add_one b.pending_min }
    else if is_pos b.pending_sec
    then record (press Pin.sec_inc b) { pending_sec = sub_one b.pending_sec }
    else if is_neg b.pending_sec
    then record (press Pin.sec_dec b) { pending_sec = add_one b.pending_sec }
    else b

-- A round of the loop in which no command waits.
unfoldable pub drain : ℕ → Board → Board
drain now b =
    let (w, pulse_stop) = start_stop_pulse_for now (some false) b.shared in
    let b' = record b { shared = w } in
    if ltb 0 b.pending_home_dec
    then record (press Pin.home_dec b) { pending_home_dec = b.pending_home_dec - 1 }
    else if ltb 0 b.pending_away_dec
    then record (press Pin.away_dec b) { pending_away_dec = b.pending_away_dec - 1 }
    else if is_pos b.pending_min
        || is_neg b.pending_min
        || (is_pos b.pending_sec || is_neg b.pending_sec)
    then (if pulse_stop then press Pin.start b' else drain_timer b')
    else b

-- One round of the loop over the commands that wait in the channel, oldest first. With none, and
-- nothing pending, the task waits.
unfoldable pub iterate : ℕ → (Shared → Shared) → List Command → Board → List Command × Board
iterate now env (c ∷ cs) b = (cs, handle now env c b)
iterate now env [] b = ([], if has_pending b then drain now b else b)
