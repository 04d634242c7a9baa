-- ===== src/Status.antt =====
-- What the phones are told, src/main.rs: `TimeStr`, `status_of`, and the event streams of
-- `StatusEvents`. A stream of status events keeps how many sends of `EVENTS` its receiver has seen;
-- `changed` and `try_changed` see all sends up to now, as embassy's `Watch` documents. The writer is
-- not modelled but for what is written, newest first; a write that fails ends the stream.
pub mod Crowd
pub mod Streams
use scoreboard_ctrl.Base.{
  ℕ, ◌+◌, ◌-◌, ◌*◌, ◌/◌, ◌%◌, min, Bool, not, List, [], ◌∷◌, leb, ◌==◌, if◌then◌else◌,
}
use scoreboard_ctrl.Decode.{stopped_after_ms}
use scoreboard_ctrl.Scoreboard.{ScoreboardState, Shared, age_ms, refresh_running}

-- `TimeStr::from_parts`
unfoldable pub time_str : ℕ → ℕ → List ℕ
time_str min_arg sec_arg =
    let m = min min_arg 99 in
    let s = min sec_arg 59 in
    (b'0' + m / 10) ∷ (b'0' + m % 10) ∷ b':' ∷ (b'0' + s / 10) ∷ (b'0' + s % 10) ∷ []

-- What the build fixes: `cfg!(feature = "simulate")`, `VERSION`, `GIT_SHORT` and `GIT_DATE`.
pub record Build : Type 0 where
  pub sim : Bool
  pub ver : List ℕ
  pub git : List ℕ
  pub date : List ℕ

pub record StatusJson : Type 0 where
  pub time : List ℕ
  pub running : Bool
  pub home : ℕ
  pub away : ℕ
  pub led : Bool
  pub build : Build
  pub age_ms : ℕ

unfoldable pub status_of : Build → ℕ → ScoreboardState → StatusJson
status_of build now s = record {
  time = time_str s.minutes s.seconds;
  running = s.running;
  home = s.home;
  away = s.away;
  led = s.led;
  build = build;
  age_ms = age_ms now s.last_change;
}

pub data Written : Type 0 where
  status : StatusJson → Written
  keepalive : Written

pub record Stream : Type 0 where
  pub shared : Shared
  pub seen : ℕ
  pub written : List Written

-- The receiver has seen every send up to now.
abbrev pub mark_seen : Stream → Stream
mark_seen t = record t { seen = t.shared.events }

unfoldable pub write_snapshot : Build → ℕ → Stream → Stream
write_snapshot build now t =
    let w = refresh_running now t.shared in
    record t { shared = w; written = Written.status (status_of build now w.state) ∷ t.written }

-- In milliseconds.
unfoldable pub stop_wait : ℕ → Shared → ℕ
stop_wait now w =
    let age = age_ms now w.state.last_change in
    if not w.state.running
    then 30 * 1000
    else if leb stopped_after_ms age
    then 1
    else stopped_after_ms - age

-- The beginning of `write_events`, and the arms of its `select3`.
unfoldable pub on_open : Build → ℕ → Stream → Stream
on_open build now t = write_snapshot build now (mark_seen t)

unfoldable pub on_changed : Build → ℕ → Stream → Stream
on_changed build now t = write_snapshot build now (mark_seen t)

unfoldable pub on_quiet : Stream → Stream
on_quiet t = record t { written = Written.keepalive ∷ t.written }

-- `now` is the time of the refresh, `later` that of the snapshot.
unfoldable pub on_stop_in : Build → ℕ → ℕ → Stream → Stream
on_stop_in build now later t =
    let t' = record t { shared = refresh_running now t.shared } in
    if not (t'.seen == t'.shared.events) then write_snapshot build later (mark_seen t') else t'
