-- ===== src/Status/Crowd.antt =====
-- All event streams of src/main.rs at once, over one shared state. Whether `EVENTS` has a receiver for one
-- more is embassy's to say and is given to each request. An arm runs as one step: no other task comes between its locks.
pub mod Shows
use scoreboard_ctrl.Base.{ℕ, Bool, zero, suc, ◌≡◌, List, [], ◌∷◌, if◌then◌else◌}
use scoreboard_ctrl.Scoreboard.{Shared}
use scoreboard_ctrl.Scoreboard.Publish.{IsAnnounced, Told}
use scoreboard_ctrl.Status.{Build, Written, Stream, on_open, on_changed, on_quiet, on_stop_in}

-- What a stream has to itself.
pub record Receiver : Type 0 where
  pub seen : ℕ
  pub written : List Written

abbrev pub stream : Shared → Receiver → Stream
stream w r = record { shared = w; seen = r.seen; written = r.written }

abbrev pub receiver : Stream → Receiver
receiver t = record { seen = t.seen; written = t.written }

pub record Crowd : Type 0 where
  pub shared : Shared
  pub receivers : List Receiver

-- The arms of `select3`.
pub data Arm : Type 0 where
  changed : ℕ → Arm
  quiet : Arm
  stop_in : ℕ → ℕ → Arm

unfoldable pub on_arm : Build → Arm → Stream → Stream
on_arm build (changed now) t = on_changed build now t
on_arm build quiet t = on_quiet t
on_arm build (stop_in now later) t = on_stop_in build now later t

-- A request for the events; `rx` is whether `EVENTS.receiver()` gave a receiver.
unfoldable pub connect : Build → Bool → ℕ → Crowd → Crowd
connect build rx now c =
    let t = on_open build now (stream c.shared (record { seen = 0; written = [] })) in
    if rx then record { shared = t.shared; receivers = receiver t ∷ c.receivers } else c

-- An arm of stream `i` runs.
unfoldable pub run_arm : Build → Arm → ℕ → Shared → List Receiver → Crowd
unfolding on_arm
run_arm build arm i w [] = record { shared = w; receivers = [] }
run_arm build arm zero w (r ∷ rs) =
    let t = on_arm build arm (stream w r) in
    record { shared = t.shared; receivers = receiver t ∷ rs }
run_arm build arm (suc i) w (r ∷ rs) =
    let c = run_arm build arm i w rs in record { shared = c.shared; receivers = r ∷ c.receivers }

-- Stream `i` ends, for which it is enough that one of its writes fails.
unfoldable pub disconnect : ℕ → List Receiver → List Receiver
disconnect i [] = []
disconnect zero (r ∷ rs) = rs
disconnect (suc i) (r ∷ rs) = r ∷ disconnect i rs

pub data CrowdStep (build : Build) (c : Crowd) : Crowd → Type 0 where
  connected : (rx : Bool) (now : ℕ) → CrowdStep build c (connect build rx now c)
  arm : (a : Arm) (i : ℕ) → CrowdStep build c (run_arm build a i c.shared c.receivers)
  disconnected : (i : ℕ) → CrowdStep build c (record c { receivers = disconnect i c.receivers })
  others : (w : Shared) → Told c.shared w → CrowdStep build c (record c { shared = w })

pub data CrowdReach (build : Build) : Crowd → Type 0 where
  start : (w : Shared) → IsAnnounced w → CrowdReach build (record { shared = w; receivers = [] })
  next : {c d : Crowd} → CrowdReach build c → CrowdStep build c d → CrowdReach build d
