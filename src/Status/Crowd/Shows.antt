-- ===== src/Status/Crowd/Shows.antt =====
-- What the event streams of src/main.rs show, all of them at once.
use scoreboard_ctrl.Base.{
  ℕ, Bool, true, false, zero, suc, ◌≡◌, ◌⊎◌, some, List, [], ◌∷◌, Bool-cases, inl, inr, ◌==◌, arith,
}
use scoreboard_ctrl.Scoreboard.{Shared, visible, refresh_running}
use scoreboard_ctrl.Scoreboard.Publish.{IsAnnounced, Told, refresh_running-Told}
use scoreboard_ctrl.Status.{
  Build, StatusJson, Stream, mark_seen, on_open, on_changed, on_quiet, on_stop_in, write_snapshot,
}
use scoreboard_ctrl.Status.Streams.{
  Shows, Step, UpToDate, last_status, write_snapshot-UpToDate, Told-UpToDate, Step-UpToDate,
}
use scoreboard_ctrl.Status.Crowd.{
  Receiver, stream, Crowd, Arm, on_arm, connect, run_arm, disconnect, CrowdStep, CrowdReach,
}

-- What holds of a stream in one shared state holds in the other.
abbrev Keeps : Shared → Shared → Type 0
Keeps w w' = (r : Receiver) → UpToDate (stream w r) → UpToDate (stream w' r)

Told-Keeps : (w w' : Shared) → Told w w' → Keeps w w'
Told-Keeps w w' told r u = Told-UpToDate (stream w r) w' u told

stop_in-Keeps :
    (build : Build) (now later : ℕ) (t : Stream)
    → Keeps t.shared (on_stop_in build now later t).shared
unfolding on_stop_in write_snapshot
stop_in-Keeps build now later t r u =
    let w = refresh_running now t.shared in
    let u' = Told-Keeps t.shared w (refresh_running-Told now t.shared) r u in
    elim (Bool-cases (t.seen == w.events)) [
      | inl same ↦ rw same u'
      | inr other ↦ rw other (Told-Keeps w _ (refresh_running-Told later w) r u')
    ]

on_arm-Keeps : (build : Build) (a : Arm) (t : Stream) → Keeps t.shared (on_arm build a t).shared
unfolding on_arm on_changed on_quiet write_snapshot
on_arm-Keeps build (Arm.changed now) t = Told-Keeps _ _ (refresh_running-Told now t.shared)
on_arm-Keeps build Arm.quiet t = λ r u. u
on_arm-Keeps build (Arm.stop_in now later) t = stop_in-Keeps build now later t

on_arm-UpToDate : (build : Build) (a : Arm) (t : Stream) → UpToDate t → UpToDate (on_arm build a t)
unfolding on_arm
on_arm-UpToDate build (Arm.changed now) t u = Step-UpToDate {build = build} u (Step.changed now)
on_arm-UpToDate build Arm.quiet t u = Step-UpToDate {build = build} u Step.quiet
on_arm-UpToDate build (Arm.stop_in now later) t u =
    Step-UpToDate {build = build} u (Step.stop_in now later)

abbrev pub Has : Receiver → List Receiver → Type 0
Has r [] = ⊥
Has r (s ∷ rs) = (r ≡ s) ⊎ Has r rs

abbrev AllUpToDate : Shared → List Receiver → Type 0
AllUpToDate w [] = Unit
AllUpToDate w (r ∷ rs) = UpToDate (stream w r) × AllUpToDate w rs

Keeps-All :
    {w w' : Shared} → Keeps w w' → (rs : List Receiver) → AllUpToDate w rs → AllUpToDate w' rs
Keeps-All k [] us = tt
Keeps-All k (r ∷ rs) (u, us) = (k r u, Keeps-All k rs us)

-- A state that was announced, and each stream up to date.
record IsValid (c : Crowd) : Type 0 where
  announced : IsAnnounced c.shared
  all : AllUpToDate c.shared c.receivers

-- The state behind an arm.
record Ran (w : Shared) (rs : List Receiver) (c : Crowd) : Type 0 where
  announced : IsAnnounced c.shared
  all : AllUpToDate c.shared c.receivers
  keeps : Keeps w c.shared

run_arm-Ran :
    (build : Build) (a : Arm) (i : ℕ) (w : Shared) (rs : List Receiver)
    → IsAnnounced w
    → AllUpToDate w rs
    → Ran w rs (run_arm build a i w rs)
unfolding run_arm
run_arm-Ran build a i w [] n us = record { announced = n; all = tt; keeps = λ r u. u }
run_arm-Ran build a zero w (r ∷ rs) n (u, us) =
    let u' = on_arm-UpToDate build a (stream w r) u in
    let k = on_arm-Keeps build a (stream w r) in
    record { announced = u'.announced; all = (u', Keeps-All k rs us); keeps = k }
run_arm-Ran build a (suc i) w (r ∷ rs) n (u, us) =
    let x = run_arm-Ran build a i w rs n us in
    record { announced = x.announced; all = (x.keeps r u, x.all); keeps = x.keeps }

disconnect-All :
    (w : Shared) (i : ℕ) (rs : List Receiver) → AllUpToDate w rs → AllUpToDate w (disconnect i rs)
unfolding disconnect
disconnect-All w i [] us = tt
disconnect-All w zero (r ∷ rs) (u, us) = us
disconnect-All w (suc i) (r ∷ rs) (u, us) = (u, disconnect-All w i rs us)

connect-IsValid :
    (build : Build) (rx : Bool) (now : ℕ) (c : Crowd) → IsValid c → IsValid (connect build rx now c)
unfolding connect on_open write_snapshot
connect-IsValid build false now c v = v
connect-IsValid build true now c v =
    let t = stream c.shared (record { seen = 0; written = [] }) in
    let told = refresh_running-Told now c.shared in
    record {
      announced = told.announced;
      all = (
        write_snapshot-UpToDate build now (mark_seen t) (omega arith),
        Keeps-All (Told-Keeps c.shared _ told) c.receivers v.all,
      );
    }

CrowdStep-IsValid : {build : Build} {c d : Crowd} → IsValid c → CrowdStep build c d → IsValid d
CrowdStep-IsValid {build} {c} v (CrowdStep.connected rx now) = connect-IsValid build rx now c v
CrowdStep-IsValid {build} {c} v (CrowdStep.arm a i) =
    let x = run_arm-Ran build a i c.shared c.receivers v.announced v.all in
    record { announced = x.announced; all = x.all }
CrowdStep-IsValid {build} {c} v (CrowdStep.disconnected i) = record {
  announced = v.announced;
  all = disconnect-All c.shared i c.receivers v.all;
}
CrowdStep-IsValid {build} {c} v (CrowdStep.others w told) = record {
  announced = told.announced;
  all = Keeps-All (Told-Keeps c.shared w told) c.receivers v.all;
}

CrowdReach-IsValid : {build : Build} {c : Crowd} → CrowdReach build c → IsValid c
CrowdReach-IsValid (CrowdReach.start w n) = record { announced = n; all = tt }
CrowdReach-IsValid (CrowdReach.next r s) = CrowdStep-IsValid (CrowdReach-IsValid r) s

of_all :
    {w : Shared} (r : Receiver) (rs : List Receiver)
    → Has r rs
    → AllUpToDate w rs
    → UpToDate (stream w r)
of_all r [] h us = absurd h
of_all {w} r (s ∷ rs) (inl e) (u, us) = rw e u
of_all r (s ∷ rs) (inr h) (u, us) = of_all r rs h us

-- However the streams come, go and run among the other tasks: once one of those that are open has seen every
-- send of `EVENTS`, the status that it wrote last shows the time, the run state, the scores and the
-- LED as they are.
pub crowd-Shows :
    {build : Build} {c : Crowd} (r : Receiver)
    → CrowdReach build c
    → Has r c.receivers
    → r.seen ≡ c.shared.events
    → (j : StatusJson) × (last_status r.written ≡ some j) × Shows (visible c.shared.state) j
crowd-Shows r reach has e =
    let u = of_all r _ has (CrowdReach-IsValid reach).all in (u.last, u.is_last, u.shows e)
