-- ===== src/Status/Streams.antt =====
-- An event stream of src/main.rs among the other tasks.
use scoreboard_ctrl.Base.{
  ℕ, ◌≤◌, ◌≡◌, refl, ◌∙◌, Bool-cases, ◌==◌, inl, inr, Option, none, some, List, [], ◌∷◌, arith,
}
use scoreboard_ctrl.Scoreboard.{Visible, Shared, visible, refresh_running}
use scoreboard_ctrl.Scoreboard.Publish.{IsAnnounced, Told, refresh_running-Told}
use scoreboard_ctrl.Status.{
  time_str, Build, StatusJson, status_of, Written, Stream, mark_seen, write_snapshot, on_open,
  on_changed, on_quiet, on_stop_in,
}

-- The status that was written last.
abbrev pub last_status : List Written → Option StatusJson
last_status [] = none
last_status (Written.status j ∷ ws) = some j
last_status (Written.keepalive ∷ ws) = last_status ws

-- A status shows what the phones are to see.
pub record Shows (v : Visible) (j : StatusJson) : Type 0 where
  pub time : j.time ≡ time_str v.minutes v.seconds
  pub running : j.running ≡ v.running
  pub home : j.home ≡ v.home
  pub away : j.away ≡ v.away
  pub led : j.led ≡ v.led

-- A stream that is open, among the tasks: one of its arms runs, or another task changes the shared
-- state and tells of it.
pub data Step (build : Build) (t : Stream) : Stream → Type 0 where
  changed : (now : ℕ) → Step build t (on_changed build now t)
  quiet : Step build t (on_quiet t)
  stop_in : (now later : ℕ) → Step build t (on_stop_in build now later t)
  others : (w : Shared) → Told t.shared w → Step build t (record t { shared = w })

pub data Reach (build : Build) : Stream → Type 0 where
  opened : (now : ℕ) (t : Stream) → IsAnnounced t.shared → Reach build (on_open build now t)
  next : {t u : Stream} → Reach build t → Step build t u → Reach build u

pub record UpToDate (t : Stream) : Type 0 where
  pub announced : IsAnnounced t.shared
  pub seen : t.seen ≤ t.shared.events
  pub last : StatusJson
  pub is_last : last_status t.written ≡ some last
  pub shows : t.seen ≡ t.shared.events → Shows (visible t.shared.state) last

pub write_snapshot-UpToDate :
    (build : Build) (now : ℕ) (t : Stream)
    → t.seen ≤ t.shared.events
    → UpToDate (write_snapshot build now t)
unfolding write_snapshot status_of
write_snapshot-UpToDate build now t h =
    let told = refresh_running-Told now t.shared in
    record {
      announced = told.announced;
      seen = ground (arith, told);
      last = status_of build now (refresh_running now t.shared).state;
      is_last = refl;
      shows = λ e. record { time = refl; running = refl; home = refl; away = refl; led = refl };
    }

pub Told-UpToDate :
    (t : Stream) (w : Shared) → UpToDate t → Told t.shared w → UpToDate (record t { shared = w })
Told-UpToDate t w u told = record {
  announced = told.announced;
  seen = ground arith;
  last = u.last;
  is_last = u.is_last;
  shows = λ e. elim told.wakings [
    | inl same ↦ rw (same.0 ∙ u.announced) (u.shows (e ∙ same.1))
    | inr sent ↦ absurd (omega (arith, u.seen, sent))
  ];
}

pub Step-UpToDate : {build : Build} {t v : Stream} → UpToDate t → Step build t v → UpToDate v
unfolding on_changed on_quiet on_stop_in
Step-UpToDate {build} {t} u (changed now) =
    write_snapshot-UpToDate build now (mark_seen t) (omega arith)
Step-UpToDate {build} {t} u quiet = record {
  announced = u.announced;
  seen = u.seen;
  last = u.last;
  is_last = u.is_last;
  shows = u.shows;
}
Step-UpToDate {build} {t} u (stop_in now later) =
    let t' = record t { shared = refresh_running now t.shared } in
    elim (Bool-cases (t'.seen == t'.shared.events)) [
      | inl same ↦ rw same (Told-UpToDate t t'.shared u (refresh_running-Told now t.shared))
      | inr other ↦ rw other (write_snapshot-UpToDate build later (mark_seen t') (omega arith))
    ]
Step-UpToDate {build} {t} u (others w told) = Told-UpToDate t w u told

-- However the tasks interleave, once a stream has seen every send of `EVENTS`, the status that it wrote
-- last shows the time, the run state, the scores and the LED as they are.
pub stream-Shows :
    {build : Build} {t : Stream}
    → Reach build t
    → t.seen ≡ t.shared.events
    → (j : StatusJson) × (last_status t.written ≡ some j) × Shows (visible t.shared.state) j
unfolding on_open
stream-Shows {build} {t} r e = let u = go r in (u.last, u.is_last, u.shows e)
  where
    go : {v : Stream} → Reach build v → UpToDate v
    go (opened now v a) = write_snapshot-UpToDate build now (mark_seen v) (omega arith)
    go (next r s) = Step-UpToDate (go r) s
