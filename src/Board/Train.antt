-- ===== src/Board/Train.antt =====
-- Setting the timer in `board_task` of src/main.rs: the command, and the idle rounds behind it.
use scoreboard_ctrl.Base.{
  ℕ, ◌+◌, ◌≤◌, ◌<◌, min, ◌≡◌, ◌⊎◌, suc, ◌&&◌, inl, inr, max, Bool-cases, ltb, List, [], ◌∷◌,
  pos_part, neg_part, if◌then◌else◌, length, arith, Bool, true, false, refl,
}
use scoreboard_ctrl.Scoreboard.{Shared, effective, refresh_running}
use scoreboard_ctrl.Board.{
  Board, Pin, set_timer, handle, do_set_timer, has_pending, drain_timer, drain,
}
use scoreboard_ctrl.Board.Tasks.{Others, Reach}
use scoreboard_ctrl.Board.Scores.{StateInv, Reach-Inv, handle-Inv}
use scoreboard_ctrl.Board.Timer.{presses, distance, Accounted, drain-Accounted, drain_progress}

-- What an idle round keeps of the delayed score presses.
drain_no_scores :
    (now : ℕ) (b : Board)
    → b.pending_home_dec ≡ 0
    → b.pending_away_dec ≡ 0
    → ((drain now b).pending_home_dec ≡ 0) × ((drain now b).pending_away_dec ≡ 0)
unfolding drain drain_timer
drain_no_scores now b h a = ground arith

-- Idle rounds: before each of them the other tasks run.
unfoldable pub drains : List (ℕ × (Shared → Shared)) → Board → Board
drains [] b = b
drains ((t, env) ∷ ts) b =
    let b' = record b { shared = env b.shared } in
    drains ts (if has_pending b' then drain t b' else b')

-- How many of these rounds find the clock running while something is left to press.
unfoldable pub running_rounds : List (ℕ × (Shared → Shared)) → Board → ℕ
running_rounds [] b = 0
running_rounds ((t, env) ∷ ts) b =
    let b' = record b { shared = env b.shared } in
    let rest = running_rounds ts (if has_pending b' then drain t b' else b') in
    if has_pending b' && effective (refresh_running t b'.shared).state then suc rest else rest

-- The train over `n` rounds: each round presses the start button or goes on by one, until nothing is left.
record Train (n : ℕ) (b e : Board) : Type 0 where
  account : Accounted b e
  shorter : distance e ≤ distance b
  progress :
      (distance e ≡ 0)
      ⊎ (distance e + n + presses Pin.start b.log ≤ distance b + presses Pin.start e.log)

has_pending-distance :
    (b : Board)
    → b.pending_home_dec ≡ 0
    → b.pending_away_dec ≡ 0
    → has_pending b ≡ ltb 0 (distance b)
has_pending-distance b h a = ground arith

-- One round of the train, and then the others.
drain-Train :
    (now n : ℕ) (b e : Board)
    → b.pending_home_dec ≡ 0
    → b.pending_away_dec ≡ 0
    → 0 < distance b
    → Train n (drain now b) e
    → Train (suc n) b e
drain-Train now n b e h a d r = ground (arith, drain-Accounted now b, drain_progress now b h a d)

-- A round with nothing left.
idle-Train :
    (n : ℕ) (b e : Board) (w : Shared)
    → distance b ≡ 0
    → Train n (record b { shared = w }) e
    → Train (suc n) b e
idle-Train n b e w d r = record {
  account = record { minutes = r.account.minutes; seconds = r.account.seconds };
  shorter = r.shorter;
  progress = inl (omega (arith, r.shorter, d));
}

drains-Train :
    (ts : List (ℕ × (Shared → Shared))) (b : Board)
    → b.pending_home_dec ≡ 0
    → b.pending_away_dec ≡ 0
    → Train (length ts) b (drains ts b)
unfolding drains
drains-Train [] b h a = ground arith
drains-Train ((t, env) ∷ ts) b h a = elim (Bool-cases (has_pending b)) [
  | inl more ↦
      let left : 0 < distance b = ground (arith, has_pending-distance b h a) in
      let (h', a') = drain_no_scores t b' h a in
      let rest = drain-Train t (length ts) b' _ h a left (drains-Train ts (drain t b') h' a') in
      rw more (record {
        account = record { minutes = rest.account.minutes; seconds = rest.account.seconds };
        shorter = rest.shorter;
        progress = rest.progress;
      })
  | inr none_left ↦
      let over : distance b ≡ 0 = ground (arith, has_pending-distance b h a) in
      rw none_left (idle-Train (length ts) b _ (env b.shared) over (drains-Train ts b' h a))
]
  where
    b' : Board
    b' = record b { shared = env b.shared }

-- The start button is pressed in just these rounds.
round-start :
    (now n : ℕ) (b e : Board)
    → b.pending_home_dec ≡ 0
    → b.pending_away_dec ≡ 0
    → 0 < distance b
    → presses Pin.start e.log ≡ presses Pin.start (drain now b).log + n
    → presses Pin.start e.log
      ≡ presses Pin.start b.log
        + (if effective (refresh_running now b.shared).state then suc n else n)
round-start now n b e h a d r = ground (arith, drain_progress now b h a d)

drains-start :
    (ts : List (ℕ × (Shared → Shared))) (b : Board)
    → b.pending_home_dec ≡ 0
    → b.pending_away_dec ≡ 0
    → presses Pin.start (drains ts b).log ≡ presses Pin.start b.log + running_rounds ts b
unfolding drains running_rounds
drains-start [] b h a = omega arith
drains-start ((t, env) ∷ ts) b h a = go (has_pending b') refl (drains-start ts)
  where
    b' : Board
    b' = record b { shared = env b.shared }

    go :
        (x : Bool)
        → has_pending b' ≡ x
        → ((c : Board)
            → c.pending_home_dec ≡ 0
            → c.pending_away_dec ≡ 0
            → presses Pin.start (drains ts c).log ≡ presses Pin.start c.log + running_rounds ts c)
        → let c = if x then drain t b' else b' in
          let rest = running_rounds ts c in
          presses Pin.start (drains ts c).log
          ≡ presses Pin.start b.log
            + (if x && effective (refresh_running t b'.shared).state then suc rest else rest)
    go true e ih =
        let left : 0 < distance b' = ground (arith, has_pending-distance b' h a) in
        let (h', a') = drain_no_scores t b' h a in
        round-start t (running_rounds ts (drain t b')) b' (drains ts (drain t b')) h a left
          (ih (drain t b') h' a')
    go false e ih = ih b' h a

-- What a set-timer command leaves to press.
set_timer_distance :
    (now : ℕ) (env : Shared → Shared) (m s : ℕ) (b : Board)
    → let c = do_set_timer now env m s b in
      (pos_part c.pending_min + c.shared.state.minutes ≡ min m 99 + neg_part c.pending_min)
      × (pos_part c.pending_sec + c.shared.state.seconds ≡ min s 59 + neg_part c.pending_sec)
      × (distance c ≤ max c.shared.state.minutes (min m 99) + max c.shared.state.seconds (min s 59))
      × (c.pending_home_dec ≡ b.pending_home_dec)
      × (c.pending_away_dec ≡ b.pending_away_dec)
unfolding do_set_timer
set_timer_distance now env m s b = ground arith

arrived :
    (n : ℕ) (c e : Board) (m s : ℕ)
    → StateInv c.shared
    → (pos_part c.pending_min + c.shared.state.minutes ≡ min m 99 + neg_part c.pending_min)
    → (pos_part c.pending_sec + c.shared.state.seconds ≡ min s 59 + neg_part c.pending_sec)
    → distance c ≤ max c.shared.state.minutes (min m 99) + max c.shared.state.seconds (min s 59)
    → Train n c e
    → 158 + presses Pin.start e.log ≤ n + presses Pin.start c.log
    → (distance e ≡ 0)
      × (presses Pin.min_inc e.log + c.shared.state.minutes + presses Pin.min_dec c.log
          ≡ presses Pin.min_inc c.log + min m 99 + presses Pin.min_dec e.log)
      × (presses Pin.sec_inc e.log + c.shared.state.seconds + presses Pin.sec_dec c.log
          ≡ presses Pin.sec_inc c.log + min s 59 + presses Pin.sec_dec e.log)
arrived n c e m s i dm ds d t enough =
    let a = t.account in
    let none_left : distance e ≡ 0 = elim t.progress [
      | inl z ↦ z
      | inr p ↦ omega (arith, p, enough, d, i.minutes_max, i.seconds_max)
    ] in
    (none_left, omega (arith, a.minutes, none_left, dm), omega (arith, a.seconds, none_left, ds))

-- From any state that the firmware reaches, behind a set-timer command, whatever the other tasks do to the shared
-- state before each idle round: the start button is pressed once in each round that finds the clock running with
-- something left to press, and 158 rounds besides these are enough to press all buttons. The presses of the
-- minute buttons, up less down, then make up the way from the minutes that the command saw to the ones
-- asked for, at most 99; so do those of the second buttons, at most 59.
pub set_timer_arrives :
    (now : ℕ) (env : Shared → Shared) (m s : ℕ) (ts : List (ℕ × (Shared → Shared))) {b : Board}
    → Reach b
    → ((v : Shared) → Others v (env v))
    → let c = do_set_timer now env m s b in
      let e = drains ts c in
      158 + running_rounds ts c ≤ length ts
      → (distance e ≡ 0)
        × (presses Pin.min_inc e.log + c.shared.state.minutes + presses Pin.min_dec c.log
            ≡ presses Pin.min_inc c.log + min m 99 + presses Pin.min_dec e.log)
        × (presses Pin.sec_inc e.log + c.shared.state.seconds + presses Pin.sec_dec c.log
            ≡ presses Pin.sec_inc c.log + min s 59 + presses Pin.sec_dec e.log)
        × (presses Pin.start e.log ≡ presses Pin.start c.log + running_rounds ts c)
unfolding handle
set_timer_arrives now env m s ts {b} r o n =
    let c = do_set_timer now env m s b in
    let (dm, ds, d, _, _) = set_timer_distance now env m s b in
    let i = handle-Inv now env (set_timer m s) b o (Reach-Inv r) in
    let started = drains-start ts c i.no_home_dec i.no_away_dec in
    let (none_left, minutes, seconds) =
      arrived (length ts) c (drains ts c) m s i.state dm ds d
        (drains-Train ts c i.no_home_dec i.no_away_dec) (omega (arith, started, n)) in
    (none_left, minutes, seconds, started)
