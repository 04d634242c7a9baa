-- ===== src/Scoreboard/Pending.antt =====
-- The start pin is a toggle: a pulse flips the run state. These are the rules by which src/main.rs
-- decides on a pulse while the UART lags behind.
use scoreboard_ctrl.Base.{
  ℕ, ◌+◌, ◌-◌, ◌/◌, ◌≤◌, ◌<◌, Bool, true, false, not, ◌≡◌, ◌≢◌, ◌↔◌, ◌⊎◌, inl, inr, Option, none,
  some, unwrap_or, arith,
}
use scoreboard_ctrl.Decode.{
  clock_is_running, start_stop_pulse_needed, resolve_pending_running, stopped_after_ms,
}
use scoreboard_ctrl.Scoreboard.{
  Shared, age_ms, pending_age_ms, publish, refresh_running, start_stop_pulse_for, effective,
}

-- A pending state that is younger than two seconds is what counts.
refresh_running-effective :
    (now later : ℕ) (want : Bool) (w : Shared)
    → w.state.pending_running ≡ some want
    → w.state.pending_at ≡ some now
    → (later - now) / 1000 < stopped_after_ms
    → effective (refresh_running later w).state ≡ want
unfolding refresh_running publish resolve_pending_running pending_age_ms
refresh_running-effective now later want w p a h = ground arith

-- The last part of a request: it either pulsed, and set what is pending, or only looked at the clock.
start_stop_now :
    (now : ℕ) (want : Option Bool) (w : Shared)
    → let seen = refresh_running now w in
      let asked = unwrap_or want (not (effective seen.state)) in
      let (w', pulse) = start_stop_pulse_for now want w in
      ((pulse ≡ true) ↔ (asked ≢ effective seen.state))
      × (((pulse ≡ true)
            × (w'.state.pending_running ≡ some asked)
            × (w'.state.pending_at ≡ some now))
          ⊎ ((pulse ≡ false) × (w' ≡ seen)))
unfolding start_stop_pulse_for start_stop_pulse_needed
start_stop_now now want w = ground arith

-- What a request asks for is the state that it names, or for the raw toggle the opposite of the one before.
-- There is a pulse exactly when that is a change. With a pulse, what the next request sees, behind its own look
-- at the clock less than two seconds later, is the state asked for; without one, the state is as a
-- look at the clock leaves it, and shows what was asked for.
pub start_stop_effective :
    (now later : ℕ) (want : Option Bool) (w : Shared)
    → (later - now) / 1000 < stopped_after_ms
    → let seen = refresh_running now w in
      let asked = unwrap_or want (not (effective seen.state)) in
      let (w', pulse) = start_stop_pulse_for now want w in
      ((pulse ≡ true) ↔ (asked ≢ effective seen.state))
      × (((pulse ≡ true) × (effective (refresh_running later w').state ≡ asked))
          ⊎ ((pulse ≡ false) × (w' ≡ seen) × (effective w'.state ≡ asked)))
start_stop_effective now later want w h =
    let (pulses, after) = start_stop_now now want w in
    (
      pulses,
      elim after [
        | inl (p, r, a) ↦ inl (p, refresh_running-effective now later _ _ r a h)
        | inr (p, e) ↦ inr (p, e, ground (arith, pulses))
      ],
    )

-- A request that pulsed is not pulsed again when it is repeated less than two seconds later,
-- whatever the UART's display shows by then.
pub start_stop_retry :
    (now later : ℕ) (want : Bool) (w : Shared)
    → (start_stop_pulse_for now (some want) w).1 ≡ true
    → (later - now) / 1000 < stopped_after_ms
    → (start_stop_pulse_for later (some want) (start_stop_pulse_for now (some want) w).0).1 ≡ false
unfolding start_stop_pulse_for start_stop_pulse_needed
start_stop_retry now later want w p h =
    ground
      (arith, refresh_running-effective now later want (start_stop_pulse_for now (some want) w).0)

-- Two seconds after the last change of the display the clock counts as stopped.
pub refresh_running_stale :
    (now t : ℕ) (w : Shared)
    → w.state.last_change ≡ some t
    → t + 2_000_000 ≤ now
    → (refresh_running now w).state.running ≡ false
unfolding refresh_running publish clock_is_running age_ms
refresh_running_stale now t w e h = ground arith

-- Two seconds after a pulse a request that the UART never confirmed is forgotten.
pub refresh_running_forgets :
    (now t : ℕ) (w : Shared)
    → w.state.pending_at ≡ some t
    → t + 2_000_000 ≤ now
    → let s = (refresh_running now w).state in
      (s.pending_running ≡ none) × (s.pending_at ≡ none) × (effective s ≡ s.running)
unfolding refresh_running publish resolve_pending_running pending_age_ms
refresh_running_forgets now t w e h = ground arith
