-- ===== src/Scoreboard/Publish.antt =====
-- The announcements of the shared state of src/main.rs to the event streams.
use scoreboard_ctrl.Base.{Option, ℕ, ◌+◌, Bool, true, ◌≡◌, ◌≢◌, ◌↔◌, ◌⊎◌, arith}
use scoreboard_ctrl.Scoreboard.{
  Visible, visible_eq, Shared, visible, refreshed, clock_set, publish, refresh_running, set_clock,
  start_stop_pulse_for,
}

pub visible_eq_iff : (a b : Visible) → (visible_eq a b ≡ true) ↔ (a ≡ b)
visible_eq_iff a b = ground arith

-- What the streams were told last is what the phone shows.
abbrev pub IsAnnounced : Shared → Type 0
IsAnnounced w = w.state.announced ≡ visible w.state

-- With `shown` announced last and `sent` wakings so far, the streams were told of the change of what
-- is shown, once, if there was one.
pub record ToldSince (shown : Visible) (sent : ℕ) (w : Shared) : Type 0 where
  pub announced : IsAnnounced w
  pub wakings :
      ((visible w.state ≡ shown) × (w.events ≡ sent))
      ⊎ ((visible w.state ≢ shown) × (w.events ≡ sent + 1))

abbrev pub Told : Shared → Shared → Type 0
Told w w' = ToldSince w.state.announced w.events w'

pub publish-Told : (w : Shared) → Told w (publish w)
unfolding publish
publish-Told w = ground (arith, visible_eq_iff (visible w.state) w.state.announced)

-- `refresh_running` only publishes a state whose `announced` is still the old one.
pub refresh_running-Told : (now : ℕ) (w : Shared) → Told w (refresh_running now w)
unfolding refresh_running
refresh_running-Told now w = publish-Told (refreshed now w)

-- Reading the clock again, a clock frame and a start or stop request each end with the streams told
-- of exactly what is shown; they send once if that differs from what was told last, and otherwise
-- not at all.
pub methods-Told :
    (now minutes seconds : ℕ) (want : Option Bool) (w : Shared)
    → Told w (refresh_running now w)
      × Told w (set_clock now minutes seconds w)
      × Told w (start_stop_pulse_for now want w).0
unfolding set_clock start_stop_pulse_for
methods-Told now minutes seconds want w = (
  refresh_running-Told now w,
  refresh_running-Told now (clock_set now minutes seconds w),
  ground (arith, refresh_running-Told now w),
)
