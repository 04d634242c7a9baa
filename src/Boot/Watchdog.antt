-- ===== src/Boot/Watchdog.antt =====
-- `watchdog_task` of src/main.rs, whose waits of a second may end late; the watchdog resets the device
-- 8000 ms behind a feed. Times are milliseconds.
use scoreboard_ctrl.Base.{
  ℕ, ◌+◌, ◌-◌, ◌*◌, ◌≡◌, refl, ap, ◌∙◌, Bool, true, ◌&&◌, List, [], ◌∷◌, leb, arith,
}

abbrev pub period : ℕ
period = 8 * 1000

-- The times of the feeds, over the delays of the waits.
unfoldable pub watchdog_task : List ℕ → ℕ → List ℕ
watchdog_task [] now = now ∷ []
watchdog_task (late ∷ delays) now = now ∷ watchdog_task delays (now + (1000 + late))

-- No two feeds in a row, the first behind one at `last`, are further apart than the watchdog waits.
abbrev pub in_time : ℕ → List ℕ → Bool
in_time last [] = true
in_time last (t ∷ feeds) = leb (t - last) period && in_time t feeds

abbrev pub all_le : ℕ → List ℕ → Bool
all_le bound [] = true
all_le bound (late ∷ delays) = leb late bound && all_le bound delays

-- The watchdog is fed in time exactly if no wait ends more than seven seconds late.
in_time-watchdog_task :
    (delays : List ℕ) (last now : ℕ)
    → in_time last (watchdog_task delays now) ≡ (leb (now - last) period && all_le 7000 delays)
unfolding watchdog_task
in_time-watchdog_task [] last now = refl
in_time-watchdog_task (late ∷ delays) last now =
    ap (λ x. leb (now - last) period && x)
      (in_time-watchdog_task delays now (now + (1000 + late))
        ∙ ap (λ x. x && all_le 7000 delays) (gap now late))
  where
    gap : (t l : ℕ) → leb (t + (1000 + l) - t) period ≡ leb l 7000
    gap t l = ground arith
