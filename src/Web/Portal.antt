-- ===== src/Web/Portal.antt =====
-- The captive portal of src/main.rs: `mark_ui_served` and `apple_probe_done`.
use scoreboard_ctrl.Base.{
  ℕ, ◌+◌, ◌-◌, ◌/◌, ◌%◌, ◌≤◌, ◌≡◌, Bool, true, false, not, ltb, if◌then◌else◌, arith,
}

-- `SERVED_UI` and `LAST_UI_MS`.
pub record Portal : Type 0 where
  pub served_ui : Bool
  pub last_ui_ms : ℕ

abbrev pub u32_size : ℕ
u32_size = 4294967296

-- `Instant::now().as_millis() as u32`, at `now` microseconds.
abbrev pub now_ms : ℕ → ℕ
now_ms now = now / 1000 % u32_size

abbrev pub wrapping_sub : ℕ → ℕ → ℕ
wrapping_sub a b = (a + u32_size - b) % u32_size

abbrev pub ui_captive_ms : ℕ
ui_captive_ms = 90000

unfoldable pub mark_ui_served : ℕ → Portal → Portal
mark_ui_served now portal = record { served_ui = true; last_ui_ms = now_ms now }

unfoldable pub apple_probe_done : ℕ → Portal → Bool
apple_probe_done now portal =
    if not portal.served_ui
    then false
    else ltb (wrapping_sub (now_ms now) portal.last_ui_ms) ui_captive_ms

-- After the page was served at `t`, a probe counts as done at `now` exactly if the milliseconds between them are, modulo
-- 2 ^ 32, less than 90000.
pub apple_probe_done-mark_ui_served :
    (portal : Portal) (t now : ℕ)
    → t ≤ now
    → apple_probe_done now (mark_ui_served t portal)
      ≡ ltb ((now / 1000 - t / 1000) % u32_size) ui_captive_ms
unfolding apple_probe_done mark_ui_served
apple_probe_done-mark_ui_served portal t now h =
    let same : (now / 1000 % 4294967296 + 4294967296 - t / 1000 % 4294967296) % 4294967296
        ≡ (now / 1000 - t / 1000) % 4294967296 =
      omega arith in
    rw same
