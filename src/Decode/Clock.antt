-- ===== src/Decode/Clock.antt =====
-- The frame parser and the running test of src/decode.rs.
use scoreboard_ctrl.Base.{ℕ, ◌+◌, ◌*◌, ◌≤◌, ◌<◌, ◌≡◌, ◌↔◌, ◌⊎◌, true, some, List, get_or, arith}
use scoreboard_ctrl.Decode.{
  packet_sof, max_minutes, max_seconds, stopped_after_ms, parse_clock_packet, total_seconds,
  clock_is_running,
}

-- A frame is accepted, with minutes `m` and seconds `s`, exactly when it begins with the start byte
-- and carries `m` at index 3 and `s` at index 4, at most 99 and 59.
pub parse_clock_packet_iff :
    (pkt : List ℕ) (m s : ℕ)
    → (parse_clock_packet pkt ≡ some (m, s)) ↔ (
        (get_or pkt 0 0 ≡ packet_sof)
        × (get_or pkt 3 0 ≡ m)
        × (get_or pkt 4 0 ≡ s)
        × (m ≤ max_minutes)
        × (s ≤ max_seconds))
unfolding parse_clock_packet
parse_clock_packet_iff pkt m s = (λ h. ground arith, λ h. ground arith)

-- The `u16` sum of two bytes never wraps.
pub total_seconds_bound : (m s : ℕ) → m < 256 → s < 256 → total_seconds m s ≡ m * 60 + s
unfolding total_seconds
total_seconds_bound m s hm hs = omega arith

-- On bytes, the clock runs exactly when it does not show 00:00 and its display changed less than
-- two seconds ago.
pub clock_is_running_iff :
    (m s age : ℕ)
    → m < 256
    → s < 256
    → (clock_is_running m s age ≡ true) ↔ (((0 < m) ⊎ (0 < s)) × (age < stopped_after_ms))
unfolding clock_is_running
clock_is_running_iff m s age hm hs = (λ h. ground arith, λ h. ground arith)
