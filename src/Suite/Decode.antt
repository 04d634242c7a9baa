-- ===== src/Suite/Decode.antt =====
-- The tests of src/decode.rs.
use scoreboard_ctrl.Base.{
  ℕ, ◌-◌, ◌≡◌, refl, true, false, none, some, List, [], ◌∷◌, replicate, codes, Run, done, ◌>>=◌,
  load, store, slice,
}
use scoreboard_ctrl.Decode.{
  stopped_after_ms, parse_clock_packet, clock_is_running, write_hex, start_stop_pulse_needed,
  resolve_pending_running,
}

unfoldable pub pkt : ℕ → ℕ → List ℕ
pkt min_arg sec_arg = 0x60 ∷ 0x00 ∷ 0x00 ∷ min_arg ∷ sec_arg ∷ 0x00 ∷ []

abbrev pub ParseCapturedCountdownFrames : Type 0
ParseCapturedCountdownFrames =
    (parse_clock_packet (0x60 ∷ 0x7a ∷ 0x00 ∷ 0x02 ∷ 0x06 ∷ 0x00 ∷ []) ≡ some (2, 6))
    × (parse_clock_packet (0x60 ∷ 0x3c ∷ 0x00 ∷ 0x01 ∷ 0x3b ∷ 0x00 ∷ []) ≡ some (1, 59))
    × (parse_clock_packet (pkt 7 30) ≡ some (7, 30))

parse_captured_countdown_frames : ParseCapturedCountdownFrames
unfolding parse_clock_packet pkt
parse_captured_countdown_frames = (refl, refl, refl)

abbrev pub ParseRejectsBadSofOrRange : Type 0
ParseRejectsBadSofOrRange =
    (parse_clock_packet (0x00 ∷ 0x7a ∷ 0x00 ∷ 0x02 ∷ 0x06 ∷ 0x00 ∷ []) ≡ none)
    × (parse_clock_packet (pkt 100 0) ≡ none)
    × (parse_clock_packet (pkt 0 60) ≡ none)

parse_rejects_bad_sof_or_range : ParseRejectsBadSofOrRange
unfolding parse_clock_packet pkt
parse_rejects_bad_sof_or_range = (refl, refl, refl)

abbrev pub RunningFromTimeUpdates : Type 0
RunningFromTimeUpdates =
    (clock_is_running 0 0 0 ≡ false)
    × (clock_is_running 0 0 500 ≡ false)
    × (clock_is_running 7 30 0 ≡ true)
    × (clock_is_running 7 29 500 ≡ true)
    × (clock_is_running 7 30 (stopped_after_ms - 1) ≡ true)
    × (clock_is_running 7 30 stopped_after_ms ≡ false)
    × (clock_is_running 7 30 0 ≡ true)

running_from_time_updates : RunningFromTimeUpdates
unfolding clock_is_running
running_from_time_updates = (refl, refl, refl, refl, refl, refl, refl)

-- `&out[..n]` behind `write_hex`.
abbrev pub hex_of : List ℕ → List ℕ → Run (List ℕ)
hex_of bytes out = do w ← write_hex bytes out; slice w.0 0 w.1

abbrev pub WriteHexSpaces : Type 0
WriteHexSpaces = hex_of (0x00 ∷ 0xab ∷ 0x3f ∷ []) (replicate 16 0) ≡ done (codes "00 ab 3f")

write_hex_spaces : WriteHexSpaces
unfolding write_hex load store slice
write_hex_spaces = refl

abbrev pub StartStopIdempotentUntilUart : Type 0
StartStopIdempotentUntilUart =
    (start_stop_pulse_needed false (some true) ≡ true)
    × (start_stop_pulse_needed true (some true) ≡ false)
    × (start_stop_pulse_needed true (some false) ≡ true)
    × (start_stop_pulse_needed false (some false) ≡ false)
    × (start_stop_pulse_needed true (some false) ≡ true)
    × (start_stop_pulse_needed false (some true) ≡ true)
    × (start_stop_pulse_needed false none ≡ true)
    × (start_stop_pulse_needed true none ≡ true)

start_stop_idempotent_until_uart : StartStopIdempotentUntilUart
unfolding start_stop_pulse_needed
start_stop_idempotent_until_uart = (refl, refl, refl, refl, refl, refl, refl, refl)

abbrev pub PendingClearsWhenUartMatchesOrTimesOut : Type 0
PendingClearsWhenUartMatchesOrTimesOut =
    (resolve_pending_running (some true) false 0 ≡ some true)
    × (resolve_pending_running (some true) true 100 ≡ none)
    × (resolve_pending_running (some true) false stopped_after_ms ≡ none)
    × (resolve_pending_running (some false) true 500 ≡ some false)
    × (resolve_pending_running (some false) true (stopped_after_ms - 1) ≡ some false)
    × (resolve_pending_running (some false) false 500 ≡ none)
    × (resolve_pending_running none true 0 ≡ none)

pending_clears_when_uart_matches_or_times_out : PendingClearsWhenUartMatchesOrTimesOut
unfolding resolve_pending_running
pending_clears_when_uart_matches_or_times_out = (refl, refl, refl, refl, refl, refl, refl)
