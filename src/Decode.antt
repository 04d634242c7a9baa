-- ===== src/Decode.antt =====
-- src/decode.rs: the clock frames of the scoreboard's UART, and the decisions about the clock's
-- run state. A byte is a number below 256; `u64` values carry no wrap.
pub mod Clock
pub mod Hex
use scoreboard_ctrl.Base.{
  ℕ, zero, suc, ◌+◌, ◌*◌, ◌/◌, ◌%◌, Bool, true, false, not, ◌&&◌, ◌||◌, Option, none, some, List,
  [], ◌∷◌, ltb, ◌==◌, bool_eq, if◌then◌else◌, length, get_or, Run, done, ◌>>=◌, load, store,
}

abbrev pub packet_len : ℕ
packet_len = 6

abbrev pub packet_sof : ℕ
packet_sof = 0x60

abbrev pub packet_min_index : ℕ
packet_min_index = 3

abbrev pub packet_sec_index : ℕ
packet_sec_index = 4

abbrev pub max_minutes : ℕ
max_minutes = 99

abbrev pub max_seconds : ℕ
max_seconds = 59

abbrev pub stopped_after_ms : ℕ
stopped_after_ms = 2000

-- `pkt` is an array of `packet_len` bytes, so the constant indices are in range.
unfoldable pub parse_clock_packet : List ℕ → Option (ℕ × ℕ)
parse_clock_packet pkt =
    if not (get_or pkt 0 0 == packet_sof)
    then none
    else let minutes = get_or pkt packet_min_index 0 in
      let seconds = get_or pkt packet_sec_index 0 in
      if ltb max_minutes minutes || ltb max_seconds seconds then none else some (minutes, seconds)

-- `u16` arithmetic.
unfoldable pub total_seconds : ℕ → ℕ → ℕ
total_seconds min sec = (min * 60 % 65536 + sec) % 65536

-- `b"0123456789abcdef"`
abbrev pub hex : List ℕ
hex =
    b'0' ∷ b'1' ∷ b'2' ∷ b'3' ∷ b'4' ∷ b'5' ∷ b'6' ∷ b'7' ∷ b'8' ∷ b'9' ∷ b'a' ∷ b'b' ∷ b'c' ∷ b'd'
    ∷ b'e' ∷ b'f' ∷ []

-- The two digits of `b`; `b >> 4` and `b & 0x0f` in the form that the tactics read.
unfoldable pub write_digits : List ℕ → ℕ → ℕ → Run (List ℕ)
write_digits out i b = do
  hi ← load hex (b / 16)
  out' ← store out i hi
  lo ← load hex (b % 16)
  store out' (i + 1) lo

-- `if k > 0 { out[i] = b' '; i += 1; }`
unfoldable pub write_space : ℕ → List ℕ → ℕ → Run (List ℕ × ℕ)
write_space zero out i = done (out, i)
write_space (suc k) out i = do out' ← store out i b' '; done (out', i + 1)

-- The loop of `write_hex`, from the byte of index `k` on.
unfoldable pub write_hex_from : ℕ → List ℕ → List ℕ → ℕ → Run (List ℕ × ℕ)
unfolding write_digits write_space
write_hex_from k [] out i = done (out, i)
write_hex_from k (b ∷ bytes) out i =
    let need : ℕ = if k == 0 then 2 else 3 in
    let round : Run (List ℕ × ℕ) = (do
      (out', j) ← write_space k out i
      out'' ← write_digits out' j b
      write_hex_from (suc k) bytes out'' (j + 2)) in
    if ltb (length out) (i + need) then done (out, i) else round

-- The buffer after the call, and the number of bytes written.
unfoldable pub write_hex : List ℕ → List ℕ → Run (List ℕ × ℕ)
unfolding write_hex_from
write_hex bytes out = write_hex_from 0 bytes out 0

unfoldable pub clock_is_running : ℕ → ℕ → ℕ → Bool
unfolding total_seconds
clock_is_running min sec unchanged_ms =
    not (total_seconds min sec == 0) && ltb unchanged_ms stopped_after_ms

-- `some` for start and stop, `none` for the raw toggle.
unfoldable pub start_stop_pulse_needed : Bool → Option Bool → Bool
start_stop_pulse_needed effective_running (some want) = not (bool_eq want effective_running)
start_stop_pulse_needed effective_running none = true

unfoldable pub resolve_pending_running : Option Bool → Bool → ℕ → Option Bool
resolve_pending_running (some want) uart_running pending_age_ms =
    if not (bool_eq want uart_running) && ltb pending_age_ms stopped_after_ms
    then some want
    else none
resolve_pending_running none uart_running pending_age_ms = none
