-- ===== src/Serial.antt =====
-- `read_serial` of src/main.rs: the bytes of the UART are gathered into frames, and a frame that
-- `parse_clock_packet` accepts sets the clock. The state is the locals of the task, the shared state,
-- and what was logged, newest first.
pub mod Collect
pub mod Frames
use scoreboard_ctrl.Base.{
  ℕ, ◌+◌, ◌-◌, ◌/◌, Bool, true, false, not, ◌||◌, Option, none, some, List, [], ◌∷◌, ltb, leb, ◌==◌,
  if◌then◌else◌, length, replicate, take, bytes_eq, Run, done, ◌>>=◌, store, slice,
}
use scoreboard_ctrl.Decode.{packet_len, packet_sof, parse_clock_packet, write_hex}
use scoreboard_ctrl.Scoreboard.{Shared, set_clock}

-- The lines of the log, without their texts.
pub data Line : Type 0 where
  raw : List ℕ → Line
  skipped : List ℕ → Line
  packet : List ℕ → ℕ → ℕ → Bool → Line
  uart_error : Line

pub record Serial : Type 0 where
  pub packet_buf : List ℕ
  pub buf_idx : ℕ
  pub last_logged : List ℕ
  pub have_logged : Bool
  pub last_raw : ℕ
  pub skip : List ℕ
  pub skip_n : ℕ
  pub shared : Shared
  pub log : List Line

abbrev pub start : ℕ → Shared → Serial
start now w = record {
  packet_buf = replicate packet_len 0;
  buf_idx = 0;
  last_logged = replicate packet_len 0;
  have_logged = false;
  last_raw = now;
  skip = replicate 16 0;
  skip_n = 0;
  shared = w;
  log = [];
}

-- The text of a buffer of bytes in a buffer of `n` characters.
unfoldable pub hex_line : ℕ → List ℕ → Run (List ℕ)
hex_line n bytes = do r ← write_hex bytes (replicate n 0); slice r.0 0 r.1

-- A byte that cannot begin a frame.
unfoldable pub on_skip : ℕ → Serial → Run Serial
on_skip byte s = do
  skip' ← store s.skip s.skip_n byte
  let n = s.skip_n + 1
  let s' = record s { skip = skip'; skip_n = n }
  let logged : Run Serial = (do
    text ← hex_line 47 skip'
    done (record s' { log = Line.skipped text ∷ s.log; skip_n = 0 }))
  if n == length skip' then logged else done s'

-- A whole frame stands in the buffer.
unfoldable pub on_packet : ℕ → Serial → Option (ℕ × ℕ) → Serial
on_packet now s none = s
on_packet now s (some (minutes, seconds)) =
    let w = set_clock now minutes seconds s.shared in
    let s' = record s { shared = w } in
    if not s.have_logged || not (bytes_eq s.packet_buf s.last_logged)
    then record s' {
      last_logged = s.packet_buf;
      have_logged = true;
      log = Line.packet s.packet_buf minutes seconds w.state.running ∷ s.log;
    }
    else s'

-- A byte within a frame.
unfoldable pub on_body : ℕ → ℕ → Serial → Run Serial
on_body now byte s = do
  packet' ← store s.packet_buf s.buf_idx byte
  let i = s.buf_idx + 1
  let s' = record s { packet_buf = packet'; buf_idx = i }
  let full = record s' { buf_idx = 0 }
  done (if ltb i packet_len then s' else on_packet now full (parse_clock_packet packet'))

-- The first byte of a frame.
unfoldable pub on_sof : ℕ → Serial → Run Serial
on_sof byte s = do
  packet' ← store s.packet_buf 0 byte
  done (record s { packet_buf = packet'; buf_idx = 1 })

-- The body of `for &byte in dma_buf.iter()`.
unfoldable pub on_byte : ℕ → ℕ → Serial → Run Serial
on_byte now byte s =
    if s.buf_idx == 0
    then if not (byte == packet_sof) then on_skip byte s else on_sof byte s
    else on_body now byte s

-- Bytes with the times at which they are looked at.
unfoldable pub feed : List (ℕ × ℕ) → Serial → Run Serial
feed [] s = done s
feed ((now, byte) ∷ bytes) s = do s' ← on_byte now byte s; feed bytes s'

abbrev pub bytes_of : List (ℕ × ℕ) → List ℕ
bytes_of [] = []
bytes_of ((now, byte) ∷ bytes) = byte ∷ bytes_of bytes

-- `Ok(_)` of `rx.read(&mut dma_buf)`, at `now`.
unfoldable pub on_read : ℕ → List (ℕ × ℕ) → Serial → Run Serial
on_read now dma_buf s =
    let raw_line : Run Serial = (do
      text ← hex_line 95 (bytes_of dma_buf)
      feed dma_buf (record s { last_raw = now; log = Line.raw text ∷ s.log })) in
    if leb 2000 ((now - s.last_raw) / 1000) then raw_line else feed dma_buf s

-- `Err(e)`.
unfoldable pub on_error : Serial → Serial
on_error s = record s { buf_idx = 0; log = Line.uart_error ∷ s.log }
