-- ===== src/Uart/Receive.antt =====
-- `uart_rx_task` of examples/uart-test.rs with `take_stray`, `emit_rx_hex` and `log_hex`: its
-- locals, the atomics of u32, whose sums wrap around, `LAST_FRAME`, and the lines of the log, newest
-- first, with the bytes they show. A step has one time `now`, in microseconds.
pub mod Show
pub mod Stray
pub mod Packets
pub mod Count
pub mod Quiet
pub mod Rounds
pub mod Clocks
use scoreboard_ctrl.Base.{
  ℕ, ◌+◌, ◌-◌, ◌/◌, ◌%◌, Bool, true, false, not, ◌&&◌, ◌||◌, Option, none, some, List, [], ◌∷◌,
  length, take, replicate, bytes_eq, ltb, leb, ◌==◌, if◌then◌else◌, Run, done, ◌>>=◌, store, slice,
  copy_from_slice,
}
use scoreboard_ctrl.Decode.{packet_len, packet_sof, parse_clock_packet, write_hex}

abbrev pub rx_line : ℕ
rx_line = 16

abbrev pub u32_size : ℕ
u32_size = 4294967296

-- The lines of the log, with the text of their bytes.
pub data Entry : Type 0 where
  raw stray nonclock incomplete : List ℕ → Entry
  frame : List ℕ → ℕ → ℕ → Entry
  stats : ℕ → ℕ → ℕ → ℕ → Entry
  rx_err : Entry

pub record Rx : Type 0 where
  pub line : List ℕ
  pub line_n : ℕ
  pub packet : List ℕ
  pub pkt_n : ℕ
  pub last_logged : List ℕ
  pub have_logged : Bool
  pub last_raw : List ℕ
  pub last_raw_n : ℕ
  pub last_raw_at : ℕ
  pub stats_at : ℕ
  pub stats_pkts : ℕ
  pub stray_buf : List ℕ
  pub stray_n : ℕ
  pub last_pkt_at : ℕ
  pub rx_pkts : ℕ
  pub rx_errs : ℕ
  pub rx_stray : ℕ
  pub last_rx_ms : ℕ
  pub last_frame : Option (List ℕ)
  pub log : List Entry

abbrev pub start : ℕ → Rx
start now = record {
  line = replicate rx_line 0;
  line_n = 0;
  packet = replicate packet_len 0;
  pkt_n = 0;
  last_logged = replicate packet_len 0;
  have_logged = false;
  last_raw = replicate rx_line 0;
  last_raw_n = 0;
  last_raw_at = 0;
  stats_at = now;
  stats_pkts = 0;
  stray_buf = replicate rx_line 0;
  stray_n = 0;
  last_pkt_at = now;
  rx_pkts = 0;
  rx_errs = 0;
  rx_stray = 0;
  last_rx_ms = 0;
  last_frame = none;
  log = [];
}

-- The text of `log_hex`.
unfoldable pub log_hex : List ℕ → Run (List ℕ)
log_hex bytes = do r ← write_hex bytes (replicate 192 0); slice r.0 0 r.1

unfoldable pub take_stray : Rx → Run Rx
take_stray s =
    let taken : Run Rx = (do
      bytes ← slice s.stray_buf 0 s.stray_n
      text ← log_hex bytes
      done (record s {
        rx_stray = (s.rx_stray + s.stray_n) % u32_size;
        log = stray text ∷ s.log;
        stray_n = 0;
      })) in
    if s.stray_n == 0 then done s else taken

-- `last[..data.len()] == data[..]`, behind the test of the length.
unfoldable pub same_raw : List ℕ → Rx → Run Bool
same_raw bytes s =
    let compare_bytes : Run Bool = (do
      old ← slice s.last_raw 0 (length bytes)
      done (bytes_eq old bytes)) in
    if s.last_raw_n == length bytes then compare_bytes else done false

unfoldable pub emit_rx_hex : ℕ → List ℕ → Rx → Run Rx
emit_rx_hex now bytes s = do
  same ← same_raw bytes s
  let emit : Run Rx = (do
    last ← copy_from_slice s.last_raw 0 (length bytes) bytes
    text ← log_hex bytes
    done (record s {
      last_raw = last;
      last_raw_n = length bytes;
      last_raw_at = now;
      log = raw text ∷ s.log;
    }))
  if same && ltb ((now - s.last_raw_at) / 1000) 2000 then done s else emit

-- `if line_n > 0 { emit_rx_hex(&line[..line_n], …); line_n = 0; }`, and for a full line before a byte.
unfoldable pub flush_line : ℕ → Rx → Run Rx
flush_line now s = do
  bytes ← slice s.line 0 s.line_n
  s' ← emit_rx_hex now bytes s
  done (record s' { line_n = 0 })

-- A byte outside a packet that does not begin one.
unfoldable pub on_stray : ℕ → Rx → Run Rx
on_stray byte s =
    let room : Run Rx = (if s.stray_n == length s.stray_buf then take_stray s else done s) in
    let added : Run Rx = (do
      s' ← room
      buf ← store s'.stray_buf s'.stray_n byte
      done (record s' { stray_buf = buf; stray_n = s'.stray_n + 1 })) in
    if s.have_logged then added else done s

-- A packet of six bytes.
unfoldable pub on_packet : Rx → Option (ℕ × ℕ) → Run Rx
on_packet s none = do
  text ← log_hex s.packet
  done (record s { rx_stray = (s.rx_stray + packet_len) % u32_size; log = nonclock text ∷ s.log })
on_packet s (some (min, sec)) =
    let counted = record s { rx_pkts = (s.rx_pkts + 1) % u32_size; last_frame = some s.packet } in
    done (
      if not s.have_logged || not (bytes_eq s.packet s.last_logged)
      then record counted {
        last_logged = s.packet;
        have_logged = true;
        log = frame s.packet min sec ∷ s.log;
      }
      else counted)

-- What is done with a byte behind `line`.
unfoldable pub on_packet_byte : ℕ → ℕ → Rx → Run Rx
on_packet_byte now byte s =
    let first : Run Rx = (do
      packet ← store s.packet 0 byte
      done (record s { packet = packet; pkt_n = 1; last_pkt_at = now })) in
    let within : Run Rx = (do
      packet ← store s.packet s.pkt_n byte
      let s' = record s { packet = packet; pkt_n = s.pkt_n + 1; last_pkt_at = now }
      let whole = record s' { pkt_n = 0 }
      if ltb s'.pkt_n packet_len then done s' else on_packet whole (parse_clock_packet packet)) in
    if s.pkt_n == 0 then (if not (byte == packet_sof) then on_stray byte s else first) else within

-- A round of `for &byte in &dma_tmp[..n]`.
unfoldable pub on_byte : ℕ → ℕ → Rx → Run Rx
on_byte now byte s = do
  s1 ← (if s.line_n == length s.line then flush_line now s else done s)
  line ← store s1.line s1.line_n byte
  on_packet_byte now byte (record s1 { line = line; line_n = s1.line_n + 1 })

unfoldable pub feed : List (ℕ × ℕ) → Rx → Run Rx
feed [] s = done s
feed ((now, byte) ∷ bytes) s = do s' ← on_byte now byte s; feed bytes s'

-- The line of statistics at the start of a round.
unfoldable pub report : ℕ → Rx → Rx
report now s =
    if leb 1000 ((now - s.stats_at) / 1000)
    then record s {
      stats_pkts = s.rx_pkts;
      stats_at = now;
      log =
          stats ((s.rx_pkts + u32_size - s.stats_pkts) % u32_size) s.rx_pkts s.rx_errs s.rx_stray
          ∷ s.log;
    }
    else s

-- The arms of the `match`: bytes with the times at which they are looked at, none, an error, and 50 ms
-- without a byte.
unfoldable pub on_read : ℕ → List (ℕ × ℕ) → Rx → Run Rx
on_read now [] s = done s
on_read now (b ∷ bytes) s = feed (b ∷ bytes) (record s { last_rx_ms = now / 1000 % u32_size })

unfoldable pub on_error : ℕ → Rx → Run Rx
on_error now s = do
  s' ← (if ltb 0 s.line_n then flush_line now s else done s)
  done (record s' { rx_errs = (s'.rx_errs + 1) % u32_size; log = rx_err ∷ s'.log; pkt_n = 0 })

unfoldable pub drop_stalled : ℕ → Rx → Run Rx
drop_stalled now s =
    let dropped : Run Rx = (do
      bytes ← slice s.packet 0 s.pkt_n
      text ← log_hex bytes
      done (record s {
        rx_stray = (s.rx_stray + s.pkt_n) % u32_size;
        log = incomplete text ∷ s.log;
        pkt_n = 0;
      })) in
    if ltb 0 s.pkt_n && leb 250 ((now - s.last_pkt_at) / 1000) then dropped else done s

unfoldable pub on_quiet : ℕ → Rx → Run Rx
on_quiet now s = do
  s1 ← drop_stalled now s
  s2 ← take_stray s1
  if ltb 0 s2.line_n then flush_line now s2 else done s2
