-- ===== src/Uart/Send.antt =====
-- `uart_tx_task` of examples/uart-test.rs and what it sends. The state is the time in milliseconds,
-- the number of writes, and what was done, newest first; the log is left out. What the task reads of
-- its surroundings are arguments: whether a write succeeds, `LAST_RX_MS` by the time, the last frame,
-- and how often the test of `send_blast` holds. A write takes no time of its own here.
pub mod Hunt
pub mod Commands
pub mod Times
use scoreboard_ctrl.Base.{
  ℕ, zero, suc, ◌+◌, ◌-◌, ◌%◌, bit_xor, Bool, Option, none, some, unwrap_or, List, [], ◌∷◌, ◌++◌,
  get_or, set, ◌==◌, if◌then◌else◌, codes, Run, done, ◌>>=◌,
}
use scoreboard_ctrl.Decode.{packet_sof, parse_clock_packet}
use scoreboard_ctrl.Uart.Host.{HostCmd, tx, blast, replay, probe, hunt, listen, help, as_slice}

pub data Action : Type 0 where
  write : List ℕ → Action
  wait : ℕ → Action

pub record Tx : Type 0 where
  pub at : ℕ
  pub writes : ℕ
  pub acts : List Action

-- The surroundings of the task.
pub record Env : Type 0 where
  pub ok : ℕ → Bool
  pub last_rx_ms : ℕ → ℕ
  pub last_frame : Option (List ℕ)
  pub blast_rounds : ℕ

-- `Timer::after_millis(ms)`, and `write_all` with whether it succeeded.
abbrev pub after_millis : ℕ → Tx → Tx
after_millis ms t = record t { at = t.at + ms; acts = wait ms ∷ t.acts }

abbrev pub write_all : List ℕ → Tx → Tx
write_all bytes t = record t { writes = t.writes + 1; acts = write bytes ∷ t.acts }

unfoldable pub send_burst : Env → List ℕ → Tx → Tx
send_burst env bytes t =
    if env.ok t.writes then after_millis 300 (write_all bytes t) else write_all bytes t

-- The loop of `send_blast`.
unfoldable pub blast_loop : Env → ℕ → List ℕ → Tx → Tx
blast_loop env zero bytes t = t
blast_loop env (suc n) bytes t =
    let more = blast_loop env n bytes (write_all bytes t) in
    if env.ok t.writes then more else write_all bytes t

unfoldable pub send_blast : Env → List ℕ → Tx → Tx
unfolding blast_loop
send_blast env bytes t = blast_loop env env.blast_rounds bytes t

-- The rounds of `wait_rx_gap`.
unfoldable pub wait_rounds : Env → ℕ → Tx → Tx
wait_rounds env zero t = t
wait_rounds env (suc n) t =
    let more = wait_rounds env n (after_millis 12 t) in
    if env.last_rx_ms (t.at + 12) == env.last_rx_ms t.at then after_millis 12 t else more

unfoldable pub wait_rx_gap : Env → Tx → Tx
unfolding wait_rounds
wait_rx_gap env t = wait_rounds env 40 t

unfoldable pub send_gap : Env → List ℕ → Tx → Tx
send_gap env bytes t =
    let t' = wait_rx_gap env t in
    if env.ok t'.writes then after_millis 80 (write_all bytes t') else write_all bytes t'

abbrev pub send_gaps : Env → List (List ℕ) → Tx → Tx
send_gaps env [] t = t
send_gaps env (bytes ∷ rest) t = send_gaps env rest (send_gap env bytes t)

abbrev pub send_bursts : Env → List (List ℕ) → Tx → Tx
send_bursts env [] t = t
send_bursts env (bytes ∷ rest) t = send_bursts env rest (send_burst env bytes t)

-- `data.iter().fold(0, |a, b| a ^ b)`
abbrev pub xor_from : ℕ → List ℕ → ℕ
xor_from a [] = a
xor_from a (b ∷ bs) = xor_from (bit_xor a b) bs

unfoldable pub xor8 : List ℕ → ℕ
xor8 bytes = xor_from 0 bytes

-- The bytes of a packet but the second.
abbrev pub covered : List ℕ → List ℕ
covered pkt =
    get_or pkt 0 0 ∷ get_or pkt 2 0 ∷ get_or pkt 3 0 ∷ get_or pkt 4 0 ∷ get_or pkt 5 0 ∷ []

-- A packet is an array of six bytes, so the indices are in range.
unfoldable pub xor_chk : List ℕ → ℕ
xor_chk pkt =
    bit_xor
      (bit_xor (bit_xor (bit_xor (get_or pkt 0 0) (get_or pkt 2 0)) (get_or pkt 3 0))
        (get_or pkt 4 0))
      (get_or pkt 5 0)

unfoldable pub sum_chk : List ℕ → ℕ
sum_chk pkt =
    ((((get_or pkt 0 0 + get_or pkt 2 0) % 256 + get_or pkt 3 0) % 256 + get_or pkt 4 0) % 256
      + get_or pkt 5 0)
    % 256

-- The packets of `send_chk_variants`.
unfoldable pub chk_variants : List ℕ → List (List ℕ)
chk_variants pkt =
    let by_xor = set pkt 1 (xor_chk pkt) in
    let by_sum = set by_xor 1 (sum_chk by_xor) in pkt ∷ by_xor ∷ by_sum ∷ set by_sum 1 0 ∷ []

-- The bytes that `Probe` sends.
unfoldable pub probe_bursts : Option (List ℕ) → List (List ℕ)
probe_bursts last =
    let captured : List (List ℕ) = elim last [ none ↦ [] | some frame ↦ chk_variants frame ] in
    captured
    ++ ((0x00 ∷ [])
        ∷ (0xff ∷ [])
        ∷ (0x55 ∷ [])
        ∷ (0xaa ∷ [])
        ∷ (0x60 ∷ [])
        ∷ (b'?' ∷ 13 ∷ 10 ∷ [])
        ∷ (b'A' ∷ b'T' ∷ 13 ∷ 10 ∷ [])
        ∷ (13 ∷ 10 ∷ [])
        ∷ [])
    ++ chk_variants (packet_sof ∷ 0 ∷ 0 ∷ 7 ∷ 30 ∷ 0 ∷ [])
