-- ===== src/Tests/Console.antt =====
-- The console and the receiver of examples/uart-test.rs.
use scoreboard_ctrl.Base.{
  ℕ, ◌+◌, ◌%◌, ◌≤◌, ◌≡◌, refl, true, some, none, List, [], ◌∷◌, ◌++◌, replicate, codes, done, arith,
  slice,
}
use scoreboard_ctrl.Uart.Host.{HostCmd, TxBurst, trim, cmd_eq, parse_words, parse_line}
use scoreboard_ctrl.Uart.Console.{line_max, LineBuf, Handled, on_data}
use scoreboard_ctrl.Uart.Console.Safe.{IsValid}
use scoreboard_ctrl.Uart.Send.{Tx, Env, write_all, after_millis, xor_chk}
use scoreboard_ctrl.Uart.Send.Commands.{on_command}
use scoreboard_ctrl.Uart.Send.Times.{on_command_within}
use scoreboard_ctrl.Uart.Typed.{typed_sent}
use scoreboard_ctrl.Uart.Receive.Clocks.{see, feed-see}
use scoreboard_ctrl.Serial.Collect.{collect}
use scoreboard_ctrl.Decode.{parse_clock_packet}
use scoreboard_ctrl.Uart.Receive.Count.{AllBelow256}
use scoreboard_ctrl.Uart.Receive.{feed, Rx, start, u32_size}
use scoreboard_ctrl.Uart.Receive.Show.{IsValid as IsReady}
use scoreboard_ctrl.Uart.Receive.Stray.{account}
use scoreboard_ctrl.Uart.Receive.Rounds.{Event, rounds, bytes_in, start-IsValid, rounds-account}

abbrev blank : LineBuf
blank = record { bytes = replicate line_max 0; len = 0 }

blank-IsValid : IsValid blank
blank-IsValid = (refl, omega arith)

abbrev typed : List ℕ
typed = codes "help" ++ (10 ∷ codes "tx 6")

hunt-parse_line : parse_line (codes " Hunt") ≡ done (some HostCmd.hunt)
unfolding parse_line parse_words trim cmd_eq slice
hunt-parse_line = refl

-- A byte that begins no packet, one that does, a pause and the next byte.
abbrev events : List (ℕ × Event)
events =
    (0, Event.read 10 ((11, 0x33) ∷ (12, 0x60) ∷ []))
    ∷ (50000, Event.quiet 100000)
    ∷ (100000, Event.read 110000 ((110001, 0x7a) ∷ []))
    ∷ []

abbrev locked : Rx
locked = record (start 0) { have_logged = true }

locked-IsValid : IsReady locked
locked-IsValid =
    let v = start-IsValid 0 in
    record {
      line = v.line;
      packet = v.packet;
      partial = v.partial;
      stray = v.stray;
      raw_size = v.raw_size;
    }

rounds-account_example :
    (s : Rx) × (rounds events locked ≡ done s)
    × (account s % u32_size ≡ (account locked + bytes_in events) % u32_size)
rounds-account_example =
    rounds-account events locked locked-IsValid
      ((omega arith, (omega arith, tt)), (tt, ((omega arith, tt), tt))) tt refl

-- Every write succeeds, and nothing is received.
abbrev silent : Env
silent = record { ok = λ n. true; last_rx_ms = λ t. 0; last_frame = none; blast_rounds = 9 }

abbrev idle : Tx
idle = record { at = 0; writes = 0; acts = [] }

on_command_within_example :
    (t : Tx) × (on_command silent HostCmd.hunt idle ≡ done t) × (t.at ≤ 0 + 65520)
on_command_within_example = on_command_within silent HostCmd.hunt idle tt

typed_sent_example :
    (h : Handled) × (burst : TxBurst) × (on_data (codes "tx 60 7a" ++ (10 ∷ [])) 0 blank ≡ done h)
    × (h.sent ≡ HostCmd.tx burst ∷ [])
    × (on_command silent (HostCmd.tx burst) idle
        ≡ done (after_millis 300 (write_all (0x60 ∷ 0x7a ∷ []) idle)))
typed_sent_example =
    typed_sent 0x60 (0x7a ∷ []) 0 blank silent idle (omega arith, (omega arith, tt)) (omega arith)
      blank-IsValid refl refl

-- The check by exclusive or of a frame that shows 12:34.
xor_chk-frame : xor_chk (0x60 ∷ 0 ∷ 0 ∷ 12 ∷ 34 ∷ 0 ∷ []) ≡ 0x4e
unfolding xor_chk
xor_chk-frame = refl

-- A frame that shows 12:34, behind a byte that begins none.
abbrev stream : List (ℕ × ℕ)
stream = (1, 0x33) ∷ (2, 0x60) ∷ (3, 0x7a) ∷ (4, 0) ∷ (5, 12) ∷ (6, 34) ∷ (7, 0) ∷ []

abbrev shown_frame : List ℕ
shown_frame = 0x60 ∷ 0x7a ∷ 0 ∷ 12 ∷ 34 ∷ 0 ∷ []

stream-small : AllBelow256 stream
stream-small = (
  omega arith,
  (omega arith, (omega arith, (omega arith, (omega arith, (omega arith, (omega arith, tt)))))),
)

feed-see_example :
    (s : Rx) × (feed stream (start 0) ≡ done s)
    × IsReady s
    × (see (collect [] stream) (0, none) ≡ (s.rx_pkts, s.last_frame))
feed-see_example = feed-see stream (start 0) (start-IsValid 0) stream-small

-- The frame is counted.
see-stream : see (collect [] stream) (0, none) ≡ (1, some shown_frame)
unfolding parse_clock_packet
see-stream = refl
