-- ===== src/Uart/Receive/Packets.antt =====
-- The packets of `uart_rx_task` of examples/uart-test.rs, counted.
use scoreboard_ctrl.Base.{
  ℕ, ◌+◌, ◌%◌, ◌<◌, ◌≡◌, refl, Bool, true, false, not, ◌||◌, Bool-cases, inl, inr, Option, none,
  some, ◌∷◌, set, bytes_eq, ltb, if◌then◌else◌, Run, done, ◌>>=◌, store, arith,
}
use scoreboard_ctrl.Decode.{packet_len, parse_clock_packet}
use scoreboard_ctrl.Uart.Receive.{u32_size, Entry, Rx, on_packet}
use scoreboard_ctrl.Uart.Receive.Show.{Held, IsValid, log_hex-done}
use scoreboard_ctrl.Uart.Receive.Stray.{Counts, Held-store}

-- A packet of six bytes is counted, as a packet or as stray bytes.
on_packet-Counts : (s : Rx) (o : Option (ℕ × ℕ)) → IsValid s → Counts 6 s (on_packet s o)
unfolding on_packet
on_packet-Counts s none v =
    let (text, e) = log_hex-done s.packet v.packet.bytes in
    record {
      to = record s {
        rx_stray = (s.rx_stray + packet_len) % u32_size;
        log = Entry.nonclock text ∷ s.log;
      };
      ran = rw e refl;
      valid = record {
        line = v.line;
        packet = v.packet;
        partial = v.partial;
        stray = v.stray;
        raw_size = v.raw_size;
      };
      logged = λ h. h;
      counted = λ h. omega arith;
    }
on_packet-Counts s (some (min, sec)) v =
    go (not s.have_logged || not (bytes_eq s.packet s.last_logged))
  where
    counted : Rx
    counted = record s { rx_pkts = (s.rx_pkts + 1) % u32_size; last_frame = some s.packet }

    go :
        (b : Bool)
        → Counts 6 s (
            done (
              if b
              then record counted {
                last_logged = s.packet;
                have_logged = true;
                log = Entry.frame s.packet min sec ∷ s.log;
              }
              else counted))
    go true = record {
      to = record counted {
        last_logged = s.packet;
        have_logged = true;
        log = Entry.frame s.packet min sec ∷ s.log;
      };
      ran = refl;
      valid = record {
        line = v.line;
        packet = v.packet;
        partial = v.partial;
        stray = v.stray;
        raw_size = v.raw_size;
      };
      logged = λ h. refl;
      counted = λ h. omega arith;
    }
    go false = record {
      to = counted;
      ran = refl;
      valid = record {
        line = v.line;
        packet = v.packet;
        partial = v.partial;
        stray = v.stray;
        raw_size = v.raw_size;
      };
      logged = λ h. h;
      counted = λ h. omega arith;
    }

-- A byte in a packet.
abbrev pub within : ℕ → ℕ → Rx → Run Rx
within now byte s = do
  packet ← store s.packet s.pkt_n byte
  let s' = record s { packet = packet; pkt_n = s.pkt_n + 1; last_pkt_at = now }
  let whole = record s' { pkt_n = 0 }
  if ltb s'.pkt_n packet_len then done s' else on_packet whole (parse_clock_packet packet)

pub within-Counts :
    (now byte : ℕ) (s : Rx) → IsValid s → byte < 256 → Counts 1 s (within now byte s)
within-Counts now byte s v b =
    let packet = set s.packet s.pkt_n byte in
    let s' = record s { packet = packet; pkt_n = s.pkt_n + 1; last_pkt_at = now } in
    let whole = record s' { pkt_n = 0 } in
    let (e, held) =
      Held-store packet_len s.packet s.pkt_n s.pkt_n (s.pkt_n + 1) byte v.packet b v.partial
        (omega (arith, v.partial)) in
    elim (Bool-cases (ltb (s.pkt_n + 1) packet_len)) [
      | inl q ↦ record {
        to = s';
        ran = rw (e, q) refl;
        valid = record {
          line = v.line;
          packet = held;
          partial = ground arith;
          stray = v.stray;
          raw_size = v.raw_size;
        };
        logged = λ h. h;
        counted = λ h. omega arith;
      }
      | inr q ↦
          (let five : s.pkt_n ≡ 5 = ground (arith, v.partial) in
            let fresh : Held packet_len packet 0 = record {
              size_eq = held.size_eq;
              index = omega arith;
              bytes = held.bytes;
            } in
            let w : IsValid whole = record {
              line = v.line;
              packet = fresh;
              partial = omega arith;
              stray = v.stray;
              raw_size = v.raw_size;
            } in
            let c = on_packet-Counts whole (parse_clock_packet packet) w in
            record {
              to = c.to;
              ran = rw (e, q) c.ran;
              valid = c.valid;
              logged = c.logged;
              counted = λ h. omega (arith, c.counted h, five);
            })
    ]
