-- ===== src/Uart/Receive/Quiet.antt =====
-- The pauses of `uart_rx_task` of examples/uart-test.rs.
use scoreboard_ctrl.Base.{ℕ, ◌+◌, ◌-◌, ◌/◌, ◌%◌, refl, ◌&&◌, ◌∷◌, ltb, leb, arith}
use scoreboard_ctrl.Decode.{packet_len}
use scoreboard_ctrl.Uart.Receive.{u32_size, Entry, Rx, take_stray, drop_stalled, on_quiet}
use scoreboard_ctrl.Uart.Receive.Show.{IsValid, front-done}
use scoreboard_ctrl.Uart.Receive.Stray.{Counts, take_stray-Counts, Counts-bind}
use scoreboard_ctrl.Uart.Receive.Count.{Counts-if, flush_line-Counts}

drop_stalled-Counts : (now : ℕ) (s : Rx) → IsValid s → Counts 0 s (drop_stalled now s)
unfolding drop_stalled
drop_stalled-Counts now s v =
    let (text, cut, e) = front-done s.packet s.pkt_n packet_len v.packet in
    Counts-if 0 s (ltb 0 s.pkt_n && leb 250 ((now - s.last_pkt_at) / 1000)) _ _
      (λ _. record {
        to = record s {
          rx_stray = (s.rx_stray + s.pkt_n) % u32_size;
          log = Entry.incomplete text ∷ s.log;
          pkt_n = 0;
        };
        ran = rw (cut, e) refl;
        valid = record {
          line = v.line;
          packet = record {
            size_eq = v.packet.size_eq;
            index = omega arith;
            bytes = v.packet.bytes;
          };
          partial = omega arith;
          stray = v.stray;
          raw_size = v.raw_size;
        };
        logged = λ h. h;
        counted = λ h. omega arith;
      })
      (λ _. record { to = s; ran = refl; valid = v; logged = λ h. h; counted = λ h. omega arith })

pub on_quiet-Counts : (now : ℕ) (s : Rx) → IsValid s → Counts 0 s (on_quiet now s)
unfolding on_quiet
on_quiet-Counts now s v =
    Counts-bind 0 0 s (drop_stalled now s) _ (drop_stalled-Counts now s v) (λ s1 _ v1.
      Counts-bind 0 0 s1 (take_stray s1) _ (take_stray-Counts s1 v1) (λ s2 _ v2.
        Counts-if 0 s2 (ltb 0 s2.line_n) _ _ (λ _. flush_line-Counts now s2 v2)
          (λ _. record {
            to = s2;
            ran = refl;
            valid = v2;
            logged = λ h. h;
            counted = λ h. omega arith;
          })))
