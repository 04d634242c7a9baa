-- ===== src/Uart/Receive/Count.antt =====
-- What `uart_rx_task` of examples/uart-test.rs keeps and counts.
use scoreboard_ctrl.Base.{
  ℕ, ◌+◌, ◌<◌, ◌≡◌, refl, Bool, true, false, not, Bool-cases, inl, inr, List, [], ◌∷◌, length, set,
  ◌==◌, if◌then◌else◌, Run, ◌>>=◌, store, arith,
}
use scoreboard_ctrl.Decode.{packet_len, packet_sof}
use scoreboard_ctrl.Uart.Receive.{rx_line, Rx, flush_line, on_packet_byte, on_byte, feed}
use scoreboard_ctrl.Uart.Receive.Show.{Held, IsValid, shown, flush_line-done}
use scoreboard_ctrl.Uart.Receive.Stray.{
  Counts, Held-store, Counts-bind, Counts-after, on_stray-Counts,
}
use scoreboard_ctrl.Uart.Receive.Packets.{within-Counts}

pub Counts-if :
    (k : ℕ) (s : Rx) (b : Bool) (x y : Run Rx)
    → (b ≡ true → Counts k s x)
    → (b ≡ false → Counts k s y)
    → Counts k s (if b then x else y)
Counts-if k s true x y f g = f refl
Counts-if k s false x y f g = g refl

on_packet_byte-Counts :
    (now byte : ℕ) (s : Rx) → IsValid s → byte < 256 → Counts 1 s (on_packet_byte now byte s)
unfolding on_packet_byte
on_packet_byte-Counts now byte s v b =
    Counts-if 1 s (s.pkt_n == 0) _ _
      (λ idle.
        Counts-if 1 s (not (byte == packet_sof)) _ _ (λ _. on_stray-Counts byte s v b)
          (λ _.
            let (e, held) =
              Held-store packet_len s.packet s.pkt_n 0 1 byte v.packet b (omega arith)
                (omega arith) in
            record {
              to = record s { packet = set s.packet 0 byte; pkt_n = 1; last_pkt_at = now };
              ran = rw e refl;
              valid = record {
                line = v.line;
                packet = held;
                partial = omega arith;
                stray = v.stray;
                raw_size = v.raw_size;
              };
              logged = λ h. h;
              counted = λ h. (let none_yet : s.pkt_n ≡ 0 = ground arith in omega (arith, none_yet));
            }))
      (λ _. within-Counts now byte s v b)

pub flush_line-Counts : (now : ℕ) (s : Rx) → IsValid s → Counts 0 s (flush_line now s)
flush_line-Counts now s v =
    let (l, n, t, g, e, size) = flush_line-done now s v in
    record {
      to = record (shown s l n t g) { line_n = 0 };
      ran = e;
      valid = record {
        line = record { size_eq = v.line.size_eq; index = omega arith; bytes = v.line.bytes };
        packet = v.packet;
        partial = v.partial;
        stray = v.stray;
        raw_size = size;
      };
      logged = λ h. h;
      counted = λ h. omega arith;
    }

-- The byte in the line, and what follows.
abbrev line_then : ℕ → ℕ → Rx → Run Rx
line_then now byte s = do
  line ← store s.line s.line_n byte
  on_packet_byte now byte (record s { line = line; line_n = s.line_n + 1 })

line_then-Counts :
    (now byte : ℕ) (s : Rx)
    → IsValid s
    → byte < 256
    → s.line_n < rx_line
    → Counts 1 s (line_then now byte s)
line_then-Counts now byte s v b l =
    let (e, held) =
      Held-store rx_line s.line s.line_n s.line_n (s.line_n + 1) byte v.line b l (omega arith) in
    let t = record s { line = set s.line s.line_n byte; line_n = s.line_n + 1 } in
    let w : IsValid t = record {
      line = held;
      packet = v.packet;
      partial = v.partial;
      stray = v.stray;
      raw_size = v.raw_size;
    } in
    rw e (Counts-after 0 1 s t _ (λ h. h) (omega arith) (on_packet_byte-Counts now byte t w b))

pub on_byte-Counts :
    (now byte : ℕ) (s : Rx) → IsValid s → byte < 256 → Counts 1 s (on_byte now byte s)
unfolding on_byte
on_byte-Counts now byte s v b = elim (Bool-cases (s.line_n == length s.line)) [
  | inl full ↦
      (let (l, n, t, g, e, size) = flush_line-done now s v in
        let u = record (shown s l n t g) { line_n = 0 } in
        let empty : Held rx_line s.line 0 = record {
          size_eq = v.line.size_eq;
          index = omega arith;
          bytes = v.line.bytes;
        } in
        let w : IsValid u = record {
          line = empty;
          packet = v.packet;
          partial = v.partial;
          stray = v.stray;
          raw_size = size;
        } in
        rw (full, e)
          (Counts-after 0 1 s u _ (λ h. h) (omega arith)
            (line_then-Counts now byte u w b (omega arith))))
  | inr room ↦
      rw room (line_then-Counts now byte s v b (ground (arith, v.line.size_eq, v.line.index)))
]

abbrev pub AllBelow256 : List (ℕ × ℕ) → Type 0
AllBelow256 [] = Unit
AllBelow256 ((now, byte) ∷ bytes) = (byte < 256) × AllBelow256 bytes

pub feed-Counts :
    (bytes : List (ℕ × ℕ)) (s : Rx)
    → IsValid s
    → AllBelow256 bytes
    → Counts (length bytes) s (feed bytes s)
unfolding feed
feed-Counts [] s v a = record {
  to = s;
  ran = refl;
  valid = v;
  logged = λ h. h;
  counted = λ h. omega arith;
}
feed-Counts ((now, byte) ∷ bytes) s v a =
    let one = on_byte-Counts now byte s v a.0 in
    let c =
      Counts-bind 1 (length bytes) s (on_byte now byte s) (λ s'. feed bytes s') one
        (λ t e w. feed-Counts bytes t w a.1) in
    record {
      to = c.to;
      ran = c.ran;
      valid = c.valid;
      logged = c.logged;
      counted = λ h. omega (arith, c.counted h);
    }
