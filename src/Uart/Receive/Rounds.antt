-- ===== src/Uart/Receive/Rounds.antt =====
-- The rounds of `uart_rx_task` of examples/uart-test.rs one after the other.
use scoreboard_ctrl.Base.{
  ℕ, zero, suc, ◌+◌, ◌-◌, ◌/◌, ◌%◌, ◌≡◌, refl, Bool, true, false, Bool-cases, inl, inr, List, [],
  ◌∷◌, length, replicate, ltb, leb, if◌then◌else◌, Run, done, ◌>>=◌, arith,
}
use scoreboard_ctrl.Decode.{packet_len}
use scoreboard_ctrl.Decode.Hex.{AllBytes}
use scoreboard_ctrl.Uart.Receive.{
  rx_line, u32_size, Entry, Rx, start, on_quiet, on_error, on_read, report,
}
use scoreboard_ctrl.Uart.Receive.Show.{IsValid}
use scoreboard_ctrl.Uart.Receive.Stray.{account, Counts, Counts-bind}
use scoreboard_ctrl.Uart.Receive.Count.{Counts-if, flush_line-Counts, AllBelow256, feed-Counts}
use scoreboard_ctrl.Uart.Receive.Quiet.{on_quiet-Counts}

-- What `select` gives in a round, with its time: bytes, an error, or 50 ms without a byte.
pub data Event : Type 0 where
  read : ℕ → List (ℕ × ℕ) → Event
  failed quiet : ℕ → Event

-- A round of the loop.
abbrev pub round : ℕ → Event → Rx → Run Rx
round now (read t bytes) s = on_read t bytes (report now s)
round now (failed t) s = on_error t (report now s)
round now (quiet t) s = on_quiet t (report now s)

abbrev pub rounds : List (ℕ × Event) → Rx → Run Rx
rounds [] s = done s
rounds ((now, e) ∷ es) s = round now e s >>= rounds es

abbrev pub bytes_in : List (ℕ × Event) → ℕ
bytes_in [] = 0
bytes_in ((now, read t bytes) ∷ es) = length bytes + bytes_in es
bytes_in ((now, failed t) ∷ es) = bytes_in es
bytes_in ((now, quiet t) ∷ es) = bytes_in es

abbrev pub Fits : Event → Type 0
Fits (read t bytes) = AllBelow256 bytes
Fits (failed t) = Unit
Fits (quiet t) = Unit

abbrev pub AllFit : List (ℕ × Event) → Type 0
AllFit [] = Unit
AllFit ((now, e) ∷ es) = Fits e × AllFit es

report-Counts : (now : ℕ) (s : Rx) → IsValid s → Counts 0 s (done (report now s))
unfolding report
report-Counts now s v = go (leb 1000 ((now - s.stats_at) / 1000))
  where
    go :
        (b : Bool)
        → Counts 0 s (
            done (
              if b
              then record s {
                stats_pkts = s.rx_pkts;
                stats_at = now;
                log =
                    Entry.stats
                      ((s.rx_pkts + u32_size - s.stats_pkts) % u32_size)
                      s.rx_pkts
                      s.rx_errs
                      s.rx_stray
                    ∷ s.log;
              }
              else s))
    go true = record {
      to = record s {
        stats_pkts = s.rx_pkts;
        stats_at = now;
        log =
            Entry.stats ((s.rx_pkts + u32_size - s.stats_pkts) % u32_size) s.rx_pkts s.rx_errs
              s.rx_stray
            ∷ s.log;
      };
      ran = refl;
      valid = record {
        line = v.line;
        packet = v.packet;
        partial = v.partial;
        stray = v.stray;
        raw_size = v.raw_size;
      };
      logged = λ h. h;
      counted = λ h. omega arith;
    }
    go false = record { to = s; ran = refl; valid = v; logged = λ h. h; counted = λ h. omega arith }

report-IsValid : (now : ℕ) (s : Rx) → IsValid s → IsValid (report now s)
unfolding report
report-IsValid now s v = elim (Bool-cases (leb 1000 ((now - s.stats_at) / 1000))) [
  | inl e ↦ rw e record {
    line = v.line;
    packet = v.packet;
    partial = v.partial;
    stray = v.stray;
    raw_size = v.raw_size;
  }
  | inr e ↦ rw e v
]

on_read-Counts :
    (t : ℕ) (bytes : List (ℕ × ℕ)) (s : Rx)
    → IsValid s
    → AllBelow256 bytes
    → Counts (length bytes) s (on_read t bytes s)
unfolding on_read
on_read-Counts t [] s v a = record {
  to = s;
  ran = refl;
  valid = v;
  logged = λ h. h;
  counted = λ h. omega arith;
}
on_read-Counts t (b ∷ bytes) s v a =
    let u = record s { last_rx_ms = t / 1000 % u32_size } in
    let w : IsValid u = record {
      line = v.line;
      packet = v.packet;
      partial = v.partial;
      stray = v.stray;
      raw_size = v.raw_size;
    } in
    let c = feed-Counts (b ∷ bytes) u w a in
    record { to = c.to; ran = c.ran; valid = c.valid; logged = c.logged; counted = c.counted }

-- An error drops the bytes of the packet that was begun.
on_error-done : (now : ℕ) (s : Rx) → IsValid s → (s' : Rx) × (on_error now s ≡ done s') × IsValid s'
unfolding on_error
on_error-done now s v =
    let c =
      Counts-if 0 s (ltb 0 s.line_n) _ _ (λ _. flush_line-Counts now s v)
        (λ _. record {
          to = s;
          ran = refl;
          valid = v;
          logged = λ h. h;
          counted = λ h. omega arith;
        }) in
    (
      record (c.to) {
        rx_errs = (c.to.rx_errs + 1) % u32_size;
        log = Entry.rx_err ∷ c.to.log;
        pkt_n = 0;
      },
      rw (c.ran) refl,
      record {
        line = c.valid.line;
        packet = record {
          size_eq = c.valid.packet.size_eq;
          index = omega arith;
          bytes = c.valid.packet.bytes;
        };
        partial = omega arith;
        stray = c.valid.stray;
        raw_size = c.valid.raw_size;
      },
    )

AllBytes-replicate : (n : ℕ) → AllBytes (replicate n 0)
AllBytes-replicate zero = tt
AllBytes-replicate (suc n) = (omega arith, AllBytes-replicate n)

pub start-IsValid : (now : ℕ) → IsValid (start now)
start-IsValid now = record {
  line = record { size_eq = refl; index = omega arith; bytes = AllBytes-replicate rx_line };
  packet = record { size_eq = refl; index = omega arith; bytes = AllBytes-replicate packet_len };
  partial = omega arith;
  stray = record { size_eq = refl; index = omega arith; bytes = AllBytes-replicate rx_line };
  raw_size = refl;
}

abbrev Keeps : Run Rx → Type 0
Keeps r = (s' : Rx) × (r ≡ done s') × IsValid s'

round-Keeps : (now : ℕ) (e : Event) (s : Rx) → IsValid s → Fits e → Keeps (round now e s)
round-Keeps now (read t bytes) s v a =
    let c = on_read-Counts t bytes (report now s) (report-IsValid now s v) a in
    (c.to, c.ran, c.valid)
round-Keeps now (failed t) s v a = on_error-done t (report now s) (report-IsValid now s v)
round-Keeps now (quiet t) s v a =
    let c = on_quiet-Counts t (report now s) (report-IsValid now s v) in (c.to, c.ran, c.valid)

rounds-Keeps : (es : List (ℕ × Event)) (s : Rx) → IsValid s → AllFit es → Keeps (rounds es s)
rounds-Keeps [] s v a = (s, refl, v)
rounds-Keeps ((now, e) ∷ es) s v a =
    let (s1, ran, v1) = round-Keeps now e s v a.0 in
    let (s2, ran2, v2) = rounds-Keeps es s1 v1 a.1 in (s2, rw ran ran2, v2)

-- From the start on, whatever bytes, errors and pauses come in, no index of the task is out of range, and its buffers
-- stay valid.
pub rounds-IsValid :
    (now : ℕ) (es : List (ℕ × Event))
    → AllFit es
    → (s : Rx) × (rounds es (start now) ≡ done s) × IsValid s
rounds-IsValid now es a = rounds-Keeps es (start now) (start-IsValid now) a

abbrev pub NoError : List (ℕ × Event) → Type 0
NoError [] = Unit
NoError ((now, read t bytes) ∷ es) = NoError es
NoError ((now, failed t) ∷ es) = ⊥
NoError ((now, quiet t) ∷ es) = NoError es

Counts-first : (k : ℕ) (s : Rx) {r : Run Rx} → Counts (0 + k) s r → Counts k s r
Counts-first k s c = record {
  to = c.to;
  ran = c.ran;
  valid = c.valid;
  logged = c.logged;
  counted = λ h. omega (arith, c.counted h);
}

rounds-Counts :
    (es : List (ℕ × Event)) (s : Rx)
    → IsValid s
    → AllFit es
    → NoError es
    → Counts (bytes_in es) s (rounds es s)
rounds-Counts [] s v a n = record {
  to = s;
  ran = refl;
  valid = v;
  logged = λ h. h;
  counted = λ h. omega arith;
}
rounds-Counts ((now, read t bytes) ∷ es) s v a n =
    Counts-bind (length bytes) (bytes_in es) s (on_read t bytes (report now s)) (rounds es)
      (Counts-first (length bytes) s (
        Counts-bind 0 (length bytes) s (done (report now s)) (on_read t bytes)
          (report-Counts now s v) (λ u _ w. on_read-Counts t bytes u w a.0)))
      (λ u _ w. rounds-Counts es u w a.1 n)
rounds-Counts ((now, failed t) ∷ es) s v a n = absurd n
rounds-Counts ((now, quiet t) ∷ es) s v a n = Counts-first (bytes_in es) s (
    Counts-bind 0 (bytes_in es) s (on_quiet t (report now s)) (rounds es)
      (Counts-bind 0 0 s (done (report now s)) (on_quiet t) (report-Counts now s v)
        (λ u _ w. on_quiet-Counts t u w))
      (λ u _ w. rounds-Counts es u w a.1 n))

-- Once a packet was logged, rounds without an error count every byte that comes in: the stray bytes, those that wait to
-- be counted, the bytes of the packet that was begun and six for each packet grow by their number, modulo 2 ^ 32.
pub rounds-account :
    (es : List (ℕ × Event)) (s : Rx)
    → IsValid s
    → AllFit es
    → NoError es
    → s.have_logged ≡ true
    → (s' : Rx) × (rounds es s ≡ done s')
      × (account s' % u32_size ≡ (account s + bytes_in es) % u32_size)
rounds-account es s v a n h = let c = rounds-Counts es s v a n in (c.to, c.ran, c.counted h)
