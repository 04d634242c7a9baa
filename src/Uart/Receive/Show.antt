-- ===== src/Uart/Receive/Show.antt =====
-- The buffers of `uart_rx_task` of examples/uart-test.rs and how they are shown.
use scoreboard_ctrl.Base.{
  ℕ, zero, suc, ◌+◌, ◌-◌, ◌/◌, ◌≤◌, ◌<◌, ◌≡◌, refl, Bool, false, ◌&&◌, Bool-cases, inl, inr, List,
  [], ◌∷◌, length, length-append, length-take, length-drop, take, drop, bytes_eq, ltb, ◌==◌, done,
  slice, slice_lem, overwrite, copy_from_slice_lem, arith,
}
use scoreboard_ctrl.Decode.{packet_len}
use scoreboard_ctrl.Decode.Hex.{AllBytes}
use scoreboard_ctrl.Serial.{hex_line}
use scoreboard_ctrl.Serial.Collect.{hex_line-done}
use scoreboard_ctrl.Uart.Receive.{rx_line, Entry, Rx, log_hex, same_raw, emit_rx_hex, flush_line}

-- A buffer of `size` bytes of which `n` are in use.
pub record Held (size : ℕ) (buf : List ℕ) (n : ℕ) : Type 0 where
  pub size_eq : length buf ≡ size
  pub index : n ≤ size
  pub bytes : AllBytes buf

pub record IsValid (s : Rx) : Type 0 where
  pub line : Held rx_line s.line s.line_n
  pub packet : Held packet_len s.packet s.pkt_n
  pub partial : s.pkt_n < packet_len
  pub stray : Held rx_line s.stray_buf s.stray_n
  pub raw_size : length s.last_raw ≡ rx_line

pub AllBytes-take : (n : ℕ) (xs : List ℕ) → AllBytes xs → AllBytes (take n xs)
AllBytes-take zero xs a = tt
AllBytes-take (suc n) [] a = tt
AllBytes-take (suc n) (x ∷ xs) a = (a.0, AllBytes-take n xs a.1)

pub log_hex-done : (bytes : List ℕ) → AllBytes bytes → (text : List ℕ) × (log_hex bytes ≡ done text)
unfolding log_hex hex_line
log_hex-done bytes a = hex_line-done 192 bytes a

-- The front of a buffer, as text.
pub front-done :
    (buf : List ℕ) (n : ℕ)
    → (size : ℕ) → Held size buf n
    → (text : List ℕ) × (slice buf 0 n ≡ done (take (n - 0) buf))
      × (log_hex (take (n - 0) buf) ≡ done text)
front-done buf n size h =
    let (text, e) = log_hex-done (take (n - 0) buf) (AllBytes-take (n - 0) buf h.bytes) in
    (text, slice_lem buf 0 n (omega arith) (omega (arith, h.size_eq, h.index)), e)

same_raw-done :
    (bytes : List ℕ) (s : Rx)
    → IsValid s
    → length bytes ≤ rx_line
    → (b : Bool) × (same_raw bytes s ≡ done b)
unfolding same_raw
same_raw-done bytes s v h = elim (Bool-cases (s.last_raw_n == length bytes)) [
  | inl e ↦ (
    bytes_eq (take (length bytes - 0) s.last_raw) bytes,
    rw (e, slice_lem s.last_raw 0 (length bytes) (omega arith) (omega (arith, v.raw_size))) refl,
  )
  | inr e ↦ (false, rw e refl)
]

-- A state that differs from `s` in what was last shown and in the log.
abbrev pub shown : Rx → List ℕ → ℕ → ℕ → List Entry → Rx
shown s l n t g = record s { last_raw = l; last_raw_n = n; last_raw_at = t; log = g }

emit_rx_hex-done :
    (now : ℕ) (bytes : List ℕ) (s : Rx)
    → IsValid s
    → AllBytes bytes
    → length bytes ≤ rx_line
    → (l : List ℕ) × (n : ℕ) × (t : ℕ) × (g : List Entry) × (emit_rx_hex now bytes s
        ≡ done (shown s l n t g))
      × (length l ≡ rx_line)
unfolding emit_rx_hex
emit_rx_hex-done now bytes s v a h =
    let (b, e) = same_raw-done bytes s v h in
    let (text, p) = log_hex-done bytes a in
    let over = overwrite s.last_raw 0 bytes in
    let copied =
      copy_from_slice_lem s.last_raw 0 (length bytes) bytes (omega arith)
        (omega (arith, v.raw_size)) (omega arith) in
    let size : length over ≡ rx_line = omega (
      arith,
      length-append bytes (drop (0 + length bytes) s.last_raw),
      length-drop (0 + length bytes) s.last_raw,
      v.raw_size,
    ) in
    elim (Bool-cases (b && ltb ((now - s.last_raw_at) / 1000) 2000)) [
      | inl q ↦ (s.last_raw, s.last_raw_n, s.last_raw_at, s.log, rw (e, q) refl, v.raw_size)
      | inr q ↦ (over, length bytes, now, Entry.raw text ∷ s.log, rw (e, q, copied, p) refl, size)
    ]

pub flush_line-done :
    (now : ℕ) (s : Rx)
    → IsValid s
    → (l : List ℕ) × (n : ℕ) × (t : ℕ) × (g : List Entry) × (flush_line now s
        ≡ done (record (shown s l n t g) { line_n = 0 }))
      × (length l ≡ rx_line)
unfolding flush_line
flush_line-done now s v =
    let bytes = take (s.line_n - 0) s.line in
    let cut =
      slice_lem s.line 0 s.line_n (omega arith) (omega (arith, v.line.size_eq, v.line.index)) in
    let (l, n, t, g, e, size) =
      emit_rx_hex-done now bytes s v (AllBytes-take (s.line_n - 0) s.line v.line.bytes)
        (omega (arith, length-take (s.line_n - 0) s.line, v.line.index)) in
    (l, n, t, g, rw (cut, e) refl, size)
