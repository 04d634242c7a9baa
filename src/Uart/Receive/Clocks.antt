-- ===== src/Uart/Receive/Clocks.antt =====
-- The frames that `uart_rx_task` of examples/uart-test.rs counts, against those of the stream of bytes.
use mathlib.Core.Path.{subst}
use scoreboard_ctrl.Base.{
  ℕ, ◌+◌, ◌-◌, ◌/◌, ◌%◌, ◌<◌, ◌≡◌, refl, sym, ap, ◌∙◌, Bool, true, false, not, ◌&&◌, ◌||◌, Option,
  none, some, List, [], ◌∷◌, ◌++◌, length, length-set, length-take, set, take, bytes_eq, ltb, ◌==◌,
  if◌then◌else◌, Run, done, panicked, ◌>>=◌, store, store_lem, slice, copy_from_slice, arith,
}
use scoreboard_ctrl.Decode.{packet_len, packet_sof, parse_clock_packet}
use scoreboard_ctrl.Serial.Collect.{
  collect, collect_skip, collect_sof, collect_more, collect_whole, take-set, take-length,
}
use scoreboard_ctrl.Uart.Receive.{
  Rx, u32_size, Entry, log_hex, take_stray, same_raw, emit_rx_hex, flush_line, on_stray, on_packet,
  on_packet_byte, on_byte, feed,
}
use scoreboard_ctrl.Uart.Receive.Show.{IsValid}
use scoreboard_ctrl.Uart.Receive.Count.{AllBelow256, on_byte-Counts}

-- How many frames were counted, and the last.
abbrev pub Seen : Type 0
Seen = ℕ × Option (List ℕ)

abbrev pub seen_frame : List ℕ → Option (ℕ × ℕ) → Seen → Seen
seen_frame pkt none seen = seen
seen_frame pkt (some clock) (n, last) = ((n + 1) % u32_size, some pkt)

-- What the frames of a stream do to it: those that parse are counted.
abbrev pub see : List (ℕ × List ℕ) → Seen → Seen
see [] seen = seen
see ((t, pkt) ∷ frames) seen = see frames (seen_frame pkt (parse_clock_packet pkt) seen)

-- What of the state bears on the frames: the packet, how much of it was begun, and what was seen.
abbrev View : Type 0
View = List ℕ × ℕ × Seen

abbrev view : Rx → View
view s = (s.packet, s.pkt_n, (s.rx_pkts, s.last_frame))

abbrev outcome : View → List (ℕ × ℕ) → Seen
outcome (packet, n, seen) bytes = see (collect (take n packet) bytes) seen

-- The step leaves that as it was, if it does not panic.
abbrev Kept : Rx → Run Rx → Type 0
Kept s panicked = Unit
Kept s (done s') = view s' ≡ view s

Kept-bind :
    {A : Type 0} (s : Rx) (m : Run A) (f : A → Run Rx) → ((a : A) → Kept s (f a)) → Kept s (m >>= f)
Kept-bind s panicked f k = tt
Kept-bind s (done a) f k = k a

Kept-if : (s : Rx) (b : Bool) (x y : Run Rx) → Kept s x → Kept s y → Kept s (if b then x else y)
Kept-if s true x y k l = k
Kept-if s false x y k l = l

Kept-from : (s t : Rx) (r : Run Rx) → view t ≡ view s → Kept t r → Kept s r
Kept-from s t panicked e k = tt
Kept-from s t (done u) e k = k ∙ e

Kept-then :
    (s : Rx) (m : Run Rx) (f : Rx → Run Rx)
    → Kept s m
    → ((t : Rx) → Kept t (f t))
    → Kept s (m >>= f)
Kept-then s panicked f k l = tt
Kept-then s (done t) f k l = Kept-from s t (f t) k (l t)

take_stray-Kept : (s : Rx) → Kept s (take_stray s)
unfolding take_stray
take_stray-Kept s = Kept-if s (s.stray_n == 0) _ _ refl (
    Kept-bind s (slice s.stray_buf 0 s.stray_n) _
      (λ bytes. Kept-bind s (log_hex bytes) _ (λ text. refl)))

emit_rx_hex-Kept : (now : ℕ) (bytes : List ℕ) (s : Rx) → Kept s (emit_rx_hex now bytes s)
unfolding emit_rx_hex
emit_rx_hex-Kept now bytes s = Kept-bind s (same_raw bytes s) _ (λ same.
    Kept-if s (same && ltb ((now - s.last_raw_at) / 1000) 2000) _ _ refl (
      Kept-bind s (copy_from_slice s.last_raw 0 (length bytes) bytes) _
        (λ last. Kept-bind s (log_hex bytes) _ (λ text. refl))))

flush_line-Kept : (now : ℕ) (s : Rx) → Kept s (flush_line now s)
unfolding flush_line
flush_line-Kept now s =
    Kept-bind s (slice s.line 0 s.line_n) _
      (λ bytes. Kept-then s (emit_rx_hex now bytes s) _ (emit_rx_hex-Kept now bytes s) (λ t. refl))

on_stray-Kept : (byte : ℕ) (s : Rx) → Kept s (on_stray byte s)
unfolding on_stray
on_stray-Kept byte s =
    Kept-if s s.have_logged _ _
      (Kept-then s (if s.stray_n == length s.stray_buf then take_stray s else done s) _
        (Kept-if s (s.stray_n == length s.stray_buf) _ _ (take_stray-Kept s) refl)
        (λ t. Kept-bind t (store t.stray_buf t.stray_n byte) _ (λ buf. refl)))
      refl

-- What the bytes do from `v` on is what those behind `byte` do from the state behind it.
abbrev Goes : ℕ → ℕ → View → Run Rx → Type 0
Goes now byte v panicked = Unit
Goes now byte v (done s) =
    (rest : List (ℕ × ℕ)) → outcome v ((now, byte) ∷ rest) ≡ outcome (view s) rest

Goes-if :
    (now byte : ℕ) (v : View) (b : Bool) (x y : Run Rx)
    → (b ≡ true → Goes now byte v x)
    → (b ≡ false → Goes now byte v y)
    → Goes now byte v (if b then x else y)
Goes-if now byte v true x y f g = f refl
Goes-if now byte v false x y f g = g refl

-- A byte outside a packet.
stray-Goes :
    (now byte : ℕ) (s : Rx) (r : Run Rx)
    → s.pkt_n ≡ 0
    → (byte == packet_sof) ≡ false
    → Kept s r
    → Goes now byte (view s) r
stray-Goes now byte s panicked z e k = tt
stray-Goes now byte s (done s') z e k = λ rest.
    let fresh : take s.pkt_n s.packet ≡ [] = ap (λ n. take n s.packet) z in
    ap (λ f. see f (s.rx_pkts, s.last_frame))
      (collect_skip (take s.pkt_n s.packet) now byte rest fresh e)
    ∙ ap (λ q. see (collect q rest) (s.rx_pkts, s.last_frame)) (sym fresh)
    ∙ ap (λ v. outcome v rest) (sym k)

-- A whole packet is seen, and none is begun.
abbrev Sees : List ℕ → Seen → Run Rx → Type 0
Sees pkt seen panicked = Unit
Sees pkt seen (done s') = view s' ≡ (pkt, 0, seen_frame pkt (parse_clock_packet pkt) seen)

on_packet-Sees :
    (s : Rx) (o : Option (ℕ × ℕ))
    → s.pkt_n ≡ 0
    → parse_clock_packet s.packet ≡ o
    → Sees s.packet (s.rx_pkts, s.last_frame) (on_packet s o)
unfolding on_packet
on_packet-Sees s none z e = go (log_hex s.packet)
  where
    go :
        (m : Run (List ℕ))
        → Sees s.packet
            (s.rx_pkts, s.last_frame)
            (m >>= λ text. done (record s {
              rx_stray = (s.rx_stray + packet_len) % u32_size;
              log = Entry.nonclock text ∷ s.log;
            }))
    go panicked = tt
    go (done text) = rw (e, z) refl
on_packet-Sees s (some (min, sec)) z e =
    rw e (go (not s.have_logged || not (bytes_eq s.packet s.last_logged)))
  where
    counted : Rx
    counted = record s { rx_pkts = (s.rx_pkts + 1) % u32_size; last_frame = some s.packet }

    seen : View
    seen = (s.packet, 0, ((s.rx_pkts + 1) % u32_size, some s.packet))

    go :
        (b : Bool)
        → view (
            if b
            then record counted {
              last_logged = s.packet;
              have_logged = true;
              log = Entry.frame s.packet min sec ∷ s.log;
            }
            else counted)
          ≡ seen
    go true = rw z refl
    go false = rw z refl

Sees-Goes :
    (now byte : ℕ) (s : Rx) (pkt : List ℕ) (r : Run Rx)
    → length (take s.pkt_n s.packet) + 1 ≡ packet_len
    → take s.pkt_n s.packet ++ (byte ∷ []) ≡ pkt
    → Sees pkt (s.rx_pkts, s.last_frame) r
    → Goes now byte (view s) r
Sees-Goes now byte s pkt panicked five whole k = tt
Sees-Goes now byte s pkt (done s') five whole k = λ rest.
    ap (λ f. see f (s.rx_pkts, s.last_frame))
      (collect_whole (take s.pkt_n s.packet) now byte rest five
        ∙ ap (λ q. (now, q) ∷ collect [] rest) whole)
    ∙ ap (λ v. outcome v rest) (sym k)

on_packet_byte-Goes :
    (now byte : ℕ) (s : Rx)
    → length s.packet ≡ packet_len
    → s.pkt_n < packet_len
    → Goes now byte (view s) (on_packet_byte now byte s)
unfolding on_packet_byte
on_packet_byte-Goes now byte s size partial =
    Goes-if now byte (view s) (s.pkt_n == 0) _ _
      (λ idle.
        Goes-if now byte (view s) (not (byte == packet_sof)) _ _
          (λ other.
            stray-Goes now byte s (on_stray byte s) (ground arith) (ground arith)
              (on_stray-Kept byte s))
          (λ sof. rw (store_lem s.packet 0 byte (omega arith)) (λ rest.
            let none_yet : s.pkt_n ≡ 0 = ground arith in
            let fresh : take s.pkt_n s.packet ≡ [] = ap (λ n. take n s.packet) none_yet in
            let one : take 1 (set s.packet 0 byte) ≡ byte ∷ [] =
              take-set s.packet 0 byte (omega arith) in
            ap (λ f. see f (s.rx_pkts, s.last_frame))
              (collect_sof (take s.pkt_n s.packet) now byte rest fresh (ground arith)
                ∙ ap (λ q. collect q rest) (sym one)))))
      (λ begun. rw (store_lem s.packet s.pkt_n byte (omega arith)) (
        Goes-if now byte (view s) (ltb (s.pkt_n + 1) packet_len) _ _
          (λ more. λ rest.
            ap (λ f. see f (s.rx_pkts, s.last_frame))
              (collect_more (take s.pkt_n s.packet) now byte rest (ground (arith, taken))
                  (ground (arith, taken))
                ∙ ap (λ q. collect q rest) (sym longer)))
          (λ full.
            Sees-Goes now byte s packet (on_packet whole (parse_clock_packet packet))
              (ground (arith, taken))
              (sym longer
                ∙ take-length packet (s.pkt_n + 1)
                    (ground (arith, length-set s.packet s.pkt_n byte)))
              (on_packet-Sees whole (parse_clock_packet packet) refl refl))))
  where
    packet : List ℕ
    packet = set s.packet s.pkt_n byte

    whole : Rx
    whole = record s { packet = packet; pkt_n = 0; last_pkt_at = now }

    taken : length (take s.pkt_n s.packet) ≡ s.pkt_n
    taken = omega (arith, length-take s.pkt_n s.packet)

    longer : take (s.pkt_n + 1) packet ≡ take s.pkt_n s.packet ++ (byte ∷ [])
    longer = take-set s.packet s.pkt_n byte (omega arith)

-- The byte in the line, and in the packet.
stored-Goes :
    (now byte : ℕ) (t : Rx) (m : Run (List ℕ))
    → length t.packet ≡ packet_len
    → t.pkt_n < packet_len
    → Goes now byte
        (view t)
        (m >>= λ line. on_packet_byte now byte (record t { line = line; line_n = t.line_n + 1 }))
stored-Goes now byte t panicked size partial = tt
stored-Goes now byte t (done line) size partial =
    on_packet_byte-Goes now byte (record t { line = line; line_n = t.line_n + 1 }) size partial

on_byte-Goes : (now byte : ℕ) (s : Rx) → IsValid s → Goes now byte (view s) (on_byte now byte s)
unfolding on_byte
on_byte-Goes now byte s v =
    go (if s.line_n == length s.line then flush_line now s else done s)
      (Kept-if s (s.line_n == length s.line) _ _ (flush_line-Kept now s) refl)
  where
    go :
        (m : Run Rx)
        → Kept s m
        → Goes now byte (view s) (
            m >>= λ t. store t.line t.line_n byte >>= λ line.
            on_packet_byte now byte (record t { line = line; line_n = t.line_n + 1 }))
    go panicked k = tt
    go (done t) k =
        let size : length t.packet ≡ packet_len = ap (λ w. length w.0) k ∙ v.packet.size_eq in
        let same : t.pkt_n ≡ s.pkt_n = ap (λ w. w.1) k in
        subst
          (λ w. Goes now byte w (
            store t.line t.line_n byte >>= λ line.
            on_packet_byte now byte (record t { line = line; line_n = t.line_n + 1 })))
          k
          (stored-Goes now byte t (store t.line t.line_n byte) size
            (omega (arith, same, v.partial)))

-- From a valid state on, bytes do not make the task panic, and the packets it counts, modulo 2 ^ 32, and the last of
-- them, which `replay` sends, are those of the frames in the stream that parse; the first may have begun before.
pub feed-see :
    (bytes : List (ℕ × ℕ)) (s : Rx)
    → IsValid s
    → AllBelow256 bytes
    → (s' : Rx) × (feed bytes s ≡ done s')
      × IsValid s'
      × (see (collect (take s.pkt_n s.packet) bytes) (s.rx_pkts, s.last_frame)
          ≡ (s'.rx_pkts, s'.last_frame))
unfolding feed
feed-see [] s v a = (s, refl, v, refl)
feed-see ((now, byte) ∷ bytes) s v a =
    let c = on_byte-Counts now byte s v a.0 in
    let goes : Goes now byte (view s) (done c.to) =
      subst (Goes now byte (view s)) c.ran (on_byte-Goes now byte s v) in
    let (s', ran, valid, seen) = feed-see bytes c.to c.valid a.1 in
    (s', rw (c.ran) ran, valid, goes bytes ∙ seen)
