-- ===== src/Uart/Send/Hunt.antt =====
-- `hunt` of examples/uart-test.rs, as the bytes that it sends in order.
use scoreboard_ctrl.Base.{
  ℕ, zero, suc, ◌+◌, ◌-◌, Option, none, some, unwrap_or, List, [], ◌∷◌, ◌++◌, set, codes,
}
use scoreboard_ctrl.Decode.{packet_sof, parse_clock_packet}
use scoreboard_ctrl.Uart.Send.{xor8, covered, sum_chk}

-- `n` numbers from `b` on.
abbrev pub range : ℕ → ℕ → List ℕ
range b zero = []
range b (suc n) = b ∷ range (b + 1) n

abbrev pub each : (ℕ → List (List ℕ)) → List ℕ → List (List ℕ)
each f [] = []
each f (b ∷ bs) = f b ++ each f bs

-- 1: bytes of the size of a key.
abbrev pub keys : List (List ℕ)
keys = each (λ b. (b ∷ []) ∷ []) (range 1 32)

-- 2: a command and its complement.
abbrev pub complements : List (List ℕ)
complements = each (λ b. (b ∷ (255 - b) ∷ []) ∷ []) (range 1 16)

-- 3: framed commands.
unfoldable pub framed : List (List ℕ)
framed =
    each
      (λ b.
        (0x02 ∷ b ∷ 0x03 ∷ [])
        ∷ (0xa5 ∷ b ∷ xor8 (0xa5 ∷ b ∷ []) ∷ [])
        ∷ (0x55 ∷ 0xaa ∷ b ∷ [])
        ∷ [])
      (0x01 ∷ 0x02 ∷ 0x03 ∷ 0x10 ∷ 0x11 ∷ 0x20 ∷ 0x30 ∷ 0x80 ∷ 0xaa ∷ [])

-- The time of the last frame, or 07:30.
unfoldable pub clock_of : Option (List ℕ) → ℕ × ℕ
clock_of none = (7, 30)
clock_of (some frame) = unwrap_or (parse_clock_packet frame) (7, 30)

-- 4: packets in the layout of the clock, with both checks.
unfoldable pub clock_layout : ℕ → ℕ → List (List ℕ)
clock_layout min sec =
    each
      (λ cmd.
        let pkt = packet_sof ∷ 0 ∷ cmd ∷ min ∷ sec ∷ sec ∷ [] in
        set pkt 1 (xor8 (covered pkt)) ∷ set pkt 1 (sum_chk pkt) ∷ [])
      (0x00 ∷ 0x01 ∷ 0x02 ∷ 0x03 ∷ 0x10 ∷ 0x80 ∷ 0xff ∷ [])

-- 5: the last frame behind other first bytes.
unfoldable pub other_sofs : List ℕ → List (List ℕ)
other_sofs payload =
    each (λ sof. set payload 0 sof ∷ [])
      (0x00 ∷ 0x01 ∷ 0x02 ∷ 0x10 ∷ 0x20 ∷ 0x40 ∷ 0x55 ∷ 0x61 ∷ 0x7e ∷ 0x80 ∷ 0xa5 ∷ 0xaa ∷ 0xc0
        ∷ 0xe0 ∷ 0xf0 ∷ 0xff ∷ [])

-- 6: text; 13 is the carriage return.
abbrev pub ascii : List (List ℕ)
ascii =
    (codes "ST" ++ (13 ∷ []))
    ∷ (codes "GO" ++ (13 ∷ []))
    ∷ (codes "SP" ++ (13 ∷ []))
    ∷ (codes "RST" ++ (13 ∷ []))
    ∷ (codes "RESET" ++ (13 ∷ []))
    ∷ (codes "SET" ++ (13 ∷ []))
    ∷ (codes "TIME" ++ (13 ∷ []))
    ∷ (codes "START" ++ (13 ∷ []))
    ∷ (codes "STOP" ++ (13 ∷ []))
    ∷ (codes "?" ++ (13 ∷ []))
    ∷ (codes "AT" ++ (13 ∷ []))
    ∷ (1 ∷ 2 ∷ 3 ∷ 4 ∷ 13 ∷ [])
    ∷ []

unfoldable pub hunt_payloads : Option (List ℕ) → List (List ℕ)
hunt_payloads last =
    let (min, sec) = clock_of last in
    keys
    ++ (complements
        ++ (framed
            ++ (clock_layout min sec
                ++ (other_sofs (unwrap_or last (packet_sof ∷ 0 ∷ 0 ∷ min ∷ sec ∷ 0 ∷ []))
                    ++ ascii))))
