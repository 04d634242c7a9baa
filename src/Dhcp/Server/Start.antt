-- ===== src/Dhcp/Server/Start.antt =====
-- The start of `dhcp_task` of src/net_services.rs, and its lines of the log.
use scoreboard_ctrl.Base.{
  ℕ, ◌+◌, ◌-◌, ◌/◌, ◌%◌, List, [], ◌∷◌, ◌++◌, ◌==◌, ltb, if◌then◌else◌, codes,
}
use scoreboard_ctrl.Dhcp.{dhcp_offer, dhcp_nak}
use scoreboard_ctrl.Dns.Task.{dotted}
use scoreboard_ctrl.Udp.{Event, bind_retry}

-- Before the loop, over the errors of the calls of `bind`.
unfoldable pub dhcp_start : (E : Type 0) → List (List ℕ) → List (Event E)
dhcp_start E errors = bind_retry E 67 (codes "DHCP") errors

unfoldable pub kind_name : ℕ → List ℕ
kind_name reply_type =
    if reply_type == dhcp_offer
    then codes "OFFER"
    else if reply_type == dhcp_nak
    then codes "NAK"
    else codes "ACK"

-- `{:02x}`
abbrev hex_digit : ℕ → ℕ
hex_digit d = if ltb d 10 then b'0' + d else b'a' + (d - 10)

abbrev hex_bytes : List ℕ → List ℕ
hex_bytes [] = []
hex_bytes (b ∷ bytes) = hex_digit (b / 16) ∷ (hex_digit (b % 16) ∷ hex_bytes bytes)

-- The line for a reply that was sent.
unfoldable pub dhcp_line : ℕ → List ℕ → List ℕ → List ℕ
unfolding kind_name
dhcp_line reply_type mac yiaddr =
    codes "DHCP "
    ++ (kind_name reply_type
        ++ (codes " mac=" ++ (hex_bytes mac ++ (codes " -> " ++ dotted yiaddr))))
