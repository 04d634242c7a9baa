-- ===== src/Typed/Replies.antt =====
-- The replies of the three services of src/net_services.rs, as rows of `u8`.
use scoreboard_ctrl.Base.{ℕ, ◌≤◌, ◌≡◌, refl, List, length, Run, done, panicked, Total, total}
use scoreboard_ctrl.Decode.Hex.{AllBytes}
use scoreboard_ctrl.Dhcp.Server.{Server, on_packet}
use scoreboard_ctrl.Dns.{on_query}
use scoreboard_ctrl.Mdns.{on_mdns}
use scoreboard_ctrl.Typed.{On, SendsBytes}
use scoreboard_ctrl.Typed.Names.{on_query-SendsBytes, on_mdns-SendsBytes}
use scoreboard_ctrl.Typed.Leases.{IsTypedAnswer, on_packet-IsTypedAnswer}
use scoreboard_ctrl.Dns.Safe.{AtMost, at_most, on_query-AtMost}
use scoreboard_ctrl.Mdns.Safe.{on_mdns-Total}
use scoreboard_ctrl.Dhcp.Server.Safe.{IsValid, IsSafe, safe, on_packet-IsSafe}

-- The code ends without a panic, with a result of which `P` holds.
pub data Ends {ℓ} {A : Type ℓ} (P : A → Type 0) (r : Run A) : Type ℓ where
  ends : (a : A) → r ≡ done a → P a → Ends P r

On-Ends {ℓ} : {A : Type ℓ} (P : A → Type 0) (r : Run A) → Total r → On P r → Ends P r
On-Ends P (done a) t p = ends a refl p
On-Ends P panicked (total a e) p = absurd (cc)

-- A buffer of bytes, of which the first `n` were received for the name services and all for the
-- DHCP server, is handled by each of the three without a panic, in a valid state of the DHCP
-- server whose buffer holds bytes: what is sent are bytes, and that buffer holds bytes again.
pub services-SendsBytes :
    (pkt : List ℕ) (n : ℕ) (s : Server)
    → AllBytes pkt
    → n ≤ length pkt
    → IsValid s
    → AllBytes s.reply
    → Ends SendsBytes (on_query pkt n)
      × Ends SendsBytes (on_mdns pkt n)
      × Ends IsTypedAnswer (on_packet pkt s)
services-SendsBytes pkt n s p h v o = (
  On-Ends SendsBytes (on_query pkt n) (query_total (on_query-AtMost pkt n))
      (on_query-SendsBytes pkt n p),
  On-Ends SendsBytes (on_mdns pkt n) (on_mdns-Total pkt n h) (on_mdns-SendsBytes pkt n),
  On-Ends IsTypedAnswer (on_packet pkt s) (packet_total (on_packet-IsSafe pkt s v))
      (on_packet-IsTypedAnswer pkt s p o),
)
  where
    query_total : AtMost 512 (on_query pkt n) → Total (on_query pkt n)
    query_total (at_most sent e le) = total sent e

    packet_total : IsSafe (on_packet pkt s) → Total (on_packet pkt s)
    packet_total (safe a e w) = total a e
