-- ===== src/Tests/Packets.antt =====
-- The packets of src/net_proto.rs and `dhcp_task` of src/net_services.rs, with the packets that the tests
-- of the code build.
use scoreboard_ctrl.Base.{
  ℕ, ◌+◌, ◌≡◌, refl, ap, ◌∙◌, some, List, [], ◌∷◌, ◌++◌, max, length, get_or, replicate, take, drop,
  bytes_eq, if◌then◌else◌, done, load, slice, arith,
}
use scoreboard_ctrl.Dhcp.{
  dhcp_magic, dhcp_discover, dhcp_offer, dhcp_request, dhcp_ack, dhcp_nak, offered_ip, find_option,
  dhcp_msg_type, requested_ip,
}
use scoreboard_ctrl.Dhcp.Options.{Opt, opt, pad, encode, lookup_opt}
use scoreboard_ctrl.Dhcp.Lease.Slots.{lease_at}
use scoreboard_ctrl.Dhcp.Lease.Clients.{Grant_lem, granted_mine}
use scoreboard_ctrl.Dhcp.Lease.{Assigned, slot_for_mac}
use scoreboard_ctrl.Dhcp.Reply.{reply_options, write_offer_or_ack}
use scoreboard_ctrl.Dhcp.Reply.Options.{to_opts}
use scoreboard_ctrl.Dhcp.Reply.Header.{granted_ip}
use scoreboard_ctrl.Dhcp.Reply.Built.{reply_bytes, write_offer_or_ack-reply_bytes}
use scoreboard_ctrl.Dhcp.Reply.Read.{reply_read}
use scoreboard_ctrl.Dhcp.Server.{Server, start, on_packet, serve}
use scoreboard_ctrl.Dhcp.Server.Safe.{IsValid, start-IsValid, serve-IsValid}
use scoreboard_ctrl.Dhcp.Server.Exchange.{
  mac_of, yiaddr_of, Sent, discover-Sent, request_after_offer,
}

-- `dhcp_min` of the tests: a request from 01:02:03:04:05:06.
abbrev head : List ℕ
head = 1 ∷ 1 ∷ 6 ∷ replicate 25 0 ++ (1 ∷ 2 ∷ 3 ∷ 4 ∷ 5 ∷ 6 ∷ replicate 202 0)

abbrev packet : List Opt → List ℕ
packet os = head ++ (dhcp_magic ++ (encode os ++ (255 ∷ [])))

abbrev discover : List ℕ
discover = packet (opt 53 (1 ∷ []) ∷ [])

abbrev request_options : List Opt
request_options = opt 53 (3 ∷ []) ∷ pad ∷ opt 50 (192 ∷ 168 ∷ 0 ∷ 10 ∷ []) ∷ []

abbrev request : List ℕ
request = packet request_options

discover_type : dhcp_msg_type discover ≡ done (some dhcp_discover)
unfolding dhcp_msg_type load slice
discover_type = refl

request_type_read : dhcp_msg_type request ≡ done (some dhcp_request)
unfolding dhcp_msg_type load slice
request_type_read = refl

request_asks : requested_ip request ≡ done (some (192 ∷ 168 ∷ 0 ∷ 10 ∷ []))
unfolding requested_ip load slice
request_asks = refl

write_offer_or_ack-reply_bytes_example :
    write_offer_or_ack discover (replicate 400 9) (offered_ip 0) dhcp_offer
    ≡ done (
      reply_bytes discover (replicate 400 9) (offered_ip 0) dhcp_offer,
      some (max (241 + length (encode (to_opts (reply_options dhcp_offer)))) 300),
    )
write_offer_or_ack-reply_bytes_example =
    write_offer_or_ack-reply_bytes discover (replicate 400 9) (offered_ip 0) dhcp_offer
      (omega arith) (omega arith) refl

reply_read_example :
    (buf : List ℕ) × (n : ℕ) × (write_offer_or_ack request (replicate 400 9) (offered_ip 3) dhcp_ack
      ≡ done (buf, some n))
    × (find_option (take n buf) 51 ≡ done (lookup_opt 51 (to_opts (reply_options dhcp_ack))))
    × (dhcp_msg_type (take n buf) ≡ done (some dhcp_ack))
    × (take 4 (drop 16 (take n buf)) ≡ granted_ip (offered_ip 3) dhcp_ack)
reply_read_example =
    reply_read request (replicate 400 9) (offered_ip 3) dhcp_ack 51 (omega arith) (omega arith) refl

serve-IsValid_example :
    (s' : Server) × (serve (discover ∷ replicate 300 255 ∷ request ∷ []) start ≡ done s')
    × IsValid s'
serve-IsValid_example =
    serve-IsValid (discover ∷ replicate 300 255 ∷ request ∷ []) start start-IsValid

abbrev offered :
    (a : Assigned) × (slot_for_mac start.leases start.lease_seq (mac_of discover) ≡ done a)
    × Sent (on_packet discover start) dhcp_offer (offered_ip a.slot) a
offered = discover-Sent discover start (omega arith) start-IsValid discover_type

-- A packet without a message type comes between.
abbrev noise : List ℕ
noise = replicate 300 255

noise_served : (s : Server) → serve (noise ∷ []) s ≡ done s
unfolding serve on_packet dhcp_msg_type load slice
noise_served s = refl

offered_stands : (lease_at offered.2.state.leases offered.0.slot).mac ≡ mac_of discover
offered_stands =
    ap (λ ls. (lease_at ls offered.0.slot).mac) offered.2.leases
    ∙ granted_mine (
        Grant_lem start.leases start.lease_seq (mac_of discover) (omega arith) (omega arith)
          offered.1)

request_after_offer_example :
    let o = offered.2 in
    let same = bytes_eq (192 ∷ 168 ∷ 0 ∷ 10 ∷ []) (yiaddr_of o.sent) in
    (b : Assigned) × Sent
      (on_packet request o.state)
      (if same then dhcp_ack else dhcp_nak)
      (if same then yiaddr_of o.sent else replicate 4 0)
      b
request_after_offer_example =
    request_after_offer discover request (192 ∷ 168 ∷ 0 ∷ 10 ∷ []) (noise ∷ []) start
      offered.2.state (omega arith) start-IsValid offered.2 offered.1 (noise_served offered.2.state)
      offered_stands (λ e. omega (arith, ap (λ l. get_or l 0 0) e)) refl request_type_read
      request_asks
