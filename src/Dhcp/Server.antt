-- ===== src/Dhcp/Server.antt =====
-- `dhcp_task` of src/net_services.rs: the body of its loop for a packet received, `req`, and the loop
-- over a list of them. The socket itself is not modelled; what is sent is the result.
pub mod Safe
pub mod Exchange
pub mod Start
use scoreboard_ctrl.Base.{
  ℕ, Bool, not, Option, none, some, List, [], ◌∷◌, ltb, ◌==◌, if◌then◌else◌, length, replicate,
  take, bytes_eq, Run, done, ◌>>=◌, slice,
}
use scoreboard_ctrl.Dhcp.{
  pool_size, dhcp_discover, dhcp_offer, dhcp_request, dhcp_ack, dhcp_nak, offered_ip, dhcp_msg_type,
  requested_ip,
}
use scoreboard_ctrl.Dhcp.Lease.{Lease, empty, slot_for_mac}
use scoreboard_ctrl.Dhcp.Reply.{write_offer_or_ack}

pub record Server : Type 0 where
  pub leases : List Lease
  pub lease_seq : ℕ
  pub reply : List ℕ

abbrev pub start : Server
start = record { leases = replicate pool_size empty; lease_seq = 0; reply = replicate 400 0 }

-- The state behind a packet, and what is sent, if anything.
abbrev pub Answer : Type 0
Answer = Server × Option (List ℕ)

-- The type of the answer to a request for an address, where `yi` is the client's.
abbrev pub request_type : List ℕ → Option (List ℕ) → ℕ
request_type yi none = dhcp_ack
request_type yi (some want) = if not (bytes_eq want yi) then dhcp_nak else dhcp_ack

-- `match msg`; `none` is the `continue` of other types.
unfoldable pub reply_type : List ℕ → List ℕ → ℕ → Run (Option ℕ)
reply_type req yi msg =
    let for_request : Run (Option ℕ) = (do
      want ← requested_ip req
      done (some (request_type yi want))) in
    if msg == dhcp_discover
    then done (some dhcp_offer)
    else if msg == dhcp_request
    then for_request
    else done none

abbrev pub sent_of : List ℕ → Option ℕ → Run (Option (List ℕ))
sent_of reply none = done none
sent_of reply (some len) = do bytes ← slice reply 0 len; done (some bytes)

-- The reply is written and sent.
unfoldable pub answer : List ℕ → List ℕ → Server → Option ℕ → Run Answer
answer req yi s none = done (s, none)
answer req yi s (some kind) = do
  let yiaddr = if kind == dhcp_nak then replicate 4 0 else yi
  w ← write_offer_or_ack req s.reply yiaddr kind
  sent ← sent_of w.0 w.1
  done (record s { reply = w.0 }, sent)

-- A packet with a message type.
unfoldable pub on_message : List ℕ → ℕ → Server → Run Answer
unfolding reply_type answer
on_message req msg s = do
  mac ← slice req 28 34
  a ← slot_for_mac s.leases s.lease_seq mac
  let yi = offered_ip a.slot
  kind ← reply_type req yi msg
  answer req yi (record s { leases = a.leases; lease_seq = a.seq }) kind

abbrev pub if_message : List ℕ → Server → Option ℕ → Run Answer
if_message req s none = done (s, none)
if_message req s (some msg) = on_message req msg s

-- `Ok((n, _meta))` with `req = &pkt[..n]`.
unfoldable pub on_packet : List ℕ → Server → Run Answer
on_packet req s =
    let typed : Run Answer = (do msg ← dhcp_msg_type req; if_message req s msg) in
    if ltb (length req) 240 then done (s, none) else typed

-- The loop over the packets received.
unfoldable pub serve : List (List ℕ) → Server → Run Server
serve [] s = done s
serve (req ∷ reqs) s = do a ← on_packet req s; serve reqs a.0
