-- ===== src/Dhcp/Server/Exchange.antt =====
-- The exchange between a client and `dhcp_task` of src/net_services.rs: an offer, and then the
-- acknowledgement or the refusal of what the client asks for.
use scoreboard_ctrl.Base.{
  ℕ, ◌≤◌, ◌≡◌, ◌≢◌, refl, sym, ap, ◌∙◌, Bool-cases, inl, inr, some, List, le→ltb, ◌==◌,
  if◌then◌else◌, length, length-set, replicate, take, drop, bytes_eq, Run, done, slice_lem, arith,
}
use scoreboard_ctrl.Dhcp.{
  dhcp_discover, dhcp_offer, dhcp_request, dhcp_ack, dhcp_nak, offered_ip, dhcp_msg_type,
  requested_ip,
}
use scoreboard_ctrl.Dhcp.Lease.{no_mac, Assigned, slot_for_mac}
use scoreboard_ctrl.Dhcp.Lease.Slots.{lease_at, Grant, slot_for_mac-Grant}
use scoreboard_ctrl.Dhcp.Lease.Clients.{
  done-injective, Grant_lem, Grant-IsDistinct, slot_for_mac_kept,
}
use scoreboard_ctrl.Dhcp.Reply.Header.{granted_ip}
use scoreboard_ctrl.Dhcp.Reply.Built.{reply_bytes}
use scoreboard_ctrl.Dhcp.Reply.Read.{reply_length, reply_bytes_read}
use scoreboard_ctrl.Dhcp.Server.{Server, Answer, reply_type, answer, on_message, on_packet, serve}
use scoreboard_ctrl.Dhcp.Server.Safe.{IsValid, serve-IsValid, answer-reply_bytes}

abbrev pub mac_of : List ℕ → List ℕ
mac_of req = take 6 (drop 28 req)

abbrev pub yiaddr_of : List ℕ → List ℕ
yiaddr_of packet = take 4 (drop 16 packet)

-- A reply of the kind was sent that grants the address, and the state behind it is valid, with the
-- leases given.
pub record Sent (r : Run Answer) (kind : ℕ) (yi : List ℕ) (a : Assigned) : Type 0 where
  pub state : Server
  pub sent : List ℕ
  pub result : r ≡ done (state, some sent)
  pub kind_read : dhcp_msg_type sent ≡ done (some kind)
  pub address : yiaddr_of sent ≡ yi
  pub leases : state.leases ≡ a.leases
  pub lease_seq : state.lease_seq ≡ a.seq
  pub valid : IsValid state

answer-Sent :
    (req : List ℕ) (s : Server) (msg kind : ℕ) {a : Assigned}
    → 240 ≤ length req
    → IsValid s
    → dhcp_msg_type req ≡ done (some msg)
    → slot_for_mac s.leases s.lease_seq (mac_of req) ≡ done a
    → reply_type req (offered_ip a.slot) msg ≡ done (some kind)
    → Sent (on_packet req s) kind (if kind == dhcp_nak then replicate 4 0 else offered_ip a.slot) a
unfolding on_packet on_message
answer-Sent req s msg kind {a} r v typed assigned due = record {
  state = record mid { reply = reply_bytes req s.reply yi kind };
  sent = take (reply_length kind) (reply_bytes req s.reply yi kind);
  result =
      rw
        (
          le→ltb (length req) 240 r,
          typed,
          slice_lem req 28 34 (omega arith) (omega arith),
          assigned,
          due,
        )
        sends.0;
  kind_read = (reply_bytes_read req s.reply yi kind 0 r yi-length).1;
  address = (reply_bytes_read req s.reply yi kind 0 r yi-length).2 ∙ granted;
  leases = refl;
  lease_seq = refl;
  valid = sends.1;
}
  where
    g : Grant s.leases s.lease_seq (mac_of req) a
    g =
        Grant_lem s.leases s.lease_seq (mac_of req) (omega (arith, v.pool)) (omega (arith, v.pool))
          assigned

    mid : Server
    mid = record s { leases = a.leases; lease_seq = a.seq }

    mid-IsValid : IsValid mid
    mid-IsValid = record {
      pool = ap length g.leases ∙ length-set s.leases a.slot _ ∙ v.pool;
      buffer = v.buffer;
      distinct = Grant-IsDistinct g v.distinct;
    }

    yi : List ℕ
    yi = if kind == dhcp_nak then replicate 4 0 else offered_ip a.slot

    sends :
        let whole = reply_bytes req s.reply yi kind in
        (answer req (offered_ip a.slot) mid (some kind)
          ≡ done (record mid { reply = whole }, some (take (reply_length kind) whole)))
        × IsValid (record mid { reply = whole })
    sends = answer-reply_bytes req (offered_ip a.slot) mid kind r refl mid-IsValid

    yi-length : length yi ≡ 4
    yi-length = ground arith

    granted : granted_ip yi kind ≡ yi
    granted = ground arith

-- A client that asks for an address without having been offered one before is offered one, and it is the
-- address of the slot that the pool gives to it.
pub discover-Sent :
    (d : List ℕ) (s : Server)
    → 240 ≤ length d
    → IsValid s
    → dhcp_msg_type d ≡ done (some dhcp_discover)
    → (a : Assigned) × (slot_for_mac s.leases s.lease_seq (mac_of d) ≡ done a)
      × Sent (on_packet d s) dhcp_offer (offered_ip a.slot) a
unfolding reply_type
discover-Sent d s r v typed =
    let (a, e, g) =
      slot_for_mac-Grant s.leases s.lease_seq (mac_of d) (omega (arith, v.pool))
        (omega (arith, v.pool)) in
    (a, e, answer-Sent d s dhcp_discover dhcp_offer r v typed e refl)

served-IsValid :
    (reqs : List (List ℕ)) (s t : Server) → IsValid s → serve reqs s ≡ done t → IsValid t
served-IsValid reqs s t v e =
    let (s', e', v') = serve-IsValid reqs s v in
    let same = done-injective (sym e' ∙ e) in rw same at v'

-- A client was offered an address, other packets were received since, from whomever, and now it asks for an
-- address. If the lease that it got with the offer still stands, it is acknowledged the address if it is
-- the one offered, and refused if it is another. Its hardware address is not 00:00:00:00:00:00.
pub request_after_offer :
    (d q : List ℕ) (want : List ℕ) (between : List (List ℕ)) (s t : Server) {a : Assigned}
    → 240 ≤ length q
    → IsValid s
    → (o : Sent (on_packet d s) dhcp_offer (offered_ip a.slot) a)
    → slot_for_mac s.leases s.lease_seq (mac_of d) ≡ done a
    → serve between o.state ≡ done t
    → (lease_at t.leases a.slot).mac ≡ mac_of d
    → mac_of d ≢ no_mac
    → mac_of q ≡ mac_of d
    → dhcp_msg_type q ≡ done (some dhcp_request)
    → requested_ip q ≡ done (some want)
    → let same = bytes_eq want (yiaddr_of o.sent) in
      (b : Assigned) × Sent
        (on_packet q t)
        (if same then dhcp_ack else dhcp_nak)
        (if same then yiaddr_of o.sent else replicate 4 0)
        b
unfolding reply_type
request_after_offer d q want between s t {a} r v o assigned served stands named mac typed asked =
    let v' : IsValid t = served-IsValid between o.state t o.valid served in
    let g =
      Grant_lem s.leases s.lease_seq (mac_of d) (omega (arith, v.pool)) (omega (arith, v.pool))
        assigned in
    let (b, e, slot) =
      slot_for_mac_kept t.leases t.lease_seq (mac_of d) a.slot (omega (arith, v'.pool))
        (omega (arith, v'.pool)) v'.distinct (omega (arith, v.pool, v'.pool, g.in_range)) stands
        named in
    let kept : slot_for_mac t.leases t.lease_seq (mac_of q) ≡ done b = rw mac e in
    let mine : offered_ip b.slot ≡ yiaddr_of o.sent = ap offered_ip slot ∙ sym o.address in
    (
      b,
      elim (Bool-cases (bytes_eq want (yiaddr_of o.sent))) [
        | inl same ↦
            let due : reply_type q (offered_ip b.slot) dhcp_request ≡ done (some dhcp_ack) =
              rw (asked, mine, same) in
            rw same (rw mine at (answer-Sent q t dhcp_request dhcp_ack r v' typed kept due))
        | inr other ↦
            let due : reply_type q (offered_ip b.slot) dhcp_request ≡ done (some dhcp_nak) =
              rw (asked, mine, other) in
            rw other (answer-Sent q t dhcp_request dhcp_nak r v' typed kept due)
      ],
    )
