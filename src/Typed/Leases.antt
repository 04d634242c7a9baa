-- ===== src/Typed/Leases.antt =====
-- The replies of `dhcp_task` of src/net_services.rs, as rows of `u8`.
use scoreboard_ctrl.Base.{
  ℕ, ◌+◌, ◌%◌, ◌<◌, Bool, true, false, not, ◌||◌, Option, none, some, List, [], ◌∷◌, ltb, leb, ◌==◌,
  length, replicate, bytes_eq, slice, if◌then◌else◌, arith,
}
use scoreboard_ctrl.Decode.Hex.{AllBytes}
use scoreboard_ctrl.Dhcp.{
  server_ip, dhcp_magic, dhcp_nak, dhcp_ack, offered_ip, dhcp_msg_type, requested_ip,
}
use scoreboard_ctrl.Dhcp.Lease.{slot_for_mac}
use scoreboard_ctrl.Dhcp.Reply.{
  push, push_all, reply_options, lease_options, write_header, write_options, write_offer_or_ack,
}
use scoreboard_ctrl.Dhcp.Server.{
  Server, Answer, sent_of, reply_type, request_type, answer, on_message, if_message, on_packet,
}
use scoreboard_ctrl.Typed.{
  On, On-bind, On-if, store-AllBytes, stores-AllBytes, slice-AllBytes, copy_from_slice-AllBytes,
  fill-AllBytes, IsTyped, SendsBytes, Any, any,
}

abbrev IsPushed : List ℕ × ℕ → Type 0
IsPushed (out, i) = AllBytes out

abbrev AllOptions : List (ℕ × List ℕ) → Type 0
AllOptions [] = Unit
AllOptions ((code, bytes) ∷ os) = (code < 256) × AllBytes bytes × AllOptions os

push_all-IsPushed :
    (out : List ℕ) (i : ℕ) (os : List (ℕ × List ℕ))
    → AllBytes out
    → AllOptions os
    → On IsPushed (push_all out i os)
unfolding push_all push
push_all-IsPushed out i [] p o = p
push_all-IsPushed out i ((code, bytes) ∷ os) p o =
    On-bind IsPushed IsPushed _ _
      (On-if IsPushed (leb (length out) (i + 2 + length bytes)) _ _ p (
        On-bind AllBytes IsPushed _ _ (store-AllBytes out i code p o.0) λ a q.
          On-bind AllBytes IsPushed _ _
            (store-AllBytes a (i + 1) (length bytes % 256) q (omega arith))
            λ b r.
              On-bind AllBytes IsPushed _ _
                (copy_from_slice-AllBytes b (i + 2) (i + 2 + length bytes) bytes r o.1) λ c s. s))
      (λ r q. push_all-IsPushed r.0 r.1 os q o.2)

reply_options-AllOptions : (msg_type : ℕ) → msg_type < 256 → AllOptions (reply_options msg_type)
reply_options-AllOptions msg_type h = go (not (msg_type == dhcp_nak))
  where
    go :
        (b : Bool)
        → AllOptions ((53, msg_type ∷ []) ∷ (54, server_ip) ∷ (if b then lease_options else []))
    go true = omega arith
    go false = omega arith

write_header-AllBytes :
    (req out yiaddr : List ℕ) (msg_type : ℕ)
    → AllBytes req
    → AllBytes out
    → AllBytes yiaddr
    → On AllBytes (write_header req out yiaddr msg_type)
unfolding write_header
write_header-AllBytes req out yiaddr msg_type p o y =
    On-bind AllBytes AllBytes _ _ (fill-AllBytes out 240 0 o (omega arith)) λ o1 q1.
      On-bind AllBytes AllBytes _ _ (stores-AllBytes o1 _ q1 (omega arith)) λ o2 q2.
        On-bind AllBytes AllBytes _ _ (slice-AllBytes req 4 8 p) λ xid x.
          On-bind AllBytes AllBytes _ _ (copy_from_slice-AllBytes o2 4 8 xid q2 x) λ o3 q3.
            On-bind AllBytes AllBytes _ _
              (On-if AllBytes (not (msg_type == dhcp_nak)) _ _
                (copy_from_slice-AllBytes o3 16 20 yiaddr q3 y) q3)
              λ o4 q4.
                On-bind AllBytes AllBytes _ _
                  (copy_from_slice-AllBytes o4 20 24 server_ip q4 (omega arith))
                  λ o5 q5. On-bind AllBytes AllBytes _ _ (slice-AllBytes req 28 44 p) λ chaddr c.
                    On-bind AllBytes AllBytes _ _ (copy_from_slice-AllBytes o5 28 44 chaddr q5 c)
                      λ o6 q6. copy_from_slice-AllBytes o6 236 240 dhcp_magic q6 (omega arith)

write_offer_or_ack-IsTyped :
    (req out yiaddr : List ℕ) (msg_type : ℕ)
    → AllBytes req
    → AllBytes out
    → AllBytes yiaddr
    → msg_type < 256
    → On IsTyped (write_offer_or_ack req out yiaddr msg_type)
unfolding write_offer_or_ack write_options
write_offer_or_ack-IsTyped req out yiaddr msg_type p o y k =
    On-if IsTyped (ltb (length req) 240 || ltb (length out) 360) _ _ o (
      On-bind AllBytes IsTyped _ _ (write_header-AllBytes req out yiaddr msg_type p o y) λ header h.
        On-bind IsPushed IsTyped _ _
          (push_all-IsPushed header 240 (reply_options msg_type) h
            (reply_options-AllOptions msg_type k))
          λ r q.
            On-bind AllBytes IsTyped _ _ (store-AllBytes r.0 r.1 255 q (omega arith)) λ whole w. w)

abbrev pub IsTypedAnswer : Answer → Type 0
IsTypedAnswer (s, sent) = AllBytes s.reply × SendsBytes sent

sent_of-SendsBytes :
    (reply : List ℕ) (len : Option ℕ) → AllBytes reply → On SendsBytes (sent_of reply len)
sent_of-SendsBytes reply none p = tt
sent_of-SendsBytes reply (some len) p =
    On-bind AllBytes SendsBytes (slice reply 0 len) _ (slice-AllBytes reply 0 len p) λ b q. q

-- A message type that fits a byte, if there is one.
abbrev IsKind : Option ℕ → Type 0
IsKind none = Unit
IsKind (some kind) = kind < 256

request_type-lt : (yi : List ℕ) (want : Option (List ℕ)) → request_type yi want < 256
request_type-lt yi none = omega arith
request_type-lt yi (some want) = go (not (bytes_eq want yi))
  where
    go : (b : Bool) → (if b then dhcp_nak else dhcp_ack) < 256
    go true = omega arith
    go false = omega arith

reply_type-IsKind : (req yi : List ℕ) (msg : ℕ) → On IsKind (reply_type req yi msg)
unfolding reply_type
reply_type-IsKind req yi msg = On-if IsKind (msg == 1) _ _ (omega arith) (
    On-if IsKind (msg == 3) _ _
      (On-bind Any IsKind (requested_ip req) _ (any (requested_ip req))
        λ want _. request_type-lt yi want)
      tt)

answer-IsTypedAnswer :
    (req yi : List ℕ) (s : Server) (kind : Option ℕ)
    → AllBytes req
    → AllBytes yi
    → AllBytes s.reply
    → IsKind kind
    → On IsTypedAnswer (answer req yi s kind)
unfolding answer
answer-IsTypedAnswer req yi s none p y o k = (o, tt)
answer-IsTypedAnswer req yi s (some kind) p y o k =
    On-bind IsTyped IsTypedAnswer _ _
      (write_offer_or_ack-IsTyped req s.reply (if kind == dhcp_nak then replicate 4 0 else yi) kind
        p o (granted (kind == dhcp_nak)) k)
      λ w t.
        On-bind SendsBytes IsTypedAnswer (sent_of w.0 w.1) _ (sent_of-SendsBytes w.0 w.1 t)
          λ sent q. (t, q)
  where
    granted : (b : Bool) → AllBytes (if b then replicate 4 0 else yi)
    granted true = omega arith
    granted false = y

on_message-IsTypedAnswer :
    (req : List ℕ) (msg : ℕ) (s : Server)
    → AllBytes req
    → AllBytes s.reply
    → On IsTypedAnswer (on_message req msg s)
unfolding on_message
on_message-IsTypedAnswer req msg s p o =
    On-bind Any IsTypedAnswer (slice req 28 34) _ (any (slice req 28 34)) λ mac _.
      On-bind Any IsTypedAnswer (slot_for_mac s.leases s.lease_seq mac) _
        (any (slot_for_mac s.leases s.lease_seq mac))
        λ a _.
          On-bind IsKind IsTypedAnswer (reply_type req (offered_ip a.slot) msg) _
            (reply_type-IsKind req (offered_ip a.slot) msg)
            λ kind k.
              answer-IsTypedAnswer req (offered_ip a.slot)
                (record s { leases = a.leases; lease_seq = a.seq }) kind p (omega arith) o k

pub on_packet-IsTypedAnswer :
    (req : List ℕ) (s : Server)
    → AllBytes req
    → AllBytes s.reply
    → On IsTypedAnswer (on_packet req s)
unfolding on_packet
on_packet-IsTypedAnswer req s p o =
    On-if IsTypedAnswer (ltb (length req) 240) _ _ (o, tt)
      (On-bind Any IsTypedAnswer (dhcp_msg_type req) _ (any (dhcp_msg_type req)) λ msg _. typed msg)
  where
    typed : (msg : Option ℕ) → On IsTypedAnswer (if_message req s msg)
    typed none = (o, tt)
    typed (some msg) = on_message-IsTypedAnswer req msg s p o
