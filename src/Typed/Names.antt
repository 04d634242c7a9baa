-- ===== src/Typed/Names.antt =====
-- The replies of `dns_task` and `mdns_task` of src/net_services.rs, as rows of `u8`.
use scoreboard_ctrl.Base.{
  ℕ, ◌+◌, ◌/◌, ◌%◌, refl, Bool, true, false, not, ◌&&◌, ◌||◌, Option, none, some, List, ltb, leb,
  ◌==◌, length, replicate, ◌>>=◌, load, if◌then◌else◌, arith,
}
use scoreboard_ctrl.Decode.Hex.{AllBytes}
use scoreboard_ctrl.Dhcp.{server_ip}
use scoreboard_ctrl.Dns.{
  skip_name, load_u16, write_a, write_no_data, write_reply, reply_behind, build_dns_reply,
  sent_reply, on_query,
}
use scoreboard_ctrl.Mdns.{
  write_mdns_a, long_name, short_name, short_labels, qname_matches, mdns_name_is_ours, reply_sent,
  answer_query, answer_name, on_mdns,
}
use scoreboard_ctrl.Typed.{
  On, On-bind, On-if, store-AllBytes, stores-AllBytes, slice-AllBytes, copy_from_slice-AllBytes,
  fill-AllBytes, AllBytes-replicate, IsTyped, SendsBytes, Any, any, sent-SendsBytes,
}

write_a-IsTyped : (out : List ℕ) (len : ℕ) → AllBytes out → On IsTyped (write_a out len)
unfolding write_a
write_a-IsTyped out len p =
    On-bind AllBytes IsTyped _ _ (stores-AllBytes out _ p (omega arith)) λ a q.
      On-bind AllBytes IsTyped _ _
        (copy_from_slice-AllBytes a (len + 12) (len + 16) server_ip q (omega arith)) λ b r. r

write_no_data-IsTyped : (out : List ℕ) (len : ℕ) → AllBytes out → On IsTyped (write_no_data out len)
unfolding write_no_data
write_no_data-IsTyped out len p =
    On-bind AllBytes IsTyped _ _ (store-AllBytes out 7 0 p (omega arith)) λ a q. q

write_reply-IsTyped :
    (q out : List ℕ) (qtype qend : ℕ)
    → AllBytes q
    → AllBytes out
    → On IsTyped (write_reply q out qtype qend)
unfolding write_reply
write_reply-IsTyped q out qtype qend p o =
    On-bind AllBytes IsTyped _ _ (slice-AllBytes q 0 qend p) λ question t.
      On-bind AllBytes IsTyped _ _ (copy_from_slice-AllBytes out 0 qend question o t) λ a u.
        On-bind AllBytes IsTyped _ _ (stores-AllBytes a _ u (omega arith)) λ b v.
          On-if IsTyped (qtype == 1 && leb (qend + 16) (length b)) _ _ (write_a-IsTyped b qend v)
            (write_no_data-IsTyped b qend v)

reply_behind-IsTyped :
    (q : List ℕ) (n : ℕ) (out : List ℕ) (name_end : Option ℕ)
    → AllBytes q
    → AllBytes out
    → On IsTyped (reply_behind q n out name_end)
unfolding reply_behind
reply_behind-IsTyped q n out none p o = o
reply_behind-IsTyped q n out (some name_end) p o = On-if IsTyped (ltb n (name_end + 4)) _ _ o (
    On-bind Any IsTyped (load_u16 q name_end) _ (any (load_u16 q name_end)) λ qtype _.
      On-if IsTyped (ltb (length out) (name_end + 4)) _ _ o
        (write_reply-IsTyped q out qtype (name_end + 4) p o))

pub on_query-SendsBytes : (pkt : List ℕ) (n : ℕ) → AllBytes pkt → On SendsBytes (on_query pkt n)
unfolding on_query build_dns_reply sent_reply
on_query-SendsBytes pkt n p =
    let zeros = AllBytes-replicate 512 0 (omega arith) in
    sent-SendsBytes sent_reply (λ out. refl) (λ out len. refl)
      (build_dns_reply pkt n (replicate 512 0))
      (On-if IsTyped (ltb n 12 || ltb (length pkt) n) _ _ zeros (
        On-bind AllBytes IsTyped _ _ (slice-AllBytes pkt 0 n p) λ q t.
          On-bind Any IsTyped (skip_name q 12) _ (any (skip_name q 12))
            λ e _. reply_behind-IsTyped q n (replicate 512 0) e t zeros))

write_mdns_a-IsTyped :
    (out name : List ℕ) → AllBytes out → AllBytes name → On IsTyped (write_mdns_a out name)
unfolding write_mdns_a
write_mdns_a-IsTyped out name o m =
    let i = 12 + length name in
    On-if IsTyped (ltb (length out) (12 + length name + 16)) _ _ o (
      On-bind AllBytes IsTyped _ _ (fill-AllBytes out 12 0 o (omega arith)) λ a p.
        On-bind AllBytes IsTyped _ _ (stores-AllBytes a _ p (omega arith)) λ b q.
          On-bind AllBytes IsTyped _ _ (copy_from_slice-AllBytes b 12 i name q m) λ c r.
            On-bind AllBytes IsTyped _ _ (stores-AllBytes c _ r (omega arith)) λ d s.
              On-bind AllBytes IsTyped _ _
                (copy_from_slice-AllBytes d (i + 10) (i + 14) server_ip s (omega arith)) λ e t. t)

reply_named :
    (short : Bool)
    → On SendsBytes
        (write_mdns_a (replicate 64 0) (if short then short_name else long_name) >>= reply_sent)
reply_named short =
    sent-SendsBytes reply_sent (λ out. refl) (λ out len. refl)
      (write_mdns_a (replicate 64 0) (if short then short_name else long_name))
      (write_mdns_a-IsTyped (replicate 64 0) (if short then short_name else long_name)
        (AllBytes-replicate 64 0 (omega arith)) (name short))
  where
    name : (short : Bool) → AllBytes (if short then short_name else long_name)
    name true = omega arith
    name false = omega arith

answer_query-SendsBytes : (pkt : List ℕ) (qtype : ℕ) → On SendsBytes (answer_query pkt qtype)
unfolding answer_query
answer_query-SendsBytes pkt qtype =
    On-if SendsBytes (not (qtype == 1) && not (qtype == 255)) _ _ tt (
      On-bind Any SendsBytes (qname_matches pkt 12 short_labels) _
        (any (qname_matches pkt 12 short_labels)) λ short _. reply_named short)

answer_name-SendsBytes : (pkt : List ℕ) (n : ℕ) (e : Option ℕ) → On SendsBytes (answer_name pkt n e)
unfolding answer_name
answer_name-SendsBytes pkt n none = tt
answer_name-SendsBytes pkt n (some e) = On-if SendsBytes (ltb n (e + 4)) _ _ tt (
    On-bind Any SendsBytes (mdns_name_is_ours pkt) _ (any (mdns_name_is_ours pkt)) λ ours _.
      On-if SendsBytes (not ours) _ _ tt (
        On-bind Any SendsBytes (load_u16 pkt e) _ (any (load_u16 pkt e))
          λ qtype _. answer_query-SendsBytes pkt qtype))

pub on_mdns-SendsBytes : (pkt : List ℕ) (n : ℕ) → On SendsBytes (on_mdns pkt n)
unfolding on_mdns
on_mdns-SendsBytes pkt n = On-if SendsBytes (ltb n 12) _ _ tt (
    On-bind Any SendsBytes (load pkt 2) _ (any (load pkt 2)) λ flags _.
      On-if SendsBytes (not (flags / 128 % 2 == 0)) _ _ tt (
        On-bind Any SendsBytes (skip_name pkt 12) _ (any (skip_name pkt 12))
          λ e _. answer_name-SendsBytes pkt n e))
