-- ===== src/Tests/Names.antt =====
-- Queries for the names of the device, src/net_services.rs, src/net_proto.rs and src/ap_log.rs.
use scoreboard_ctrl.Base.{
  ℕ, ◌+◌, ◌≡◌, refl, true, some, List, [], ◌∷◌, ◌++◌, replicate, codes, length, drop, done, load,
  store, slice, copy_from_slice, arith,
}
use scoreboard_ctrl.Dns.{build_dns_reply, dns_qtype}
use scoreboard_ctrl.Dns.Names.{End, AllLabels, encode_name}
use scoreboard_ctrl.Dns.Reply.{question, records, count_of, reply_header, build_dns_reply-records}
use scoreboard_ctrl.Mdns.{
  eq_label, hop_fuel, match_label, qname_matches, short_labels, on_mdns, short_name,
}
use scoreboard_ctrl.Mdns.Reply.{mdns_reply}
use scoreboard_ctrl.Mdns.Match.{match_label-hop_fuel, qname_matches-same_names}
use scoreboard_ctrl.Mdns.Answer.{on_mdns-reply_to, reply_to}
use scoreboard_ctrl.Trace.{
  put_label, put_dotted, format_byte, format_from, format_qname, qtype_name,
}

-- `SB.local`
abbrev shouted : List (List ℕ)
shouted = codes "SB" ∷ codes "local" ∷ []

abbrev query : List ℕ
query = 0 ∷ 0 ∷ 0 ∷ 0 ∷ 0 ∷ 1 ∷ 0 ∷ 0 ∷ 0 ∷ 0 ∷ 0 ∷ 0 ∷ (question shouted End.root 0 1 0 1 ++ [])

shouted-labels : AllLabels shouted
shouted-labels = ((omega arith, omega arith), ((omega arith, omega arith), tt))

on_mdns-reply_to_example : on_mdns query 26 ≡ done (reply_to shouted 1)
on_mdns-reply_to_example =
    on_mdns-reply_to 0 0 0 0 0 1 0 0 0 0 0 0 shouted 0 1 0 1 26 [] (omega arith) shouted-labels
      (omega arith)

-- The reply is the one for `sb.local`.
reply_to-shouted : reply_to shouted 1 ≡ some (mdns_reply short_name)
unfolding eq_label
reply_to-shouted = refl

-- A name that points to itself.
abbrev looping : List ℕ
looping = replicate 5 0 ++ (1 ∷ replicate 6 0) ++ (192 ∷ 12 ∷ 0 ∷ 1 ∷ 0 ∷ 1 ∷ [])

match_label-hop_fuel_example :
    match_label (hop_fuel + 20) looping (codes "sb") 12 0
    ≡ match_label hop_fuel looping (codes "sb") 12 0
match_label-hop_fuel_example = match_label-hop_fuel 20 looping (codes "sb") 12 0

qname_matches-same_names_example :
    qname_matches
      (replicate 12 0 ++ (encode_name shouted End.root ++ (0 ∷ 1 ∷ 0 ∷ 1 ∷ [])))
      12
      short_labels
    ≡ done true
unfolding eq_label
qname_matches-same_names_example =
    qname_matches-same_names (replicate 12 0) (0 ∷ 1 ∷ 0 ∷ 1 ∷ []) shouted short_labels
      shouted-labels (omega arith)

build_dns_reply-records_example :
    let head : List ℕ = 9 ∷ 8 ∷ 1 ∷ 0 ∷ 0 ∷ 1 ∷ 0 ∷ 0 ∷ 0 ∷ 0 ∷ 0 ∷ 0 ∷ [] in
    let body = question shouted End.root 0 1 0 1 in
    let packet = head ++ (body ++ []) in
    (build_dns_reply (packet ++ (7 ∷ [])) (length packet) (replicate 512 0)
      ≡ done (
        reply_header 9 8 0 1 (count_of 1)
            ++ (body
                ++ (records 1 ++ drop (12 + length body + length (records 1)) (replicate 512 0))),
        some (12 + length body + length (records 1)),
      ))
    × (dns_qtype (packet ++ (7 ∷ [])) (length packet) ≡ done (some 1))
build_dns_reply-records_example =
    build_dns_reply-records 9 8 1 0 0 1 0 0 0 0 0 0 shouted End.root 0 1 0 1 [] (7 ∷ [])
      (replicate 512 0) shouted-labels tt (omega arith)

qname-shouted : format_qname query (replicate 8 0) ≡ done (codes "SB.local", 8)
unfolding format_qname format_from format_byte put_dotted put_label load store slice copy_from_slice
qname-shouted = refl

qtype_name-any : qtype_name 255 ≡ codes "ANY"
unfolding qtype_name
qtype_name-any = refl
