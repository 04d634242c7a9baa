-- ===== src/Mdns/Safe.antt =====
-- `mdns_task` of src/net_services.rs on any packet: panics.
use scoreboard_ctrl.Base.{
  ℕ, zero, suc, ◌+◌, ◌/◌, ◌%◌, ◌≤◌, min, ◌≡◌, refl, Bool, true, false, not, ◌&&◌, ◌||◌, Option,
  some, none, List, [], ◌∷◌, length, length-append, replicate, drop, get_or, ltb, leb, ◌==◌,
  if◌then◌else◌, Run, done, ◌>>=◌, load_lem, slice_lem, slice-append, Total, total, Total-done,
  Total-bind, Total-if, arith,
}
use scoreboard_ctrl.Dns.{skip_name, load_u16}
use scoreboard_ctrl.Dns.Safe.{skip_name-Total, load_u16-Total}
use scoreboard_ctrl.Mdns.{
  match_byte, match_label, hop_fuel, go_on, ends_at, match_labels, qname_matches, long_labels,
  short_labels, mdns_name_is_ours, write_mdns_a, long_name, short_name, reply_sent, answer_query,
  answer_name, on_mdns,
}
use scoreboard_ctrl.Mdns.Reply.{a_record, mdns_reply, write_mdns_a-mdns_reply}

match_label-Total : (fuel : ℕ) (q lab : List ℕ) (i hops : ℕ) → Total (match_label fuel q lab i hops)
unfolding match_label match_byte
match_label-Total zero q lab i hops = Total-done none
match_label-Total (suc fuel) q lab i hops =
    Total-if (ltb 8 (min (hops + 1) 255) || leb (length q) i) _ _ (λ _. Total-done none)
      λ h. rw (load_lem q i (ground arith)) (
        Total-if (get_or q i 0 / 64 == 3) _ _
          (λ _.
            Total-if (leb (length q) (i + 1)) _ _ (λ _. Total-done none)
              (λ k. rw (load_lem q (i + 1) (ground arith)) (match_label-Total fuel q lab _ _)))
          (λ _.
            Total-if
              (get_or q i 0 == 0
                || not (get_or q i 0 == length lab)
                || ltb (length q) (i + 1 + get_or q i 0))
              _ _ (λ _. Total-done none)
              (λ k.
                rw (slice_lem q (i + 1) (i + 1 + get_or q i 0) (omega arith) (ground arith))
                  (Total-done _))))

ends_at-Total : (q : List ℕ) (i : ℕ) → Total (ends_at q i)
unfolding ends_at
ends_at-Total q i =
    Total-if (ltb i (length q)) _ _ (λ h. rw (load_lem q i (ground arith)) (Total-done _))
      (λ _. Total-done _)

go_on-Total :
    (next : ℕ → ℕ → Run Bool) (r : Option (ℕ × ℕ))
    → ((j h : ℕ) → Total (next j h))
    → Total (go_on next r)
go_on-Total next none t = Total-done false
go_on-Total next (some (j, h)) t = t j h

match_labels-Total :
    (labels : List (List ℕ)) (q : List ℕ) (i hops : ℕ) → Total (match_labels q labels i hops)
unfolding match_labels
match_labels-Total [] q i hops = ends_at-Total q i
match_labels-Total (m ∷ ms) q i hops =
    Total-bind (match_label hop_fuel q m i hops) _ (match_label-Total hop_fuel q m i hops)
      (λ r _. go_on-Total (λ j h. match_labels q ms j h) r (λ j h. match_labels-Total ms q j h))

-- No packet, however its pointers lead, makes the matching of a name panic.
pub qname_matches-Total :
    (q : List ℕ) (i : ℕ) (labels : List (List ℕ)) → Total (qname_matches q i labels)
unfolding qname_matches
qname_matches-Total q i labels = match_labels-Total labels q i 0

mdns_name_is_ours-Total : (q : List ℕ) → Total (mdns_name_is_ours q)
unfolding mdns_name_is_ours
mdns_name_is_ours-Total q =
    Total-bind (qname_matches q 12 long_labels) _ (qname_matches-Total q 12 long_labels) (λ long _.
      Total-if long _ _ (λ _. Total-done true) (λ _. qname_matches-Total q 12 short_labels))

-- A name that fits the buffer of 64 bytes is answered by the reply with it.
pub reply_sent-mdns_reply :
    (name : List ℕ)
    → 28 + length name ≤ 64
    → (write_mdns_a (replicate 64 0) name >>= reply_sent) ≡ done (some (mdns_reply name))
reply_sent-mdns_reply name h = rw (write_mdns_a-mdns_reply (replicate 64 0) name (omega arith)) (
    rw (
      slice-append [] (mdns_reply name) (drop (26 + length name) (replicate 64 0)) 0
        (26 + length name) refl (omega (arith, length-append name a_record))))

answer_query-Total : (pkt : List ℕ) (qtype : ℕ) → Total (answer_query pkt qtype)
unfolding answer_query
answer_query-Total pkt qtype =
    Total-if (not (qtype == 1) && not (qtype == 255)) _ _ (λ _. Total-done none)
      (λ _.
        Total-bind (qname_matches pkt 12 short_labels) _ (qname_matches-Total pkt 12 short_labels)
          (λ short _. go short))
  where
    go :
        (short : Bool)
        → Total
            (write_mdns_a (replicate 64 0) (if short then short_name else long_name) >>= reply_sent)
    go true = total _ (reply_sent-mdns_reply short_name (omega arith))
    go false = total _ (reply_sent-mdns_reply long_name (omega arith))

answer_name-Total :
    (pkt : List ℕ) (n : ℕ) (name_end : Option ℕ)
    → n ≤ length pkt
    → Total (answer_name pkt n name_end)
unfolding answer_name
answer_name-Total pkt n none h = Total-done none
answer_name-Total pkt n (some e) h =
    Total-if (ltb n (e + 4)) _ _ (λ _. Total-done none)
      (λ k. Total-bind (mdns_name_is_ours pkt) _ (mdns_name_is_ours-Total pkt) (λ ours _.
        Total-if (not ours) _ _ (λ _. Total-done none)
          (λ _.
            Total-bind (load_u16 pkt e) _ (load_u16-Total pkt e (ground arith))
              (λ qtype _. answer_query-Total pkt qtype))))

-- No packet makes `mdns_task` panic.
pub on_mdns-Total : (pkt : List ℕ) (n : ℕ) → n ≤ length pkt → Total (on_mdns pkt n)
unfolding on_mdns
on_mdns-Total pkt n h =
    Total-if (ltb n 12) _ _ (λ _. Total-done none)
      (λ k. rw (load_lem pkt 2 (ground arith)) (
        Total-if (not (get_or pkt 2 0 / 128 % 2 == 0)) _ _ (λ _. Total-done none)
          (λ _.
            Total-bind (skip_name pkt 12) _ (skip_name-Total pkt 12)
              (λ e _. answer_name-Total pkt n e h))))
