-- ===== src/Mdns.antt =====
-- The mDNS responder: `eq_label`, `qname_matches`, `mdns_name_is_ours`, `write_mdns_a` and the body of
-- the loop of `mdns_task` of src/net_services.rs. As in Dns, `len / 64 == 3` is `len & 0xC0 == 0xC0`
-- on a byte, and `len % 64` is `len & 0x3F`.
pub mod Reply
pub mod Match
pub mod Safe
pub mod Answer
pub mod Task
use scoreboard_ctrl.Base.{
  ℕ, zero, suc, ◌+◌, ◌*◌, ◌/◌, ◌%◌, min, Bool, true, false, not, ◌&&◌, ◌||◌, Option, none, some,
  List, [], ◌∷◌, ◌++◌, ltb, leb, ◌==◌, if◌then◌else◌, length, replicate, codes, all_same, Run, done,
  ◌>>=◌, load, stores, slice, copy_from_slice, fill,
}
use scoreboard_ctrl.Dhcp.{server_ip}
use scoreboard_ctrl.Dns.{skip_name, load_u16}

unfoldable pub eq_label : List ℕ → List ℕ → Bool
eq_label a b = length a == length b && all_same a b

-- A round of the inner loop at index `i`, where the byte `len` stands: where the name goes on, or none
-- where the code returns false. `next` is the round behind a pointer.
unfoldable pub match_byte :
    (ℕ → Run (Option (ℕ × ℕ))) → List ℕ → List ℕ → ℕ → ℕ → ℕ → Run (Option (ℕ × ℕ))
match_byte next q lab i hops len =
    let follow : Run (Option (ℕ × ℕ)) = (do lo ← load q (i + 1); next (len % 64 * 256 + lo)) in
    let compare_label : Run (Option (ℕ × ℕ)) = (do
      label ← slice q (i + 1) (i + 1 + len)
      done (if not (eq_label label lab) then none else some (i + (1 + len), hops))) in
    if len / 64 == 3
    then (if leb (length q) (i + 1) then done none else follow)
    else if len == 0 || not (len == length lab) || ltb (length q) (i + 1 + len)
    then done none
    else compare_label

-- The inner loop of `qname_matches` for one label. `hops` is a u8 and counts the rounds for all labels;
-- the ninth returns, so nine rounds are enough fuel.
unfoldable pub match_label : ℕ → List ℕ → List ℕ → ℕ → ℕ → Run (Option (ℕ × ℕ))
unfolding match_byte
match_label zero q lab i hops = done none
match_label (suc fuel) q lab i hops =
    let hops' = min (hops + 1) 255 in
    let round : Run (Option (ℕ × ℕ)) = (do
      len ← load q i
      match_byte (λ j. match_label fuel q lab j hops') q lab i hops' len) in
    if ltb 8 hops' || leb (length q) i then done none else round

abbrev pub hop_fuel : ℕ
hop_fuel = 9

-- `i < q.len() && q[i] == 0`
unfoldable pub ends_at : List ℕ → ℕ → Run Bool
ends_at q i =
    let root : Run Bool = (do b ← load q i; done (b == 0)) in
    if ltb i (length q) then root else done false

-- What follows one label: the loop over the others, or `return false`.
abbrev pub go_on : (ℕ → ℕ → Run Bool) → Option (ℕ × ℕ) → Run Bool
go_on next none = done false
go_on next (some (i, hops)) = next i hops

unfoldable pub match_labels : List ℕ → List (List ℕ) → ℕ → ℕ → Run Bool
match_labels q [] i hops = ends_at q i
match_labels q (lab ∷ labels) i hops = do
  r ← match_label hop_fuel q lab i hops
  go_on (λ j h. match_labels q labels j h) r

unfoldable pub qname_matches : List ℕ → ℕ → List (List ℕ) → Run Bool
qname_matches q i labels = match_labels q labels i 0

-- `b"scoreboard"`, `b"sb"` and `b"local"`
abbrev pub long_labels : List (List ℕ)
long_labels = codes "scoreboard" ∷ codes "local" ∷ []

abbrev pub short_labels : List (List ℕ)
short_labels = codes "sb" ∷ codes "local" ∷ []

unfoldable pub mdns_name_is_ours : List ℕ → Run Bool
mdns_name_is_ours q = do
  long ← qname_matches q 12 long_labels
  if long then done true else qname_matches q 12 short_labels

-- The reply with the name; the buffer behind the call, and the length.
unfoldable pub write_mdns_a : List ℕ → List ℕ → Run (List ℕ × Option ℕ)
write_mdns_a out name =
    let write : Run (List ℕ × Option ℕ) = (do
      a ← fill out 12 0
      b ← stores a ((2, 0x84) ∷ (3, 0) ∷ (7, 1) ∷ [])
      let i = 12 + length name
      c ← copy_from_slice b 12 i name
      d ← stores c (
          (i, 0)
          ∷ (i + 1, 1)
          ∷ (i + 2, 0x80)
          ∷ (i + 3, 1)
          ∷ (i + 4, 0)
          ∷ (i + 5, 0)
          ∷ (i + 6, 0)
          ∷ (i + 7, 120)
          ∷ (i + 8, 0)
          ∷ (i + 9, 4)
          ∷ [])
      e ← copy_from_slice d (i + 10) (i + 14) server_ip
      done (e, some (i + 14))) in
    if ltb (length out) (12 + length name + 16) then done (out, none) else write

-- `b"\x0ascoreboard\x05local\x00"` and `b"\x02sb\x05local\x00"`
abbrev pub long_name : List ℕ
long_name = 10 ∷ codes "scoreboard" ++ (5 ∷ codes "local" ++ (0 ∷ []))

abbrev pub short_name : List ℕ
short_name = 2 ∷ codes "sb" ++ (5 ∷ codes "local" ++ (0 ∷ []))

-- What was written is sent, to the sender of the query and to all.
abbrev pub reply_sent : List ℕ × Option ℕ → Run (Option (List ℕ))
reply_sent (out, none) = done none
reply_sent (out, some len) = do bytes ← slice out 0 len; done (some bytes)

-- A query for one of the names, with its type; the line of the log is in Mdns.Task.
unfoldable pub answer_query : List ℕ → ℕ → Run (Option (List ℕ))
answer_query pkt qtype =
    let reply : Run (Option (List ℕ)) = (do
      short ← qname_matches pkt 12 short_labels
      r ← write_mdns_a (replicate 64 0) (if short then short_name else long_name)
      reply_sent r) in
    if not (qtype == 1) && not (qtype == 255) then done none else reply

-- What follows `skip_name`.
unfoldable pub answer_name : List ℕ → ℕ → Option ℕ → Run (Option (List ℕ))
answer_name pkt n none = done none
answer_name pkt n (some name_end) =
    let typed : Run (Option (List ℕ)) = (do
      ours ← mdns_name_is_ours pkt
      let asked : Run (Option (List ℕ)) = (do qtype ← load_u16 pkt name_end; answer_query pkt qtype)
      if not ours then done none else asked) in
    if ltb n (name_end + 4) then done none else typed

-- `Ok((n, meta))` of `mdns_task`: what is sent, if anything. `pkt` is the whole buffer of 512 bytes.
unfoldable pub on_mdns : List ℕ → ℕ → Run (Option (List ℕ))
on_mdns pkt n =
    let query : Run (Option (List ℕ)) = (do
      flags ← load pkt 2
      let named : Run (Option (List ℕ)) = (do
        name_end ← skip_name pkt 12
        answer_name pkt n name_end)
      if not (flags / 128 % 2 == 0) then done none else named) in
    if ltb n 12 then done none else query

-- The announcement at the start, sent three times.
unfoldable pub announcement : Run (Option (List ℕ))
announcement = do r ← write_mdns_a (replicate 64 0) long_name; reply_sent r
