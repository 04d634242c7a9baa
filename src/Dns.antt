-- ===== src/Dns.antt =====
-- The DNS server: `skip_name`, `build_dns_reply` and `dns_qtype` of src/net_proto.rs, and the body of
-- the loop of `dns_task` of src/net_services.rs. An index is a `usize` below the length of a packet, so
-- `checked_add` never overflows.
pub mod Safe
pub mod Names
pub mod Reply
pub mod Task
use scoreboard_ctrl.Base.{
  ℕ, zero, suc, ◌+◌, ◌*◌, ◌/◌, ◌&&◌, ◌||◌, Option, none, some, List, [], ◌∷◌, ltb, leb, ◌==◌,
  if◌then◌else◌, length, replicate, Run, done, ◌>>=◌, load, store, stores, slice, copy_from_slice,
}
use scoreboard_ctrl.Dhcp.{server_ip}

-- The rest of a round at index `i`, where the byte `len` stands; `len / 64 == 3` says that its two high
-- bits are set, `len & 0xC0 == 0xC0`.
unfoldable pub skip_label : (ℕ → Run (Option ℕ)) → List ℕ → ℕ → ℕ → Run (Option ℕ)
skip_label next q i len =
    if len == 0
    then done (some (i + 1))
    else if len / 64 == 3
    then done (if ltb (i + 1) (length q) then some (i + 2) else none)
    else if ltb (length q) (i + (1 + len))
    then done none
    else next (i + (1 + len))

-- The loop of `skip_name`; each round moves `i` on, so the length of the packet is enough fuel.
unfoldable pub skip_from : ℕ → List ℕ → ℕ → Run (Option ℕ)
unfolding skip_label
skip_from zero q i = done none
skip_from (suc fuel) q i =
    let round : Run (Option ℕ) = (do
      len ← load q i
      skip_label (λ j. skip_from fuel q j) q i len) in
    if leb (length q) i then done none else round

unfoldable pub skip_name : List ℕ → ℕ → Run (Option ℕ)
skip_name q i = skip_from (length q) q i

-- `u16::from_be_bytes` of the two bytes at index `i`.
unfoldable pub load_u16 : List ℕ → ℕ → Run ℕ
load_u16 q i = do hi ← load q i; lo ← load q (i + 1); done (hi * 256 + lo)

-- The `A` record behind the question, at index `len`.
unfoldable pub write_a : List ℕ → ℕ → Run (List ℕ × Option ℕ)
write_a out len = do
  a ← stores out (
      (7, 1)
      ∷ (len, 0xC0)
      ∷ (len + 1, 12)
      ∷ (len + 2, 0)
      ∷ (len + 3, 1)
      ∷ (len + 4, 0)
      ∷ (len + 5, 1)
      ∷ (len + 6, 0)
      ∷ (len + 7, 0)
      ∷ (len + 8, 0)
      ∷ (len + 9, 30)
      ∷ (len + 10, 0)
      ∷ (len + 11, 4)
      ∷ [])
  b ← copy_from_slice a (len + 12) (len + 16) server_ip
  done (b, some (len + 16))

-- No record.
unfoldable pub write_no_data : List ℕ → ℕ → Run (List ℕ × Option ℕ)
write_no_data out len = do a ← store out 7 0; done (a, some len)

-- The question is copied and the header adapted.
unfoldable pub write_reply : List ℕ → List ℕ → ℕ → ℕ → Run (List ℕ × Option ℕ)
write_reply q out qtype qend = do
  question ← slice q 0 qend
  a ← copy_from_slice out 0 qend question
  b ← stores a ((2, 0x81) ∷ (3, 0x80) ∷ (6, 0) ∷ (8, 0) ∷ (9, 0) ∷ (10, 0) ∷ (11, 0) ∷ [])
  if qtype == 1 && leb (qend + 16) (length b) then write_a b qend else write_no_data b qend

-- What follows `skip_name`.
unfoldable pub reply_behind : List ℕ → ℕ → List ℕ → Option ℕ → Run (List ℕ × Option ℕ)
reply_behind q n out none = done (out, none)
reply_behind q n out (some name_end) =
    let typed : Run (List ℕ × Option ℕ) = (do
      qtype ← load_u16 q name_end
      if ltb (length out) (name_end + 4)
          then done (out, none)
          else write_reply q out qtype (name_end + 4)) in
    if ltb n (name_end + 4) then done (out, none) else typed

unfoldable pub build_dns_reply : List ℕ → ℕ → List ℕ → Run (List ℕ × Option ℕ)
build_dns_reply query n out =
    let checked : Run (List ℕ × Option ℕ) = (do
      q ← slice query 0 n
      name_end ← skip_name q 12
      reply_behind q n out name_end) in
    if ltb n 12 || ltb (length query) n then done (out, none) else checked

unfoldable pub qtype_behind : List ℕ → ℕ → Option ℕ → Run (Option ℕ)
qtype_behind query n none = done none
qtype_behind query n (some name_end) =
    let typed : Run (Option ℕ) = (do qtype ← load_u16 query name_end; done (some qtype)) in
    if ltb n (name_end + 4) then done none else typed

unfoldable pub dns_qtype : List ℕ → ℕ → Run (Option ℕ)
dns_qtype query n =
    let checked : Run (Option ℕ) = (do
      q ← slice query 0 n
      name_end ← skip_name q 12
      qtype_behind query n name_end) in
    if ltb n 12 || ltb (length query) n then done none else checked

-- The reply that is sent, where one was built.
unfoldable pub sent_reply : List ℕ × Option ℕ → Run (Option (List ℕ))
sent_reply (out, none) = done none
sent_reply (out, some len) = do bytes ← slice out 0 len; done (some bytes)

-- `Ok((n, meta))` of `dns_task`: what is sent, if anything. The lookup of the type and the name for the
-- log is left out.
unfoldable pub on_query : List ℕ → ℕ → Run (Option (List ℕ))
on_query pkt n = do r ← build_dns_reply pkt n (replicate 512 0); sent_reply r
