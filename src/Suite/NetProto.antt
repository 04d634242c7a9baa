-- ===== src/Suite/NetProto.antt =====
-- The tests of src/net_proto.rs.
use scoreboard_ctrl.Base.{
  ℕ, ◌+◌, ◌-◌, ◌≡◌, refl, Option, none, some, List, [], ◌∷◌, ◌++◌, replicate, get_or, Run, done,
  ◌>>=◌, load, store, stores, slice, copy_from_slice,
}
use scoreboard_ctrl.Dhcp.{server_ip, dhcp_magic, dhcp_request, dhcp_msg_type, requested_ip}
use scoreboard_ctrl.Dhcp.Lease.{Lease, empty, slot_for_mac}
use scoreboard_ctrl.Dns.{
  build_dns_reply, skip_name, skip_from, reply_behind, load_u16, write_reply, write_a,
  write_no_data,
}

unfoldable pub end_options : List ℕ → Option (List ℕ) → Run (List ℕ)
unfolding stores store copy_from_slice
end_options p none = store p 243 255
end_options p (some ip) = do
  p' ← stores p ((243, 50) ∷ (244, 4) ∷ [])
  p'' ← copy_from_slice p' 245 249 ip
  store p'' 249 255

-- The request of the tests, with option 50 if there is one.
unfoldable pub dhcp_min : ℕ → List ℕ → Option (List ℕ) → Run (List ℕ)
unfolding stores copy_from_slice end_options
dhcp_min msg mac opt50 = do
  p ← stores (replicate 256 0) ((0, 1) ∷ (1, 1) ∷ (2, 6) ∷ [])
  p' ← copy_from_slice p 28 34 mac
  p'' ← copy_from_slice p' 236 240 dhcp_magic
  q ← stores p'' ((240, 53) ∷ (241, 1) ∷ (242, msg) ∷ [])
  end_options q opt50

abbrev pub Option53And50 : Type 0
Option53And50 =
    let p = dhcp_min dhcp_request (1 ∷ 2 ∷ 3 ∷ 4 ∷ 5 ∷ 6 ∷ []) (some (192 ∷ 168 ∷ 0 ∷ 10 ∷ [])) in
    ((p >>= dhcp_msg_type) ≡ done (some dhcp_request))
    × ((p >>= requested_ip) ≡ done (some (192 ∷ 168 ∷ 0 ∷ 10 ∷ [])))

option_53_and_50 : Option53And50
unfolding dhcp_min dhcp_msg_type requested_ip slice load
option_53_and_50 = (refl, refl)

-- The slots that a row of clients gets, one after the other, and the leases behind them.
unfoldable pub slots : List (List ℕ) → List Lease → ℕ → Run (List ℕ × List Lease)
unfolding slot_for_mac
slots [] leases seq = done ([], leases)
slots (mac ∷ macs) leases seq = do
  a ← slot_for_mac leases seq mac
  rest ← slots macs (a.leases) (a.seq)
  done (a.slot ∷ rest.0, rest.1)

abbrev pub first_mac : List ℕ × List Lease → Run (List ℕ × List ℕ)
first_mac r = done (r.0, (get_or r.1 0 empty).mac)

abbrev pub client : ℕ → List ℕ
client i = i ∷ 0 ∷ 0 ∷ 0 ∷ 0 ∷ 1 ∷ []

-- The eight slots in order, the first again for a ninth client, the second for the first client again.
abbrev pub LruDoesNotHashOverwrite : Type 0
LruDoesNotHashOverwrite =
    let eight =
      client 0 ∷ client 1 ∷ client 2 ∷ client 3 ∷ client 4 ∷ client 5 ∷ client 6 ∷ client 7 ∷ [] in
    ((slots (eight ++ (client 9 ∷ [])) (replicate 8 empty) 0 >>= first_mac)
      ≡ done (0 ∷ 1 ∷ 2 ∷ 3 ∷ 4 ∷ 5 ∷ 6 ∷ 7 ∷ 0 ∷ [], client 9))
    × ((slots (eight ++ (client 9 ∷ client 0 ∷ [])) (replicate 8 empty) 0 >>= first_mac)
        ≡ done (0 ∷ 1 ∷ 2 ∷ 3 ∷ 4 ∷ 5 ∷ 6 ∷ 7 ∷ 0 ∷ 1 ∷ [], client 9))

lru_does_not_hash_overwrite : LruDoesNotHashOverwrite
unfolding slots load store
lru_does_not_hash_overwrite = (refl, refl)

-- The length of the reply to a query, and the reply's buffer behind it.
abbrev pub dns_answer : Run (List ℕ) → ℕ → Run (List ℕ × Option ℕ)
dns_answer query n = do q ← query; build_dns_reply q n (replicate 512 0)

-- "a.com" with a type of one byte, class IN.
abbrev pub a_com : ℕ → List (ℕ × ℕ)
a_com qtype =
    (12, 1)
    ∷ (13, 97)
    ∷ (14, 3)
    ∷ (15, 99)
    ∷ (16, 111)
    ∷ (17, 109)
    ∷ (18, 0)
    ∷ (19, 0)
    ∷ (20, qtype)
    ∷ (21, 0)
    ∷ (22, 1)
    ∷ []

unfoldable pub edns_query : Run (List ℕ)
unfolding stores copy_from_slice
edns_query = do
  q ← stores (replicate 40 0) (((0, 18) ∷ (1, 52) ∷ (2, 1) ∷ (5, 1) ∷ (11, 1) ∷ []) ++ a_com 1)
  copy_from_slice q 23 40 (replicate 17 170)

unfoldable pub aaaa_query : Run (List ℕ)
unfolding stores
aaaa_query = stores (replicate 23 0) ((5, 1) ∷ a_com 28)

-- Byte 23 is the first of the pointer to the name, where the query has its junk.
abbrev pub DnsStripsEdnsAndSetsAncount : Type 0
DnsStripsEdnsAndSetsAncount =
    let r = dns_answer edns_query 40 in
    ((r >>= (λ x. done (x.1))) ≡ done (some (23 + 16)))
    × ((r >>= (λ x. load (x.0) 7)) ≡ done 1)
    × ((r >>= (λ x. load (x.0) 10)) ≡ done 0)
    × ((r >>= (λ x. load (x.0) 11)) ≡ done 0)
    × ((r >>= (λ x. slice (x.0) (39 - 4) 39)) ≡ done server_ip)
    × ((r >>= (λ x. load (x.0) 23)) ≡ done 192)

dns_strips_edns_and_sets_ancount : DnsStripsEdnsAndSetsAncount
unfolding edns_query build_dns_reply load store slice copy_from_slice skip_name skip_from
    reply_behind load_u16 write_reply write_a
dns_strips_edns_and_sets_ancount = (refl, refl, refl, refl, refl, refl)

abbrev pub DnsAaaaIsNodata : Type 0
DnsAaaaIsNodata =
    let r = dns_answer aaaa_query 23 in
    ((r >>= (λ x. done (x.1))) ≡ done (some 23)) × ((r >>= (λ x. load (x.0) 7)) ≡ done 0)

dns_aaaa_is_nodata : DnsAaaaIsNodata
unfolding aaaa_query build_dns_reply copy_from_slice load store slice skip_name skip_from
    reply_behind load_u16 write_reply write_no_data
dns_aaaa_is_nodata = (refl, refl)
