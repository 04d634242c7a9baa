-- ===== src/Dhcp.antt =====
-- The DHCP part of src/net_proto.rs: reading the options of a request. A packet is a list of bytes; an
-- index out of range would be a panic. The sums of indices stay far below the range of `usize`.
pub mod Options
pub mod Lease
pub mod Reply
pub mod Server
use scoreboard_ctrl.Base.{
  ℕ, zero, suc, ◌+◌, ◌%◌, Bool, not, Option, none, some, List, [], ◌∷◌, ltb, leb, ◌==◌,
  if◌then◌else◌, length, bytes_eq, get_elem?, Run, done, ◌>>=◌, load, slice,
}

abbrev pub server_ip : List ℕ
server_ip = 192 ∷ 168 ∷ 0 ∷ 1 ∷ []

abbrev pub pool_start : ℕ
pool_start = 10

abbrev pub pool_size : ℕ
pool_size = 8

abbrev pub dhcp_magic : List ℕ
dhcp_magic = 99 ∷ 130 ∷ 83 ∷ 99 ∷ []

abbrev pub dhcp_discover : ℕ
dhcp_discover = 1

abbrev pub dhcp_offer : ℕ
dhcp_offer = 2

abbrev pub dhcp_request : ℕ
dhcp_request = 3

abbrev pub dhcp_ack : ℕ
dhcp_ack = 5

abbrev pub dhcp_nak : ℕ
dhcp_nak = 6

-- `u8` arithmetic; the sum is below 256 for the slots of the pool.
abbrev pub offered_ip : ℕ → List ℕ
offered_ip slot = 192 ∷ 168 ∷ 0 ∷ ((pool_start + slot) % 256) ∷ []

-- The value of an option with code `c` at index `i`, or what `next` finds behind it.
unfoldable pub read_value : (ℕ → Run (Option (List ℕ))) → List ℕ → ℕ → ℕ → ℕ → Run (Option (List ℕ))
read_value next packet code i c = do
  len ← load packet (i + 1)
  let start = i + 2
  let end = start + len
  let found : Run (Option (List ℕ)) = (do v ← slice packet start end; done (some v))
  if ltb (length packet) end then done none else if c == code then found else next end

-- The `match` on the byte `c` at index `i`.
unfoldable pub read_option :
    (ℕ → Run (Option (List ℕ))) → List ℕ → ℕ → ℕ → ℕ → Run (Option (List ℕ))
read_option next packet code i c =
    if c == 0
    then next (i + 1)
    else if c == 255
    then done none
    else if leb (length packet) (i + 1)
    then done none
    else read_value next packet code i c

-- The loop of `find_option` at index `i`; each round moves `i` on, so the length of the packet is
-- enough fuel (`Dhcp.Options`).
unfoldable pub scan : ℕ → List ℕ → ℕ → ℕ → Run (Option (List ℕ))
unfolding read_option read_value
scan zero packet code i = done none
scan (suc fuel) packet code i =
    let round : Run (Option (List ℕ)) = (do
      c ← load packet i
      read_option (λ j. scan fuel packet code j) packet code i c) in
    if ltb i (length packet) then round else done none

unfoldable pub find_option : List ℕ → ℕ → Run (Option (List ℕ))
unfolding scan
find_option packet code =
    let checked : Run (Option (List ℕ)) = (do
      magic ← slice packet 236 240
      if not (bytes_eq magic dhcp_magic)
          then done none
          else scan (length packet) packet code 240) in
    if ltb (length packet) 240 then done none else checked

-- `v.first().copied()`
abbrev pub first_of_value : Option (List ℕ) → Option ℕ
first_of_value none = none
first_of_value (some v) = get_elem? v 0

unfoldable pub dhcp_msg_type : List ℕ → Run (Option ℕ)
unfolding find_option
dhcp_msg_type packet = do v ← find_option packet 53; done (first_of_value v)

-- `v.try_into().ok()`
abbrev pub four_bytes : Option (List ℕ) → Option (List ℕ)
four_bytes none = none
four_bytes (some v) = if length v == 4 then some v else none

unfoldable pub requested_ip : List ℕ → Run (Option (List ℕ))
unfolding find_option
requested_ip packet = do v ← find_option packet 50; done (four_bytes v)
