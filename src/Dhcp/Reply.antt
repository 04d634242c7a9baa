-- ===== src/Dhcp/Reply.antt =====
-- `write_offer_or_ack` of src/net_proto.rs. The buffer `out` is the caller's; the result is the buffer
-- behind the call and what the call returns.
pub mod Options
pub mod Header
pub mod Built
pub mod Read
use scoreboard_ctrl.Base.{
  ℕ, ◌+◌, ◌%◌, max, Bool, not, ◌||◌, Option, none, some, List, [], ◌∷◌, ◌++◌, ltb, leb, ◌==◌,
  if◌then◌else◌, length, Run, done, ◌>>=◌, store, stores, slice, copy_from_slice, fill,
}
use scoreboard_ctrl.Dhcp.{server_ip, dhcp_magic, dhcp_nak}

-- `b"http://192.168.0.1/"` and `b"lan"`
abbrev pub captive_uri : List ℕ
captive_uri =
    b'h' ∷ b't' ∷ b't' ∷ b'p' ∷ b':' ∷ b'/' ∷ b'/' ∷ b'1' ∷ b'9' ∷ b'2' ∷ b'.' ∷ b'1' ∷ b'6' ∷ b'8'
    ∷ b'.' ∷ b'0' ∷ b'.' ∷ b'1' ∷ b'/' ∷ []

abbrev pub lan : List ℕ
lan = b'l' ∷ b'a' ∷ b'n' ∷ []

-- The closure `push`: an option that does not fit is left out.
unfoldable pub push : List ℕ → ℕ → ℕ → List ℕ → Run (List ℕ × ℕ)
push out i code bytes =
    let write : Run (List ℕ × ℕ) = (do
      a ← store out i code
      b ← store a (i + 1) (length bytes % 256)
      c ← copy_from_slice b (i + 2) (i + 2 + length bytes) bytes
      done (c, i + (2 + length bytes))) in
    if leb (length out) (i + 2 + length bytes) then done (out, i) else write

-- A row of calls of `push`.
unfoldable pub push_all : List ℕ → ℕ → List (ℕ × List ℕ) → Run (List ℕ × ℕ)
unfolding push
push_all out i [] = done (out, i)
push_all out i ((code, bytes) ∷ options) = do r ← push out i code bytes; push_all r.0 r.1 options

-- The options that every reply has, and those of an offer or an acknowledgement.
abbrev pub common_options : ℕ → List (ℕ × List ℕ)
common_options msg_type = (53, msg_type ∷ []) ∷ (54, server_ip) ∷ []

abbrev pub lease_options : List (ℕ × List ℕ)
lease_options =
    (1, 255 ∷ 255 ∷ 255 ∷ 0 ∷ [])
    ∷ (3, server_ip)
    ∷ (6, server_ip)
    ∷ (51, 0 ∷ 1 ∷ 81 ∷ 128 ∷ [])
    ∷ (28, 192 ∷ 168 ∷ 0 ∷ 255 ∷ [])
    ∷ (15, lan)
    ∷ (114, captive_uri)
    ∷ (160, captive_uri)
    ∷ []

abbrev pub reply_options : ℕ → List (ℕ × List ℕ)
reply_options msg_type =
    common_options msg_type ++ (if not (msg_type == dhcp_nak) then lease_options else [])

-- The 240 bytes in front of the options.
unfoldable pub write_header : List ℕ → List ℕ → List ℕ → ℕ → Run (List ℕ)
write_header req out yiaddr msg_type = do
  o1 ← fill out 240 0
  o2 ← stores o1 ((0, 2) ∷ (1, 1) ∷ (2, 6) ∷ [])
  xid ← slice req 4 8
  o3 ← copy_from_slice o2 4 8 xid
  o4 ← if not (msg_type == dhcp_nak) then copy_from_slice o3 16 20 yiaddr else done o3
  o5 ← copy_from_slice o4 20 24 server_ip
  chaddr ← slice req 28 44
  o6 ← copy_from_slice o5 28 44 chaddr
  copy_from_slice o6 236 240 dhcp_magic

-- The options and the end mark behind a header, and the length of the reply.
unfoldable pub write_options : List ℕ → List (ℕ × List ℕ) → Run (List ℕ × Option ℕ)
write_options header options = do
  r ← push_all header 240 options
  whole ← store r.0 r.1 255
  done (whole, some (max (r.1 + 1) 300))

unfoldable pub write_offer_or_ack : List ℕ → List ℕ → List ℕ → ℕ → Run (List ℕ × Option ℕ)
write_offer_or_ack req out yiaddr msg_type =
    let write : Run (List ℕ × Option ℕ) = (do
      header ← write_header req out yiaddr msg_type
      write_options header (reply_options msg_type)) in
    if ltb (length req) 240 || ltb (length out) 360 then done (out, none) else write
