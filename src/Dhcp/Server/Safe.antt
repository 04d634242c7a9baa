-- ===== src/Dhcp/Server/Safe.antt =====
-- `dhcp_task` of src/net_services.rs on any packets: panics, and what stays valid.
use scoreboard_ctrl.Base.{
  ℕ, zero, suc, ◌+◌, ◌-◌, ◌≤◌, ◌≡◌, refl, ap, ◌∙◌, Bool-cases, inl, inr, Option, none, some, List,
  [], ◌∷◌, ◌++◌, ltb, ◌==◌, if◌then◌else◌, length, length-set, length-append, length-drop,
  length-take, replicate, take, drop, Run, done, ◌>>=◌, Total, total, Total-done, Total-bind,
  Total-if, slice_lem, arith,
}
use scoreboard_ctrl.Dhcp.{
  dhcp_magic, dhcp_discover, dhcp_request, pool_size, dhcp_nak, offered_ip, find_option,
  dhcp_msg_type, requested_ip,
}
use scoreboard_ctrl.Dhcp.Options.{encode, find_option-Total}
use scoreboard_ctrl.Dhcp.Lease.{no_mac, empty}
use scoreboard_ctrl.Dhcp.Lease.Slots.{lease_at, slot_for_mac-Grant}
use scoreboard_ctrl.Dhcp.Lease.Clients.{IsDistinct, Grant-IsDistinct}
use scoreboard_ctrl.Dhcp.Reply.{reply_options, write_offer_or_ack}
use scoreboard_ctrl.Dhcp.Reply.Options.{to_opts}
use scoreboard_ctrl.Dhcp.Reply.Header.{reply_head, xid_of, chaddr_of, granted_ip, length-reply_head}
use scoreboard_ctrl.Dhcp.Reply.Built.{reply_bytes, options-fit, write_offer_or_ack-reply_bytes}
use scoreboard_ctrl.Dhcp.Reply.Read.{reply_length}
use scoreboard_ctrl.Dhcp.Server.{
  Server, start, Answer, reply_type, answer, on_message, if_message, on_packet, serve,
}

pub record IsValid (s : Server) : Type 0 where
  pub pool : length s.leases ≡ pool_size
  pub buffer : length s.reply ≡ 400
  pub distinct : IsDistinct s.leases

length-whole :
    (head magic options rest : List ℕ) (n : ℕ)
    → length head ≡ 236
    → length magic ≡ 4
    → length (head ++ (magic ++ (options ++ (255 ∷ rest)))) ≡ 241 + length options + length rest
length-whole head magic options rest n h m = omega (
  arith,
  length-append head (magic ++ (options ++ (255 ∷ rest))),
  length-append magic (options ++ (255 ∷ rest)),
  length-append options (255 ∷ rest),
)

-- The buffer behind a reply has the length that it had, and the reply fits into it.
length-reply_bytes :
    (req out yiaddr : List ℕ) (kind : ℕ)
    → 240 ≤ length req
    → length out ≡ 400
    → length yiaddr ≡ 4
    → (length (reply_bytes req out yiaddr kind) ≡ 400) × (reply_length kind ≤ 400)
length-reply_bytes req out yiaddr kind r o y = (
  length-whole (reply_head (xid_of req) (granted_ip yiaddr kind) (chaddr_of req)) dhcp_magic options
        (drop (241 + length options) out) 0 h refl
      ∙ omega (arith, length-drop (241 + length options) out, options-fit kind),
  omega (arith, options-fit kind),
)
  where
    options : List ℕ
    options = encode (to_opts (reply_options kind))

    x : length (xid_of req) ≡ 4
    x = omega (arith, length-take 4 (drop 4 req), length-drop 4 req)

    c : length (chaddr_of req) ≡ 16
    c = omega (arith, length-take 16 (drop 28 req), length-drop 28 req)

    yi : length (granted_ip yiaddr kind) ≡ 4
    yi = ground arith

    h : length (reply_head (xid_of req) (granted_ip yiaddr kind) (chaddr_of req)) ≡ 236
    h = length-reply_head (xid_of req) (granted_ip yiaddr kind) (chaddr_of req) [] x yi c

sent_done :
    (req yi whole : List ℕ) (s : Server) (kind len : ℕ)
    → write_offer_or_ack req s.reply (if kind == dhcp_nak then replicate 4 0 else yi) kind
      ≡ done (whole, some len)
    → len ≤ length whole
    → answer req yi s (some kind) ≡ done (record s { reply = whole }, some (take len whole))
unfolding answer
sent_done req yi whole s kind len w le =
    rw (w, slice_lem whole 0 len (omega arith) le)
      (ap (λ n. done (record s { reply = whole }, some (take n whole))) same)
  where
    same : len - 0 ≡ len
    same = omega arith

-- An answer that is due is sent.
pub answer-reply_bytes :
    (req yi : List ℕ) (s : Server) (kind : ℕ)
    → 240 ≤ length req
    → length yi ≡ 4
    → IsValid s
    → let whole = reply_bytes req s.reply (if kind == dhcp_nak then replicate 4 0 else yi) kind in
      (answer req yi s (some kind)
        ≡ done (record s { reply = whole }, some (take (reply_length kind) whole)))
      × IsValid (record s { reply = whole })
answer-reply_bytes req yi s kind r y v =
    let yiaddr = if kind == dhcp_nak then replicate 4 0 else yi in
    let size = length-reply_bytes req s.reply yiaddr kind r v.buffer yiaddr-length in
    (
      sent_done req yi (reply_bytes req s.reply yiaddr kind) s kind (reply_length kind)
          (write_offer_or_ack-reply_bytes req s.reply yiaddr kind r (omega (arith, v.buffer))
            yiaddr-length)
          (omega (arith, size)),
      record { pool = v.pool; buffer = size.0; distinct = v.distinct },
    )
  where
    yiaddr-length : length (if kind == dhcp_nak then replicate 4 0 else yi) ≡ 4
    yiaddr-length = ground arith

-- The code ends, and the state behind it is valid.
pub data IsSafe (r : Run Answer) : Type 0 where
  safe : (a : Answer) → r ≡ done a → IsValid a.0 → IsSafe r

answer-IsSafe :
    (req yi : List ℕ) (s : Server) (kind : Option ℕ)
    → 240 ≤ length req
    → length yi ≡ 4
    → IsValid s
    → IsSafe (answer req yi s kind)
unfolding answer
answer-IsSafe req yi s none r y v = safe (s, none) refl v
answer-IsSafe req yi s (some kind) r y v =
    let (e, v') = answer-reply_bytes req yi s kind r y v in safe _ e v'

requested_ip-Total : (req : List ℕ) → Total (requested_ip req)
unfolding requested_ip
requested_ip-Total req =
    Total-bind (find_option req 50) _ (find_option-Total req 50) (λ _ _. Total-done _)

dhcp_msg_type-Total : (req : List ℕ) → Total (dhcp_msg_type req)
unfolding dhcp_msg_type
dhcp_msg_type-Total req =
    Total-bind (find_option req 53) _ (find_option-Total req 53) (λ _ _. Total-done _)

reply_type-Total : (req yi : List ℕ) (msg : ℕ) → Total (reply_type req yi msg)
unfolding reply_type
reply_type-Total req yi msg =
    Total-if (msg == dhcp_discover) _ _ (λ _. Total-done _)
      (λ _.
        Total-if (msg == dhcp_request) _ _
          (λ _. Total-bind (requested_ip req) _ (requested_ip-Total req) (λ _ _. Total-done _))
          (λ _. Total-done _))

bound-IsSafe {ℓ} :
    {A : Type ℓ} (m : Run A) (f : A → Run Answer)
    → Total m
    → ((a : A) → m ≡ done a → IsSafe (f a))
    → IsSafe (m >>= f)
bound-IsSafe m f (total a e) t = rw e (t a e)

on_message-IsSafe :
    (req : List ℕ) (msg : ℕ) (s : Server)
    → 240 ≤ length req
    → IsValid s
    → IsSafe (on_message req msg s)
unfolding on_message
on_message-IsSafe req msg s r v =
    let (a, e, g) =
      slot_for_mac-Grant s.leases s.lease_seq (take 6 (drop 28 req)) (omega (arith, v.pool))
        (omega (arith, v.pool)) in
    rw (slice_lem req 28 34 (omega arith) (omega arith), e)
      (bound-IsSafe (reply_type req (offered_ip a.slot) msg) _
        (reply_type-Total req (offered_ip a.slot) msg)
        (λ kind _.
          answer-IsSafe req (offered_ip a.slot) (record s { leases = a.leases; lease_seq = a.seq })
            kind r refl
            (record {
              pool = ap length g.leases ∙ length-set s.leases a.slot _ ∙ v.pool;
              buffer = v.buffer;
              distinct = Grant-IsDistinct g v.distinct;
            })))

-- A packet of any bytes is handled without a panic, and leaves a valid state.
pub on_packet-IsSafe : (req : List ℕ) (s : Server) → IsValid s → IsSafe (on_packet req s)
unfolding on_packet
on_packet-IsSafe req s v = elim (Bool-cases (ltb (length req) 240)) [
  | inl short ↦ rw short (safe (s, none) refl v)
  | inr long ↦ rw long (
      bound-IsSafe (dhcp_msg_type req) (if_message req s) (dhcp_msg_type-Total req)
        (λ msg _. typed msg (ground arith)))
]
  where
    typed : (msg : Option ℕ) → 240 ≤ length req → IsSafe (if_message req s msg)
    typed none r = safe (s, none) refl v
    typed (some msg) r = on_message-IsSafe req msg s r v

-- From a valid state, whatever packets are received, the server goes on without a panic, its buffer and
-- its pool keep their lengths, and no client holds two slots.
pub serve-IsValid :
    (reqs : List (List ℕ)) (s : Server)
    → IsValid s
    → (s' : Server) × (serve reqs s ≡ done s') × IsValid s'
unfolding serve
serve-IsValid [] s v = (s, refl, v)
serve-IsValid (req ∷ reqs) s v = elim (on_packet-IsSafe req s v) [
  | safe a e v' ↦ let (s', e', v'') = serve-IsValid reqs a.0 v' in (s', rw e e', v'')
]

no_mac_at : (n i : ℕ) → (lease_at (replicate n empty) i).mac ≡ no_mac
no_mac_at zero i = refl
no_mac_at (suc n) zero = refl
no_mac_at (suc n) (suc i) = no_mac_at n i

pub start-IsValid : IsValid start
start-IsValid = record {
  pool = refl;
  buffer = refl;
  distinct = λ i j hi hj e n. absurd (n (no_mac_at pool_size i));
}
