-- ===== src/Dhcp/Reply/Read.antt =====
-- The replies of src/net_proto.rs as a client reads them.
use scoreboard_ctrl.Base.{
  ℕ, zero, suc, ◌+◌, ◌-◌, ◌≤◌, max, ◌≡◌, refl, sym, ap, ◌∙◌, Bool-cases, inl, inr, some, List, [],
  ◌∷◌, ◌++◌, append_assoc, length, length-append, length-take, length-drop, take-append,
  drop-append, replicate, take, drop, done, ◌==◌, arith,
}
use scoreboard_ctrl.Dhcp.{server_ip, dhcp_magic, dhcp_nak, find_option, dhcp_msg_type}
use scoreboard_ctrl.Dhcp.Options.{Opt, encode, lookup_opt, AllOpts, find_option-encode}
use scoreboard_ctrl.Dhcp.Reply.{reply_options, write_offer_or_ack}
use scoreboard_ctrl.Dhcp.Reply.Options.{to_opts}
use scoreboard_ctrl.Dhcp.Reply.Header.{reply_head, xid_of, chaddr_of, granted_ip, length-reply_head}
use scoreboard_ctrl.Dhcp.Reply.Built.{reply_bytes, write_offer_or_ack-reply_bytes}

pub take-append_more :
    (xs ys : List ℕ) (n k : ℕ) → n ≡ length xs + k → take n (xs ++ ys) ≡ xs ++ take k ys
take-append_more [] ys n k e = ap (λ m. take m ys) (omega arith)
take-append_more (x ∷ xs) ys zero k e = absurd (omega arith)
take-append_more (x ∷ xs) ys (suc n) k e = ap (◌∷◌ x) (take-append_more xs ys n k (omega arith))

-- The length that `write_offer_or_ack` returns.
abbrev pub reply_length : ℕ → ℕ
reply_length msg_type = max (241 + length (encode (to_opts (reply_options msg_type)))) 300

reply-AllOpts : (msg_type : ℕ) → AllOpts (to_opts (reply_options msg_type))
reply-AllOpts msg_type = elim (Bool-cases (msg_type == dhcp_nak)) [
  | inl refused ↦ rw refused (omega arith)
  | inr granted ↦ rw granted (omega arith)
]

cut :
    (head options rest : List ℕ) (n : ℕ)
    → length head ≡ 236
    → 241 + length options ≤ n
    → take n (head ++ (dhcp_magic ++ (options ++ (255 ∷ rest))))
      ≡ head ++ (dhcp_magic ++ (options ++ (255 ∷ take (n - (241 + length options)) rest)))
cut head options rest n h le =
    take-append_more head (dhcp_magic ++ (options ++ (255 ∷ rest))) n (n - 236) (omega arith)
    ∙ ap (λ xs. head ++ xs)
        (take-append_more dhcp_magic (options ++ (255 ∷ rest)) (n - 236) (n - 240) (omega arith)
          ∙ ap (λ xs. dhcp_magic ++ xs)
              (take-append_more options (255 ∷ rest) (n - 240) (suc (n - (241 + length options)))
                (omega arith)))

segment :
    {buf : List ℕ} (pre seg post : List ℕ) (n k : ℕ)
    → buf ≡ pre ++ (seg ++ post)
    → n ≡ length pre
    → k ≡ length seg
    → take k (drop n buf) ≡ seg
segment pre seg post n k b e f = rw (b, e, f, drop-append pre (seg ++ post), take-append seg post)

reply_head-yiaddr :
    (xid yi chaddr rest : List ℕ)
    → length xid ≡ 4
    → length yi ≡ 4
    → take 4 (drop 16 (reply_head xid yi chaddr ++ rest)) ≡ yi
reply_head-yiaddr xid yi chaddr rest x y =
    segment {buf = reply_head xid yi chaddr ++ rest}
      ((2 ∷ 1 ∷ 6 ∷ 0 ∷ []) ++ (xid ++ replicate 8 0)) yi
      ((server_ip ++ (replicate 4 0 ++ (chaddr ++ replicate 192 0))) ++ rest) 16 4
      (simp append_assoc) (omega (arith, length-append xid (replicate 8 0))) (sym y)

-- The same, for any head.
read_at :
    (head options rest : List ℕ) (os : List Opt) (n code : ℕ)
    → length head ≡ 236
    → options ≡ encode os
    → AllOpts os
    → 241 + length options ≤ n
    → find_option (take n (head ++ (dhcp_magic ++ (options ++ (255 ∷ rest))))) code
      ≡ done (lookup_opt code os)
read_at head options rest os n code h e a le =
    ap (λ p. find_option p code) (cut head options rest n h le)
    ∙ rw e (find_option-encode head os (take (n - (241 + length (encode os))) rest) code h a)

-- The same, for the bytes of a whole reply.
pub reply_bytes_read :
    (req out yiaddr : List ℕ) (msg_type code : ℕ)
    → 240 ≤ length req
    → length yiaddr ≡ 4
    → let sent = take (reply_length msg_type) (reply_bytes req out yiaddr msg_type) in
      (find_option sent code ≡ done (lookup_opt code (to_opts (reply_options msg_type))))
      × (dhcp_msg_type sent ≡ done (some msg_type))
      × (take 4 (drop 16 sent) ≡ granted_ip yiaddr msg_type)
unfolding dhcp_msg_type
reply_bytes_read req out yiaddr msg_type code r y = (
  read code,
  rw (read 53),
  ap (λ p. take 4 (drop 16 p)) (cut head options behind (reply_length msg_type) h (omega arith))
      ∙ reply_head-yiaddr (xid_of req) (granted_ip yiaddr msg_type) (chaddr_of req) _ x yi,
)
  where
    x : length (xid_of req) ≡ 4
    x = omega (arith, length-take 4 (drop 4 req), length-drop 4 req)

    c : length (chaddr_of req) ≡ 16
    c = omega (arith, length-take 16 (drop 28 req), length-drop 28 req)

    yi : length (granted_ip yiaddr msg_type) ≡ 4
    yi = ground arith

    head : List ℕ
    head = reply_head (xid_of req) (granted_ip yiaddr msg_type) (chaddr_of req)

    options : List ℕ
    options = encode (to_opts (reply_options msg_type))

    behind : List ℕ
    behind = drop (241 + length options) out

    h : length head ≡ 236
    h = length-reply_head (xid_of req) (granted_ip yiaddr msg_type) (chaddr_of req) [] x yi c

    read :
        (k : ℕ)
        → find_option (take (reply_length msg_type) (reply_bytes req out yiaddr msg_type)) k
          ≡ done (lookup_opt k (to_opts (reply_options msg_type)))
    read k =
        read_at head options behind (to_opts (reply_options msg_type)) (reply_length msg_type) k h
          refl (reply-AllOpts msg_type) (omega arith)

-- A request of at least 240 bytes, answered by `write_offer_or_ack` into a buffer of at least 360: from the bytes
-- of the reply, as many as the length returned says, a client reads for every code the value that the server
-- gave for it, if it gave one; the message type is the one that was asked for, and the address the
-- one given, or 0.0.0.0 in a refusal.
pub reply_read :
    (req out yiaddr : List ℕ) (msg_type code : ℕ)
    → 240 ≤ length req
    → 360 ≤ length out
    → length yiaddr ≡ 4
    → (buf : List ℕ) × (n : ℕ) × (write_offer_or_ack req out yiaddr msg_type ≡ done (buf, some n))
      × (find_option (take n buf) code ≡ done (lookup_opt code (to_opts (reply_options msg_type))))
      × (dhcp_msg_type (take n buf) ≡ done (some msg_type))
      × (take 4 (drop 16 (take n buf)) ≡ granted_ip yiaddr msg_type)
reply_read req out yiaddr msg_type code r o y =
    let (found, typed, address) = reply_bytes_read req out yiaddr msg_type code r y in
    (
      reply_bytes req out yiaddr msg_type,
      reply_length msg_type,
      write_offer_or_ack-reply_bytes req out yiaddr msg_type r o y,
      found,
      typed,
      address,
    )
