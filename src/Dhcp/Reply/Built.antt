-- ===== src/Dhcp/Reply/Built.antt =====
-- What `write_offer_or_ack` of src/net_proto.rs builds, byte for byte.
use scoreboard_ctrl.Base.{
  ℕ, zero, suc, ◌+◌, ◌≤◌, ◌<◌, max, ◌≡◌, refl, sym, ap, ap₂, ◌∙◌, Bool-cases, inl, inr, some, List,
  [], ◌∷◌, ◌++◌, append_assoc, length, length-append, length-take, length-drop, drop-drop, drop,
  get_or, done, store-append, le→ltb, ◌==◌, arith,
}
use scoreboard_ctrl.Dhcp.{dhcp_magic, dhcp_nak}
use scoreboard_ctrl.Dhcp.Options.{encode}
use scoreboard_ctrl.Dhcp.Reply.{reply_options, write_options, write_offer_or_ack}
use scoreboard_ctrl.Dhcp.Reply.Options.{to_opts, AllSmall, push_all-encode}
use scoreboard_ctrl.Dhcp.Reply.Header.{
  reply_head, xid_of, chaddr_of, granted_ip, length-reply_head, write_header-reply_head,
}

pub options-fit : (msg_type : ℕ) → length (encode (to_opts (reply_options msg_type))) < 119
options-fit msg_type = ground arith

options-AllSmall : (msg_type : ℕ) → AllSmall (reply_options msg_type)
options-AllSmall msg_type = elim (Bool-cases (msg_type == dhcp_nak)) [
  | inl refused ↦ rw refused (omega arith)
  | inr granted ↦ rw granted (omega arith)
]

drop-cons : (xs : List ℕ) (n : ℕ) → n < length xs → drop n xs ≡ get_or xs n 0 ∷ drop (suc n) xs
drop-cons [] n h = absurd (omega arith)
drop-cons (x ∷ xs) zero h = refl
drop-cons (x ∷ xs) (suc n) h = drop-cons xs n (omega arith)

-- The options and the end mark, behind any 240 bytes.
pushed :
    (front rest : List ℕ) (os : List (ℕ × List ℕ))
    → length front ≡ 240
    → AllSmall os
    → length (encode (to_opts os)) < length rest
    → write_options (front ++ rest) os
      ≡ done (
        front ++ (encode (to_opts os) ++ (255 ∷ drop (suc (length (encode (to_opts os)))) rest)),
        some (max (241 + length (encode (to_opts os))) 300),
      )
unfolding write_options
pushed front rest os f small fits =
    rw (push_all-encode os front rest 240 small (sym f) fits, drop-cons rest n fits)
      (rw (← append_assoc front options (get_or rest n 0 ∷ drop (suc n) rest)) (
        rw
          (store-append (front ++ options) (get_or rest n 0 ∷ drop (suc n) rest) 0 255 (240 + n)
            (omega arith) (omega (arith, length-append front options)))
          (ap₂ (λ (a : List ℕ) (b : ℕ). done (a, some (max b 300)))
            (append_assoc front options (255 ∷ drop (suc n) rest)) (omega arith))))
  where
    options : List ℕ
    options = encode (to_opts os)

    n : ℕ
    n = length options

options_behind :
    (head out : List ℕ) (os : List (ℕ × List ℕ))
    → length head ≡ 236
    → AllSmall os
    → 240 + length (encode (to_opts os)) < length out
    → write_options (head ++ (dhcp_magic ++ drop 240 out)) os
      ≡ done (
        head
            ++ (dhcp_magic
                ++ (encode (to_opts os) ++ (255 ∷ drop (241 + length (encode (to_opts os))) out))),
        some (max (241 + length (encode (to_opts os))) 300),
      )
options_behind head out os h small fits =
    let options = encode (to_opts os) in
    ap (λ front. write_options front os) (sym (append_assoc head dhcp_magic (drop 240 out)))
    ∙ pushed (head ++ dhcp_magic) (drop 240 out) os (omega (arith, length-append head dhcp_magic))
        small (omega (arith, length-drop 240 out))
    ∙ ap (λ (bytes : List ℕ). done (bytes, some (max (241 + length options) 300)))
        (append_assoc head dhcp_magic
            (options ++ (255 ∷ drop (suc (length options)) (drop 240 out)))
          ∙ ap (λ end. head ++ (dhcp_magic ++ (options ++ (255 ∷ end))))
              (drop-drop 240 (suc (length options)) out ∙ ap (λ n. drop n out) (omega arith)))

-- The reply: head, magic number, options, end mark, and what stood in the buffer behind that.
abbrev pub reply_bytes : List ℕ → List ℕ → List ℕ → ℕ → List ℕ
reply_bytes req out yiaddr msg_type =
    let options = encode (to_opts (reply_options msg_type)) in
    reply_head (xid_of req) (granted_ip yiaddr msg_type) (chaddr_of req)
    ++ (dhcp_magic ++ (options ++ (255 ∷ drop (241 + length options) out)))

-- A request of at least 240 bytes is answered into any buffer of at least 360, with no panic: the reply
-- stands at its start and the length returned covers it.
pub write_offer_or_ack-reply_bytes :
    (req out yiaddr : List ℕ) (msg_type : ℕ)
    → 240 ≤ length req
    → 360 ≤ length out
    → length yiaddr ≡ 4
    → write_offer_or_ack req out yiaddr msg_type
      ≡ done (
        reply_bytes req out yiaddr msg_type,
        some (max (241 + length (encode (to_opts (reply_options msg_type)))) 300),
      )
unfolding write_offer_or_ack
write_offer_or_ack-reply_bytes req out yiaddr msg_type r o y =
    rw
      (
        le→ltb (length req) 240 r,
        le→ltb (length out) 360 o,
        write_header-reply_head req out yiaddr msg_type r (omega arith) y,
      )
      (options_behind (reply_head (xid_of req) (granted_ip yiaddr msg_type) (chaddr_of req)) out
        (reply_options msg_type)
        (length-reply_head (xid_of req) (granted_ip yiaddr msg_type) (chaddr_of req) [] x yi c)
        (options-AllSmall msg_type) (omega (arith, options-fit msg_type)))
  where
    x : length (xid_of req) ≡ 4
    x = omega (arith, length-take 4 (drop 4 req), length-drop 4 req)

    c : length (chaddr_of req) ≡ 16
    c = omega (arith, length-take 16 (drop 28 req), length-drop 28 req)

    yi : length (granted_ip yiaddr msg_type) ≡ 4
    yi = ground arith
