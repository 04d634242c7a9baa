-- ===== src/Dhcp/Reply/Header.antt =====
-- The first 240 bytes of what `write_offer_or_ack` of src/net_proto.rs builds.
use scoreboard_ctrl.Base.{
  ℕ, ◌+◌, ◌≤◌, ◌≡◌, refl, sym, not, Bool-cases, inl, inr, List, [], ◌∷◌, ◌++◌, append_assoc, length,
  length-append, length-take, length-drop, replicate, take, drop, done, ◌>>=◌, store_lem, stores,
  slice, slice_lem, fill_lem, copy_from_slice, copy-append, ◌==◌, if◌then◌else◌, arith,
}
use scoreboard_ctrl.Dhcp.{server_ip, dhcp_magic, dhcp_nak}
use scoreboard_ctrl.Dhcp.Reply.{write_header}

-- The first 236 bytes of a reply: the transaction number and the hardware address are the request's.
abbrev pub reply_head : List ℕ → List ℕ → List ℕ → List ℕ
reply_head xid yiaddr chaddr =
    (2 ∷ 1 ∷ 6 ∷ 0 ∷ [])
    ++ (xid
        ++ (replicate 8 0
            ++ (yiaddr ++ (server_ip ++ (replicate 4 0 ++ (chaddr ++ replicate 192 0))))))

abbrev pub xid_of : List ℕ → List ℕ
xid_of req = take 4 (drop 4 req)

abbrev pub chaddr_of : List ℕ → List ℕ
chaddr_of req = take 16 (drop 28 req)

-- No address is granted by a refusal.
abbrev pub granted_ip : List ℕ → ℕ → List ℕ
granted_ip yiaddr msg_type = if not (msg_type == dhcp_nak) then yiaddr else replicate 4 0

copy_at :
    {buf res : List ℕ} (pre seg post items : List ℕ) (a b : ℕ)
    → buf ≡ pre ++ (seg ++ post)
    → res ≡ pre ++ (items ++ post)
    → a ≡ length pre
    → length items ≡ length seg
    → b ≡ a + length items
    → copy_from_slice buf a b items ≡ done res
copy_at pre seg post items a b e f g h k = rw (e, f) (copy-append pre seg post items a b g h k)

boot_stores :
    (r : List ℕ) → stores (0 ∷ 0 ∷ 0 ∷ r) ((0, 2) ∷ (1, 1) ∷ (2, 6) ∷ []) ≡ done (2 ∷ 1 ∷ 6 ∷ r)
unfolding stores
boot_stores r = rw (
  store_lem (0 ∷ 0 ∷ 0 ∷ r) 0 2 (omega arith),
  store_lem (2 ∷ 0 ∷ 0 ∷ r) 1 1 (omega arith),
  store_lem (2 ∷ 1 ∷ 0 ∷ r) 2 6 (omega arith),
)

module _ (xid yiaddr chaddr rest : List ℕ) (x : length xid ≡ 4) (y : length yiaddr ≡ 4)
    (c : length chaddr ≡ 16) where
  abbrev boot : List ℕ
  boot = 2 ∷ 1 ∷ 6 ∷ 0 ∷ []

  abbrev gap : ℕ → List ℕ
  gap n = replicate n 0

  with_xid :
      copy_from_slice (boot ++ (gap 236 ++ rest)) 4 8 xid
      ≡ done (boot ++ (xid ++ (gap 232 ++ rest)))
  with_xid = copy_at boot (gap 4) (gap 232 ++ rest) xid 4 8 refl refl refl x (omega arith)

  with_yiaddr :
      copy_from_slice (boot ++ (xid ++ (gap 232 ++ rest))) 16 20 yiaddr
      ≡ done (boot ++ (xid ++ (gap 8 ++ (yiaddr ++ (gap 220 ++ rest)))))
  with_yiaddr =
      copy_at (boot ++ (xid ++ gap 8)) (gap 4) (gap 220 ++ rest) yiaddr 16 20 (simp append_assoc)
        (simp append_assoc) (omega (arith, length-append xid (gap 8))) y (omega arith)

  with_siaddr :
      copy_from_slice (boot ++ (xid ++ (gap 8 ++ (yiaddr ++ (gap 220 ++ rest))))) 20 24 server_ip
      ≡ done (boot ++ (xid ++ (gap 8 ++ (yiaddr ++ (server_ip ++ (gap 216 ++ rest))))))
  with_siaddr =
      copy_at (boot ++ (xid ++ (gap 8 ++ yiaddr))) (gap 4) (gap 216 ++ rest) server_ip 20 24
        (simp append_assoc) (simp append_assoc) (omega (arith, length-append xid (gap 8 ++ yiaddr)))
        refl refl

  with_chaddr :
      copy_from_slice
        (boot ++ (xid ++ (gap 8 ++ (yiaddr ++ (server_ip ++ (gap 216 ++ rest))))))
        28
        44
        chaddr
      ≡ done (
          boot
          ++ (xid
              ++ (gap 8 ++ (yiaddr ++ (server_ip ++ (gap 4 ++ (chaddr ++ (gap 196 ++ rest))))))))
  with_chaddr =
      copy_at (boot ++ (xid ++ (gap 8 ++ (yiaddr ++ (server_ip ++ gap 4))))) (gap 16)
        (gap 196 ++ rest) chaddr 28 44 (simp append_assoc) (simp append_assoc)
        (omega (
          arith,
          length-append xid (gap 8 ++ (yiaddr ++ (server_ip ++ gap 4))),
          length-append yiaddr (server_ip ++ gap 4),
        ))
        c (omega arith)

  pub length-reply_head : length (reply_head xid yiaddr chaddr) ≡ 236
  length-reply_head = omega (
    arith,
    length-append xid (gap 8 ++ (yiaddr ++ (server_ip ++ (gap 4 ++ (chaddr ++ gap 192))))),
    length-append yiaddr (server_ip ++ (gap 4 ++ (chaddr ++ gap 192))),
    length-append chaddr (gap 192),
  )

  with_magic :
      copy_from_slice
        (boot
          ++ (xid
              ++ (gap 8 ++ (yiaddr ++ (server_ip ++ (gap 4 ++ (chaddr ++ (gap 196 ++ rest))))))))
        236
        240
        dhcp_magic
      ≡ done (reply_head xid yiaddr chaddr ++ (dhcp_magic ++ rest))
  with_magic =
      copy_at (reply_head xid yiaddr chaddr) (gap 4) rest dhcp_magic 236 240 (simp append_assoc)
        refl (sym length-reply_head) refl refl

pub write_header-reply_head :
    (req out yiaddr : List ℕ) (msg_type : ℕ)
    → 240 ≤ length req
    → 240 ≤ length out
    → length yiaddr ≡ 4
    → write_header req out yiaddr msg_type
      ≡ done (
          reply_head (xid_of req) (granted_ip yiaddr msg_type) (chaddr_of req)
          ++ (dhcp_magic ++ drop 240 out))
unfolding write_header
write_header-reply_head req out yiaddr msg_type r o y =
    rw
      (
        fill_lem out 240 0 o,
        boot_stores (replicate 237 0 ++ drop 240 out),
        slice_lem req 4 8 (omega arith) (omega arith),
        with_xid (xid_of req) yiaddr (chaddr_of req) (drop 240 out) x y c,
      )
      (elim (Bool-cases (msg_type == dhcp_nak)) [
        | inl refused ↦ rw refused (rest (replicate 4 0) refl)
        | inr granted ↦
            rw (granted, with_yiaddr (xid_of req) yiaddr (chaddr_of req) (drop 240 out) x y c)
              (rest yiaddr y)
      ])
  where
    x : length (xid_of req) ≡ 4
    x = omega (arith, length-take 4 (drop 4 req), length-drop 4 req)

    c : length (chaddr_of req) ≡ 16
    c = omega (arith, length-take 16 (drop 28 req), length-drop 28 req)

    rest :
        (yi : List ℕ)
        → length yi ≡ 4
        → (copy_from_slice
              ((2 ∷ 1 ∷ 6 ∷ 0 ∷ [])
                ++ (xid_of req ++ (replicate 8 0 ++ (yi ++ (replicate 220 0 ++ drop 240 out)))))
              20
              24
              server_ip
            >>= λ o5. slice req 28 44 >>= λ chaddr.
                copy_from_slice o5 28 44 chaddr >>= λ o6. copy_from_slice o6 236 240 dhcp_magic)
          ≡ done (reply_head (xid_of req) yi (chaddr_of req) ++ (dhcp_magic ++ drop 240 out))
    rest yi y' = rw (
      with_siaddr (xid_of req) yi (chaddr_of req) (drop 240 out) x y' c,
      slice_lem req 28 44 (omega arith) (omega arith),
      with_chaddr (xid_of req) yi (chaddr_of req) (drop 240 out) x y' c,
      with_magic (xid_of req) yi (chaddr_of req) (drop 240 out) x y' c,
    )
