-- ===== src/Mdns/Reply.antt =====
-- The reply of `write_mdns_a` of src/net_services.rs, byte for byte.
use scoreboard_ctrl.Base.{
  ℕ, ◌+◌, ◌-◌, ◌≤◌, ◌≡◌, refl, sym, ap, ap₂, ◌∙◌, some, List, [], ◌∷◌, ◌++◌, append_assoc, length,
  length-append, length-drop, take, drop, drop-drop, replicate, ltb, false, done, fill_lem,
  stores_lem, copy-front, stores-front, arith,
}
use scoreboard_ctrl.Dhcp.{server_ip}
use scoreboard_ctrl.Mdns.{write_mdns_a}

-- An answer that is authoritative, with one record.
abbrev pub reply_header : List ℕ
reply_header = 0 ∷ 0 ∷ 0x84 ∷ 0 ∷ 0 ∷ 0 ∷ 0 ∷ 1 ∷ 0 ∷ 0 ∷ 0 ∷ 0 ∷ []

-- The record behind the name: type A, class IN with the bit that flushes caches, 120 seconds to live, and an address of four
-- bytes.
abbrev pub a_record : List ℕ
a_record = 0 ∷ 1 ∷ 0x80 ∷ 1 ∷ 0 ∷ 0 ∷ 0 ∷ 120 ∷ 0 ∷ 4 ∷ server_ip

abbrev pub mdns_reply : List ℕ → List ℕ
mdns_reply name = reply_header ++ (name ++ a_record)

-- A name is answered into any buffer that has room for it and 28 bytes more: the reply stands at its start, and
-- its length is returned.
pub write_mdns_a-mdns_reply :
    (out name : List ℕ)
    → 28 + length name ≤ length out
    → write_mdns_a out name
      ≡ done (mdns_reply name ++ drop (26 + length name) out, some (26 + length name))
unfolding write_mdns_a
write_mdns_a-mdns_reply out name h =
    let l = length name in
    let body = drop 12 out in
    let behind = drop l body in
    let last = drop 10 behind in
    let size : length body ≡ length out - 12 = length-drop 12 out in
    let size' : length behind ≡ length out - (12 + l) = omega (arith, length-drop l body, size) in
    let size'' : length last ≡ length out - (22 + l) =
      omega (arith, length-drop 10 behind, size') in
    rw
      (
        fits,
        fill_lem out 12 0 (omega arith),
        stores_lem ((2, 0x84) ∷ (3, 0) ∷ (7, 1) ∷ []) (replicate 12 0 ++ body) (omega arith),
        copy-front reply_header body name 12 (12 + l) refl (omega (arith, size)) refl,
        stores-front (reply_header ++ name) behind (take 10 a_record)
            ((12 + l, 0)
              ∷ (12 + l + 1, 1)
              ∷ (12 + l + 2, 0x80)
              ∷ (12 + l + 3, 1)
              ∷ (12 + l + 4, 0)
              ∷ (12 + l + 5, 0)
              ∷ (12 + l + 6, 0)
              ∷ (12 + l + 7, 120)
              ∷ (12 + l + 8, 0)
              ∷ (12 + l + 9, 4)
              ∷ [])
            (omega arith) (omega (arith, size')),
        ← append_assoc name (take 10 a_record) last,
        copy-front (reply_header ++ (name ++ take 10 a_record)) last server_ip (12 + l + 10)
            (12 + l + 14) (omega (arith, length-append name (take 10 a_record)))
            (omega (arith, size'')) (omega arith),
      )
      (ap₂ (λ bytes len. done (reply_header ++ bytes, some len))
        (append_assoc name (take 10 a_record) (server_ip ++ drop 4 last)
          ∙ ap (λ end. name ++ (a_record ++ end)) rest
          ∙ sym (append_assoc name a_record (drop (26 + l) out)))
        (omega arith))
  where
    fits : ltb (length out) (12 + length name + 16) ≡ false
    fits = ground arith

    rest : drop 4 (drop 10 (drop (length name) (drop 12 out))) ≡ drop (26 + length name) out
    rest =
        drop-drop 10 4 (drop (length name) (drop 12 out))
        ∙ drop-drop (length name) 14 (drop 12 out)
        ∙ drop-drop 12 (length name + 14) out
        ∙ ap (λ n. drop n out) (omega arith)
