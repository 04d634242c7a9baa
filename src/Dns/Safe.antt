-- ===== src/Dns/Safe.antt =====
-- The DNS server of src/net_proto.rs and src/net_services.rs on any packet: panics and lengths.
use scoreboard_ctrl.Base.{
  ℕ, zero, suc, ◌+◌, ◌-◌, ◌/◌, ◌≤◌, ◌<◌, ◌≡◌, refl, ◌∙◌, ◌&&◌, ◌||◌, Bool-cases, inl, inr, Option,
  none, some, List, [], ◌∷◌, ltb, leb, ◌==◌, length, length-set, length-take, length-drop,
  length-append, ◌++◌, drop, replicate, take, set, get_or, Run, done, ◌>>=◌, load_lem, store_lem,
  stores, slice_lem, copy_from_slice, copy_from_slice_lem, Total, total, Total-done, Total-if,
  arith,
}
use scoreboard_ctrl.Dhcp.{server_ip}
use scoreboard_ctrl.Dns.{
  skip_label, skip_from, skip_name, load_u16, write_a, write_no_data, write_reply, reply_behind,
  build_dns_reply, sent_reply, on_query,
}

skip_from-Total : (fuel : ℕ) (q : List ℕ) (i : ℕ) → Total (skip_from fuel q i)
unfolding skip_from skip_label
skip_from-Total zero q i = Total-done none
skip_from-Total (suc fuel) q i =
    Total-if (leb (length q) i) _ _ (λ _. Total-done none)
      λ h. rw (load_lem q i (ground arith)) (
        Total-if (get_or q i 0 == 0) _ _ (λ _. Total-done _)
          (λ _.
            Total-if (get_or q i 0 / 64 == 3) _ _ (λ _. Total-done _)
              (λ _.
                Total-if (ltb (length q) (i + (1 + get_or q i 0))) _ _ (λ _. Total-done _)
                  (λ _. skip_from-Total fuel q (i + (1 + get_or q i 0))))))

pub skip_name-Total : (q : List ℕ) (i : ℕ) → Total (skip_name q i)
unfolding skip_name
skip_name-Total q i = skip_from-Total (length q) q i

pub load_u16-Total : (q : List ℕ) (i : ℕ) → i + 1 < length q → Total (load_u16 q i)
unfolding load_u16
load_u16-Total q i h = rw (load_lem q i (omega arith), load_lem q (i + 1) h) (Total-done _)

-- The code ends, with a buffer of length `n`.
pub data Sized (n : ℕ) (r : Run (List ℕ)) : Type 0 where
  sized : (o : List ℕ) → r ≡ done o → length o ≡ n → Sized n r

abbrev AllBelow : ℕ → List (ℕ × ℕ) → Type 0
AllBelow n [] = Unit
AllBelow n ((i, v) ∷ ws) = (i < n) × AllBelow n ws

stores-Sized :
    (ws : List (ℕ × ℕ)) (buf : List ℕ) (n : ℕ)
    → length buf ≡ n
    → AllBelow n ws
    → Sized n (stores buf ws)
unfolding stores
stores-Sized [] buf n e a = sized buf refl e
stores-Sized ((i, v) ∷ ws) buf n e a =
    rw (store_lem buf i v (omega arith))
      (stores-Sized ws (set buf i v) n (length-set buf i v ∙ e) a.1)

copy_from_slice-Sized :
    (buf items : List ℕ) (a b n : ℕ)
    → length buf ≡ n
    → b ≤ n
    → b ≡ a + length items
    → Sized n (copy_from_slice buf a b items)
copy_from_slice-Sized buf items a b n e h f =
    sized _ (copy_from_slice_lem buf a b items (omega arith) (omega arith) (omega arith)) (
      omega (
        arith,
        length-append (take a buf) (items ++ drop (a + length items) buf),
        length-append items (drop (a + length items) buf),
        length-take a buf,
        length-drop (a + length items) buf,
      ))

abbrev pub InRange : Option ℕ → ℕ → Type 0
InRange none n = Unit
InRange (some len) n = len ≤ n

-- The code ends, with a buffer of length `n` and a length that is in range of it.
pub data Replied (n : ℕ) (r : Run (List ℕ × Option ℕ)) : Type 0 where
  replied :
      (o : List ℕ) (len : Option ℕ) → r ≡ done (o, len) → length o ≡ n → InRange len n → Replied n r

abbrev sent_length : Option (List ℕ) → ℕ
sent_length none = 0
sent_length (some bytes) = length bytes

-- The code ends, and sends at most `n` bytes.
pub data AtMost (n : ℕ) (r : Run (Option (List ℕ))) : Type 0 where
  at_most : (sent : Option (List ℕ)) → r ≡ done sent → sent_length sent ≤ n → AtMost n r

-- A step that keeps the length of the buffer, and what follows it.
behind-Replied :
    (n : ℕ) (m : Run (List ℕ)) (f : List ℕ → Run (List ℕ × Option ℕ))
    → Sized n m
    → ((o : List ℕ) → length o ≡ n → Replied n (f o))
    → Replied n (m >>= f)
behind-Replied n m f (sized o e l) t = rw e (t o l)

write_a-Replied :
    (out : List ℕ) (len n : ℕ)
    → length out ≡ n
    → 12 ≤ len
    → len + 16 ≤ n
    → Replied n (write_a out len)
unfolding write_a
write_a-Replied out len n e low high =
    behind-Replied n (stores out _) _ (stores-Sized _ out n e (omega arith)) (λ a la.
      behind-Replied n (copy_from_slice a (len + 12) (len + 16) server_ip) _
        (copy_from_slice-Sized a server_ip (len + 12) (len + 16) n la high (omega arith))
        (λ b lb. replied b (some (len + 16)) refl lb high))

write_no_data-Replied :
    (out : List ℕ) (len n : ℕ)
    → length out ≡ n
    → 12 ≤ len
    → len ≤ n
    → Replied n (write_no_data out len)
unfolding write_no_data
write_no_data-Replied out len n e low high =
    rw (store_lem out 7 0 (omega arith))
      (replied (set out 7 0) (some len) refl (length-set out 7 0 ∙ e) high)

write_reply-Replied :
    (q out : List ℕ) (qtype qend n : ℕ)
    → length out ≡ n
    → 16 ≤ qend
    → qend ≤ length q
    → qend ≤ n
    → Replied n (write_reply q out qtype qend)
unfolding write_reply
write_reply-Replied q out qtype qend n e low inside high =
    rw (slice_lem q 0 qend (omega arith) inside) (
      behind-Replied n (copy_from_slice out 0 qend (take (qend - 0) (drop 0 q))) _
        (copy_from_slice-Sized out (take (qend - 0) q) 0 qend n e high
          (omega (arith, length-take (qend - 0) q)))
        (λ a la. behind-Replied n (stores a _) _ (stores-Sized _ a n la (omega arith)) (λ b lb.
          elim (Bool-cases (qtype == 1 && leb (qend + 16) (length b))) [
            | inl room ↦ rw room (write_a-Replied b qend n lb (omega arith) (ground arith))
            | inr small ↦ rw small (write_no_data-Replied b qend n lb (omega arith) high)
          ])))

-- A name ends behind its first byte.
skip_from_ge : (fuel : ℕ) (q : List ℕ) (i e : ℕ) → skip_from fuel q i ≡ done (some e) → i + 1 ≤ e
unfolding skip_from skip_label
skip_from_ge zero q i e h = absurd (ground arith)
skip_from_ge (suc fuel) q i e h = elim (Bool-cases (leb (length q) i)) [
  | inl out ↦ absurd (ground arith)
  | inr inside ↦
      ground (arith, load_lem q i (ground arith), skip_from_ge fuel q (i + (1 + get_or q i 0)) e)
]

reply_behind-Replied :
    (q out : List ℕ) (n : ℕ) (name_end : Option ℕ)
    → length q ≡ n
    → skip_name q 12 ≡ done name_end
    → Replied (length out) (reply_behind q n out name_end)
unfolding reply_behind skip_name
reply_behind-Replied q out n none e h = replied out none refl refl tt
reply_behind-Replied q out n (some name_end) e h = elim (Bool-cases (ltb n (name_end + 4))) [
  | inl short ↦ rw short (replied out none refl refl tt)
  | inr long ↦ rw long (elim (load_u16-Total q name_end (ground arith)) [
    | total qtype eq ↦ rw eq (elim (Bool-cases (ltb (length out) (name_end + 4))) [
      | inl small ↦ rw small (replied out none refl refl tt)
      | inr fits ↦ rw fits (
          write_reply-Replied q out qtype (name_end + 4) (length out) refl
            (omega (arith, skip_from_ge (length q) q 12 name_end h)) (ground arith) (ground arith))
    ])
  ])
]

-- Whatever the query and the buffer hold, a reply is built without a panic; the buffer keeps its length,
-- and the length of the reply is at most that.
pub build_dns_reply-Replied :
    (query : List ℕ) (n : ℕ) (out : List ℕ) → Replied (length out) (build_dns_reply query n out)
unfolding build_dns_reply
build_dns_reply-Replied query n out = elim (Bool-cases (ltb n 12 || ltb (length query) n)) [
  | inl bad ↦ rw bad (replied out none refl refl tt)
  | inr good ↦
      rw (good, slice_lem query 0 n (omega arith) (ground arith))
        (elim (skip_name-Total (take (n - 0) query) 12) [
          | total name_end e ↦ rw e (
              reply_behind-Replied (take (n - 0) query) out n name_end
                (ground (arith, length-take (n - 0) query)) e)
        ])
]

-- No packet makes `dns_task` panic, and what it sends is at most 512 bytes.
pub on_query-AtMost : (pkt : List ℕ) (n : ℕ) → AtMost 512 (on_query pkt n)
unfolding on_query sent_reply
on_query-AtMost pkt n = elim (build_dns_reply-Replied pkt n (replicate 512 0)) [
  | replied o none e size inside ↦ rw e (at_most none refl (omega arith))
  | replied o (some len) e size inside ↦
      rw (e, slice_lem o 0 len (omega arith) (omega arith))
        (at_most (some (take (len - 0) o)) refl (omega (arith, length-take (len - 0) o)))
]
