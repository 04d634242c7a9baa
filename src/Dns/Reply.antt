-- ===== src/Dns/Reply.antt =====
-- The reply of `build_dns_reply` of src/net_proto.rs to a well-formed question, byte for byte.
use scoreboard_ctrl.Base.{
  ℕ, ◌+◌, ◌-◌, ◌*◌, ◌≤◌, ◌≡◌, refl, ap, ◌∙◌, true, false, ◌||◌, Bool-cases, inl, inr, some, List,
  [], ◌∷◌, ◌++◌, append_assoc, length, length-append, length-drop, drop-drop, take, drop, ltb, leb,
  ◌==◌, if◌then◌else◌, done, load-append, slice, store_lem, stores_lem, stores-cons, stores-front,
  slice-append, copy-front, arith,
}
use scoreboard_ctrl.Dhcp.{server_ip}
use scoreboard_ctrl.Dns.{
  skip_name, load_u16, write_a, write_no_data, write_reply, reply_behind, build_dns_reply,
  dns_qtype, qtype_behind,
}
use scoreboard_ctrl.Dns.Names.{End, encode_name, AllLabels, IsEnd, skip_name-encode_name}

-- The record: a pointer to the name of the question, type A, class IN, 30 seconds to live, four bytes.
abbrev pub a_record : List ℕ
a_record = 0xC0 ∷ 12 ∷ 0 ∷ 1 ∷ 0 ∷ 1 ∷ 0 ∷ 0 ∷ 0 ∷ 30 ∷ 0 ∷ 4 ∷ server_ip

-- A question of the type `hi * 256 + lo`.
abbrev pub question : List (List ℕ) → End → ℕ → ℕ → ℕ → ℕ → List ℕ
question ls end hi lo c d = encode_name ls end ++ (hi ∷ lo ∷ c ∷ d ∷ [])

-- The record that answers a question of type A, and none for another.
abbrev pub records : ℕ → List ℕ
records qtype = if qtype == 1 then a_record else []

pub load_u16-append :
    (pre rest : List ℕ) (hi lo i : ℕ)
    → i ≡ length pre
    → load_u16 (pre ++ (hi ∷ lo ∷ rest)) i ≡ done (hi * 256 + lo)
unfolding load_u16
load_u16-append pre rest hi lo i e = rw (
  load-append pre (hi ∷ lo ∷ rest) 0 i (omega arith) (omega arith),
  load-append pre (hi ∷ lo ∷ rest) 1 (i + 1) (omega arith) (omega arith),
)

-- The header of the reply, with the transaction, the bytes 4 and 5 of the query and the number of records.
abbrev pub reply_header : ℕ → ℕ → ℕ → ℕ → ℕ → List ℕ
reply_header id1 id2 n1 n2 count =
    id1 ∷ id2 ∷ 0x81 ∷ 0x80 ∷ n1 ∷ n2 ∷ 0 ∷ count ∷ 0 ∷ 0 ∷ 0 ∷ 0 ∷ []

abbrev writes : ℕ → List (ℕ × ℕ)
writes len =
    (len, 0xC0)
    ∷ (len + 1, 12)
    ∷ (len + 2, 0)
    ∷ (len + 3, 1)
    ∷ (len + 4, 0)
    ∷ (len + 5, 1)
    ∷ (len + 6, 0)
    ∷ (len + 7, 0)
    ∷ (len + 8, 0)
    ∷ (len + 9, 30)
    ∷ (len + 10, 0)
    ∷ (len + 11, 4)
    ∷ []

write_a-a_record :
    (id1 id2 n1 n2 old : ℕ) (body rest : List ℕ) (len : ℕ)
    → len ≡ 12 + length body
    → 16 ≤ length rest
    → write_a (reply_header id1 id2 n1 n2 old ++ (body ++ rest)) len
      ≡ done (reply_header id1 id2 n1 n2 1 ++ (body ++ (a_record ++ drop 16 rest)), some (len + 16))
unfolding write_a
write_a-a_record id1 id2 n1 n2 old body rest len e h =
    let head = reply_header id1 id2 n1 n2 1 in
    let front = take 12 a_record in
    let last = drop 12 rest in
    let size : length last ≡ length rest - 12 = length-drop 12 rest in
    rw
      (
        stores-cons (reply_header id1 id2 n1 n2 old ++ (body ++ rest)) 7 1 (writes len)
            (omega arith),
        stores-front (head ++ body) rest front (writes len) (omega arith) (omega arith),
        ← append_assoc body front last,
        copy-front (head ++ (body ++ front)) last server_ip (len + 12) (len + 16)
            (omega (arith, length-append body front)) (omega (arith, size)) (omega arith),
      )
      (ap (λ bytes. done (head ++ bytes, some (len + 16)))
        (append_assoc body front (server_ip ++ drop 4 last)
          ∙ ap (λ end. body ++ (a_record ++ end)) (drop-drop 12 4 rest)))

-- How many records there are.
abbrev pub count_of : ℕ → ℕ
count_of qtype = if qtype == 1 then 1 else 0

write_reply-records :
    (id1 id2 f1 f2 n1 n2 a b c d e f : ℕ) (body extra out : List ℕ) (qtype : ℕ)
    → 28 + length body ≤ length out
    → write_reply
        ((id1 ∷ id2 ∷ f1 ∷ f2 ∷ n1 ∷ n2 ∷ a ∷ b ∷ c ∷ d ∷ e ∷ f ∷ []) ++ (body ++ extra))
        out
        qtype
        (12 + length body)
      ≡ done (
        reply_header id1 id2 n1 n2 (count_of qtype)
            ++ (body ++ (records qtype ++ drop (12 + length body + length (records qtype)) out)),
        some (12 + length body + length (records qtype)),
      )
unfolding write_reply write_no_data
write_reply-records id1 id2 f1 f2 n1 n2 a b c d e f body extra out qtype h =
    let qend = 12 + length body in
    let head = id1 ∷ id2 ∷ f1 ∷ f2 ∷ n1 ∷ n2 ∷ a ∷ b ∷ c ∷ d ∷ e ∷ f ∷ [] in
    let behind = drop qend out in
    let size : length behind ≡ length out - qend = length-drop qend out in
    let same : drop (length (head ++ body)) out ≡ behind =
      let n : length (head ++ body) ≡ qend = omega arith in ap (λ k. drop k out) n in
    rw
      (
        slice-append [] (head ++ body) extra 0 qend refl (omega arith),
        copy-front [] out (head ++ body) 0 qend refl (omega arith) (omega arith),
        same,
        stores_lem ((2, 0x81) ∷ (3, 0x80) ∷ (6, 0) ∷ (8, 0) ∷ (9, 0) ∷ (10, 0) ∷ (11, 0) ∷ [])
            (head ++ (body ++ behind)) (omega arith),
      )
      (elim (Bool-cases (qtype == 1)) [
        | inl is_a ↦
            let room : leb (qend + 16) (length (reply_header id1 id2 n1 n2 b ++ (body ++ behind)))
                ≡ true =
              ground (arith, length-append body behind, size) in
            rw
              (
                is_a,
                room,
                write_a-a_record id1 id2 n1 n2 b body behind qend refl (omega (arith, size)),
              )
              (ap
                (λ end.
                  done
                    (reply_header id1 id2 n1 n2 1 ++ (body ++ (a_record ++ end)), some (qend + 16)))
                (drop-drop qend 16 out))
        | inr other ↦
            rw
              (
                other,
                store_lem (reply_header id1 id2 n1 n2 b ++ (body ++ behind)) 7 0 (omega arith),
              )
              (ap (λ k. done (reply_header id1 id2 n1 n2 0 ++ (body ++ drop k out), some k))
                (omega arith))
      ])

-- A packet with a header of twelve bytes and a well-formed question is answered, whatever stands behind the
-- question, where the buffer of the reply has room for the header, the question and the 16 bytes of a record (in
-- 512 bytes, a question of at most 484): the reply has its transaction and its question, and the address of
-- the server if the question is of type A, and else no record. `dns_qtype` reads the same type.
pub build_dns_reply-records :
    (id1 id2 f1 f2 n1 n2 a b c d e f : ℕ) (ls : List (List ℕ)) (end : End) (hi lo c1 c2 : ℕ)
    (extra beyond out : List ℕ)
    → AllLabels ls
    → IsEnd end
    → let head = id1 ∷ id2 ∷ f1 ∷ f2 ∷ n1 ∷ n2 ∷ a ∷ b ∷ c ∷ d ∷ e ∷ f ∷ [] in
      let body = question ls end hi lo c1 c2 in
      let packet = head ++ (body ++ extra) in
      let qtype = hi * 256 + lo in
      let len = 12 + length body + length (records qtype) in
      28 + length body ≤ length out
      → (build_dns_reply (packet ++ beyond) (length packet) out
          ≡ done (
            reply_header id1 id2 n1 n2 (count_of qtype)
                ++ (body ++ (records qtype ++ drop len out)),
            some len,
          ))
        × (dns_qtype (packet ++ beyond) (length packet) ≡ done (some qtype))
unfolding build_dns_reply dns_qtype reply_behind qtype_behind
build_dns_reply-records id1 id2 f1 f2 n1 n2 a b c d e f ls end hi lo c1 c2 extra beyond out al ie
      h =
    (
      rw (fits, cut, named, long, typed extra, room, qend)
          (write_reply-records id1 id2 f1 f2 n1 n2 a b c d e f body extra out (hi * 256 + lo) h),
      rw (fits, cut, named, long, whole, typed (extra ++ beyond)),
    )
  where
    head : List ℕ
    head = id1 ∷ id2 ∷ f1 ∷ f2 ∷ n1 ∷ n2 ∷ a ∷ b ∷ c ∷ d ∷ e ∷ f ∷ []

    body : List ℕ
    body = question ls end hi lo c1 c2

    packet : List ℕ
    packet = head ++ (body ++ extra)

    fits : (ltb (length packet) 12 || ltb (length (packet ++ beyond)) (length packet)) ≡ false
    fits = ground (arith, length-append packet beyond)

    cut : slice (packet ++ beyond) 0 (length packet) ≡ done packet
    cut = slice-append [] packet beyond 0 (length packet) refl (omega arith)

    named : skip_name packet 12 ≡ done (some (12 + length (encode_name ls end)))
    named =
        ap (λ p. skip_name (head ++ p) 12)
          (append_assoc (encode_name ls end) (hi ∷ lo ∷ c1 ∷ c2 ∷ []) extra)
        ∙ skip_name-encode_name head (hi ∷ lo ∷ c1 ∷ c2 ∷ extra) ls end refl al ie

    qend : 12 + length (encode_name ls end) + 4 ≡ 12 + length body
    qend = omega (arith, length-append (encode_name ls end) (hi ∷ lo ∷ c1 ∷ c2 ∷ []))

    long : ltb (length packet) (12 + length (encode_name ls end) + 4) ≡ false
    long = ground (arith, qend, length-append body extra)

    room : ltb (length out) (12 + length (encode_name ls end) + 4) ≡ false
    room = ground (arith, qend)

    typed :
        (rest : List ℕ)
        → load_u16 (head ++ (body ++ rest)) (12 + length (encode_name ls end))
          ≡ done (hi * 256 + lo)
    typed rest =
        ap (λ p. load_u16 (head ++ p) (12 + length (encode_name ls end)))
          (append_assoc (encode_name ls end) (hi ∷ lo ∷ c1 ∷ c2 ∷ []) rest)
        ∙ load_u16-append (head ++ encode_name ls end) (c1 ∷ c2 ∷ rest) hi lo
            (12 + length (encode_name ls end)) (omega arith)

    whole : packet ++ beyond ≡ head ++ (body ++ (extra ++ beyond))
    whole = ap (λ p. head ++ p) (append_assoc body extra beyond)
