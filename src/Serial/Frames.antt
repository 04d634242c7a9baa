-- ===== src/Serial/Frames.antt =====
-- The framing of the UART's bytes by `read_serial` of src/main.rs.
use scoreboard_ctrl.Base.{
  ℕ, ◌+◌, ◌-◌, ◌/◌, ◌<◌, ◌≡◌, refl, sym, ap, ap₂, ◌∙◌, true, Option, none, some, List, [], ◌∷◌,
  ◌++◌, Bool-cases, inl, inr, ◌==◌, ==_iff, ltb, leb, length, length-set, length-take, take, set,
  done, store, store_lem, arith,
}
use scoreboard_ctrl.Decode.{packet_len, packet_sof, parse_clock_packet}
use scoreboard_ctrl.Decode.Hex.{AllBytes}
use scoreboard_ctrl.Serial.{
  Line, Serial, on_packet, on_body, on_sof, on_byte, bytes_of, feed, on_read, on_error,
}
use scoreboard_ctrl.Serial.Collect.{
  IsValid, collect, frame_at, show_frames, begun, Stepped, take-set, take-length, collect_skip,
  collect_sof, collect_more, collect_whole, hex_line-done, on_skip-done,
}

on_sof-Stepped :
    (now byte : ℕ) (s : Serial)
    → IsValid s
    → s.buf_idx ≡ 0
    → (byte == packet_sof) ≡ true
    → Stepped now byte s (on_sof byte s)
unfolding on_sof
on_sof-Stepped now byte s v z e =
    let packet' = set s.packet_buf 0 byte in
    let one : take 1 packet' ≡ byte ∷ [] = take-set s.packet_buf 0 byte (omega arith) in
    let none_begun : begun s ≡ [] = ap (λ n. take n s.packet_buf) z in
    (
      record s { packet_buf = packet'; buf_idx = 1 },
      rw (store_lem s.packet_buf 0 byte (omega arith)) refl,
      ground (arith, length-set s.packet_buf 0 byte),
      λ rest.
          ap (λ f. show_frames f s.shared)
            (collect_sof (begun s) now byte rest none_begun e ∙ ap (λ q. collect q rest) (sym one)),
    )

on_packet-kept :
    (now : ℕ) (s : Serial) (o : Option (ℕ × ℕ))
    → ((on_packet now s o).shared ≡ frame_at now o s.shared)
      × ((on_packet now s o).buf_idx ≡ s.buf_idx)
      × ((on_packet now s o).packet_buf ≡ s.packet_buf)
      × ((on_packet now s o).skip ≡ s.skip)
      × ((on_packet now s o).skip_n ≡ s.skip_n)
unfolding on_packet
on_packet-kept now s none = ground arith
on_packet-kept now s (some (m, k)) = ground arith

on_packet-IsValid :
    (now : ℕ) (s : Serial) (o : Option (ℕ × ℕ)) → IsValid s → IsValid (on_packet now s o)
unfolding on_packet
on_packet-IsValid now s none v = v
on_packet-IsValid now s (some (m, k)) v = ground arith

on_body-Stepped :
    (now byte : ℕ) (s : Serial)
    → IsValid s
    → 0 < s.buf_idx
    → Stepped now byte s (on_body now byte s)
unfolding on_body
on_body-Stepped now byte s v z = elim (Bool-cases (ltb (s.buf_idx + 1) packet_len)) [
  | inl more ↦ (
    s',
    rw (stored, more) refl,
    ground (arith, sized),
    λ rest.
        ap (λ f. show_frames f s.shared)
          (collect_more (begun s) now byte rest (omega (arith, begun_size))
              (ground (arith, begun_size))
            ∙ ap (λ q. collect q rest) (sym longer)),
  )
  | inr last ↦
      let kept = on_packet-kept now full (parse_clock_packet packet') in
      let whole : begun s ++ (byte ∷ []) ≡ packet' =
        sym longer ∙ take-length packet' (s.buf_idx + 1) (ground (arith, sized)) in
      let five : length (begun s) + 1 ≡ packet_len = ground (arith, begun_size) in
      let none_begun : begun (on_packet now full (parse_clock_packet packet')) ≡ [] =
        ap (λ n. take n (on_packet now full (parse_clock_packet packet')).packet_buf) kept.1 in
      (
        on_packet now full (parse_clock_packet packet'),
        rw (stored, last) refl,
        on_packet-IsValid now full (parse_clock_packet packet') (ground (arith, sized)),
        λ rest.
            ap (λ f. show_frames f s.shared)
              (collect_whole (begun s) now byte rest five
                ∙ ap (λ q. (now, q) ∷ collect [] rest) whole)
            ∙ ap₂ (λ q w. show_frames (collect q rest) w) (sym none_begun) (sym kept.0),
      )
]
  where
    packet' : List ℕ
    packet' = set s.packet_buf s.buf_idx byte

    s' : Serial
    s' = record s { packet_buf = packet'; buf_idx = s.buf_idx + 1 }

    full : Serial
    full = record s { packet_buf = packet'; buf_idx = 0 }

    stored : store s.packet_buf s.buf_idx byte ≡ done packet'
    stored = store_lem s.packet_buf s.buf_idx byte (omega arith)

    sized : length packet' ≡ length s.packet_buf
    sized = length-set s.packet_buf s.buf_idx byte

    longer : take (s.buf_idx + 1) packet' ≡ begun s ++ (byte ∷ [])
    longer = take-set s.packet_buf s.buf_idx byte (omega arith)

    begun_size : length (begun s) ≡ s.buf_idx
    begun_size = omega (arith, length-take s.buf_idx s.packet_buf)

on_byte-Stepped :
    (now byte : ℕ) (s : Serial) → IsValid s → byte < 256 → Stepped now byte s (on_byte now byte s)
unfolding on_byte
on_byte-Stepped now byte s v h = elim (Bool-cases (s.buf_idx == 0)) [
  | inl z ↦ elim (Bool-cases (byte == packet_sof)) [
    | inl e ↦ rw (z, e) (on_sof-Stepped now byte s v (ground arith) e)
    | inr e ↦
        rw (z, e)
          (let (s', r, v', w, i, p) = on_skip-done byte s v h in
            (
              s',
              r,
              v',
              λ rest.
                  ap (λ f. show_frames f s.shared)
                    (collect_skip (begun s) now byte rest
                      (ap (λ n. take n s.packet_buf) ((==_iff s.buf_idx 0).0 z)) e)
                  ∙ ap₂ (λ q w'. show_frames (collect q rest) w')
                      (sym (ap (λ n. take n s'.packet_buf) (i ∙ (==_iff s.buf_idx 0).0 z))) (sym w),
            ))
  ]
  | inr nz ↦ rw nz (on_body-Stepped now byte s v (ground arith))
]

feed_frames :
    (bytes : List (ℕ × ℕ)) (s : Serial)
    → IsValid s
    → AllBytes (bytes_of bytes)
    → (s' : Serial) × (feed bytes s ≡ done s')
      × IsValid s'
      × (s'.shared ≡ show_frames (collect (begun s) bytes) s.shared)
unfolding feed
feed_frames [] s v h = (s, refl, v, refl)
feed_frames ((now, byte) ∷ bytes) s v h =
    let (s', r, v', on) = on_byte-Stepped now byte s v h.0 in
    let (t, r', vt, w) = feed_frames bytes s' v' h.1 in (t, rw r r', vt, w ∙ sym (on bytes))

-- Whatever bytes a read of the UART delivers, the reader never panics and keeps its indices within its
-- buffers. The shared state is then as the frames among those bytes leave it, one after the other; the
-- first of them may have begun in an earlier read. A read error only drops a frame that has begun.
pub read_frames :
    (now : ℕ) (bytes : List (ℕ × ℕ)) (s : Serial)
    → IsValid s
    → AllBytes (bytes_of bytes)
    → ((s' : Serial) × (on_read now bytes s ≡ done s')
        × IsValid s'
        × (s'.shared ≡ show_frames (collect (begun s) bytes) s.shared))
      × IsValid (on_error s)
      × (begun (on_error s) ≡ [])
      × ((on_error s).shared ≡ s.shared)
unfolding on_read on_error
read_frames now bytes s v h = (
  elim (Bool-cases (leb 2000 ((now - s.last_raw) / 1000))) [
    | inl late ↦
        let (text, e) = hex_line-done 95 (bytes_of bytes) h in
        let (t, r, vt, w) =
          feed_frames bytes (record s { last_raw = now; log = Line.raw text ∷ s.log })
            (ground arith) h in
        (t, rw (late, e) r, vt, w)
    | inr early ↦ let (t, r, vt, w) = feed_frames bytes s v h in (t, rw early r, vt, w)
  ],
  ground arith,
  refl,
  refl,
)
