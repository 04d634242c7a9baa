-- ===== src/Serial/Collect.antt =====
-- The frames in a stream of bytes, and the bytes that `read_serial` of src/main.rs skips.
use scoreboard_ctrl.Base.{
  ℕ, zero, suc, ◌+◌, ◌-◌, ◌≤◌, ◌<◌, ◌≡◌, refl, ap, true, false, Option, none, some, List, [], ◌∷◌,
  ◌++◌, Bool-cases, inl, inr, ◌==◌, if◌then◌else◌, length, length-set, length-append, take, drop,
  replicate, set, Run, done, store, store_lem, slice_lem, arith,
}
use native.Mathlib.Nat.{suc-add}
use scoreboard_ctrl.Decode.{packet_len, packet_sof, parse_clock_packet}
use scoreboard_ctrl.Decode.Hex.{AllBytes, hex_text, fitting, write_hex_lem}
use scoreboard_ctrl.Scoreboard.{Shared, set_clock}
use scoreboard_ctrl.Serial.{Line, Serial, hex_line, on_skip}

pub record IsValid (s : Serial) : Type 0 where
  pub packet_size : length s.packet_buf ≡ packet_len
  pub index : s.buf_idx < packet_len
  pub skip_size : length s.skip ≡ 16
  pub skip_index : s.skip_n < 16
  pub skip_bytes : AllBytes s.skip

-- The frames in a stream of bytes behind the first bytes of a frame: a start byte begins one, other
-- bytes are skipped, and the sixth byte ends it. Each counts at the time of its last byte.
abbrev pub collect : List ℕ → List (ℕ × ℕ) → List (ℕ × List ℕ)
collect begun [] = []
collect [] ((t, b) ∷ bytes) = collect (if b == packet_sof then b ∷ [] else []) bytes
collect (a ∷ begun) ((t, b) ∷ bytes) =
    let whole = a ∷ (begun ++ (b ∷ [])) in
    let rest = collect [] bytes in
    let longer = collect whole bytes in
    if length whole == packet_len then (t, whole) ∷ rest else longer

-- What the frames do to the shared state: those that parse set the clock.
abbrev pub frame_at : ℕ → Option (ℕ × ℕ) → Shared → Shared
frame_at now none w = w
frame_at now (some (m, s)) w = set_clock now m s w

abbrev pub show_frames : List (ℕ × List ℕ) → Shared → Shared
show_frames [] w = w
show_frames ((t, pkt) ∷ frames) w = show_frames frames (frame_at t (parse_clock_packet pkt) w)

abbrev pub begun : Serial → List ℕ
begun s = take s.buf_idx s.packet_buf

-- `s'` behind one byte is where the frames behind that byte go on.
abbrev GoesOn : ℕ → ℕ → Serial → Serial → Type 0
GoesOn now byte s s' =
    (rest : List (ℕ × ℕ))
    → show_frames (collect (begun s) ((now, byte) ∷ rest)) s.shared
      ≡ show_frames (collect (begun s') rest) s'.shared

abbrev pub Stepped : ℕ → ℕ → Serial → Run Serial → Type 0
Stepped now byte s r = (s' : Serial) × (r ≡ done s') × IsValid s' × GoesOn now byte s s'

pub AllBytes-set : (xs : List ℕ) (i v : ℕ) → AllBytes xs → v < 256 → AllBytes (set xs i v)
AllBytes-set [] i v h b = h
AllBytes-set (x ∷ xs) zero v h b = (b, h.1)
AllBytes-set (x ∷ xs) (suc i) v h b = (h.0, AllBytes-set xs i v h.1 b)

pub take-set :
    (xs : List ℕ) (i v : ℕ) → i < length xs → take (i + 1) (set xs i v) ≡ take i xs ++ (v ∷ [])
take-set [] i v h = absurd (omega arith)
take-set (x ∷ xs) zero v h = refl
take-set (x ∷ xs) (suc i) v h = rw suc-add (ap (◌∷◌ x) (take-set xs i v (omega arith)))

pub take-length : (xs : List ℕ) (n : ℕ) → n ≡ length xs → take n xs ≡ xs
take-length [] n e = ground arith
take-length (x ∷ xs) zero e = absurd (omega arith)
take-length (x ∷ xs) (suc n) e = ap (◌∷◌ x) (take-length xs n (omega arith))

module _ (q : List ℕ) (t b : ℕ) (rest : List (ℕ × ℕ)) where
  pub collect_skip :
      q ≡ [] → (b == packet_sof) ≡ false → collect q ((t, b) ∷ rest) ≡ collect [] rest
  collect_skip e h = rw (e, h)

  pub collect_sof :
      q ≡ [] → (b == packet_sof) ≡ true → collect q ((t, b) ∷ rest) ≡ collect (b ∷ []) rest
  collect_sof e h = rw (e, h)

pub collect_more :
    (q : List ℕ) (t b : ℕ) (rest : List (ℕ × ℕ))
    → 0 < length q
    → length q + 1 < packet_len
    → collect q ((t, b) ∷ rest) ≡ collect (q ++ (b ∷ [])) rest
collect_more [] t b rest h k = absurd (omega arith)
collect_more (a ∷ q) t b rest h k = ground (arith, length-append q (b ∷ []))

pub collect_whole :
    (q : List ℕ) (t b : ℕ) (rest : List (ℕ × ℕ))
    → length q + 1 ≡ packet_len
    → collect q ((t, b) ∷ rest) ≡ (t, q ++ (b ∷ [])) ∷ collect [] rest
collect_whole [] t b rest h = absurd (omega arith)
collect_whole (a ∷ q) t b rest h = ground (arith, length-append q (b ∷ []))

-- The text of a buffer never fails.
pub hex_line-done :
    (n : ℕ) (bytes : List ℕ) → AllBytes bytes → (text : List ℕ) × (hex_line n bytes ≡ done text)
unfolding hex_line
hex_line-done n bytes h =
    let out = replicate n 0 in
    let text = hex_text (take (fitting bytes out) bytes) in
    let buf = text ++ drop (length text) out in
    let fits : length text ≤ length buf =
      omega (arith, length-append text (drop (length text) out)) in
    (
      take (length text - 0) (drop 0 buf),
      rw (write_hex_lem bytes out h) (slice_lem buf 0 (length text) (omega arith) fits),
    )

pub on_skip-done :
    (byte : ℕ) (s : Serial)
    → IsValid s
    → byte < 256
    → (s' : Serial) × (on_skip byte s ≡ done s')
      × IsValid s'
      × (s'.shared ≡ s.shared)
      × (s'.buf_idx ≡ s.buf_idx)
      × (s'.packet_buf ≡ s.packet_buf)
unfolding on_skip
on_skip-done byte s v h =
    let skip' = set s.skip s.skip_n byte in
    let s' = record s { skip = skip'; skip_n = s.skip_n + 1 } in
    let all : AllBytes skip' = AllBytes-set s.skip s.skip_n byte v.skip_bytes h in
    let (text, e) = hex_line-done 47 skip' all in
    let stored : store s.skip s.skip_n byte ≡ done skip' =
      store_lem s.skip s.skip_n byte (omega arith) in
    elim (Bool-cases (s.skip_n + 1 == length skip')) [
      | inl last ↦ (
        record s' { skip_n = 0; log = Line.skipped text ∷ s.log },
        rw (stored, last, e) refl,
        ground (arith, length-set s.skip s.skip_n byte),
        refl,
        refl,
        refl,
      )
      | inr more ↦ (
        s',
        rw (stored, more) refl,
        ground (arith, length-set s.skip s.skip_n byte),
        refl,
        refl,
        refl,
      )
    ]
