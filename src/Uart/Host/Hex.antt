-- ===== src/Uart/Host/Hex.antt =====
-- The bytes of `tx` and `blast` of examples/uart-test.rs, in the text that `write_hex` of src/decode.rs writes.
use scoreboard_ctrl.Base.{
  ℕ, suc, ◌+◌, ◌*◌, ◌/◌, ◌%◌, ◌≤◌, ◌<◌, ◌≡◌, refl, ap, sym, ◌∙◌, Bool, true, false, ◌||◌, none,
  some, List, [], ◌∷◌, ◌++◌, append_assoc, append-nil, length, length-append, drop, get_or,
  replicate, ltb, leb, ◌==◌, done, store-append, slice, slice-append, copy-front, arith,
}
use scoreboard_ctrl.Decode.Hex.{digit, spaced, hex_text, AllBytes}
use scoreboard_ctrl.Uart.Host.{
  tx_max, TxBurst, from_slice, as_slice, is_ascii_whitespace, trim, unhex, on_digit, hex_loop,
  parse_hex_bytes, command_of, parse_tx_cmd,
}

pub digit_space : (n : ℕ) → n < 16 → is_ascii_whitespace (digit n) ≡ false
digit_space n h = ground arith

unhex-digit : (n : ℕ) → n < 16 → unhex (digit n) ≡ some n
unfolding unhex
unhex-digit n h = ground arith

-- Two digits are read as one byte, which is stored behind the `n` before it.
two_digits :
    (b : ℕ) (cs pre post : List ℕ) (x n : ℕ)
    → b < 256
    → n ≡ length pre
    → hex_loop (digit (b / 16) ∷ digit (b % 16) ∷ cs) (pre ++ (x ∷ post)) none n
      ≡ hex_loop cs (pre ++ (b ∷ post)) none (n + 1)
unfolding hex_loop on_digit
two_digits b cs pre post x n h e =
    let size : length (pre ++ (x ∷ post)) ≡ n + (1 + length post) =
      omega (arith, length-append pre (x ∷ post)) in
    let inside : leb (length (pre ++ (x ∷ post))) n ≡ false = ground (arith, size) in
    let byte : b / 16 * 16 + b % 16 ≡ b = omega arith in
    rw (
      digit_space (b / 16) (omega arith),
      unhex-digit (b / 16) (omega arith),
      digit_space (b % 16) (omega arith),
      unhex-digit (b % 16) (omega arith),
      inside,
      byte,
      store-append pre (x ∷ post) 0 b n (omega arith) (omega arith),
    )

hex_loop-spaced :
    (bs pre post : List ℕ) (n : ℕ)
    → AllBytes bs
    → n ≡ length pre
    → 0 < n
    → length bs ≤ length post
    → hex_loop (spaced bs) (pre ++ post) none n
      ≡ done (some (pre ++ (bs ++ drop (length bs) post), n + length bs))
unfolding hex_loop
hex_loop-spaced [] pre post n a e p l =
    let some_read : (n == 0) ≡ false = ground arith in
    let same : n + 0 ≡ n = omega arith in rw (some_read, same) refl
hex_loop-spaced (b ∷ bs) pre [] n a e p l = absurd (omega arith)
hex_loop-spaced (b ∷ bs) pre (x ∷ post) n a e p l =
    two_digits b (spaced bs) pre post x n a.0 e
    ∙ ap (λ out. hex_loop (spaced bs) out none (n + 1)) (sym (append_assoc pre (b ∷ []) post))
    ∙ hex_loop-spaced bs (pre ++ (b ∷ [])) post (n + 1) a.1
        (omega (arith, length-append pre (b ∷ []))) (omega arith) (omega arith)
    ∙ (let count : n + 1 + length bs ≡ n + suc (length bs) = omega arith in
        rw count (
          ap (λ out. done (some (out, n + suc (length bs))))
            (append_assoc pre (b ∷ []) (bs ++ drop (length bs) post))))

parse_hex_bytes-hex_text :
    (b : ℕ) (bs : List ℕ) (x : ℕ) (post : List ℕ)
    → AllBytes (b ∷ bs)
    → length bs ≤ length post
    → parse_hex_bytes (hex_text (b ∷ bs)) (x ∷ post)
      ≡ done (some (b ∷ (bs ++ drop (length bs) post), suc (length bs)))
unfolding parse_hex_bytes
parse_hex_bytes-hex_text b bs x post a l =
    two_digits b (spaced bs) [] post x 0 a.0 refl
    ∙ hex_loop-spaced bs (b ∷ []) post 1 a.1 refl (omega arith) l
    ∙ (let count : 1 + length bs ≡ suc (length bs) = omega arith in rw count refl)

-- The last of a text that is not empty.
abbrev pub last : ℕ → List ℕ → ℕ
last c [] = c
last c (d ∷ ds) = last d ds

pub get_or-last : (c : ℕ) (cs : List ℕ) → get_or (c ∷ cs) (length cs) 0 ≡ last c cs
get_or-last c [] = refl
get_or-last c (d ∷ ds) = get_or-last d ds

pub last-spaced :
    (c : ℕ) (bs : List ℕ)
    → AllBytes bs
    → is_ascii_whitespace c ≡ false
    → is_ascii_whitespace (last c (spaced bs)) ≡ false
last-spaced c [] a h = h
last-spaced c (b ∷ bs) a h =
    last-spaced (digit (b % 16)) bs a.1 (digit_space (b % 16) (omega arith))

-- A text behind a space, without spaces at its ends.
pub trim-space :
    (c : ℕ) (cs : List ℕ)
    → is_ascii_whitespace c ≡ false
    → is_ascii_whitespace (last c cs) ≡ false
    → trim (32 ∷ c ∷ cs) ≡ done (c ∷ cs)
unfolding trim
trim-space c cs h k =
    let full : get_or (c ∷ cs) (length cs) 0 ≡ last c cs = get_or-last c cs in
    let inside : ltb 1 (suc (suc (length cs))) ≡ true = ground arith in
    rw (h, full, k, inside)
      (ap (λ s. slice (32 ∷ c ∷ s) 1 (suc (suc (length cs)))) (sym (append-nil cs))
        ∙ slice-append (32 ∷ []) (c ∷ cs) [] 1 (suc (suc (length cs))) refl (omega arith))

-- The burst of these bytes.
abbrev burst_of : List ℕ → TxBurst
burst_of bytes = record {
  buf = bytes ++ drop (length bytes) (replicate tx_max 0);
  len = length bytes % 256;
}

from_slice_lem :
    (bytes : List ℕ)
    → 0 < length bytes
    → length bytes ≤ tx_max
    → from_slice bytes ≡ done (some (burst_of bytes))
unfolding from_slice
from_slice_lem bytes h k =
    let allowed : (length bytes == 0 || ltb tx_max (length bytes)) ≡ false = ground arith in
    rw
      (
        allowed,
        copy-front [] (replicate tx_max 0) bytes 0 (length bytes) refl (omega arith) (omega arith),
      )
      refl

as_slice-burst_of :
    (bytes : List ℕ) → length bytes ≤ tx_max → as_slice (burst_of bytes) ≡ done bytes
unfolding as_slice
as_slice-burst_of bytes h =
    slice-append [] bytes (drop (length bytes) (replicate tx_max 0)) 0 (length bytes % 256) refl
      (omega arith)

-- One to 64 bytes, written as `write_hex` writes them behind a space, are read by `tx` and `blast` as a burst of
-- exactly these bytes.
pub parse_tx_cmd-spaced :
    (b : ℕ) (bs : List ℕ) (is_blast : Bool)
    → AllBytes (b ∷ bs)
    → length (b ∷ bs) ≤ tx_max
    → (burst : TxBurst) × (parse_tx_cmd (b' ' ∷ hex_text (b ∷ bs)) is_blast
        ≡ done (command_of is_blast (some burst)))
      × (as_slice burst ≡ done (b ∷ bs))
unfolding parse_tx_cmd
parse_tx_cmd-spaced b bs is_blast a l = (burst_of (b ∷ bs), parsed, as_slice-burst_of (b ∷ bs) l)
  where
    rest : List ℕ
    rest = drop (length bs) (replicate 63 0)

    trimmed : trim (b' ' ∷ hex_text (b ∷ bs)) ≡ done (hex_text (b ∷ bs))
    trimmed =
        trim-space (digit (b / 16)) (digit (b % 16) ∷ spaced bs)
          (digit_space (b / 16) (omega (arith, a.0)))
          (last-spaced (digit (b % 16)) bs a.1 (digit_space (b % 16) (omega arith)))

    read :
        parse_hex_bytes (hex_text (b ∷ bs)) (replicate tx_max 0)
        ≡ done (some (b ∷ (bs ++ rest), suc (length bs)))
    read = parse_hex_bytes-hex_text b bs 0 (replicate 63 0) a (omega arith)

    cut : slice (b ∷ (bs ++ rest)) 0 (suc (length bs)) ≡ done (b ∷ bs)
    cut = slice-append [] (b ∷ bs) rest 0 (suc (length bs)) refl (omega arith)

    parsed :
        parse_tx_cmd (b' ' ∷ hex_text (b ∷ bs)) is_blast
        ≡ done (command_of is_blast (some (burst_of (b ∷ bs))))
    parsed = rw (trimmed, read, cut, from_slice_lem (b ∷ bs) (omega arith) l) refl
