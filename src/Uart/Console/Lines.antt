-- ===== src/Uart/Console/Lines.antt =====
-- The lines of the console of examples/uart-test.rs: their buffer, and what becomes of one line.
use scoreboard_ctrl.Base.{
  ℕ, suc, ◌+◌, ◌≤◌, ◌<◌, ◌≡◌, refl, ap, ap₂, sym, ◌∙◌, true, false, ◌||◌, Option, List, [], ◌∷◌,
  ◌++◌, append_assoc, length, length-append, drop, ltb, ◌==◌, done, store-append, slice,
  slice-append, arith,
}
use scoreboard_ctrl.Uart.Host.{HostCmd, parse_line}
use scoreboard_ctrl.Uart.Console.{
  line_max, LineBuf, on_newline, on_line_byte, gather, add_command, parse_lines, Handled, on_data,
}
use scoreboard_ctrl.Uart.Console.Safe.{IsValid, handled}

abbrev pub NoNewline : List ℕ → Type 0
NoNewline [] = Unit
NoNewline (b ∷ bs) = ((b == 10 || b == 13) ≡ false) × NoNewline bs

-- The bytes of a line are added to the buffer, behind the `k` that it holds.
gather-text :
    (text pre post rest : List ℕ) (raw : List (List ℕ)) (k : ℕ)
    → NoNewline text
    → k ≡ length pre
    → length text ≤ length post
    → k + length post ≡ line_max
    → gather (text ++ rest) record { line = record { bytes = pre ++ post; len = k }; raw = raw }
      ≡ gather rest record {
        line = record { bytes = pre ++ (text ++ drop (length text) post); len = k + length text };
        raw = raw;
      }
unfolding gather on_line_byte
gather-text [] pre post rest raw k n e l s = let same : k + 0 ≡ k = omega arith in rw same refl
gather-text (b ∷ text) pre [] rest raw k n e l s = absurd (omega arith)
gather-text (b ∷ text) pre (x ∷ post) rest raw k n e l s =
    let room : ltb k line_max ≡ true = ground arith in
    let count : k + 1 + length text ≡ k + suc (length text) = omega arith in
    let more =
      gather-text text (pre ++ (b ∷ [])) post rest raw (k + 1) n.1
        (omega (arith, length-append pre (b ∷ []))) (omega arith) (omega arith) in
    rw (n.0, room, store-append pre (x ∷ post) 0 b k (omega arith) (omega arith))
      (ap
          (λ bytes.
            gather (text ++ rest)
              record { line = record { bytes = bytes; len = k + 1 }; raw = raw })
          (sym (append_assoc pre (b ∷ []) post))
        ∙ more
        ∙ ap₂
            (λ bytes len.
              gather rest record { line = record { bytes = bytes; len = len }; raw = raw })
            (append_assoc pre (b ∷ []) (text ++ drop (length text) post)) count)

gather-line :
    (text bytes : List ℕ) (raw : List (List ℕ))
    → NoNewline text
    → 0 < length text
    → length text ≤ line_max
    → length bytes ≡ line_max
    → length raw < 4
    → gather (text ++ (10 ∷ [])) record { line = record { bytes = bytes; len = 0 }; raw = raw }
      ≡ done record {
        line = record { bytes = text ++ drop (length text) bytes; len = 0 };
        raw = raw ++ (text ∷ []);
      }
unfolding gather on_line_byte on_newline
gather-line text bytes raw n p l s m =
    let some_text : (length text == 0) ≡ false = ground arith in
    let room : ltb (length raw) 4 ≡ true = ground arith in
    let cut : slice (text ++ drop (length text) bytes) 0 (length text) ≡ done text =
      slice-append [] text (drop (length text) bytes) 0 (length text) refl (omega arith) in
    gather-text text [] bytes (10 ∷ []) raw 0 n refl (omega arith) (omega arith)
    ∙ (let count : 0 + length text ≡ length text = omega arith in
        rw (count, some_text, room, cut) refl)

-- With an empty buffer, a line of at most 128 bytes and its end send the command that the line is, if it is one, and
-- nothing else, and leave the buffer empty.
pub on_data-line :
    (text : List ℕ) (boot_n : ℕ) (line : LineBuf) (c : Option HostCmd)
    → IsValid line
    → line.len ≡ 0
    → NoNewline text
    → 0 < length text
    → length text ≤ line_max
    → parse_line text ≡ done c
    → (h : Handled) × (on_data (text ++ (10 ∷ [])) boot_n line ≡ done h)
      × (h.sent ≡ add_command c [])
      × (h.line.len ≡ 0)
unfolding on_data parse_lines
on_data-line text boot_n line c v e n p l q = (
  handled (text ++ (10 ∷ [])) boot_n
      record {
        line = record { bytes = text ++ drop (length text) line.bytes; len = 0 };
        raw = text ∷ [];
      }
      (add_command c []),
  ran,
  refl,
  refl,
)
  where
    ran :
        on_data (text ++ (10 ∷ [])) boot_n line
        ≡ done (
            handled
              (text ++ (10 ∷ []))
              boot_n
              record {
                line = record { bytes = text ++ drop (length text) line.bytes; len = 0 };
                raw = text ∷ [];
              }
              (add_command c []))
    ran = rw (e, gather-line text line.bytes [] n p l v.0 (omega arith), q) refl
