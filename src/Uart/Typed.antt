-- ===== src/Uart/Typed.antt =====
-- From a line typed at the console of examples/uart-test.rs to the bytes on the UART.
use scoreboard_ctrl.Base.{
  ℕ, zero, suc, ◌-◌, ◌*◌, ◌/◌, ◌%◌, ◌≤◌, ◌<◌, ◌≡◌, refl, ap, sym, ◌∙◌, true, false, Bool-cases, inl,
  inr, ◌||◌, some, List, [], ◌∷◌, ◌++◌, append-nil, length, length-append, drop, get_or, ltb, leb,
  ◌==◌, codes, all_same, to_lower, eq_ignore_ascii_case, done, slice, slice-append, arith,
}
use scoreboard_ctrl.Decode.Hex.{digit, spaced, AllBytes}
use scoreboard_ctrl.Uart.Host.{
  TxBurst, tx, is_ascii_whitespace, trim, cmd_eq, parse_words, parse_tx_cmd, parse_line,
}
use scoreboard_ctrl.Uart.Console.{LineBuf, Handled, on_data}
use scoreboard_ctrl.Uart.Console.Safe.{IsValid}
use scoreboard_ctrl.Uart.Console.Lines.{NoNewline, on_data-line}
use scoreboard_ctrl.Uart.Send.{Tx, Env, write_all, after_millis, send_burst}
use scoreboard_ctrl.Uart.Send.Commands.{on_command}
use scoreboard_ctrl.Uart.Host.Hex.{digit_space, last, get_or-last, last-spaced, parse_tx_cmd-spaced}

-- Texts of the same length differ where the byte before their last two does.
all_same-differ :
    (xs ys : List ℕ) (a b c x y z : ℕ)
    → length xs ≡ length ys
    → (to_lower a == to_lower x) ≡ false
    → all_same (xs ++ (a ∷ b ∷ c ∷ [])) (ys ++ (x ∷ y ∷ z ∷ [])) ≡ false
all_same-differ [] [] a b c x y z e h = rw h refl
all_same-differ [] (v ∷ ys) a b c x y z e h = absurd (omega arith)
all_same-differ (u ∷ xs) [] a b c x y z e h = absurd (omega arith)
all_same-differ (u ∷ xs) (v ∷ ys) a b c x y z e h =
    rw (all_same-differ xs ys a b c x y z (omega arith) h) (ground arith)

eq_ignore_ascii_case-differ :
    (xs ys : List ℕ) (a b c x y z : ℕ)
    → (to_lower a == to_lower x) ≡ false
    → eq_ignore_ascii_case (xs ++ (a ∷ b ∷ c ∷ [])) (ys ++ (x ∷ y ∷ z ∷ [])) ≡ false
eq_ignore_ascii_case-differ xs ys a b c x y z h =
    elim (Bool-cases (length (xs ++ (a ∷ b ∷ c ∷ [])) == length (ys ++ (x ∷ y ∷ z ∷ [])))) [
      | inl e ↦
          rw
            (
              e,
              all_same-differ xs ys a b c x y z
                  (ground
                    (arith, length-append xs (a ∷ b ∷ c ∷ []), length-append ys (x ∷ y ∷ z ∷ [])))
                  h,
            )
            refl
      | inr e ↦ rw e refl
    ]

drop-front : (k : ℕ) (xs ys : List ℕ) → k ≤ length xs → drop k (xs ++ ys) ≡ drop k xs ++ ys
drop-front zero xs ys h = refl
drop-front (suc k) [] ys h = absurd (omega arith)
drop-front (suc k) (x ∷ xs) ys h = drop-front k xs ys (omega arith)

-- The line does not end with the name.
cmd_eq-differ :
    (xs ys : List ℕ) (a b c x y z : ℕ)
    → (to_lower a == to_lower x) ≡ false
    → cmd_eq (xs ++ (a ∷ b ∷ c ∷ [])) (ys ++ (x ∷ y ∷ z ∷ [])) ≡ false
unfolding cmd_eq
cmd_eq-differ xs ys a b c x y z h =
    let line = xs ++ (a ∷ b ∷ c ∷ []) in
    let name = ys ++ (x ∷ y ∷ z ∷ []) in
    let k = length line - length name in
    let short : k ≤ length xs =
      omega (arith, length-append xs (a ∷ b ∷ c ∷ []), length-append ys (x ∷ y ∷ z ∷ [])) in
    rw
      (
        eq_ignore_ascii_case-differ xs ys a b c x y z h,
        drop-front k xs (a ∷ b ∷ c ∷ []) short,
        eq_ignore_ascii_case-differ (drop k xs) ys a b c x y z h,
      )
      (ground arith)

-- The bytes as text end with a space and two digits.
spaced-end :
    (b : ℕ) (bs : List ℕ)
    → (front : List ℕ) × (y : ℕ) × (z : ℕ) × (spaced (b ∷ bs) ≡ front ++ (b' ' ∷ y ∷ z ∷ []))
spaced-end b [] = ([], digit (b / 16), digit (b % 16), refl)
spaced-end b (c ∷ bs) =
    let (front, y, z, e) = spaced-end c bs in
    (
      b' ' ∷ digit (b / 16) ∷ digit (b % 16) ∷ front,
      y,
      z,
      ap (λ s. b' ' ∷ digit (b / 16) ∷ digit (b % 16) ∷ s) e,
    )

-- A text without spaces at its ends.
trim-plain :
    (c : ℕ) (cs : List ℕ)
    → is_ascii_whitespace c ≡ false
    → is_ascii_whitespace (last c cs) ≡ false
    → trim (c ∷ cs) ≡ done (c ∷ cs)
unfolding trim
trim-plain c cs h k =
    let full : get_or (c ∷ cs) (length cs) 0 ≡ last c cs = get_or-last c cs in
    let inside : ltb 0 (suc (length cs)) ≡ true = ground arith in
    rw (h, full, k, inside)
      (ap (λ s. slice (c ∷ s) 0 (suc (length cs))) (sym (append-nil cs))
        ∙ slice-append [] (c ∷ cs) [] 0 (suc (length cs)) refl (omega arith))

-- `tx` and the bytes.
abbrev pub tx_line : List ℕ → List ℕ
tx_line bytes = codes "tx" ++ spaced bytes

no_name :
    (b : ℕ) (bs ys : List ℕ) (x y z : ℕ)
    → (to_lower b' ' == to_lower x) ≡ false
    → cmd_eq (tx_line (b ∷ bs)) (ys ++ (x ∷ y ∷ z ∷ [])) ≡ false
no_name b bs ys x y z h =
    let (front, u, v, e) = spaced-end b bs in
    ap (λ s. cmd_eq (b't' ∷ b'x' ∷ s) (ys ++ (x ∷ y ∷ z ∷ []))) e
    ∙ cmd_eq-differ (b't' ∷ b'x' ∷ front) ys b' ' u v x y z h

parse_line-tx_line :
    (b : ℕ) (bs : List ℕ)
    → AllBytes (b ∷ bs)
    → parse_line (tx_line (b ∷ bs)) ≡ parse_tx_cmd (spaced (b ∷ bs)) false
unfolding parse_line parse_words
parse_line-tx_line b bs a =
    rw
      (
        trim-plain b't' (b'x' ∷ spaced (b ∷ bs)) refl
            (last-spaced (digit (b % 16)) bs a.1 (digit_space (b % 16) (omega arith))),
        no_name b bs (b'h' ∷ []) b'e' b'l' b'p' refl,
        no_name b bs (codes "rep") b'l' b'a' b'y' refl,
        no_name b bs (codes "pr") b'o' b'b' b'e' refl,
        no_name b bs (b'h' ∷ []) b'u' b'n' b't' refl,
        no_name b bs (codes "lis") b't' b'e' b'n' refl,
        nonempty,
        two,
      )
      refl
  where
    nonempty : (suc (suc (length (spaced (b ∷ bs)))) == 0) ≡ false
    nonempty = ground arith

    two : leb 2 (suc (suc (length (spaced (b ∷ bs))))) ≡ true
    two = ground arith

digit_newline : (n : ℕ) → n < 16 → (digit n == 10 || digit n == 13) ≡ false
digit_newline n h = ground arith

spaced-NoNewline : (bs : List ℕ) → AllBytes bs → NoNewline (spaced bs)
spaced-NoNewline [] a = tt
spaced-NoNewline (b ∷ bs) a = (
  refl,
  (
    digit_newline (b / 16) (omega (arith, a.0)),
    (digit_newline (b % 16) (omega arith), spaced-NoNewline bs a.1),
  ),
)

length-spaced : (bs : List ℕ) → length (spaced bs) ≡ 3 * length bs
length-spaced [] = refl
length-spaced (b ∷ bs) = omega (arith, length-spaced bs)

-- Where the buffer of the line is empty, a line `tx` with one to 42 bytes in hex sends one command, and at this command
-- `uart_tx_task` writes exactly these bytes, and then waits 300 ms, if the write succeeds.
pub typed_sent :
    (b : ℕ) (bs : List ℕ) (boot_n : ℕ) (line : LineBuf) (env : Env) (t : Tx)
    → AllBytes (b ∷ bs)
    → length (b ∷ bs) ≤ 42
    → IsValid line
    → line.len ≡ 0
    → env.ok t.writes ≡ true
    → (h : Handled) × (burst : TxBurst) × (on_data (tx_line (b ∷ bs) ++ (10 ∷ [])) boot_n line
        ≡ done h)
      × (h.sent ≡ tx burst ∷ [])
      × (on_command env (tx burst) t ≡ done (after_millis 300 (write_all (b ∷ bs) t)))
unfolding on_command send_burst
typed_sent b bs boot_n line env t a l v e k =
    let (burst, parsed, held) = parse_tx_cmd-spaced b bs false a (omega arith) in
    let (h, ran, sent, _) =
      on_data-line (tx_line (b ∷ bs)) boot_n line (some (tx burst)) v e
        (refl, (refl, spaced-NoNewline (b ∷ bs) a)) (omega arith) (omega (arith, length-spaced bs))
        (parse_line-tx_line b bs a ∙ parsed) in
    (h, burst, ran, sent, rw (held, k) refl)
