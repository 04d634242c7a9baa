-- ===== src/Uart/Host/Safe.antt =====
-- The parser of examples/uart-test.rs on any line: panics.
use scoreboard_ctrl.Base.{
  ℕ, zero, suc, ◌+◌, ◌-◌, ◌*◌, ◌≤◌, ◌≡◌, refl, Bool, true, false, ◌&&◌, ◌||◌, Bool-cases, inl, inr,
  Option, none, some, List, [], ◌∷◌, length, length-set, take, drop, get_or, replicate, ltb, leb,
  ◌==◌, if◌then◌else◌, codes, eq_ignore_ascii_case, Run, done, panicked, ◌>>=◌, store_lem,
  slice_lem, copy_from_slice_lem, Total, total, Total-done, Total-bind, Total-if, arith,
}
use scoreboard_ctrl.Uart.Host.{
  cmd_eq, tx_max, from_slice, is_ascii_whitespace, trim_start, trim_end, trim, unhex, on_digit,
  hex_loop, parse_hex_bytes, on_bytes, parse_tx_cmd, parse_words, parse_line,
}

trim_start_le : (s : List ℕ) → trim_start s ≤ length s
trim_start_le [] = omega arith
trim_start_le (c ∷ cs) = elim (Bool-cases (is_ascii_whitespace c)) [
  | inl e ↦ rw e (omega (arith, trim_start_le cs))
  | inr e ↦ rw e (omega arith)
]

pub trim_end_bounds :
    (s : List ℕ) (start end : ℕ)
    → start ≤ end
    → (start ≤ trim_end s start end) × (trim_end s start end ≤ end)
trim_end_bounds s start zero h = (h, omega arith)
trim_end_bounds s start (suc end) h =
    elim (Bool-cases (ltb start (suc end) && is_ascii_whitespace (get_or s end 0))) [
      | inl e ↦
          rw e (let k = trim_end_bounds s start end (ground arith) in (k.0, omega (arith, k.1)))
      | inr e ↦ rw e (h, omega arith)
    ]

pub trim-Total : (s : List ℕ) → Total (trim s)
unfolding trim
trim-Total s =
    let k = trim_end_bounds s (trim_start s) (length s) (trim_start_le s) in
    total _ (slice_lem s (trim_start s) (trim_end s (trim_start s) (length s)) k.0 k.1)

-- It does not panic, and what it returns fits the buffer of `size` bytes.
abbrev Fits : ℕ → Run (Option (List ℕ × ℕ)) → Type 0
Fits size panicked = ⊥
Fits size (done none) = Unit
Fits size (done (some (buf, n))) = (n ≤ size) × (length buf ≡ size)

Fits-if :
    (size : ℕ) (b : Bool) (x y : Run (Option (List ℕ × ℕ)))
    → (b ≡ true → Fits size x)
    → (b ≡ false → Fits size y)
    → Fits size (if b then x else y)
Fits-if size true x y f g = f refl
Fits-if size false x y f g = g refl

on_digit-Fits :
    (size : ℕ) (next : List ℕ → Option ℕ → ℕ → Run (Option (List ℕ × ℕ))) (out : List ℕ)
    (hi : Option ℕ) (n : ℕ) (d : Option ℕ)
    → ((out : List ℕ) (hi : Option ℕ) (n : ℕ)
        → n ≤ size
        → length out ≡ size
        → Fits size (next out hi n))
    → n ≤ size
    → length out ≡ size
    → Fits size (on_digit next out hi n d)
unfolding on_digit
on_digit-Fits size next out hi n none f h k = tt
on_digit-Fits size next out none n (some d) f h k = f out (some d) n h k
on_digit-Fits size next out (some hi) n (some d) f h k =
    Fits-if size (leb (length out) n) _ _ (λ _. tt)
      (λ room.
        rw (store_lem out n (hi * 16 + d) (ground arith))
          (f _ none (n + 1) (ground (arith, k)) (omega (arith, length-set out n (hi * 16 + d)))))

hex_loop-Fits :
    (size : ℕ) (s out : List ℕ) (hi : Option ℕ) (n : ℕ)
    → n ≤ size
    → length out ≡ size
    → Fits size (hex_loop s out hi n)
unfolding hex_loop
hex_loop-Fits size [] out (some h) n l k = tt
hex_loop-Fits size [] out none zero l k = tt
hex_loop-Fits size [] out none (suc n) l k =
    let some_read : (suc n == 0) ≡ false = ground arith in rw some_read (l, k)
hex_loop-Fits size (c ∷ cs) out hi n l k =
    Fits-if size (is_ascii_whitespace c) _ _ (λ _. hex_loop-Fits size cs out hi n l k)
      (λ _.
        on_digit-Fits size (hex_loop cs) out hi n (unhex c) (λ o h m. hex_loop-Fits size cs o h m) l
          k)

from_slice-Total : (bytes : List ℕ) → Total (from_slice bytes)
unfolding from_slice
from_slice-Total bytes =
    Total-if (length bytes == 0 || ltb tx_max (length bytes)) _ _ (λ _. Total-done none)
      (λ h.
        rw
          (copy_from_slice_lem (replicate tx_max 0) 0 (length bytes) bytes (omega arith)
            (ground arith) (omega arith))
          (Total-done _))

on_bytes-Total :
    (is_blast : Bool) (r : Run (Option (List ℕ × ℕ)))
    → Fits tx_max r
    → Total (r >>= on_bytes is_blast)
on_bytes-Total is_blast panicked f = absurd f
on_bytes-Total is_blast (done none) f = Total-done none
on_bytes-Total is_blast (done (some (buf, n))) f =
    rw (slice_lem buf 0 n (omega arith) (omega (arith, f.0, f.1))) (
      Total-bind (from_slice (take (n - 0) buf)) _ (from_slice-Total (take (n - 0) buf))
        (λ b _. Total-done _))

parse_tx_cmd-Total : (rest : List ℕ) (is_blast : Bool) → Total (parse_tx_cmd rest is_blast)
unfolding parse_tx_cmd parse_hex_bytes
parse_tx_cmd-Total rest is_blast = Total-bind (trim rest) _ (trim-Total rest) (λ trimmed _.
    on_bytes-Total is_blast (hex_loop trimmed (replicate tx_max 0) none 0)
      (hex_loop-Fits tx_max trimmed (replicate tx_max 0) none 0 (omega arith) refl))

words-Total : (line : List ℕ) → Total (parse_words line)
unfolding parse_words
words-Total line =
    Total-if (length line == 0) _ _ (λ _. Total-done none)
      λ _.
        Total-if (cmd_eq line (codes "help")) _ _ (λ _. Total-done _)
          λ _.
            Total-if (cmd_eq line (codes "replay")) _ _ (λ _. Total-done _)
              λ _.
                Total-if (cmd_eq line (codes "probe")) _ _ (λ _. Total-done _)
                  λ _.
                    Total-if (cmd_eq line (codes "hunt")) _ _ (λ _. Total-done _)
                      λ _.
                        Total-if (cmd_eq line (codes "listen")) _ _ (λ _. Total-done _)
                          λ _.
                            Total-if
                              (leb 2 (length line)
                                && eq_ignore_ascii_case (take 2 line) (codes "tx"))
                              _ _ (λ _. parse_tx_cmd-Total (drop 2 line) false)
                              λ _.
                                Total-if
                                  (leb 5 (length line)
                                    && eq_ignore_ascii_case (take 5 line) (codes "blast"))
                                  _ _ (λ _. parse_tx_cmd-Total (drop 5 line) true)
                                  λ _. Total-done none

-- No line, however long and whatever its bytes, makes the console's parser panic.
pub parse_line-Total : (line : List ℕ) → Total (parse_line line)
unfolding parse_line
parse_line-Total line =
    Total-bind (trim line) _ (trim-Total line) (λ trimmed _. words-Total trimmed)
