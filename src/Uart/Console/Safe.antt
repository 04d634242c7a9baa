-- ===== src/Uart/Console/Safe.antt =====
-- The console of examples/uart-test.rs on any bytes: its buffer, and panics.
use scoreboard_ctrl.Base.{
  ℕ, suc, ◌-◌, ◌≤◌, ◌≡◌, refl, Bool, true, false, ◌||◌, Option, none, some, List, [], ◌∷◌, length,
  length-set, length-append, take, ltb, ◌==◌, if◌then◌else◌, Run, done, panicked, ◌>>=◌, store_lem,
  slice_lem, Total, total, arith,
}
use scoreboard_ctrl.Uart.Host.{HostCmd, parse_line}
use scoreboard_ctrl.Uart.Host.Safe.{parse_line-Total}
use scoreboard_ctrl.Uart.Console.{
  line_max, LineBuf, Gathered, on_newline, on_line_byte, gather, add_command, parse_lines, Handled,
  hit_boot, on_data,
}

abbrev pub IsValid : LineBuf → Type 0
IsValid line = (length line.bytes ≡ line_max) × (line.len ≤ line_max)

-- It does not panic, and what it leaves is valid, with at most four lines.
abbrev Sound : Run Gathered → Type 0
Sound panicked = ⊥
Sound (done g) = IsValid g.line × (length g.raw ≤ 4)

Sound-if :
    (b : Bool) (x y : Run Gathered)
    → (b ≡ true → Sound x)
    → (b ≡ false → Sound y)
    → Sound (if b then x else y)
Sound-if true x y f g = f refl
Sound-if false x y f g = g refl

on_newline-Sound : (g : Gathered) → IsValid g.line → length g.raw ≤ 4 → Sound (on_newline g)
unfolding on_newline
on_newline-Sound g v l =
    Sound-if (g.line.len == 0) _ _ (λ _. (v, l))
      (λ _.
        Sound-if (ltb (length g.raw) 4) _ _
          (λ room.
            rw (slice_lem g.line.bytes 0 g.line.len (omega arith) (omega (arith, v.0, v.1))) (
              (v.0, omega arith),
              ground (arith, length-append g.raw (take (g.line.len - 0) g.line.bytes ∷ [])),
            ))
          (λ _. ((v.0, omega arith), l)))

on_line_byte-Sound :
    (b : ℕ) (g : Gathered) → IsValid g.line → length g.raw ≤ 4 → Sound (on_line_byte b g)
unfolding on_line_byte
on_line_byte-Sound b g v l =
    Sound-if (b == 10 || b == 13) _ _ (λ _. on_newline-Sound g v l)
      (λ _.
        Sound-if (ltb g.line.len line_max) _ _
          (λ room.
            rw (store_lem g.line.bytes g.line.len b (ground (arith, v.0)))
              ((omega (arith, length-set g.line.bytes g.line.len b, v.0), ground arith), l))
          (λ _. ((v.0, omega arith), l)))

gather-Sound :
    (data_ : List ℕ) (g : Gathered) → IsValid g.line → length g.raw ≤ 4 → Sound (gather data_ g)
unfolding gather
gather-Sound [] g v l = (v, l)
gather-Sound (b ∷ data_) g v l =
    next (on_line_byte b g) (on_line_byte-Sound b g v l) (gather-Sound data_)
  where
    next :
        (r : Run Gathered)
        → Sound r
        → ((g : Gathered) → IsValid g.line → length g.raw ≤ 4 → Sound (gather data_ g))
        → Sound (r >>= λ g'. gather data_ g')
    next panicked s f = absurd s
    next (done g') s f = f g' s.0 s.1

parse_lines-AtMost :
    (raw : List (List ℕ))
    → (cmds : List HostCmd) × (parse_lines raw ≡ done cmds) × (length cmds ≤ length raw)
unfolding parse_lines
parse_lines-AtMost [] = ([], refl, omega arith)
parse_lines-AtMost (text ∷ raw) =
    both (parse_line text) (parse_line-Total text) (parse_lines-AtMost raw)
  where
    both :
        (r : Run (Option HostCmd))
        → Total r
        → ((cmds : List HostCmd) × (parse_lines raw ≡ done cmds) × (length cmds ≤ length raw))
        → (cmds : List HostCmd) × ((r >>= λ c. parse_lines raw >>= λ cs. done (add_command c cs))
            ≡ done cmds)
          × (length cmds ≤ suc (length raw))
    both r (total none e) (cs, p, l) = (cs, rw (e, p) refl, omega arith)
    both r (total (some c) e) (cs, p, l) = (c ∷ cs, rw (e, p) refl, omega arith)

-- What `on_data` leaves behind the lines and their commands.
abbrev pub handled : List ℕ → ℕ → Gathered → List HostCmd → Handled
handled data_ boot_n g cmds = record {
  reset = (hit_boot data_ boot_n).0;
  boot_n = (hit_boot data_ boot_n).1;
  line = g.line;
  sent = cmds;
}

-- Whatever comes in over USB, the handler does not panic, leaves a valid buffer of the line, and sends at most four
-- commands.
pub on_data-IsValid :
    (data_ : List ℕ) (boot_n : ℕ) (line : LineBuf)
    → IsValid line
    → (h : Handled) × (on_data data_ boot_n line ≡ done h) × IsValid h.line × (length h.sent ≤ 4)
unfolding on_data
on_data-IsValid data_ boot_n line v =
    go (gather data_ record { line = line; raw = [] })
      (gather-Sound data_ record { line = line; raw = [] } v (omega arith))
  where
    go :
        (r : Run Gathered)
        → Sound r
        → (h : Handled) × ((r >>= λ g.
              parse_lines g.raw >>= λ cmds. done (handled data_ boot_n g cmds))
            ≡ done h)
          × IsValid h.line
          × (length h.sent ≤ 4)
    go panicked s = absurd s
    go (done g) s =
        let (cmds, p, l) = parse_lines-AtMost g.raw in
        let same : (parse_lines g.raw >>= λ cmds. done (handled data_ boot_n g cmds))
            ≡ done (handled data_ boot_n g cmds) =
          rw p refl in
        (handled data_ boot_n g cmds, same, s.0, omega (arith, s.1, l))
