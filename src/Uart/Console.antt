-- ===== src/Uart/Console.antt =====
-- `CdcCmd::handle_data` of examples/uart-test.rs: the command for the loader, the lines, and the
-- commands that are sent to `uart_tx_task`.
pub mod Safe
pub mod Lines
use scoreboard_ctrl.Base.{
  ℕ, zero, suc, ◌+◌, Bool, true, false, ◌&&◌, ◌||◌, Option, none, some, List, [], ◌∷◌, ◌++◌, length,
  get_or, replicate, ltb, ◌==◌, if◌then◌else◌, codes, Run, done, ◌>>=◌, store, slice,
}
use scoreboard_ctrl.Uart.Host.{HostCmd, parse_line}

abbrev pub line_max : ℕ
line_max = 128

abbrev pub boot : List ℕ
boot = codes "ENTERBOOTLOADER"

-- The bytes under `BOOT_N.lock`, with `n` of the command matched: whether it is complete, and how many
-- are matched behind it.
unfoldable pub hit_boot : List ℕ → ℕ → Bool × ℕ
hit_boot [] n = (false, n)
hit_boot (b ∷ data_) n =
    let more = hit_boot data_ (n + 1) in
    let again = hit_boot data_ 1 in
    let anew = hit_boot data_ 0 in
    if ltb n (length boot) && b == get_or boot n 0
    then (if n + 1 == length boot then (true, 0) else more)
    else if b == get_or boot 0 0
    then again
    else anew

pub record LineBuf : Type 0 where
  pub bytes : List ℕ
  pub len : ℕ

-- The buffer of the line, and the lines that are complete: `raw` up to `n_raw`.
pub record Gathered : Type 0 where
  pub line : LineBuf
  pub raw : List (List ℕ)

-- The end of a line.
unfoldable pub on_newline : Gathered → Run Gathered
on_newline g =
    let empty = record (g.line) { len = 0 } in
    let kept : Run Gathered = (do
      text ← slice g.line.bytes 0 g.line.len
      done record { line = empty; raw = g.raw ++ (text ∷ []) }) in
    if g.line.len == 0
    then done g
    else if ltb (length g.raw) 4
    then kept
    else done (record g { line = empty })

-- A byte of the loop under `LINE.lock`.
unfoldable pub on_line_byte : ℕ → Gathered → Run Gathered
on_line_byte b g =
    let added : Run Gathered = (do
      bytes ← store g.line.bytes g.line.len b
      done (record g { line = record { bytes = bytes; len = g.line.len + 1 } })) in
    if b == 10 || b == 13
    then on_newline g
    else if ltb g.line.len line_max
    then added
    else done (record g { line = record (g.line) { len = 0 } })

unfoldable pub gather : List ℕ → Gathered → Run Gathered
gather [] g = done g
gather (b ∷ data_) g = do g' ← on_line_byte b g; gather data_ g'

-- The commands that the lines are, in order.
abbrev pub add_command : Option HostCmd → List HostCmd → List HostCmd
add_command none cmds = cmds
add_command (some c) cmds = c ∷ cmds

unfoldable pub parse_lines : List (List ℕ) → Run (List HostCmd)
parse_lines [] = done []
parse_lines (text ∷ raw) = do c ← parse_line text; cmds ← parse_lines raw; done (add_command c cmds)

-- What a call leaves: whether the device was restarted into its loader, how much of the command is
-- matched, the buffer of the line, and the commands sent.
pub record Handled : Type 0 where
  pub reset : Bool
  pub boot_n : ℕ
  pub line : LineBuf
  pub sent : List HostCmd

unfoldable pub on_data : List ℕ → ℕ → LineBuf → Run Handled
on_data data_ boot_n line = do
  g ← gather data_ record { line = line; raw = [] }
  cmds ← parse_lines g.raw
  done record {
    reset = (hit_boot data_ boot_n).0;
    boot_n = (hit_boot data_ boot_n).1;
    line = g.line;
    sent = cmds;
  }
