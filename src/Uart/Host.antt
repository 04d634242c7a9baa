-- ===== src/Uart/Host.antt =====
-- The commands of the console of examples/uart-test.rs: `TxBurst`, `HostCmd`, `trim`, `cmd_eq`,
-- `parse_line`, `parse_tx_cmd`, `parse_hex_bytes` and `unhex`. Warnings of the log are left out.
pub mod Hex
pub mod Safe
use scoreboard_ctrl.Base.{
  ℕ, zero, suc, ◌+◌, ◌-◌, ◌*◌, ◌%◌, Bool, true, false, ◌&&◌, ◌||◌, Option, none, some, List, [],
  ◌∷◌, length, take, drop, get_or, replicate, ltb, leb, ◌==◌, if◌then◌else◌, codes,
  eq_ignore_ascii_case, Run, done, ◌>>=◌, store, slice, copy_from_slice,
}

abbrev pub tx_max : ℕ
tx_max = 64

-- `buf` is an array of `tx_max` bytes.
pub record TxBurst : Type 0 where
  pub buf : List ℕ
  pub len : ℕ

unfoldable pub from_slice : List ℕ → Run (Option TxBurst)
from_slice data_ =
    let copied : Run (Option TxBurst) = (do
      buf ← copy_from_slice (replicate tx_max 0) 0 (length data_) data_
      done (some record { buf = buf; len = length data_ % 256 })) in
    if length data_ == 0 || ltb tx_max (length data_) then done none else copied

unfoldable pub as_slice : TxBurst → Run (List ℕ)
as_slice burst = slice burst.buf 0 burst.len

pub data HostCmd : Type 0 where
  tx blast : TxBurst → HostCmd
  replay probe hunt listen help : HostCmd

abbrev pub is_ascii_whitespace : ℕ → Bool
is_ascii_whitespace c = c == 32 || c == 9 || c == 10 || c == 12 || c == 13

-- The first loop of `trim`, as the number of its rounds.
abbrev pub trim_start : List ℕ → ℕ
trim_start [] = 0
trim_start (c ∷ cs) = if is_ascii_whitespace c then trim_start cs + 1 else 0

-- The second loop, from `end` on; the index is below the length.
abbrev pub trim_end : List ℕ → ℕ → ℕ → ℕ
trim_end s start zero = 0
trim_end s start (suc end) =
    if ltb start (suc end) && is_ascii_whitespace (get_or s end 0)
    then trim_end s start end
    else suc end

unfoldable pub trim : List ℕ → Run (List ℕ)
trim s = slice s (trim_start s) (trim_end s (trim_start s) (length s))

unfoldable pub cmd_eq : List ℕ → List ℕ → Bool
cmd_eq line name =
    eq_ignore_ascii_case line name
    || (ltb (length name) (length line)
        && eq_ignore_ascii_case (drop (length line - length name) line) name)

unfoldable pub unhex : ℕ → Option ℕ
unhex c =
    if leb b'0' c && leb c b'9'
    then some (c - b'0')
    else if leb b'a' c && leb c b'f'
    then some (c - b'a' + 10)
    else if leb b'A' c && leb c b'F'
    then some (c - b'A' + 10)
    else none

-- A digit behind the high digit `hi`, if there is one; `next` is the loop behind it.
unfoldable pub on_digit :
    (List ℕ → Option ℕ → ℕ → Run (Option (List ℕ × ℕ)))
    → List ℕ
    → Option ℕ
    → ℕ
    → Option ℕ
    → Run (Option (List ℕ × ℕ))
on_digit next out hi n none = done none
on_digit next out none n (some d) = next out (some d) n
on_digit next out (some h) n (some d) =
    let stored : Run (Option (List ℕ × ℕ)) = (do
      out' ← store out n (h * 16 + d)
      next out' none (n + 1)) in
    if leb (length out) n then done none else stored

-- The loop of `parse_hex_bytes` and what follows it: the buffer and the number of bytes.
unfoldable pub hex_loop : List ℕ → List ℕ → Option ℕ → ℕ → Run (Option (List ℕ × ℕ))
unfolding on_digit unhex
hex_loop [] out (some h) n = done none
hex_loop [] out none n = done (if n == 0 then none else some (out, n))
hex_loop (c ∷ cs) out hi n =
    if is_ascii_whitespace c
    then hex_loop cs out hi n
    else on_digit (hex_loop cs) out hi n (unhex c)

unfoldable pub parse_hex_bytes : List ℕ → List ℕ → Run (Option (List ℕ × ℕ))
parse_hex_bytes s out = hex_loop s out none 0

abbrev pub command_of : Bool → Option TxBurst → Option HostCmd
command_of is_blast none = none
command_of is_blast (some b) = some (if is_blast then blast b else tx b)

-- What follows `parse_hex_bytes`.
abbrev pub on_bytes : Bool → Option (List ℕ × ℕ) → Run (Option HostCmd)
on_bytes is_blast none = done none
on_bytes is_blast (some (buf, n)) = do
  bytes ← slice buf 0 n
  b ← from_slice bytes
  done (command_of is_blast b)

unfoldable pub parse_tx_cmd : List ℕ → Bool → Run (Option HostCmd)
parse_tx_cmd rest is_blast = do
  trimmed ← trim rest
  parsed ← parse_hex_bytes trimmed (replicate tx_max 0)
  on_bytes is_blast parsed

-- The words of a line that is trimmed.
unfoldable pub parse_words : List ℕ → Run (Option HostCmd)
parse_words line =
    if length line == 0
    then done none
    else if cmd_eq line (codes "help")
    then done (some help)
    else if cmd_eq line (codes "replay")
    then done (some replay)
    else if cmd_eq line (codes "probe")
    then done (some probe)
    else if cmd_eq line (codes "hunt")
    then done (some hunt)
    else if cmd_eq line (codes "listen")
    then done (some listen)
    else if leb 2 (length line) && eq_ignore_ascii_case (take 2 line) (codes "tx")
    then parse_tx_cmd (drop 2 line) false
    else if leb 5 (length line) && eq_ignore_ascii_case (take 5 line) (codes "blast")
    then parse_tx_cmd (drop 5 line) true
    else done none

unfoldable pub parse_line : List ℕ → Run (Option HostCmd)
parse_line line = do trimmed ← trim line; parse_words trimmed
