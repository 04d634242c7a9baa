-- ===== src/Trace.antt =====
-- `format_qname` and `qtype_name` of src/ap_log.rs: the name and the type of a DNS question, for the
-- log. As in Dns, `len / 64 == 3` is `len & 0xC0 == 0xC0` on a byte, and `len % 64` is `len & 0x3F`.
pub mod Bounds
use scoreboard_ctrl.Base.{
  ℕ, zero, suc, ◌+◌, ◌-◌, ◌*◌, ◌/◌, ◌%◌, min, Bool, ◌||◌, List, length, ltb, leb, ◌==◌,
  if◌then◌else◌, codes, Run, done, ◌>>=◌, load, store, slice, copy_from_slice,
}

-- What the loop does behind a label or a pointer: the buffer, and the indices `i` and `o`.
abbrev pub Next : Type 0
Next = List ℕ → ℕ → ℕ → Run (List ℕ × ℕ)

-- As much of the label as fits.
unfoldable pub put_label : Next → List ℕ → List ℕ → ℕ → ℕ → ℕ → Run (List ℕ × ℕ)
put_label next pkt out i o len = do
  let n = min len (length out - o)
  label ← slice pkt (i + 1) (i + 1 + n)
  out' ← copy_from_slice out o (o + n) label
  next out' (i + (1 + len)) (o + n)

-- A label, behind a dot if it is not the first.
unfoldable pub put_dotted : Next → List ℕ → List ℕ → ℕ → ℕ → ℕ → Run (List ℕ × ℕ)
put_dotted next pkt out i o len =
    let dotted : Run (List ℕ × ℕ) = (do
      out' ← store out o b'.'
      if leb (length out) (o + 1)
          then done (out', o + 1)
          else put_label next pkt out' i (o + 1) len) in
    if ltb 0 o then dotted else put_label next pkt out i o len

-- A round at index `i`, where the byte `len` stands.
unfoldable pub format_byte : Next → List ℕ → List ℕ → ℕ → ℕ → ℕ → Run (List ℕ × ℕ)
format_byte next pkt out i o len =
    let follow : Run (List ℕ × ℕ) = (do lo ← load pkt (i + 1); next out (len % 64 * 256 + lo) o) in
    if len == 0
    then done (out, o)
    else if len / 64 == 3
    then (if leb (length pkt) (i + 1) then done (out, o) else follow)
    else if ltb (length pkt) (i + 1 + len)
    then done (out, o)
    else put_dotted next pkt out i o len

-- `hops` is a u8; the eleventh round breaks, so eleven rounds are enough fuel.
unfoldable pub format_from : ℕ → List ℕ → List ℕ → ℕ → ℕ → ℕ → Run (List ℕ × ℕ)
unfolding format_byte
format_from zero pkt out i o hops = done (out, o)
format_from (suc fuel) pkt out i o hops =
    let hops' = min (hops + 1) 255 in
    let round : Run (List ℕ × ℕ) = (do
      len ← load pkt i
      format_byte (λ out' j o'. format_from fuel pkt out' j o' hops') pkt out i o len) in
    if ltb 10 hops' || leb (length pkt) i || leb (length out) o then done (out, o) else round

abbrev pub round_fuel : ℕ
round_fuel = 11

-- The buffer after the call, and the number of bytes written.
unfoldable pub format_qname : List ℕ → List ℕ → Run (List ℕ × ℕ)
format_qname pkt out = format_from round_fuel pkt out 12 0 0

unfoldable pub qtype_name : ℕ → List ℕ
qtype_name qtype =
    if qtype == 1
    then codes "A"
    else if qtype == 12
    then codes "PTR"
    else if qtype == 28
    then codes "AAAA"
    else if qtype == 255
    then codes "ANY"
    else codes "?"
