-- ===== src/Trace/Bounds.antt =====
-- `format_qname` of src/ap_log.rs on any packet: its buffer and its rounds.
use mathlib.Core.Path.{fun_ext}
use scoreboard_ctrl.Base.{
  ℕ, zero, suc, ◌+◌, ◌-◌, ◌/◌, ◌≤◌, ◌<◌, min, ◌≡◌, refl, ap, Bool, true, false, ◌||◌, List, ◌++◌,
  length, length-append, length-set, length-take, length-drop, set, take, drop, get_or, ltb, leb,
  ◌==◌, if◌then◌else◌, Run, done, panicked, ◌>>=◌, load, load_lem, store_lem, slice_lem, overwrite,
  copy_from_slice_lem, arith,
}
use scoreboard_ctrl.Trace.{
  Next, put_label, put_dotted, format_byte, format_from, round_fuel, format_qname,
}

-- It does not panic, keeps the buffer's size, and counts no more bytes than the buffer has.
abbrev pub Fits : ℕ → Run (List ℕ × ℕ) → Type 0
Fits size panicked = ⊥
Fits size (done (out, o)) = (length out ≡ size) × (o ≤ size)

Fits-if :
    (size : ℕ) (b : Bool) (x y : Run (List ℕ × ℕ))
    → (b ≡ true → Fits size x)
    → (b ≡ false → Fits size y)
    → Fits size (if b then x else y)
Fits-if size true x y f g = f refl
Fits-if size false x y f g = g refl

module _ (size : ℕ) (next : Next)
    (fits : (out : List ℕ) (i o : ℕ) → length out ≡ size → o ≤ size → Fits size (next out i o))
    (pkt : List ℕ) where
  put_label-Fits :
      (out : List ℕ) (i o len : ℕ)
      → i + 1 + len ≤ length pkt
      → length out ≡ size
      → o ≤ size
      → Fits size (put_label next pkt out i o len)
  unfolding put_label
  put_label-Fits out i o len h e l =
      let n = min len (length out - o) in
      let label = take (i + 1 + n - (i + 1)) (drop (i + 1) pkt) in
      let size_of : length label ≡ n =
        omega
          (arith, length-take (i + 1 + n - (i + 1)) (drop (i + 1) pkt), length-drop (i + 1) pkt) in
      let kept : length (overwrite out o label) ≡ size = omega (
        arith,
        length-append (take o out) (label ++ drop (o + length label) out),
        length-append label (drop (o + length label) out),
        length-take o out,
        length-drop (o + length label) out,
        size_of,
      ) in
      rw
        (
          slice_lem pkt (i + 1) (i + 1 + n) (omega arith) (omega arith),
          copy_from_slice_lem out o (o + n) label (omega arith) (omega arith)
              (omega (arith, size_of)),
        )
        (fits (overwrite out o label) (i + (1 + len)) (o + n) kept (omega arith))

  put_dotted-Fits :
      (out : List ℕ) (i o len : ℕ)
      → i + 1 + len ≤ length pkt
      → length out ≡ size
      → o < size
      → Fits size (put_dotted next pkt out i o len)
  unfolding put_dotted
  put_dotted-Fits out i o len h e l =
      let same : length (set out o b'.') ≡ size = omega (arith, length-set out o b'.') in
      Fits-if size (ltb 0 o) _ _
        (λ _. rw (store_lem out o b'.' (omega arith)) (
          Fits-if size (leb (length out) (o + 1)) _ _ (λ _. (same, omega arith))
            (λ _. put_label-Fits (set out o b'.') i (o + 1) len h same (omega arith))))
        (λ _. put_label-Fits out i o len h e (omega arith))

  format_byte-Fits :
      (out : List ℕ) (i o len : ℕ)
      → i < length pkt
      → length out ≡ size
      → o < size
      → Fits size (format_byte next pkt out i o len)
  unfolding format_byte
  format_byte-Fits out i o len h e l =
      Fits-if size (len == 0) _ _ (λ _. (e, omega arith))
        λ _.
          Fits-if size (len / 64 == 3) _ _
            (λ _.
              Fits-if size (leb (length pkt) (i + 1)) _ _ (λ _. (e, omega arith))
                (λ k. rw (load_lem pkt (i + 1) (ground arith)) (fits out _ o e (omega arith))))
            (λ _.
              Fits-if size (ltb (length pkt) (i + 1 + len)) _ _ (λ _. (e, omega arith))
                (λ k. put_dotted-Fits out i o len (ground arith) e l))

format_from-Fits :
    (fuel size : ℕ) (pkt out : List ℕ) (i o hops : ℕ)
    → length out ≡ size
    → o ≤ size
    → Fits size (format_from fuel pkt out i o hops)
unfolding format_from
format_from-Fits zero size pkt out i o hops e l = (e, l)
format_from-Fits (suc fuel) size pkt out i o hops e l =
    Fits-if size (ltb 10 (min (hops + 1) 255) || leb (length pkt) i || leb (length out) o) _ _
      (λ _. (e, l))
      (λ k. rw (load_lem pkt i (ground arith)) (
        format_byte-Fits size (λ out' j o'. format_from fuel pkt out' j o' (min (hops + 1) 255))
          (λ out' j o' e' l'. format_from-Fits fuel size pkt out' j o' (min (hops + 1) 255) e' l')
          pkt out i o (get_or pkt i 0) (ground arith) e (ground arith)))

-- On any packet and with any buffer the name is formatted without a panic, and no more bytes are counted than the
-- buffer has.
pub format_qname_bounds :
    (pkt out : List ℕ)
    → (out' : List ℕ) × (n : ℕ) × (format_qname pkt out ≡ done (out', n))
      × (length out' ≡ length out)
      × (n ≤ length out)
unfolding format_qname
format_qname_bounds pkt out =
    go (format_from round_fuel pkt out 12 0 0)
      (format_from-Fits round_fuel (length out) pkt out 12 0 0 refl (omega arith))
  where
    go :
        (r : Run (List ℕ × ℕ))
        → Fits (length out) r
        → (out' : List ℕ) × (n : ℕ) × (r ≡ done (out', n))
          × (length out' ≡ length out)
          × (n ≤ length out)
    go panicked f = absurd f
    go (done (out', n)) f = (out', n, refl, f.0, f.1)

format_from_fuel :
    (fuel more : ℕ) (pkt out : List ℕ) (i o hops : ℕ)
    → 11 ≤ hops + fuel
    → format_from (fuel + more) pkt out i o hops ≡ format_from fuel pkt out i o hops
unfolding format_from
format_from_fuel zero zero pkt out i o hops h = refl
format_from_fuel zero (suc more) pkt out i o hops h =
    let far : ltb 10 (min (hops + 1) 255) ≡ true = ground arith in
    let n : 0 + suc more ≡ suc more = omega arith in rw (n, far) refl
format_from_fuel (suc fuel) more pkt out i o hops h =
    let n : suc fuel + more ≡ suc (fuel + more) = omega arith in
    let same = fun_ext (λ (out' : List ℕ). fun_ext (λ (j : ℕ).
      fun_ext (λ (o' : ℕ).
        format_from_fuel fuel more pkt out' j o' (min (hops + 1) 255) (omega arith)))) in
    rw n (
      ap
        (λ next.
          if ltb 10 (min (hops + 1) 255) || leb (length pkt) i || leb (length out) o
          then done (out, o)
          else (do len ← load pkt i; format_byte next pkt out i o len))
        same)

-- The eleven rounds are enough: with any more the loop has the same result, whatever the pointers of the packet.
pub format_from-round_fuel :
    (more : ℕ) (pkt out : List ℕ)
    → format_from (round_fuel + more) pkt out 12 0 0 ≡ format_qname pkt out
unfolding format_qname
format_from-round_fuel more pkt out = format_from_fuel 11 more pkt out 12 0 0 (omega arith)
