-- ===== src/Dhcp/Options.antt =====
-- `find_option` of src/net_proto.rs on any packet, and on a packet of encoded options.
use scoreboard_ctrl.Base.{
  ℕ, zero, suc, ◌+◌, ◌≤◌, ◌<◌, ◌≡◌, ◌≢◌, refl, sym, ◌∙◌, not, Option, none, some, List, [], ◌∷◌,
  ◌++◌, append_assoc, ltb, leb, ◌==◌, if◌then◌else◌, length, length-append, take, drop, bytes_eq,
  Run, done, Total, Total-done, Total-if, load_lem, load-append, get_or, slice, slice-append,
  slice_lem, arith,
}
use scoreboard_ctrl.Dhcp.{dhcp_magic, read_value, read_option, scan, find_option}

module _ (next : ℕ → Run (Option (List ℕ))) (keep : (j : ℕ) → Total (next j)) where
  read_value-Total :
      (packet : List ℕ) (code i c : ℕ)
      → i + 1 < length packet
      → Total (read_value next packet code i c)
  unfolding read_value
  read_value-Total packet code i c h = rw (load_lem packet (i + 1) h) (
      Total-if (ltb (length packet) (i + 2 + get_or packet (i + 1) 0)) _ _ (λ _. Total-done none)
        λ inside.
          Total-if (c == code) _ _
            (λ _.
              rw
                (slice_lem packet (i + 2) (i + 2 + get_or packet (i + 1) 0) (omega arith)
                  (ground arith))
                (Total-done _))
            (λ _. keep _))

  read_option-Total : (packet : List ℕ) (code i c : ℕ) → Total (read_option next packet code i c)
  unfolding read_option
  read_option-Total packet code i c =
      Total-if (c == 0) _ _ (λ _. keep (i + 1))
        λ _.
          Total-if (c == 255) _ _ (λ _. Total-done none)
            λ _.
              Total-if (leb (length packet) (i + 1)) _ _ (λ _. Total-done none)
                λ h. read_value-Total packet code i c (ground arith)

scan-Total : (fuel : ℕ) (packet : List ℕ) (code i : ℕ) → Total (scan fuel packet code i)
unfolding scan
scan-Total zero packet code i = Total-done none
scan-Total (suc fuel) packet code i =
    Total-if (ltb i (length packet)) _ _
      (λ h. rw (load_lem packet i (ground arith)) (
        read_option-Total (λ j. scan fuel packet code j) (λ j. scan-Total fuel packet code j) packet
          code i (get_or packet i 0)))
      (λ _. Total-done none)

-- One option: a pad byte, or a code with a value.
pub data Opt : Type 0 where
  pad : Opt
  opt : ℕ → List ℕ → Opt

abbrev pub IsOpt : Opt → Type 0
IsOpt pad = Unit {0}
IsOpt (opt c v) = (c ≢ 0) × (c ≢ 255) × (length v < 256)

abbrev pub encode_opt : Opt → List ℕ
encode_opt pad = 0 ∷ []
encode_opt (opt c v) = c ∷ length v ∷ v

abbrev pub encode : List Opt → List ℕ
encode [] = []
encode (o ∷ os) = encode_opt o ++ encode os

abbrev pub AllOpts : List Opt → Type 0
AllOpts [] = Unit
AllOpts (o ∷ os) = IsOpt o × AllOpts os

-- The value of the first option with the code.
abbrev pub lookup_opt : ℕ → List Opt → Option (List ℕ)
lookup_opt code [] = none
lookup_opt code (pad ∷ os) = lookup_opt code os
lookup_opt code (opt c v ∷ os) = if c == code then some v else lookup_opt code os

-- `find_option` never panics, whatever the packet and the code are.
pub find_option-Total : (packet : List ℕ) (code : ℕ) → Total (find_option packet code)
unfolding find_option
find_option-Total packet code =
    Total-if (ltb (length packet) 240) _ _ (λ _. Total-done none)
      λ h. rw (slice_lem packet 236 240 (omega arith) (ground arith)) (
        Total-if (not (bytes_eq (take 4 (drop 236 packet)) dhcp_magic)) _ _ (λ _. Total-done none)
          (λ _. scan-Total (length packet) packet code 240))

scan_step :
    (fuel : ℕ) (pre xs : List ℕ) (c code i : ℕ)
    → i ≡ length pre
    → scan (suc fuel) (pre ++ (c ∷ xs)) code i
      ≡ read_option (λ j. scan fuel (pre ++ (c ∷ xs)) code j) (pre ++ (c ∷ xs)) code i c
unfolding scan
scan_step fuel pre xs c code i e =
    ground (arith, length-append pre (c ∷ xs), load-append pre (c ∷ xs) 0 i)

-- At an option whose value lies within the packet.
read_option_step :
    (next : ℕ → Run (Option (List ℕ))) (pre v post : List ℕ) (c code i : ℕ)
    → i ≡ length pre
    → c ≢ 0
    → c ≢ 255
    → read_option next (pre ++ (c ∷ length v ∷ (v ++ post))) code i c
      ≡ (if c == code then done (some v) else next (i + 2 + length v))
unfolding read_option read_value
read_option_step next pre v post c code i e z l = ground (
  arith,
  length-append pre (c ∷ length v ∷ (v ++ post)),
  length-append v post,
  load-append pre (c ∷ length v ∷ (v ++ post)) 1 (i + 1),
  found,
)
  where
    two : pre ++ (c ∷ length v ∷ (v ++ post)) ≡ (pre ++ (c ∷ length v ∷ [])) ++ (v ++ post)
    two = sym (append_assoc pre (c ∷ length v ∷ []) (v ++ post))

    found : slice (pre ++ (c ∷ length v ∷ (v ++ post))) (i + 2) (i + 2 + length v) ≡ done v
    found = rw two (
        slice-append (pre ++ (c ∷ length v ∷ [])) v post (i + 2) (i + 2 + length v)
          (omega (arith, length-append pre (c ∷ length v ∷ []))) refl)

scan-encode :
    (fuel : ℕ) (pre : List ℕ) (os : List Opt) (rest : List ℕ) (code i : ℕ)
    → AllOpts os
    → length os < fuel
    → i ≡ length pre
    → scan fuel (pre ++ (encode os ++ (255 ∷ rest))) code i ≡ done (lookup_opt code os)
unfolding read_option
scan-encode zero pre os rest code i a f e = absurd (omega arith)
scan-encode (suc fuel) pre [] rest code i a f e = scan_step fuel pre rest 255 code i e
scan-encode (suc fuel) pre (pad ∷ os) rest code i a f e =
    let ih =
      scan-encode fuel (pre ++ (0 ∷ [])) os rest code (i + 1) a.1 (omega arith)
        (omega (arith, length-append pre (0 ∷ []))) in
    scan_step fuel pre (encode os ++ (255 ∷ rest)) 0 code i e
    ∙ rw (append_assoc pre (0 ∷ []) (encode os ++ (255 ∷ rest))) at ih
scan-encode (suc fuel) pre (opt c v ∷ os) rest code i a f e =
    let tail_ = encode os ++ (255 ∷ rest) in
    let ih =
      scan-encode fuel (pre ++ (c ∷ length v ∷ v)) os rest code (i + 2 + length v) a.1 (omega arith)
        (omega (arith, length-append pre (c ∷ length v ∷ v))) in
    let ih' = rw (append_assoc pre (c ∷ length v ∷ v) tail_) at ih in
    rw (append_assoc v (encode os) (255 ∷ rest)) (
      scan_step fuel pre (length v ∷ (v ++ tail_)) c code i e
      ∙ read_option_step (λ j. scan fuel (pre ++ (c ∷ length v ∷ (v ++ tail_))) code j) pre v tail_
          c code i e a.0.0 a.0.1
      ∙ rw ih' (ground arith))

length-le-encode : (os : List Opt) → length os ≤ length (encode os)
length-le-encode [] = omega arith
length-le-encode (o ∷ os) =
    omega (arith, length-le-encode os, length-append (encode_opt o) (encode os), one_byte o)
  where
    one_byte : (p : Opt) → 1 ≤ length (encode_opt p)
    one_byte pad = omega arith
    one_byte (opt c v) = omega arith

-- A packet that holds, behind 236 bytes and the magic number, a list of options and the end mark: the
-- value found for a code is that of the first option with that code, if there is one.
pub find_option-encode :
    (head : List ℕ) (os : List Opt) (rest : List ℕ) (code : ℕ)
    → length head ≡ 236
    → AllOpts os
    → find_option (head ++ (dhcp_magic ++ (encode os ++ (255 ∷ rest)))) code
      ≡ done (lookup_opt code os)
unfolding find_option
find_option-encode head os rest code h a =
    ground (arith, size, slice-append head dhcp_magic rest' 236 240, found)
  where
    rest' : List ℕ
    rest' = encode os ++ (255 ∷ rest)

    packet : List ℕ
    packet = head ++ (dhcp_magic ++ rest')

    size : length packet ≡ 240 + (length (encode os) + (1 + length rest))
    size =
        omega
          (arith, length-append head (dhcp_magic ++ rest'), length-append (encode os) (255 ∷ rest))

    found : scan (length packet) packet code 240 ≡ done (lookup_opt code os)
    found = rw (append_assoc head dhcp_magic rest') at (
        scan-encode (length packet) (head ++ dhcp_magic) os rest code 240 a
          (omega (arith, size, length-le-encode os)) (omega (arith, length-append head dhcp_magic)))
