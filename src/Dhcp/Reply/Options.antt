-- ===== src/Dhcp/Reply/Options.antt =====
-- The options of a reply of src/net_proto.rs: `push` appends one behind what is written already.
use scoreboard_ctrl.Base.{
  ℕ, suc, ◌+◌, ◌<◌, ◌≡◌, refl, sym, ap, ap₂, ◌∙◌, List, [], ◌∷◌, ◌++◌, append_assoc, length,
  length-append, length-drop, length-take, take, take-append-drop, drop-drop, drop, done,
  store-append, copy_from_slice, copy-append, arith,
}
use scoreboard_ctrl.Dhcp.Options.{Opt, opt, encode}
use scoreboard_ctrl.Dhcp.Reply.{push, push_all}

abbrev pub to_opts : List (ℕ × List ℕ) → List Opt
to_opts [] = []
to_opts ((c, v) ∷ os) = opt c v ∷ to_opts os

-- The values are short enough for their length byte.
abbrev pub AllSmall : List (ℕ × List ℕ) → Type 0
AllSmall [] = Unit
AllSmall ((c, v) ∷ os) = (length v < 256) × AllSmall os

-- One option, where it fits.
push-append :
    (pre rest : List ℕ) (i code : ℕ) (bytes : List ℕ)
    → i ≡ length pre
    → length bytes < 256
    → 2 + length bytes < length rest
    → push (pre ++ rest) i code bytes
      ≡ done (
        pre ++ (code ∷ length bytes ∷ (bytes ++ drop (2 + length bytes) rest)),
        i + (2 + length bytes),
      )
unfolding push
push-append pre (x ∷ y ∷ rest) i code bytes e small fits = ground (
  arith,
  length-append pre (x ∷ y ∷ rest),
  store-append pre (x ∷ y ∷ rest) 0 code i,
  store-append pre (code ∷ y ∷ rest) 1 (length bytes) (i + 1),
  copied,
)
  where
    n : ℕ
    n = length bytes

    front : List ℕ
    front = code ∷ n ∷ []

    two : 2 + n ≡ suc (suc n)
    two = omega arith

    split : pre ++ (code ∷ n ∷ rest) ≡ (pre ++ front) ++ (take n rest ++ drop n rest)
    split = rw (take-append-drop n rest) (sym (append_assoc pre front rest))

    copied :
        copy_from_slice (pre ++ (code ∷ n ∷ rest)) (i + 2) (i + 2 + n) bytes
        ≡ done (pre ++ (code ∷ n ∷ (bytes ++ drop (2 + n) (x ∷ y ∷ rest))))
    copied = rw two (
        ap (λ buf. copy_from_slice buf (i + 2) (i + 2 + n) bytes) split
        ∙ copy-append (pre ++ front) (take n rest) (drop n rest) bytes (i + 2) (i + 2 + n)
            (omega (arith, length-append pre front)) (omega (arith, length-take n rest)) refl
        ∙ ap done (append_assoc pre front (bytes ++ drop n rest)))
push-append pre (x ∷ []) i code bytes e small fits = absurd (omega arith)
push-append pre [] i code bytes e small fits = absurd (omega arith)

-- A row of options, where all fit.
pub push_all-encode :
    (os : List (ℕ × List ℕ)) (pre rest : List ℕ) (i : ℕ)
    → AllSmall os
    → i ≡ length pre
    → length (encode (to_opts os)) < length rest
    → push_all (pre ++ rest) i os
      ≡ done (
        pre ++ (encode (to_opts os) ++ drop (length (encode (to_opts os))) rest),
        i + length (encode (to_opts os)),
      )
unfolding push_all
push_all-encode [] pre rest i small e fits = ap (λ j. done (pre ++ rest, j)) (omega arith)
push_all-encode ((code, v) ∷ os) pre rest i small e fits =
    let one = code ∷ length v ∷ v in
    let len : length (encode (to_opts ((code, v) ∷ os)))
        ≡ 2 + length v + length (encode (to_opts os)) =
      omega (arith, length-append v (encode (to_opts os))) in
    let rest' = drop (2 + length v) rest in
    let start = push-append pre rest i code v e small.0 (omega (arith, len)) in
    let whole = encode (to_opts ((code, v) ∷ os)) in
    let others = encode (to_opts os) in
    let again =
      push_all-encode os (pre ++ one) rest' (i + (2 + length v)) small.1
        (omega (arith, length-append pre one))
        (omega (arith, len, length-drop (2 + length v) rest)) in
    let again' =
      rw (append_assoc pre one rest', append_assoc pre one (others ++ drop (length others) rest'))
        at again in
    let behind : drop (length others) rest' ≡ drop (length whole) rest =
      drop-drop (2 + length v) (length others) rest ∙ ap (λ n. drop n rest) (sym len) in
    rw start (
      again'
      ∙ ap₂ (λ end n. done (pre ++ (code ∷ length v ∷ (v ++ (others ++ end))), n)) behind
          (omega (arith, len))
      ∙ ap (λ end. done (pre ++ (code ∷ length v ∷ end), i + length whole))
          (sym (append_assoc v others (drop (length whole) rest))))
