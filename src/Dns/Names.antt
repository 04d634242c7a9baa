-- ===== src/Dns/Names.antt =====
-- `skip_name` of src/net_proto.rs on an encoded name.
use scoreboard_ctrl.Base.{
  ℕ, zero, suc, ◌+◌, ◌/◌, ◌≤◌, ◌<◌, ◌≡◌, sym, ap, ◌∙◌, false, Option, some, List, [], ◌∷◌, ◌++◌,
  append_assoc, ltb, leb, ◌==◌, length, length-append, Run, done, load-append, arith,
}
use scoreboard_ctrl.Dns.{skip_label, skip_from, skip_name}

-- The labels of a name, each behind its length, and what ends it: a zero, or a pointer to bytes that
-- stand elsewhere.
pub data End : Type 0 where
  root : End
  pointer : ℕ → ℕ → End

abbrev pub encode_end : End → List ℕ
encode_end root = 0 ∷ []
encode_end (pointer hi lo) = (192 + hi) ∷ lo ∷ []

abbrev pub encode_name : List (List ℕ) → End → List ℕ
encode_name [] e = encode_end e
encode_name (l ∷ ls) e = length l ∷ (l ++ encode_name ls e)

abbrev pub IsEnd : End → Type 0
IsEnd root = Unit
IsEnd (pointer hi lo) = hi < 64

-- The labels are neither empty nor longer than 63 bytes.
abbrev pub AllLabels : List (List ℕ) → Type 0
AllLabels [] = Unit
AllLabels (l ∷ ls) = ((1 ≤ length l) × (length l < 64)) × AllLabels ls

skip_round :
    (fuel : ℕ) (pre xs : List ℕ) (b i : ℕ)
    → i ≡ length pre
    → skip_from (suc fuel) (pre ++ (b ∷ xs)) i
      ≡ skip_label (λ j. skip_from fuel (pre ++ (b ∷ xs)) j) (pre ++ (b ∷ xs)) i b
unfolding skip_from
skip_round fuel pre xs b i e =
    let size : length (pre ++ (b ∷ xs)) ≡ i + (1 + length xs) =
      omega (arith, length-append pre (b ∷ xs)) in
    let inside : leb (length (pre ++ (b ∷ xs))) i ≡ false = ground arith in
    rw (inside, load-append pre (b ∷ xs) 0 i (omega arith) (omega arith))

onward :
    (next : ℕ → Run (Option ℕ)) (q : List ℕ) (i n : ℕ)
    → 1 ≤ n
    → n < 64
    → i + (1 + n) ≤ length q
    → skip_label next q i n ≡ next (i + (1 + n))
unfolding skip_label
onward next q i n low high fits =
    let a : (n == 0) ≡ false = ground arith in
    let b : (n / 64 == 3) ≡ false = ground arith in
    let c : ltb (length q) (i + (1 + n)) ≡ false = ground arith in rw (a, b, c)

skip_from-encode_name :
    (ls : List (List ℕ)) (end : End) (fuel : ℕ) (pre rest : List ℕ) (i : ℕ)
    → AllLabels ls
    → IsEnd end
    → length (encode_name ls end) ≤ fuel
    → i ≡ length pre
    → skip_from fuel (pre ++ (encode_name ls end ++ rest)) i
      ≡ done (some (i + length (encode_name ls end)))
unfolding skip_label
skip_from-encode_name [] root zero pre rest i a g f e = absurd (omega arith)
skip_from-encode_name [] (pointer hi lo) zero pre rest i a g f e = absurd (omega arith)
skip_from-encode_name (l ∷ ls) end zero pre rest i a g f e = absurd (omega arith)
skip_from-encode_name [] root (suc fuel) pre rest i a g f e = skip_round fuel pre rest 0 i e
skip_from-encode_name [] (pointer hi lo) (suc fuel) pre rest i a g f e =
    let size : length (pre ++ ((192 + hi) ∷ lo ∷ rest)) ≡ i + (2 + length rest) =
      omega (arith, length-append pre ((192 + hi) ∷ lo ∷ rest)) in
    skip_round fuel pre (lo ∷ rest) (192 + hi) i e ∙ ground arith
skip_from-encode_name (l ∷ ls) end (suc fuel) pre rest i a g f e =
    let n = length l in
    let tail_ = encode_name ls end in
    let size : length (pre ++ (n ∷ (l ++ (tail_ ++ rest))))
        ≡ i + (1 + (n + length (tail_ ++ rest))) =
      omega
        (arith, length-append pre (n ∷ (l ++ (tail_ ++ rest))), length-append l (tail_ ++ rest)) in
    let ih =
      skip_from-encode_name ls end fuel (pre ++ (n ∷ l)) rest (i + (1 + n)) a.1 g
        (omega (arith, length-append l tail_)) (omega (arith, length-append pre (n ∷ l))) in
    let ih' = rw (append_assoc pre (n ∷ l) (tail_ ++ rest)) at ih in
    rw (append_assoc l tail_ rest) (
      skip_round fuel pre (l ++ (tail_ ++ rest)) n i e
      ∙ onward (λ j. skip_from fuel (pre ++ (n ∷ (l ++ (tail_ ++ rest)))) j)
          (pre ++ (n ∷ (l ++ (tail_ ++ rest)))) i n a.0.0 a.0.1 (omega (arith, size))
      ∙ ih'
      ∙ ap (λ k. done (some k)) (omega (arith, length-append l tail_)))

-- A packet with a name at index 12: what comes next is found behind the last byte of the name.
pub skip_name-encode_name :
    (head rest : List ℕ) (ls : List (List ℕ)) (end : End)
    → length head ≡ 12
    → AllLabels ls
    → IsEnd end
    → skip_name (head ++ (encode_name ls end ++ rest)) 12
      ≡ done (some (12 + length (encode_name ls end)))
unfolding skip_name
skip_name-encode_name head rest ls end h a g =
    skip_from-encode_name ls end (length (head ++ (encode_name ls end ++ rest))) head rest 12 a g
      (omega (
        arith,
        length-append head (encode_name ls end ++ rest),
        length-append (encode_name ls end) rest,
      ))
      (sym h)
