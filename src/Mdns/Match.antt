-- ===== src/Mdns/Match.antt =====
-- `qname_matches` of src/net_services.rs: its bound on hops, and what it says of a name without pointers.
use mathlib.Core.Path.{fun_ext}
use scoreboard_ctrl.Base.{
  ℕ, zero, suc, ◌+◌, ◌/◌, ◌≤◌, ◌<◌, min, ◌≡◌, refl, sym, ap, ◌∙◌, Bool, true, false, ◌&&◌, ◌||◌,
  Bool-cases, inl, inr, some, none, List, [], ◌∷◌, ◌++◌, append_assoc, length, length-append, ltb,
  leb, ◌==◌, if◌then◌else◌, done, ◌>>=◌, load, load-append, slice, slice-append, arith,
}
use scoreboard_ctrl.Dns.Names.{End, encode_name, AllLabels}
use scoreboard_ctrl.Mdns.{
  eq_label, match_byte, match_label, hop_fuel, ends_at, match_labels, qname_matches,
}

match_label_fuel :
    (fuel more : ℕ) (q lab : List ℕ) (i hops : ℕ)
    → 9 ≤ hops + fuel
    → match_label (fuel + more) q lab i hops ≡ match_label fuel q lab i hops
unfolding match_label match_byte
match_label_fuel zero zero q lab i hops h = refl
match_label_fuel zero (suc more) q lab i hops h =
    let far : ltb 8 (min (hops + 1) 255) ≡ true = ground arith in
    let n : 0 + suc more ≡ suc more = omega arith in rw (n, far)
match_label_fuel (suc fuel) more q lab i hops h =
    let n : suc fuel + more ≡ suc (fuel + more) = omega arith in
    let same =
      fun_ext (λ (j : ℕ). match_label_fuel fuel more q lab j (min (hops + 1) 255) (omega arith)) in
    rw n (
      ap
        (λ next.
          if ltb 8 (min (hops + 1) 255) || leb (length q) i
          then done none
          else (do len ← load q i; match_byte next q lab i (min (hops + 1) 255) len))
        same)

-- The nine rounds are enough: with any more the loop has the same result.
pub match_label-hop_fuel :
    (more : ℕ) (q lab : List ℕ) (i hops : ℕ)
    → match_label (hop_fuel + more) q lab i hops ≡ match_label hop_fuel q lab i hops
match_label-hop_fuel more q lab i hops = match_label_fuel 9 more q lab i hops (omega arith)

-- The names are the same but for the case of their letters.
abbrev pub same_names : List (List ℕ) → List (List ℕ) → Bool
same_names [] [] = true
same_names [] (m ∷ ms) = false
same_names (l ∷ ls) [] = false
same_names (l ∷ ls) (m ∷ ms) = eq_label l m && same_names ls ms

match_round :
    (fuel : ℕ) (pre xs lab : List ℕ) (b i hops : ℕ)
    → i ≡ length pre
    → hops < 8
    → match_label (suc fuel) (pre ++ (b ∷ xs)) lab i hops
      ≡ match_byte
          (λ j. match_label fuel (pre ++ (b ∷ xs)) lab j (hops + 1))
          (pre ++ (b ∷ xs))
          lab
          i
          (hops + 1)
          b
unfolding match_label
match_round fuel pre xs lab b i hops e h =
    let size : length (pre ++ (b ∷ xs)) ≡ i + (1 + length xs) =
      omega (arith, length-append pre (b ∷ xs)) in
    let hop : min (hops + 1) 255 ≡ hops + 1 = omega arith in
    let inside : (ltb 8 (hops + 1) || leb (length (pre ++ (b ∷ xs))) i) ≡ false = ground arith in
    rw (hop, inside, load-append pre (b ∷ xs) 0 i (omega arith) (omega arith))

match_label-root :
    (fuel : ℕ) (pre rest lab : List ℕ) (i hops : ℕ)
    → i ≡ length pre
    → hops < 8
    → match_label (suc fuel) (pre ++ (0 ∷ rest)) lab i hops ≡ done none
unfolding match_byte
match_label-root fuel pre rest lab i hops e h = match_round fuel pre rest lab 0 i hops e h

differ : (l m : List ℕ) → (length l == length m) ≡ false → eq_label l m ≡ false
unfolding eq_label
differ l m e = rw e

match_label-label :
    (fuel : ℕ) (pre l rest lab : List ℕ) (i hops : ℕ)
    → i ≡ length pre
    → hops < 8
    → 1 ≤ length l
    → length l < 64
    → match_label (suc fuel) (pre ++ (length l ∷ (l ++ rest))) lab i hops
      ≡ done (if eq_label l lab then some (i + (1 + length l), hops + 1) else none)
unfolding match_byte
match_label-label fuel pre l rest lab i hops e h low high =
    match_round fuel pre (l ++ rest) lab n i hops e h
    ∙ rw (plain, some_)
        (elim (Bool-cases (n == length lab)) [
          | inl same ↦
              rw (same, inside, label)
                (elim (Bool-cases (eq_label l lab)) [ inl t ↦ rw t | inr f ↦ rw f ])
          | inr other ↦ rw (other, differ l lab other)
        ])
  where
    n : ℕ
    n = length l

    size : length (pre ++ (length l ∷ (l ++ rest))) ≡ i + (1 + (length l + length rest))
    size = omega (arith, length-append pre (length l ∷ (l ++ rest)), length-append l rest)

    plain : (length l / 64 == 3) ≡ false
    plain = ground arith

    some_ : (length l == 0) ≡ false
    some_ = ground arith

    inside : ltb (length (pre ++ (length l ∷ (l ++ rest)))) (i + 1 + length l) ≡ false
    inside = ground (arith, size)

    label : slice (pre ++ (length l ∷ (l ++ rest))) (i + 1) (i + 1 + length l) ≡ done l
    label =
        ap (λ p. slice p (i + 1) (i + 1 + length l))
          (sym (append_assoc pre (length l ∷ []) (l ++ rest)))
        ∙ slice-append (pre ++ (length l ∷ [])) l rest (i + 1) (i + 1 + length l)
            (omega (arith, length-append pre (length l ∷ []))) refl

ends_at_byte :
    (pre xs : List ℕ) (b i : ℕ) → i ≡ length pre → ends_at (pre ++ (b ∷ xs)) i ≡ done (b == 0)
unfolding ends_at
ends_at_byte pre xs b i e =
    let inside : ltb i (length (pre ++ (b ∷ xs))) ≡ true =
      ground (arith, length-append pre (b ∷ xs)) in
    rw (inside, load-append pre (b ∷ xs) 0 i (omega arith) (omega arith))

match_labels-same_names :
    (ls labels : List (List ℕ)) (pre rest : List ℕ) (i hops : ℕ)
    → AllLabels ls
    → i ≡ length pre
    → hops + length labels ≤ 8
    → match_labels (pre ++ (encode_name ls End.root ++ rest)) labels i hops
      ≡ done (same_names ls labels)
unfolding match_labels
match_labels-same_names [] [] pre rest i hops a e h = ends_at_byte pre rest 0 i e
match_labels-same_names (l ∷ ls) [] pre rest i hops a e h =
    let more : (length l == 0) ≡ false = ground arith in
    ends_at_byte pre ((l ++ encode_name ls End.root) ++ rest) (length l) i e ∙ ap done more
match_labels-same_names [] (m ∷ ms) pre rest i hops a e h =
    rw (match_label-root 8 pre rest m i hops e (omega arith))
match_labels-same_names (l ∷ ls) (m ∷ ms) pre rest i hops a e h =
    let ih =
      match_labels-same_names ls ms (pre ++ (length l ∷ l)) rest (i + (1 + length l)) (hops + 1) a.1
        (omega (arith, length-append pre (length l ∷ l))) (omega arith) in
    let ih' = rw (append_assoc pre (length l ∷ l) (encode_name ls End.root ++ rest)) at ih in
    rw
      (
        append_assoc l (encode_name ls End.root) rest,
        match_label-label 8 pre l (encode_name ls End.root ++ rest) m i hops e (omega arith) a.0.0
            a.0.1,
      )
      (elim (Bool-cases (eq_label l m)) [
        | inl t ↦ rw t (
            ap (λ p. match_labels (pre ++ (length l ∷ p)) ms (i + (1 + length l)) (hops + 1))
              (append_assoc l (encode_name ls End.root) rest)
            ∙ ih')
        | inr f ↦ rw f
      ])

-- A name without pointers, of which at most eight labels are looked at, is matched exactly if it is the one
-- asked for but for the case of its letters.
pub qname_matches-same_names :
    (head rest : List ℕ) (ls labels : List (List ℕ))
    → AllLabels ls
    → length labels ≤ 8
    → qname_matches (head ++ (encode_name ls End.root ++ rest)) (length head) labels
      ≡ done (same_names ls labels)
unfolding qname_matches
qname_matches-same_names head rest ls labels a h =
    match_labels-same_names ls labels head rest (length head) 0 a refl (omega arith)
