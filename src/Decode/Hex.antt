-- ===== src/Decode/Hex.antt =====
-- `write_hex` of src/decode.rs: as many bytes as fit, as two digits each, with spaces between them.
use scoreboard_ctrl.Base.{
  ℕ, zero, suc, ◌+◌, ◌-◌, ◌*◌, ◌/◌, ◌%◌, ◌<◌, min, ◌≡◌, refl, ap, ◌∙◌, List, [], ◌∷◌, ◌++◌,
  append_assoc, ltb, if◌then◌else◌, length, set, length-set, take, drop, length-append, length-take,
  done, load, store-append, arith,
}
use scoreboard_ctrl.Decode.{hex, write_digits, write_hex_from, write_hex}

-- The lower-case digit of a number below 16.
abbrev pub digit : ℕ → ℕ
digit n = if ltb n 10 then b'0' + n else b'a' + (n - 10)

-- ` bb` for each byte.
abbrev pub spaced : List ℕ → List ℕ
spaced [] = []
spaced (b ∷ bs) = b' ' ∷ digit (b / 16) ∷ digit (b % 16) ∷ spaced bs

-- `aa bb cc`
abbrev pub hex_text : List ℕ → List ℕ
hex_text [] = []
hex_text (b ∷ bs) = digit (b / 16) ∷ digit (b % 16) ∷ spaced bs

abbrev pub AllBytes : List ℕ → Type 0
AllBytes [] = Unit
AllBytes (b ∷ bs) = (b < 256) × AllBytes bs

load-hex : (n : ℕ) → n < 16 → load hex n ≡ done (digit n)
unfolding load
load-hex zero h = refl
load-hex (suc zero) h = refl
load-hex (suc (suc zero)) h = refl
load-hex (suc (suc (suc zero))) h = refl
load-hex (suc (suc (suc (suc zero)))) h = refl
load-hex (suc (suc (suc (suc (suc zero))))) h = refl
load-hex (suc (suc (suc (suc (suc (suc zero)))))) h = refl
load-hex (suc (suc (suc (suc (suc (suc (suc zero))))))) h = refl
load-hex (suc (suc (suc (suc (suc (suc (suc (suc zero)))))))) h = refl
load-hex (suc (suc (suc (suc (suc (suc (suc (suc (suc zero))))))))) h = refl
load-hex (suc (suc (suc (suc (suc (suc (suc (suc (suc (suc zero)))))))))) h = refl
load-hex (suc (suc (suc (suc (suc (suc (suc (suc (suc (suc (suc zero))))))))))) h = refl
load-hex (suc (suc (suc (suc (suc (suc (suc (suc (suc (suc (suc (suc zero)))))))))))) h = refl
load-hex (suc (suc (suc (suc (suc (suc (suc (suc (suc (suc (suc (suc (suc zero))))))))))))) h = refl
load-hex (suc (suc (suc (suc (suc (suc (suc (suc (suc (suc (suc (suc (suc (suc zero))))))))))))))
      h =
    refl
load-hex
      (suc (suc (suc (suc (suc (suc (suc (suc (suc (suc (suc (suc (suc (suc (suc zero)))))))))))))))
      h =
    refl
load-hex
      (suc
        (suc (suc (suc (suc (suc (suc (suc (suc (suc (suc (suc (suc (suc (suc (suc d))))))))))))))))
      h =
    absurd (omega arith)

write_digits-append :
    (pre xs : List ℕ) (k b i : ℕ)
    → b < 256
    → i ≡ length pre + k
    → k + 1 < length xs
    → write_digits (pre ++ xs) i b
      ≡ done (pre ++ set (set xs k (digit (b / 16))) (k + 1) (digit (b % 16)))
unfolding write_digits
write_digits-append pre xs k b i h e l = ground (
  arith,
  load-hex (b / 16),
  store-append pre xs k (digit (b / 16)) i,
  load-hex (b % 16),
  store-append pre (set xs k (digit (b / 16))) (k + 1) (digit (b % 16)) (i + 1),
  length-set xs k (digit (b / 16)),
)

-- The loop behind the first byte: it writes into `rest` as long as three bytes are left.
abbrev spaced_into : List ℕ → List ℕ → List ℕ
spaced_into (b ∷ bs) (x ∷ y ∷ z ∷ rest) =
    b' ' ∷ digit (b / 16) ∷ digit (b % 16) ∷ spaced_into bs rest
spaced_into [] rest = rest
spaced_into (b ∷ bs) rest = rest

abbrev room : List ℕ → List ℕ → ℕ
room (b ∷ bs) (x ∷ y ∷ z ∷ rest) = suc (room bs rest)
room [] rest = 0
room (b ∷ bs) rest = 0

full :
    (k b : ℕ) (bs out : List ℕ) (i : ℕ)
    → length out < i + 3
    → write_hex_from (suc k) (b ∷ bs) out i ≡ done (out, i)
unfolding write_hex_from
full k b bs out i h = ground arith

three :
    (k b : ℕ) (bs pre post : List ℕ) (x y z i : ℕ)
    → b < 256
    → i ≡ length pre
    → write_hex_from (suc k) (b ∷ bs) (pre ++ (x ∷ y ∷ z ∷ post)) i
      ≡ write_hex_from
          (suc (suc k))
          bs
          (pre ++ (b' ' ∷ digit (b / 16) ∷ digit (b % 16) ∷ post))
          (i + 1 + 2)
unfolding write_hex_from
three k b bs pre post x y z i h e = ground (
  arith,
  length-append pre (x ∷ y ∷ z ∷ post),
  store-append pre (x ∷ y ∷ z ∷ post) 0 b' ' i,
  write_digits-append pre (b' ' ∷ y ∷ z ∷ post) 1 b (i + 1),
)

write_hex_from-spaced :
    (k : ℕ) (bytes pre rest : List ℕ) (i : ℕ)
    → AllBytes bytes
    → i ≡ length pre
    → write_hex_from (suc k) bytes (pre ++ rest) i
      ≡ done (pre ++ spaced_into bytes rest, length pre + 3 * room bytes rest)
unfolding write_hex_from
write_hex_from-spaced k [] pre rest i h e = ground arith
write_hex_from-spaced k (b ∷ bs) pre (x ∷ y ∷ z ∷ rest) i h e =
    let text = b' ' ∷ digit (b / 16) ∷ digit (b % 16) ∷ [] in
    three k b bs pre rest x y z i h.0 e
    ∙ rw (← append_assoc pre text rest) (
        ground (
          arith,
          write_hex_from-spaced (suc k) bs (pre ++ text) rest (i + 1 + 2) h.1,
          length-append pre text,
          append_assoc pre text (spaced_into bs rest),
        ))
write_hex_from-spaced k (b ∷ bs) pre rest i h e =
    full k b bs (pre ++ rest) i (omega (arith, length-append pre rest)) ∙ ground arith

room-eq-min : (bytes rest : List ℕ) → room bytes rest ≡ min (length bytes) (length rest / 3)
room-eq-min [] rest = omega arith
room-eq-min (b ∷ bs) (x ∷ y ∷ z ∷ rest) = omega (arith, room-eq-min bs rest)
room-eq-min (b ∷ bs) rest = omega arith

spaced_into-append :
    (bytes rest : List ℕ)
    → spaced_into bytes rest
      ≡ spaced (take (room bytes rest) bytes) ++ drop (3 * room bytes rest) rest
spaced_into-append [] rest = refl
spaced_into-append (b ∷ bs) (x ∷ y ∷ z ∷ rest) =
    let step : 3 * suc (room bs rest) ≡ suc (suc (suc (3 * room bs rest))) = omega arith in
    rw step (ap (λ l. b' ' ∷ digit (b / 16) ∷ digit (b % 16) ∷ l) (spaced_into-append bs rest))
spaced_into-append (b ∷ bs) rest = refl

length-spaced : (bytes : List ℕ) → length (spaced bytes) ≡ 3 * length bytes
length-spaced [] = refl
length-spaced (b ∷ bs) = omega (arith, length-spaced bs)

-- How many bytes `write_hex` writes.
abbrev pub fitting : List ℕ → List ℕ → ℕ
fitting bytes out = min (length bytes) ((length out + 1) / 3)

-- The buffer after a text was written at its start.
abbrev pub written : List ℕ → List ℕ → List ℕ × ℕ
written text out = (text ++ drop (length text) out, length text)

first :
    (b : ℕ) (bs rest : List ℕ) (x y : ℕ)
    → b < 256
    → write_hex (b ∷ bs) (x ∷ y ∷ rest)
      ≡ write_hex_from 1 bs (digit (b / 16) ∷ digit (b % 16) ∷ rest) 2
unfolding write_hex write_hex_from
first b bs rest x y h = ground (arith, write_digits-append [] (x ∷ y ∷ rest) 0 b 0)

short : (b : ℕ) (bs out : List ℕ) → length out < 2 → write_hex (b ∷ bs) out ≡ done (out, 0)
unfolding write_hex write_hex_from
short b bs out h = ground arith

-- `write_hex` never panics. It writes, from the start of `out`, the text of as many leading bytes of
-- its input as fit, with one space between two, leaves the rest of `out` as it was, and returns the
-- length of the text.
pub write_hex_lem :
    (bytes out : List ℕ)
    → AllBytes bytes
    → write_hex bytes out ≡ done (written (hex_text (take (fitting bytes out) bytes)) out)
unfolding write_hex write_hex_from
write_hex_lem [] out h = let none_fit : fitting [] out ≡ 0 = omega arith in rw none_fit
write_hex_lem (b ∷ bs) (x ∷ y ∷ rest) h =
    first b bs rest x y h.0
    ∙ write_hex_from-spaced 0 bs (digit (b / 16) ∷ digit (b % 16) ∷ []) rest 2 h.1 refl
    ∙ rw fits (ground (arith, spaced_into-append bs rest, taken))
  where
    fits : fitting (b ∷ bs) (x ∷ y ∷ rest) ≡ suc (room bs rest)
    fits = omega (arith, room-eq-min bs rest)

    taken : length (spaced (take (room bs rest) bs)) ≡ 3 * room bs rest
    taken = omega (
      arith,
      length-spaced (take (room bs rest) bs),
      length-take (room bs rest) bs,
      room-eq-min bs rest,
    )
write_hex_lem (b ∷ bs) out h =
    short b bs out (omega arith)
    ∙ (let none_fit : fitting (b ∷ bs) out ≡ 0 = omega arith in rw none_fit)
