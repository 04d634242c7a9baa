-- ===== src/BootCmd.antt =====
-- `BootCmd::handle_data` of src/main.rs: the bytes that come in over USB are matched with a command, and
-- the device restarts into its loader where the command is there.
use scoreboard_ctrl.Base.{
  ℕ, zero, suc, ◌+◌, ◌<◌, ◌≡◌, refl, sym, ap, ◌∙◌, Bool, true, false, Bool-cases, inl, inr, ◌&&◌,
  List, [], ◌∷◌, ◌++◌, append_assoc, append-nil, ltb, ◌==◌, if◌then◌else◌, length, take, get_or,
  arith,
}

-- `b"ENTERBOOTLOADER"`
abbrev pub cmd : List ℕ
cmd =
    b'E' ∷ b'N' ∷ b'T' ∷ b'E' ∷ b'R' ∷ b'B' ∷ b'O' ∷ b'O' ∷ b'T' ∷ b'L' ∷ b'O' ∷ b'A' ∷ b'D' ∷ b'E'
    ∷ b'R' ∷ []

-- The loop over `data`, with `n` bytes of the command matched: whether the command is complete, and how
-- many are matched behind it.
unfoldable pub handle_data : List ℕ → ℕ → Bool × ℕ
handle_data [] n = (false, n)
handle_data (b ∷ data_) n =
    let more = handle_data data_ (n + 1) in
    let again = handle_data data_ 1 in
    let anew = handle_data data_ 0 in
    if ltb n (length cmd) && b == get_or cmd n 0
    then (if n + 1 == length cmd then (true, 0) else more)
    else if b == get_or cmd 0 0
    then again
    else anew

-- The bytes received end with the first `n` of the command.
abbrev pub EndsWith : List ℕ → ℕ → Type 0
EndsWith before n = (front : List ℕ) × (before ≡ front ++ take n cmd)

take-suc :
    (xs : List ℕ) (n : ℕ) → n < length xs → take (n + 1) xs ≡ take n xs ++ (get_or xs n 0 ∷ [])
take-suc [] n h = absurd (omega arith)
take-suc (x ∷ xs) zero h = refl
take-suc (x ∷ xs) (suc n) h =
    let e : suc n + 1 ≡ suc (n + 1) = omega arith in rw e (ap (◌∷◌ x) (take-suc xs n (omega arith)))

EndsWith-more :
    (before : List ℕ) (b n : ℕ)
    → EndsWith before n
    → (ltb n (length cmd) && b == get_or cmd n 0) ≡ true
    → EndsWith (before ++ (b ∷ [])) (n + 1)
EndsWith-more before b n (front, e) h =
    let same : b ≡ get_or cmd n 0 = ground arith in
    (
      front,
      ap (λ xs. xs ++ (b ∷ [])) e
          ∙ append_assoc front (take n cmd) (b ∷ [])
          ∙ ap (λ xs. front ++ xs)
              (ap (λ x. take n cmd ++ (x ∷ [])) same ∙ sym (take-suc cmd n (ground arith))),
    )

-- The whole command stands somewhere in the bytes.
abbrev pub Holds : List ℕ → Type 0
Holds received = (front : List ℕ) × (rest : List ℕ) × (received ≡ front ++ (cmd ++ rest))

shift :
    (before data_ : List ℕ) (b : ℕ)
    → Holds ((before ++ (b ∷ [])) ++ data_)
    → Holds (before ++ (b ∷ data_))
shift before data_ b (front, rest, e) = (front, rest, sym (append_assoc before (b ∷ []) data_) ∙ e)

-- The device restarts only behind the whole command: if `n` bytes of it came last, and the bytes that come
-- now complete it, then it stands somewhere in what was received.
pub handle_data-Holds :
    (data_ before : List ℕ) (n : ℕ)
    → EndsWith before n
    → (handle_data data_ n).0 ≡ true
    → Holds (before ++ data_)
unfolding handle_data
handle_data-Holds [] before n m h = absurd (ground arith)
handle_data-Holds (b ∷ data_) before n m h =
    elim (Bool-cases (ltb n (length cmd) && b == get_or cmd n 0)) [
      | inl hit ↦ elim (Bool-cases (n + 1 == length cmd)) [
        | inl whole ↦
            let (front, e) = EndsWith-more before b n m hit in
            let all : n + 1 ≡ length cmd = ground arith in
            (
              front,
              data_,
              sym (append_assoc before (b ∷ []) data_)
                  ∙ ap (λ xs. xs ++ data_) (e ∙ ap (λ k. front ++ take k cmd) all)
                  ∙ append_assoc front cmd data_,
            )
        | inr part ↦ shift before data_ b (
            handle_data-Holds data_ (before ++ (b ∷ [])) (n + 1) (EndsWith-more before b n m hit)
              (rw (hit, part) at h))
      ]
      | inr miss ↦ elim (Bool-cases (b == get_or cmd 0 0)) [
        | inl anew ↦
            let same : b ≡ get_or cmd 0 0 = ground arith in
            shift before data_ b (
              handle_data-Holds data_ (before ++ (b ∷ [])) 1
                (before, ap (λ x. before ++ (x ∷ [])) same) (rw (miss, anew) at h))
        | inr other ↦ shift before data_ b (
            handle_data-Holds data_ (before ++ (b ∷ [])) 0
              (before ++ (b ∷ []), sym (append-nil (before ++ (b ∷ [])))) (rw (miss, other) at h))
      ]
    ]
