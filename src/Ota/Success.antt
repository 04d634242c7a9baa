-- ===== src/Ota/Success.antt =====
-- `run_ota` of src/ota.rs with a reader that goes on and a flash that takes every call.
use scoreboard_ctrl.Base.{
  ℕ, zero, suc, ◌+◌, ◌-◌, ◌≤◌, ◌<◌, min, ◌≡◌, Bool, true, false, Bool-cases, inl, inr, Option, none,
  some, List, [], ◌∷◌, ◌++◌, ltb, ◌==◌, length, length-append, arith,
}
use scoreboard_ctrl.Ota.{
  erase_size, active_capacity, Outcome, FlashOp, Uploaded, fill_more, fill_from, read_exact_or_eof,
  finish, on_chunk, upload_from, run_ota, Event, calls,
}

-- A reader that gives at least one byte and at most as many as fit, where some are left and some fit;
-- `left` is how many are left.
module _ {R : Type 0} (left : R → ℕ) where
  abbrev pub Gives : R → ℕ → Option (List ℕ) × R → Type 0
  Gives r n (none, s) = ⊥
  Gives r n (some bytes, s) =
      (1 ≤ length bytes) × (length bytes ≤ n) × (left s + length bytes ≡ left r)

  abbrev pub IsLive : (R → ℕ → Option (List ℕ) × R) → Type 0
  IsLive read = (r : R) (n : ℕ) → 1 ≤ n → 1 ≤ left r → Gives r n (read r n)

module _ {R : Type 0} (read : R → ℕ → Option (List ℕ) × R)
    (flash_ok : List FlashOp → FlashOp → Bool) (left : R → ℕ) (live : IsLive left read) where
  -- A buffer with `want` bytes missing is filled.
  abbrev Fills : ℕ → List ℕ → R → Option (List ℕ) × R → Type 0
  Fills want filled r (none, s) = ⊥
  Fills want filled r (some out, s) = (length out ≡ length filled + want) × (left s + want ≡ left r)

  widen :
      (filled bytes : List ℕ) (want : ℕ) (r s : R) (o : Option (List ℕ) × R)
      → length bytes ≤ want
      → left s + length bytes ≡ left r
      → Fills (want - length bytes) (filled ++ bytes) s o
      → Fills want filled r o
  widen filled bytes want r s (none, t) le e f = f
  widen filled bytes want r s (some out, t) le e f =
      (omega (arith, length-append filled bytes, f), omega (arith, f))

  fill_more-Fills :
      (next : ℕ → List ℕ → R → Option (List ℕ) × R) (fuel want : ℕ) (filled : List ℕ) (r : R)
      (o : Option (List ℕ) × R)
      → ((w : ℕ) (f : List ℕ) (s : R) → w ≤ fuel → w ≤ left s → Fills w f s (next w f s))
      → want ≤ suc fuel
      → want ≤ left r
      → Gives left r want o
      → Fills want filled r (fill_more read flash_ok next want filled o)
  unfolding fill_more
  fill_more-Fills next fuel want filled r (none, s) n e l g = absurd g
  fill_more-Fills next fuel want filled r (some [], s) n e l g = absurd (omega (arith, g))
  fill_more-Fills next fuel want filled r (some (b ∷ bytes), s) n e l g =
      widen filled (b ∷ bytes) want r s _ g.1 g.2
        (n (want - length (b ∷ bytes)) (filled ++ (b ∷ bytes)) s (omega arith) (omega (arith, g)))

  fill_from-Fills :
      (fuel want : ℕ) (filled : List ℕ) (r : R)
      → want ≤ fuel
      → want ≤ left r
      → Fills want filled r (fill_from read flash_ok fuel want filled r)
  unfolding fill_from
  fill_from-Fills zero want filled r e l = (omega arith, omega arith)
  fill_from-Fills (suc fuel) want filled r e l = elim (Bool-cases (want == 0)) [
    | inl z ↦
        let none_left : want ≡ 0 = ground arith in
        rw z (omega (arith, none_left), omega (arith, none_left))
    | inr z ↦ rw z (
        fill_more-Fills (λ w f s. fill_from read flash_ok fuel w f s) fuel want filled r
          (read r want) (λ w f s. fill_from-Fills fuel w f s) e l
          (live r want (ground arith) (ground arith)))
  ]

  module _ (accepts : (ops : List FlashOp) (op : FlashOp) → flash_ok ops op ≡ true) where
    on_chunk-ok :
        (next : ℕ → ℕ → R → List Event → Uploaded read flash_ok)
        (want content_len offset last_log : ℕ) (r : R) (log : List Event) (o : Option (List ℕ) × R)
        → ((p : ℕ) (s : R) (l : List Event)
            → left s + want ≡ left r
            → (next (offset + want) p s l).outcome ≡ Outcome.ok)
        → 1 ≤ want
        → Fills want [] r o
        → (on_chunk read flash_ok next content_len offset last_log log o).outcome ≡ Outcome.ok
    unfolding on_chunk
    on_chunk-ok next want content_len offset last_log r log (none, s) n w f = absurd f
    on_chunk-ok next want content_len offset last_log r log (some [], s) n w f =
        absurd (omega (arith, f))
    on_chunk-ok next want content_len offset last_log r log (some (b ∷ bytes), s) n w f =
        let e : length (b ∷ bytes) ≡ want = omega (arith, f) in
        rw (accepts (calls log) (FlashOp.write_firmware offset (b ∷ bytes)), e) (n _ s _ f.1)

    finish-ok :
        (content_len offset : ℕ) (r : R) (log : List Event)
        → offset ≡ content_len
        → (finish read flash_ok content_len offset r log).outcome ≡ Outcome.ok
    unfolding finish
    finish-ok content_len offset r log e =
        let t : (offset == content_len) ≡ true = ground arith in
        rw (t, accepts (calls log) FlashOp.mark_updated)

    upload_from-ok :
        (fuel content_len offset last_log : ℕ) (r : R) (log : List Event)
        → content_len ≤ offset + fuel
        → offset ≤ content_len
        → content_len ≤ offset + left r
        → (upload_from read flash_ok fuel content_len offset last_log r log).outcome ≡ Outcome.ok
    unfolding upload_from read_exact_or_eof
    upload_from-ok zero content_len offset last_log r log e o l =
        finish-ok content_len offset r log (omega arith)
    upload_from-ok (suc fuel) content_len offset last_log r log e o l =
        elim (Bool-cases (ltb offset content_len)) [
          | inl more ↦
              let lt : offset < content_len = ground arith in
              let want = min erase_size (content_len - offset) in
              rw more (
                on_chunk-ok (λ a p s k. upload_from read flash_ok fuel content_len a p s k) want
                  content_len offset last_log r log (read_exact_or_eof read flash_ok want r)
                  (λ p s k q.
                    upload_from-ok fuel content_len (offset + want) p s k (omega (arith, lt))
                      (omega (arith, lt)) (omega (arith, lt, q)))
                  (omega (arith, lt))
                  (fill_from-Fills want want [] r (omega arith) (omega (arith, lt))))
          | inr all ↦ rw all (finish-ok content_len offset r log (ground arith))
        ]

    -- With a reader that gives some bytes, at most as many as fit, where some are left, and an updater that
    -- accepts every call: an upload of some bytes, at most as many as the partition takes, of which the reader has that many
    -- left, succeeds.
    pub run_ota-ok :
        (content_len : ℕ) (r : R)
        → 1 ≤ content_len
        → content_len ≤ active_capacity
        → content_len ≤ left r
        → (run_ota read flash_ok content_len r []).outcome ≡ Outcome.ok
    unfolding run_ota
    run_ota-ok content_len r some_ fits here =
        let z : (content_len == 0) ≡ false = ground arith in
        let c : ltb active_capacity content_len ≡ false = ground arith in
        rw (z, c)
          (upload_from-ok content_len content_len 0 0 r _ (omega arith) (omega arith) (omega arith))
