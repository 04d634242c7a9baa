-- ===== src/Ota/Pages.antt =====
-- Where `run_ota` of src/ota.rs writes: the updater erases the pages that a write touches.
use scoreboard_ctrl.Base.{
  ℕ, zero, suc, ◌+◌, ◌-◌, ◌%◌, ◌≤◌, ◌<◌, min, ◌≡◌, refl, ap, ◌∙◌, ◌⊎◌, inl, inr, Bool, Bool-cases,
  Option, none, some, List, [], ◌∷◌, ◌++◌, ltb, ◌==◌, length, length-append, arith,
}
use scoreboard_ctrl.Ota.{
  erase_size, active_capacity, FlashOp, Event, calls, log_fw_err, Uploaded, fill_more, fill_from,
  read_exact_or_eof, finish, on_chunk, upload_from, run_ota,
}
use scoreboard_ctrl.Ota.Upload.{
  IsReader, ReadsFront, FillsFront, fill_from-FillsFront, calls-log_progress,
}

-- Each write begins at a page, and is at most a page long.
abbrev pub InPages : List FlashOp → Type 0
InPages [] = Unit
InPages (FlashOp.write_firmware offset bytes ∷ ops) =
    (offset % erase_size ≡ 0) × (length bytes ≤ erase_size) × InPages ops
InPages (FlashOp.mark_updated ∷ ops) = InPages ops

-- A reader that reads nothing into some space only where nothing is left.
module _ {R : Type 0} (contents : R → List ℕ) where
  abbrev pub EndsAt : ℕ → Option (List ℕ) × R → Type 0
  EndsAt n (none, s) = Unit
  EndsAt n (some [], s) = contents s ≡ []
  EndsAt n (some (b ∷ bytes), s) = Unit

  abbrev pub IsComplete : (R → ℕ → Option (List ℕ) × R) → Type 0
  IsComplete read = (r : R) (n : ℕ) → 1 ≤ n → EndsAt n (read r n)

module _ {R : Type 0} (read : R → ℕ → Option (List ℕ) × R)
    (flash_ok : List FlashOp → FlashOp → Bool) (contents : R → List ℕ)
    (law : IsReader contents read) (all : IsComplete contents read) where
  -- The space of `want` bytes is filled, or nothing is left.
  abbrev Fills : ℕ → List ℕ → Option (List ℕ) × R → Type 0
  Fills want filled (none, s) = Unit
  Fills want filled (some out, s) = (length out ≡ length filled + want) ⊎ (contents s ≡ [])

  widen :
      (want : ℕ) (filled bytes : List ℕ) (o : Option (List ℕ) × R)
      → length bytes ≤ want
      → Fills (want - length bytes) (filled ++ bytes) o
      → Fills want filled o
  widen want filled bytes (none, s) le f = tt
  widen want filled bytes (some out, s) le (inl e) = inl (omega (arith, length-append filled bytes))
  widen want filled bytes (some out, s) le (inr e) = inr e

  fill_more-Fills :
      (next : ℕ → List ℕ → R → Option (List ℕ) × R) (fuel want : ℕ) (filled : List ℕ) (r : R)
      (o : Option (List ℕ) × R)
      → ((w : ℕ) (f : List ℕ) (s : R) → w ≤ fuel → Fills w f (next w f s))
      → want ≤ suc fuel
      → ReadsFront contents r want o
      → EndsAt contents want o
      → Fills want filled (fill_more read flash_ok next want filled o)
  unfolding fill_more
  fill_more-Fills next fuel want filled r (none, s) n h f e = tt
  fill_more-Fills next fuel want filled r (some [], s) n h f e = inr e
  fill_more-Fills next fuel want filled r (some (b ∷ bytes), s) n h f e =
      widen want filled (b ∷ bytes) _ f.1
        (n (want - length (b ∷ bytes)) (filled ++ (b ∷ bytes)) s (omega arith))

  fill_from-Fills :
      (fuel want : ℕ) (filled : List ℕ) (r : R)
      → want ≤ fuel
      → Fills want filled (fill_from read flash_ok fuel want filled r)
  unfolding fill_from
  fill_from-Fills zero want filled r h = inl (omega arith)
  fill_from-Fills (suc fuel) want filled r h = elim (Bool-cases (want == 0)) [
    | inl z ↦ let none_left : want ≡ 0 = ground arith in rw z (inl (omega (arith, none_left)))
    | inr z ↦ rw z (
        fill_more-Fills (λ w f s. fill_from read flash_ok fuel w f s) fuel want filled r
          (read r want) (λ w f s le. fill_from-Fills fuel w f s le) h (law r want)
          (all r want (ground arith)))
  ]

  -- Before a round: the offset is that of a page, or nothing is left to read, or the loop ends.
  abbrev Ready : ℕ → ℕ → R → Type 0
  Ready content_len offset r =
      (offset % erase_size ≡ 0) ⊎ ((contents r ≡ []) ⊎ (content_len ≤ offset))

  abbrev Placed : Uploaded read flash_ok → Type 0
  Placed u = InPages (calls u.log)

  finish-Placed :
      (content_len offset : ℕ) (r : R) (log : List Event)
      → InPages (calls log)
      → Placed (finish read flash_ok content_len offset r log)
  unfolding finish log_fw_err
  finish-Placed content_len offset r log p = elim (Bool-cases (offset == content_len)) [
    | inl e ↦ rw e (elim (Bool-cases (flash_ok (calls log) FlashOp.mark_updated)) [
      | inl m ↦ rw m p
      | inr m ↦ rw m p
    ])
    | inr e ↦ rw e p
  ]

  later :
      (content_len offset : ℕ) (bytes : List ℕ) (s : R)
      → offset < content_len
      → offset % erase_size ≡ 0
      → Fills (min erase_size (content_len - offset)) [] (some bytes, s)
      → Ready content_len (offset + length bytes) s
  later content_len offset bytes s lt a (inl e) =
      elim (Bool-cases (ltb (content_len - offset) erase_size)) [
        | inl short ↦ inr (inr (ground arith))
        | inr full ↦
            (let le : erase_size ≤ content_len - offset = ground arith in inl (omega (arith, le)))
      ]
  later content_len offset bytes s lt a (inr e) = inr (inl e)

  -- What a round starts with: a write at a page, as long as what was read.
  starts :
      (content_len offset want : ℕ) (bytes : List ℕ) (r s : R)
      → offset < content_len
      → Ready content_len offset r
      → FillsFront read flash_ok contents law want [] r (some bytes, s)
      → 1 ≤ length bytes
      → offset % erase_size ≡ 0
  starts content_len offset want bytes r s lt (inl a) f n = a
  starts content_len offset want bytes r s lt (inr (inl e)) (got, g, h, le) n = absurd (
      omega
        (arith, ap (length {A = ℕ}) g, ap (length {A = ℕ}) (h ∙ e), length-append got (contents s)))
  starts content_len offset want bytes r s lt (inr (inr e)) f n = absurd (omega arith)

  on_chunk-Placed :
      (next : ℕ → ℕ → R → List Event → Uploaded read flash_ok) (content_len offset last_log : ℕ)
      (r : R) (log : List Event) (o : Option (List ℕ) × R)
      → ((a p : ℕ) (s : R) (l : List Event)
          → InPages (calls l)
          → Ready content_len a s
          → Placed (next a p s l))
      → let want = min erase_size (content_len - offset) in
        FillsFront read flash_ok contents law want [] r o
        → Fills want [] o
        → offset < content_len
        → Ready content_len offset r
        → InPages (calls log)
        → Placed (on_chunk read flash_ok next content_len offset last_log log o)
  unfolding on_chunk log_fw_err
  on_chunk-Placed next content_len offset last_log r log (none, s) n f g lt y p = p
  on_chunk-Placed next content_len offset last_log r log (some [], s) n f g lt y p = p
  on_chunk-Placed next content_len offset last_log r log (some (b ∷ bytes), s) n f g lt y p =
      let want = min erase_size (content_len - offset) in
      let out = b ∷ bytes in
      let a = starts content_len offset want out r s lt y f (omega arith) in
      let size : length out ≤ erase_size = omega (arith, ap (length {A = ℕ}) f.1, f.3) in
      let placed : InPages (FlashOp.write_firmware offset out ∷ calls log) = (a, size, p) in
      elim (Bool-cases (flash_ok (calls log) (FlashOp.write_firmware offset out))) [
        | inl w ↦ rw w (
            n (offset + length out) _ s _
              (rw
                (calls-log_progress content_len last_log (offset + length out)
                  (Event.call (FlashOp.write_firmware offset out) ∷ (Event.feed ∷ log)))
                placed)
              (later content_len offset out s lt a g))
        | inr w ↦ rw w placed
      ]

  upload_from-Placed :
      (fuel content_len offset last_log : ℕ) (r : R) (log : List Event)
      → Ready content_len offset r
      → InPages (calls log)
      → Placed (upload_from read flash_ok fuel content_len offset last_log r log)
  unfolding upload_from read_exact_or_eof
  upload_from-Placed zero content_len offset last_log r log y p =
      finish-Placed content_len offset r log p
  upload_from-Placed (suc fuel) content_len offset last_log r log y p =
      elim (Bool-cases (ltb offset content_len)) [
        | inl more ↦
            let want = min erase_size (content_len - offset) in
            rw more (
              on_chunk-Placed (λ a p s l. upload_from read flash_ok fuel content_len a p s l)
                content_len offset last_log r log (read_exact_or_eof read flash_ok want r)
                (λ a q s l i z. upload_from-Placed fuel content_len a q s l z i)
                (fill_from-FillsFront read flash_ok contents law want want [] r)
                (fill_from-Fills want want [] r (omega arith)) (ground arith) y p)
        | inr done_ ↦ rw done_ (finish-Placed content_len offset r log p)
      ]

  -- With a reader that reads the front of the body and no more than fits, and reads nothing into
  -- some space only where nothing is left: however an upload goes, each of its writes begins where
  -- a page begins, and is at most a page long.
  pub run_ota-InPages :
      (content_len : ℕ) (r : R) → InPages (calls (run_ota read flash_ok content_len r []).log)
  unfolding run_ota
  run_ota-InPages content_len r = elim (Bool-cases (content_len == 0)) [
    | inl empty ↦ rw empty tt
    | inr filled ↦ rw filled (elim (Bool-cases (ltb active_capacity content_len)) [
      | inl large ↦ rw large tt
      | inr fits ↦ rw fits (upload_from-Placed content_len content_len 0 0 r _ (inl refl) tt)
    ])
  ]
