-- ===== src/Ota/Rule.antt =====
-- A proof rule for the events of `run_ota` of src/ota.rs, over an invariant of its loop.
use scoreboard_ctrl.Base.{
  ℕ, zero, suc, ◌+◌, ◌-◌, ◌≤◌, min, ◌≡◌, ap, Bool, Bool-cases, inl, inr, Option, none, some, List,
  [], ◌∷◌, ltb, ◌==◌, if◌then◌else◌, length, codes, arith,
}
use scoreboard_ctrl.Ota.{
  erase_size, active_capacity, OtaError, Outcome, FlashOp, OtaLine, Event, calls, due, log_progress,
  log_fw_err, Uploaded, read_exact_or_eof, finish, on_chunk, upload_from, run_ota,
}
use scoreboard_ctrl.Ota.Upload.{IsReader, FillsFront, fill_from-FillsFront}

-- The events of a write at `offset`.
abbrev pub written_at : ℕ → List ℕ → List Event → List Event
written_at offset bytes log = Event.call (FlashOp.write_firmware offset bytes) ∷ (Event.feed ∷ log)

abbrev pub marked : List Event → List Event
marked log = Event.call FlashOp.mark_updated ∷ (Event.feed ∷ log)

-- What to show of an invariant `P offset last_log log` of the loop and of the outcome `Q` with its events.
pub record Rule (content_len : ℕ) (P : ℕ → ℕ → List Event → Type 0)
    (Q : Outcome → List Event → Type 0) : Type 0 where
  pub round :
      (offset last_log : ℕ) (bytes : List ℕ) (log : List Event)
      → 1 ≤ length bytes
      → offset + length bytes ≤ content_len
      → P offset last_log log
      → let offset' = offset + length bytes in
        P offset'
          (if due content_len last_log offset' then offset' else last_log)
          (Event.pause ∷ log_progress content_len last_log offset' (written_at offset bytes log))
  pub refused :
      (offset last_log : ℕ) (bytes : List ℕ) (log : List Event)
      → P offset last_log log
      → Q (Outcome.failed OtaError.flash) (log_fw_err (codes "write") (written_at offset bytes log))
  pub unread :
      (offset last_log : ℕ) (log : List Event)
      → P offset last_log log
      → Q (Outcome.failed OtaError.io) (Event.line (OtaLine.read_error offset) ∷ log)
  pub ended :
      (offset last_log : ℕ) (log : List Event)
      → P offset last_log log
      → Q
          (Outcome.failed OtaError.truncated)
          (Event.line (OtaLine.truncated_at offset content_len) ∷ log)
  pub short :
      (offset last_log : ℕ) (log : List Event)
      → P offset last_log log
      → Q (Outcome.failed OtaError.truncated) log
  pub unmarked :
      (offset last_log : ℕ) (log : List Event)
      → P offset last_log log
      → Q (Outcome.failed OtaError.flash) (log_fw_err (codes "mark_updated") (marked log))
  pub complete :
      (last_log : ℕ) (log : List Event)
      → P content_len last_log log
      → Q Outcome.ok (Event.line OtaLine.updated ∷ marked log)

module _ {R : Type 0} (read : R → ℕ → Option (List ℕ) × R)
    (flash_ok : List FlashOp → FlashOp → Bool) (contents : R → List ℕ)
    (law : IsReader contents read) where
  module _ (content_len : ℕ) (P : ℕ → ℕ → List Event → Type 0) (Q : Outcome → List Event → Type 0)
      (rule : Rule content_len P Q) where
    abbrev Ends : Uploaded read flash_ok → Type 0
    Ends u = Q u.outcome u.log

    finish_ind :
        (offset last_log : ℕ) (r : R) (log : List Event)
        → P offset last_log log
        → Ends (finish read flash_ok content_len offset r log)
    unfolding finish
    finish_ind offset last_log r log p = elim (Bool-cases (offset == content_len)) [
      | inl e ↦ rw e (elim (Bool-cases (flash_ok (calls log) FlashOp.mark_updated)) [
        | inl m ↦
            let same : offset ≡ content_len = ground arith in
            rw m (rule.complete last_log log (rw same at p))
        | inr m ↦ rw m (rule.unmarked offset last_log log p)
      ])
      | inr e ↦ rw e (rule.short offset last_log log p)
    ]

    on_chunk_ind :
        (next : ℕ → ℕ → R → List Event → Uploaded read flash_ok) (want offset last_log : ℕ) (r : R)
        (log : List Event) (o : Option (List ℕ) × R)
        → ((a p : ℕ) (s : R) (l : List Event) → a ≤ content_len → P a p l → Ends (next a p s l))
        → FillsFront read flash_ok contents law want [] r o
        → offset + want ≤ content_len
        → P offset last_log log
        → Ends (on_chunk read flash_ok next content_len offset last_log log o)
    unfolding on_chunk
    on_chunk_ind next want offset last_log r log (none, s) n f le p =
        rule.unread offset last_log log p
    on_chunk_ind next want offset last_log r log (some [], s) n f le p =
        rule.ended offset last_log log p
    on_chunk_ind next want offset last_log r log (some (b ∷ bytes), s) n (got, e, g, l) le p =
        let fits : offset + length (b ∷ bytes) ≤ content_len =
          omega (arith, ap (length {A = ℕ}) e) in
        elim (Bool-cases (flash_ok (calls log) (FlashOp.write_firmware offset (b ∷ bytes)))) [
          | inl w ↦
              rw w
                (n _ _ s _ fits (rule.round offset last_log (b ∷ bytes) log (omega arith) fits p))
          | inr w ↦ rw w (rule.refused offset last_log (b ∷ bytes) log p)
        ]

    upload_from_ind :
        (fuel offset last_log : ℕ) (r : R) (log : List Event)
        → offset ≤ content_len
        → P offset last_log log
        → Ends (upload_from read flash_ok fuel content_len offset last_log r log)
    unfolding upload_from read_exact_or_eof
    upload_from_ind zero offset last_log r log le p = finish_ind offset last_log r log p
    upload_from_ind (suc fuel) offset last_log r log le p =
        elim (Bool-cases (ltb offset content_len)) [
          | inl more ↦
              let want = min erase_size (content_len - offset) in
              rw more (
                on_chunk_ind (λ o p s l. upload_from read flash_ok fuel content_len o p s l) want
                  offset last_log r log (read_exact_or_eof read flash_ok want r)
                  (λ a p s l. upload_from_ind fuel a p s l)
                  (fill_from-FillsFront read flash_ok contents law want want [] r) (omega arith) p)
          | inr all ↦ rw all (finish_ind offset last_log r log p)
        ]

    -- The rule, with what to show where the upload does not begin and where it does.
    pub run_ota_ind :
        (r : R)
        → ((e : OtaError) → Q (Outcome.failed e) [])
        → (1 ≤ content_len → P 0 0 (Event.line (OtaLine.start content_len) ∷ []))
        → Ends (run_ota read flash_ok content_len r [])
    unfolding run_ota
    run_ota_ind r unbegun begun = elim (Bool-cases (content_len == 0)) [
      | inl empty ↦ rw empty (unbegun _)
      | inr filled ↦ rw filled (elim (Bool-cases (ltb active_capacity content_len)) [
        | inl large ↦ rw large (unbegun _)
        | inr fits ↦
            rw fits
              (upload_from_ind content_len 0 0 r _ (omega arith) (begun (ground (arith, filled))))
      ])
    ]
