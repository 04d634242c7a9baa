-- ===== src/Ota/Report.antt =====
-- The lines that `run_ota` of src/ota.rs logs on its progress.
use scoreboard_ctrl.Base.{
  ℕ, ◌+◌, ◌*◌, ◌/◌, ◌^◌, ◌≤◌, ◌<◌, ◌≡◌, refl, ◌∙◌, ◌⊎◌, inl, inr, Bool, false, Bool-cases, Option,
  List, [], ◌∷◌, if◌then◌else◌, length, arith,
}
use native.Mathlib.Nat.{div-le_of_le-mul, mod-eq_of_lt}
use scoreboard_ctrl.Ota.{
  OtaError, Outcome, FlashOp, OtaLine, Event, due, percent, log_progress, log_fw_err, run_ota,
}
use scoreboard_ctrl.Ota.Upload.{IsReader}
use scoreboard_ctrl.Ota.Rule.{Rule, written_at, run_ota_ind}

-- How many bytes the updater was given to write.
abbrev pub written : List Event → ℕ
written [] = 0
written (Event.call (FlashOp.write_firmware offset bytes) ∷ log) = written log + length bytes
written (Event.call FlashOp.mark_updated ∷ log) = written log
written (Event.feed ∷ log) = written log
written (Event.pause ∷ log) = written log
written (Event.line l ∷ log) = written log

-- How many bytes the newest line on the progress shows.
abbrev pub reported : List Event → ℕ
reported [] = 0
reported (Event.line (OtaLine.progress offset n pct) ∷ log) = offset
reported (Event.line OtaLine.rejected ∷ log) = reported log
reported (Event.line (OtaLine.start n) ∷ log) = reported log
reported (Event.line (OtaLine.truncated_at offset n) ∷ log) = reported log
reported (Event.line (OtaLine.read_error offset) ∷ log) = reported log
reported (Event.line (OtaLine.call_failed what) ∷ log) = reported log
reported (Event.line OtaLine.updated ∷ log) = reported log
reported (Event.call op ∷ log) = reported log
reported (Event.feed ∷ log) = reported log
reported (Event.pause ∷ log) = reported log

-- A line on the progress shows the bytes written before it, the length of the content and the percentage
-- of these; and at each pause fewer than 32 KiB were written since the newest such line.
abbrev pub IsReported : ℕ → List Event → Type 0
IsReported c [] = Unit
IsReported c (Event.line (OtaLine.progress offset n pct) ∷ log) =
    (offset ≡ written log) × (n ≡ c) × (pct ≡ offset * 100 / c) × (pct ≤ 100) × IsReported c log
IsReported c (Event.line OtaLine.rejected ∷ log) = IsReported c log
IsReported c (Event.line (OtaLine.start n) ∷ log) = IsReported c log
IsReported c (Event.line (OtaLine.truncated_at offset n) ∷ log) = IsReported c log
IsReported c (Event.line (OtaLine.read_error offset) ∷ log) = IsReported c log
IsReported c (Event.line (OtaLine.call_failed what) ∷ log) = IsReported c log
IsReported c (Event.line OtaLine.updated ∷ log) = IsReported c log
IsReported c (Event.call op ∷ log) = IsReported c log
IsReported c (Event.feed ∷ log) = IsReported c log
IsReported c (Event.pause ∷ log) = (written log < reported log + 32 * 1024) × IsReported c log

-- An upload that succeeds has shown its whole length.
pub data IsTold (c : ℕ) : Outcome → List Event → Type 0 where
  complete :
      {log : List Event}
      → IsReported c log
      → written log ≡ c
      → reported log ≡ c
      → IsTold c Outcome.ok log
  stopped : {e : OtaError} {log : List Event} → IsReported c log → IsTold c (Outcome.failed e) log

abbrev Before : ℕ → ℕ → ℕ → List Event → Type 0
Before c offset last_log log =
    (written log ≡ offset)
    × (reported log ≡ last_log)
    × (last_log ≤ offset)
    × ((offset < c) ⊎ (last_log ≡ c))
    × IsReported c log

percent_le : (offset c : ℕ) → offset ≤ c → offset * 100 / c ≤ 100
percent_le offset c h = div-le_of_le-mul c (omega arith)

percent_lem : (offset c : ℕ) → offset ≤ c → percent offset c ≡ offset * 100 / c
percent_lem offset c h =
    mod-eq_of_lt {n = offset * 100 / c} {m = 2 ^ 32} (omega (arith, percent_le offset c h))

undue : (c last_log offset : ℕ) → due c last_log offset ≡ false → offset < last_log + 32 * 1024
undue c last_log offset d = ground arith

undue_ne : (c last_log offset : ℕ) → offset ≤ c → due c last_log offset ≡ false → offset < c
undue_ne c last_log offset h d = ground arith

round-Before :
    (c offset last_log : ℕ) (bytes : List ℕ) (log : List Event)
    → 1 ≤ length bytes
    → offset + length bytes ≤ c
    → Before c offset last_log log
    → let offset' = offset + length bytes in
      Before c offset'
        (if due c last_log offset' then offset' else last_log)
        (Event.pause ∷ log_progress c last_log offset' (written_at offset bytes log))
unfolding log_progress
round-Before c offset last_log bytes log n le p =
    let o = offset + length bytes in
    let below = undue c last_log in
    elim (Bool-cases (due c last_log o)) [
      | inl d ↦ rw d (
        omega (arith, p.0),
        refl,
        omega arith,
        ground arith,
        (
          omega (arith, p.0),
          (
            omega (arith, p.0),
            refl,
            percent_lem o c le,
            omega (arith, percent_lem o c le, percent_le o c le),
            p.4,
          ),
        ),
      )
      | inr d ↦ rw d (
        omega (arith, p.0),
        p.1,
        omega (arith, p.2),
        inl (undue_ne c last_log o le d),
        (omega (arith, below o d, p.0, p.1), p.4),
      )
    ]

at_end : (c last_log : ℕ) (log : List Event) → Before c c last_log log → last_log ≡ c
at_end c last_log log p = ground arith

told : (c : ℕ) → Rule c (Before c) (IsTold c)
unfolding log_fw_err
told c = record {
  round = round-Before c;
  refused = λ offset last_log bytes log p. stopped p.4;
  unread = λ offset last_log log p. stopped p.4;
  ended = λ offset last_log log p. stopped p.4;
  short = λ offset last_log log p. stopped p.4;
  unmarked = λ offset last_log log p. stopped p.4;
  complete = λ last_log log p. complete p.4 p.0 (p.1 ∙ at_end c last_log log p);
}

module _ {R : Type 0} (read : R → ℕ → Option (List ℕ) × R)
    (flash_ok : List FlashOp → FlashOp → Bool) (contents : R → List ℕ)
    (law : IsReader contents read) where
  -- With a reader that reads the front of the body and no more than fits: a line on the progress
  -- of an upload shows the bytes given to the updater before it, the length of the content and the
  -- percentage of these, at most 100; at each pause fewer than 32 KiB were written since the
  -- newest such line; and an upload that succeeds has written and shown its whole length.
  pub run_ota-IsTold :
      (content_len : ℕ) (r : R)
      → let u = run_ota read flash_ok content_len r [] in IsTold content_len u.outcome u.log
  run_ota-IsTold content_len r =
      run_ota_ind read flash_ok contents law content_len (Before content_len) (IsTold content_len)
        (told content_len) r (λ e. stopped tt) (λ n. (refl, refl, omega arith, inl n, tt))
