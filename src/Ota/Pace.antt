-- ===== src/Ota/Pace.antt =====
-- When `run_ota` of src/ota.rs calls the updater: the feeds of the watchdog and the pauses between.
use scoreboard_ctrl.Base.{ℕ, ◌+◌, Bool, Bool-cases, inl, inr, Option, List, [], ◌∷◌, length}
use scoreboard_ctrl.Ota.{Outcome, FlashOp, OtaLine, Event, due, log_progress, log_fw_err, run_ota}
use scoreboard_ctrl.Ota.Upload.{IsReader}
use scoreboard_ctrl.Ota.Rule.{Rule, written_at, run_ota_ind}

-- The newest event is the start of the upload or a pause.
abbrev pub IsRested : List Event → Type 0
IsRested (Event.pause ∷ log) = Unit
IsRested (Event.line (OtaLine.start n) ∷ log) = Unit
IsRested log = ⊥

-- Each call of the updater comes directly behind a feed, and the feed directly behind the start or a pause.
abbrev pub IsPaced : List Event → Type 0
IsPaced [] = Unit
IsPaced (Event.call op ∷ (Event.feed ∷ log)) = IsRested log × IsPaced log
IsPaced (Event.call op ∷ log) = ⊥
IsPaced (Event.feed ∷ log) = IsPaced log
IsPaced (Event.pause ∷ log) = IsPaced log
IsPaced (Event.line l ∷ log) = IsPaced log

abbrev Before : ℕ → ℕ → List Event → Type 0
Before offset last_log log = IsRested log × IsPaced log

abbrev After : Outcome → List Event → Type 0
After o log = IsPaced log

log_progress-IsPaced :
    (content_len last_log offset : ℕ) (log : List Event)
    → IsPaced log
    → IsPaced (log_progress content_len last_log offset log)
unfolding log_progress
log_progress-IsPaced content_len last_log offset log p =
    elim (Bool-cases (due content_len last_log offset)) [ inl d ↦ rw d p | inr d ↦ rw d p ]

paced : (content_len : ℕ) → Rule content_len Before After
unfolding log_fw_err
paced content_len = record {
  round = λ offset last_log bytes log n le p. (
    tt,
    log_progress-IsPaced content_len last_log (offset + length bytes) (written_at offset bytes log)
        p,
  );
  refused = λ offset last_log bytes log p. p;
  unread = λ offset last_log log p. p.1;
  ended = λ offset last_log log p. p.1;
  short = λ offset last_log log p. p.1;
  unmarked = λ offset last_log log p. p;
  complete = λ last_log log p. p;
}

module _ {R : Type 0} (read : R → ℕ → Option (List ℕ) × R)
    (flash_ok : List FlashOp → FlashOp → Bool) (contents : R → List ℕ)
    (law : IsReader contents read) where
  -- With a reader that reads the front of the body and no more than fits, however an upload goes,
  -- the watchdog is fed directly before each call of the updater, and directly before that the
  -- upload starts or the task has waited for a millisecond.
  pub run_ota-IsPaced :
      (content_len : ℕ) (r : R) → IsPaced (run_ota read flash_ok content_len r []).log
  run_ota-IsPaced content_len r =
      run_ota_ind read flash_ok contents law content_len Before After (paced content_len) r
        (λ e. tt) (λ n. (tt, tt))
