-- ===== src/Ota.antt =====
-- Firmware updates over HTTP, src/ota.rs. What is not in the repository is a parameter: `read` is the
-- reader of the request's body (the bytes read into a buffer of the given length, none on an error),
-- and `flash_ok` says which call of the firmware updater succeeds, after which calls, the newest first.
-- Of the log, the lines of `ap_log::emit` are modelled.
pub mod Upload
pub mod Success
pub mod Rule
pub mod Pace
pub mod Report
pub mod Pages
pub mod Handler
pub mod Requests
use scoreboard_ctrl.Base.{
  ℕ, zero, suc, ◌+◌, ◌-◌, ◌*◌, ◌/◌, ◌%◌, ◌^◌, min, Bool, ◌||◌, not, Option, none, some, List, [],
  ◌∷◌, ◌++◌, ltb, leb, ◌==◌, if◌then◌else◌, length, codes, decimal,
}

-- `ERASE_SIZE` of the RP2040's flash.
abbrev pub erase_size : ℕ
erase_size = 4096

abbrev pub active_capacity : ℕ
active_capacity = 896 * 1024

pub data OtaError : Type 0 where
  bad_request : List ℕ → OtaError
  too_large truncated flash io : OtaError

-- `Result<(), OtaError>`
pub data Outcome : Type 0 where
  ok : Outcome
  failed : OtaError → Outcome

-- The calls of the firmware updater.
pub data FlashOp : Type 0 where
  write_firmware : ℕ → List ℕ → FlashOp
  mark_updated : FlashOp

-- The lines of the log, with the numbers they show.
pub data OtaLine : Type 0 where
  rejected : OtaLine
  start : ℕ → OtaLine
  truncated_at : ℕ → ℕ → OtaLine
  progress : ℕ → ℕ → ℕ → OtaLine
  read_error : ℕ → OtaLine
  call_failed : List ℕ → OtaLine
  updated : OtaLine

-- The text of a line.
unfoldable pub text : OtaLine → List ℕ
text rejected = codes "OTA rejected: busy"
text (start n) = codes "OTA start " ++ (decimal n ++ codes " bytes")
text (truncated_at offset n) =
    codes "OTA truncated at " ++ (decimal offset ++ (codes "/" ++ decimal n))
text (progress offset n pct) =
    codes "OTA "
    ++ (decimal offset ++ (codes "/" ++ (decimal n ++ (codes " (" ++ (decimal pct ++ codes "%)")))))
text (read_error offset) = codes "OTA read error at " ++ decimal offset
text (call_failed what) = codes "OTA " ++ (what ++ codes " failed")
text updated = codes "OTA mark_updated ok; resetting"

-- What an upload does, but for its reads: the calls of the updater, the feeds of the watchdog with 8 s,
-- the waits of a millisecond and the lines of the log.
pub data Event : Type 0 where
  call : FlashOp → Event
  feed pause : Event
  line : OtaLine → Event

-- The calls of the updater among the events, the newest first.
abbrev pub calls : List Event → List FlashOp
calls [] = []
calls (call op ∷ log) = op ∷ calls log
calls (feed ∷ log) = calls log
calls (pause ∷ log) = calls log
calls (line l ∷ log) = calls log

unfoldable pub log_fw_err : List ℕ → List Event → List Event
log_fw_err what log = line (call_failed what) ∷ log

-- Whether a round that ends at `offset` is logged.
abbrev pub due : ℕ → ℕ → ℕ → Bool
due content_len last_log offset = leb (32 * 1024) (offset - last_log) || offset == content_len

-- `pct` is computed in a u64, which `offset` times 100 fits, and cut to a u32.
abbrev pub percent : ℕ → ℕ → ℕ
percent offset content_len = offset * 100 / content_len % 2 ^ 32

unfoldable pub log_progress : ℕ → ℕ → ℕ → List Event → List Event
log_progress content_len last_log offset log =
    if due content_len last_log offset
    then line (progress offset content_len (percent offset content_len)) ∷ log
    else log

module _ {R : Type 0} (read : R → ℕ → Option (List ℕ) × R)
    (flash_ok : List FlashOp → FlashOp → Bool) where
  -- The outcome, the reader and the events of an upload, the newest first.
  pub record Uploaded : Type 0 where
    pub outcome : Outcome
    pub reader : R
    pub log : List Event

  -- What one call of `read` means for `read_exact_or_eof`.
  unfoldable pub fill_more :
      (ℕ → List ℕ → R → Option (List ℕ) × R)
      → ℕ
      → List ℕ
      → Option (List ℕ) × R
      → Option (List ℕ) × R
  fill_more next want filled (none, r) = (none, r)
  fill_more next want filled (some [], r) = (some filled, r)
  fill_more next want filled (some (b ∷ bytes), r) =
      next (want - length (b ∷ bytes)) (filled ++ (b ∷ bytes)) r

  -- The loop of `read_exact_or_eof` with `want` bytes left and `filled` read; a round reads at least one
  -- byte, so `want` is enough fuel.
  unfoldable pub fill_from : ℕ → ℕ → List ℕ → R → Option (List ℕ) × R
  unfolding fill_more
  fill_from zero want filled r = (some filled, r)
  fill_from (suc fuel) want filled r =
      if want == 0
      then (some filled, r)
      else fill_more (λ w f s. fill_from fuel w f s) want filled (read r want)

  unfoldable pub read_exact_or_eof : ℕ → R → Option (List ℕ) × R
  read_exact_or_eof want r = fill_from want want [] r

  abbrev stop : OtaError → R → List Event → Uploaded
  stop e r log = record { outcome = failed e; reader = r; log = log }

  -- What follows the loop.
  unfoldable pub finish : ℕ → ℕ → R → List Event → Uploaded
  finish content_len offset r log =
      let marked = call mark_updated ∷ (feed ∷ log) in
      if not (offset == content_len)
      then stop OtaError.truncated r log
      else if flash_ok (calls log) mark_updated
      then record { outcome = ok; reader = r; log = line updated ∷ marked }
      else stop OtaError.flash r (log_fw_err (codes "mark_updated") marked)

  -- A round, behind its call of `read_exact_or_eof`; `next` takes `offset` and `last_log`.
  unfoldable pub on_chunk :
      (ℕ → ℕ → R → List Event → Uploaded) → ℕ → ℕ → ℕ → List Event → Option (List ℕ) × R → Uploaded
  on_chunk next content_len offset last_log log (none, r) =
      stop OtaError.io r (line (read_error offset) ∷ log)
  on_chunk next content_len offset last_log log (some [], r) =
      stop OtaError.truncated r (line (truncated_at offset content_len) ∷ log)
  on_chunk next content_len offset last_log log (some (b ∷ bytes), r) =
      let op = write_firmware offset (b ∷ bytes) in
      let written = call op ∷ (feed ∷ log) in
      let offset' = offset + length (b ∷ bytes) in
      let last_log' = if due content_len last_log offset' then offset' else last_log in
      let rest =
        next offset' last_log' r (pause ∷ log_progress content_len last_log offset' written) in
      if flash_ok (calls log) op
      then rest
      else stop OtaError.flash r (log_fw_err (codes "write") written)

  -- The loop; a round writes at least one byte, so the length of the content is enough fuel.
  unfoldable pub upload_from : ℕ → ℕ → ℕ → ℕ → R → List Event → Uploaded
  unfolding on_chunk finish
  upload_from zero content_len offset last_log r log = finish content_len offset r log
  upload_from (suc fuel) content_len offset last_log r log =
      if ltb offset content_len
      then on_chunk (λ o p s l. upload_from fuel content_len o p s l) content_len offset last_log
          log (read_exact_or_eof (min erase_size (content_len - offset)) r)
      else finish content_len offset r log

  unfoldable pub run_ota : ℕ → R → List Event → Uploaded
  run_ota content_len r log =
      if content_len == 0
      then stop (OtaError.bad_request (codes "empty body; set Content-Length\n")) r log
      else if ltb active_capacity content_len
      then stop OtaError.too_large r log
      else upload_from content_len content_len 0 0 r (line (start content_len) ∷ log)
