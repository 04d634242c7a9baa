-- ===== src/Ota/Handler.antt =====
-- `call_request_handler_service`, `OtaReply`, `mark_booted` and `reset_pending` of src/ota.rs. A status of
-- picoserve is a constructor named after it; `finalize` says whether the connection's
-- `body_connection.finalize()` succeeds behind the reads.
pub mod Answer
use scoreboard_ctrl.Base.{
  ℕ, Bool, true, false, Option, none, some, List, [], ◌∷◌, if◌then◌else◌, codes,
}
use scoreboard_ctrl.Ota.{OtaError, Outcome, FlashOp, OtaLine, Event, Uploaded, run_ota}

-- `OTA_BUSY` and `OTA_RESET`.
pub record Flags : Type 0 where
  pub busy : Bool
  pub reset : Bool

unfoldable pub reset_pending : Flags → Bool
reset_pending f = f.reset

-- The `compare_exchange`: whether the upload may run.
unfoldable pub claim : Flags → Bool × Flags
claim f = if f.busy then (false, f) else (true, record f { busy = true })

unfoldable pub release : Outcome → Flags → Flags
release Outcome.ok f = record f { busy = false; reset = true }
release (Outcome.failed e) f = record f { busy = false }

pub data OtaReply : Type 0 where
  ok busy payload_too_large : OtaReply
  bad_request failed : List ℕ → OtaReply

-- The reply to an upload that ran.
unfoldable pub reply_of : Outcome → OtaReply
reply_of Outcome.ok = OtaReply.ok
reply_of (Outcome.failed (OtaError.bad_request m)) = OtaReply.bad_request m
reply_of (Outcome.failed OtaError.too_large) = OtaReply.payload_too_large
reply_of (Outcome.failed OtaError.truncated) = OtaReply.bad_request (codes "truncated upload\n")
reply_of (Outcome.failed OtaError.flash) = OtaReply.failed (codes "flash write failed\n")
reply_of (Outcome.failed OtaError.io) = OtaReply.failed (codes "read failed\n")

pub data StatusCode : Type 0 where
  ok service_unavailable bad_request payload_too_large internal_server_error : StatusCode

-- The status and the body that are written.
unfoldable pub write_to : OtaReply → StatusCode × List ℕ
write_to OtaReply.ok = (StatusCode.ok, codes "OK\n")
write_to OtaReply.busy = (StatusCode.service_unavailable, codes "OTA in progress\n")
write_to (OtaReply.bad_request msg) = (StatusCode.bad_request, msg)
write_to OtaReply.payload_too_large =
    (StatusCode.payload_too_large, codes "image too large for ACTIVE\n")
write_to (OtaReply.failed msg) = (StatusCode.internal_server_error, msg)

-- The lines that `mark_booted` emits for the answer of the updater.
unfoldable pub mark_booted : Bool → List ℕ
mark_booted true = codes "boot: mark_booted ok"
mark_booted false = codes "boot: mark_booted err"

-- A request that was handled: the flags, the reader and the events behind it, and what was written, none
-- if the connection failed.
pub record Handled (R : Type 0) : Type 0 where
  pub flags : Flags
  pub reader : R
  pub log : List Event
  pub written : Option (StatusCode × List ℕ)

module _ {R : Type 0} (read : R → ℕ → Option (List ℕ) × R)
    (flash_ok : List FlashOp → FlashOp → Bool) (finalize : R → Bool) where
  unfoldable pub respond : OtaReply → R → Option (StatusCode × List ℕ)
  respond reply r = if finalize r then some (write_to reply) else none

  unfoldable pub handle_claimed : ℕ → R → Bool × Flags → Handled R
  unfolding respond
  handle_claimed content_len r (false, f) = record {
    flags = f;
    reader = r;
    log = Event.line OtaLine.rejected ∷ [];
    written = respond OtaReply.busy r;
  }
  handle_claimed content_len r (true, f) =
      let u = run_ota read flash_ok content_len r [] in
      record {
        flags = release u.outcome f;
        reader = u.reader;
        log = u.log;
        written = respond (reply_of u.outcome) u.reader;
      }

  unfoldable pub call_request_handler_service : ℕ → R → Flags → Handled R
  unfolding handle_claimed
  call_request_handler_service content_len r f = handle_claimed content_len r (claim f)
