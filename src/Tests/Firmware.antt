-- ===== src/Tests/Firmware.antt =====
-- src/ota.rs with a reader that holds its bytes and a flash that takes everything, and the matching of
-- the loader's command in src/main.rs.
use scoreboard_ctrl.Base.{
  ℕ, zero, suc, ◌≤◌, ◌≡◌, ◌↔◌, refl, ap, Bool, true, false, Option, some, List, [], ◌∷◌, ◌++◌, take,
  drop, take-append-drop, length, length-take, length-drop, if◌then◌else◌, ◌&&◌, ◌||◌, false, codes,
  decimal, arith,
}
use scoreboard_ctrl.BootCmd.{cmd, handle_data, Holds, handle_data-Holds}
use scoreboard_ctrl.Ota.{
  Outcome, FlashOp, OtaLine, Event, calls, text, run_ota, fill_from, upload_from, finish,
  read_exact_or_eof, log_progress,
}
use scoreboard_ctrl.Ota.Handler.{
  Flags, StatusCode, claim, release, reply_of, write_to, call_request_handler_service,
}
use scoreboard_ctrl.Ota.Handler.Answer.{is_ok, is_marked, call_request_handler_service-marked}
use scoreboard_ctrl.Ota.Pace.{IsPaced, run_ota-IsPaced}
use scoreboard_ctrl.Ota.Pages.{IsComplete, InPages, run_ota-InPages}
use scoreboard_ctrl.Ota.Report.{IsTold, run_ota-IsTold}
use scoreboard_ctrl.Ota.Upload.{IsReader, IsUpload, run_ota-IsUpload}
use scoreboard_ctrl.Ota.Success.{IsLive, run_ota-ok}
use scoreboard_ctrl.Ota.Requests.{Uploads, Step, Reach, at_start, one_upload}

-- A reader of the bytes that it holds.
abbrev read_all : List ℕ → ℕ → Option (List ℕ) × List ℕ
read_all r n = (some (take n r), drop n r)

abbrev accepts : List FlashOp → FlashOp → Bool
accepts ops op = true

read_all-IsReader : IsReader (λ (r : List ℕ). r) read_all
read_all-IsReader r n = (take-append-drop n r, omega (arith, length-take n r))

abbrev image : List ℕ
image = 7 ∷ 8 ∷ 9 ∷ []

image_written :
    (run_ota read_all accepts 3 image []).log
    ≡ Event.line OtaLine.updated
      ∷ (Event.call FlashOp.mark_updated
          ∷ (Event.feed
              ∷ (Event.pause
                  ∷ (Event.line (OtaLine.progress 3 3 100)
                      ∷ (Event.call (FlashOp.write_firmware 0 image)
                          ∷ (Event.feed ∷ (Event.line (OtaLine.start 3) ∷ [])))))))
unfolding run_ota upload_from finish read_exact_or_eof fill_from log_progress
image_written = refl

line_shown : text (OtaLine.progress 2048 8192 25) ≡ codes "OTA 2048/8192 (25%)"
unfolding text decimal
line_shown = refl

-- The body ends behind two of three bytes.
short_body :
    let h =
      call_request_handler_service read_all accepts
        (λ r. true)
        3
        (1 ∷ 2 ∷ [])
        record { busy = false; reset = false } in
    (h.written ≡ some (StatusCode.bad_request, codes "truncated upload\n"))
    × (h.flags ≡ record { busy = false; reset = false })
unfolding call_request_handler_service run_ota upload_from finish read_exact_or_eof fill_from
    log_progress claim release reply_of write_to
short_body = (refl, refl)

run_ota-IsPaced_example : IsPaced (run_ota read_all accepts 3 image []).log
run_ota-IsPaced_example =
    run_ota-IsPaced read_all accepts (λ (r : List ℕ). r) read_all-IsReader 3 image

run_ota-IsTold_example : let u = run_ota read_all accepts 3 image [] in IsTold 3 u.outcome u.log
run_ota-IsTold_example =
    run_ota-IsTold read_all accepts (λ (r : List ℕ). r) read_all-IsReader 3 image

read_all-IsComplete : IsComplete (λ (r : List ℕ). r) read_all
read_all-IsComplete [] (suc n) h = refl
read_all-IsComplete (b ∷ r) (suc n) h = tt
read_all-IsComplete r zero h = absurd (omega arith)

run_ota-InPages_example : InPages (calls (run_ota read_all accepts 3 image []).log)
run_ota-InPages_example =
    run_ota-InPages read_all accepts (λ (r : List ℕ). r) read_all-IsReader read_all-IsComplete 3
      image

abbrev free : Flags
free = record { busy = false; reset = false }

call_request_handler_service-marked_example :
    let h = call_request_handler_service read_all accepts (λ r. true) 3 image free in
    let m = is_marked read_all accepts (calls h.log) in
    (h.flags.busy ≡ free.busy)
    × (h.flags.reset ≡ (free.reset || m))
    × (is_ok h.written ≡ (m && true))
call_request_handler_service-marked_example =
    call_request_handler_service-marked read_all accepts (λ (r : List ℕ). r) read_all-IsReader
      (λ r. true) 3 image free

run_ota-IsUpload_example :
    IsUpload read_all accepts
      (λ (r : List ℕ). r)
      read_all-IsReader
      3
      image
      (run_ota read_all accepts 3 image [])
run_ota-IsUpload_example =
    run_ota-IsUpload read_all accepts (λ (r : List ℕ). r) read_all-IsReader 3 image

abbrev two_come : Uploads
two_come = record {
  flags = (claim (claim at_start.flags).1).1;
  running =
      if (claim (claim at_start.flags).1).0 then 2 else (if (claim at_start.flags).0 then 1 else 0);
  succeeded = 0;
}

two_come-Reach : Reach two_come
unfolding claim
two_come-Reach = Reach.next (Reach.next Reach.started Step.request) Step.request

one_upload_example :
    (two_come.running ≤ 1)
    × ((two_come.flags.busy ≡ true) ↔ (two_come.running ≡ 1))
    × ((two_come.flags.reset ≡ true) ↔ (1 ≤ two_come.succeeded))
one_upload_example = one_upload two_come-Reach

entered : handle_data cmd 0 ≡ (true, 0)
unfolding handle_data
entered = refl

-- The match starts anew at a wrong byte, and what it dropped may be the front of the command.
missed : handle_data (b'E' ∷ b'N' ∷ b'T' ∷ cmd) 0 ≡ (false, 0)
unfolding handle_data
missed = refl

handle_data-Holds_example : Holds ([] ++ cmd)
handle_data-Holds_example =
    handle_data-Holds cmd [] 0 ([], refl) (ap (λ (p : Bool × ℕ). p.0) entered)

read_all-IsLive : IsLive (λ (r : List ℕ). length r) read_all
read_all-IsLive r n h k = (
  omega (arith, length-take n r),
  omega (arith, length-take n r),
  omega (arith, length-take n r, length-drop n r),
)

run_ota-ok_example : (run_ota read_all accepts 3 image []).outcome ≡ Outcome.ok
run_ota-ok_example =
    run_ota-ok read_all accepts (λ (r : List ℕ). length r) read_all-IsLive (λ ops op. refl) 3 image
      (omega arith) (omega arith) (omega arith)
