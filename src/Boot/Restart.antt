-- ===== src/Boot/Restart.antt =====
-- The loop at the end of `main` of src/main.rs. Times are milliseconds; each wait of
-- a timer may end late, by the next of a list of delays.
use scoreboard_ctrl.Base.{
  ℕ, ◌+◌, ◌*◌, ◌≤◌, ◌≡◌, refl, ap, ◌∙◌, ◌||◌, Bool, true, false, Bool-cases, inl, inr, Option, none,
  some, List, [], ◌∷◌, length, if◌then◌else◌, ltb, arith,
}
use scoreboard_ctrl.Ota.{FlashOp, calls}
use scoreboard_ctrl.Ota.Upload.{IsReader}
use scoreboard_ctrl.Ota.Handler.{Flags, reset_pending, call_request_handler_service}
use scoreboard_ctrl.Ota.Handler.Answer.{is_marked, call_request_handler_service-marked}

-- The loop over the delays of its waits: when the device is reset, if it is. The flags are read at the end
-- of each wait of 200 ms; `flush` is the delay of the wait of 500 ms before the reset.
unfoldable pub main_loop : (ℕ → Flags) → ℕ → List ℕ → ℕ → Option ℕ
main_loop flags flush [] now = none
main_loop flags flush (late ∷ delays) now =
    let woken = now + (200 + late) in
    let rest = main_loop flags flush delays woken in
    if reset_pending (flags woken) then some (woken + (500 + flush)) else rest

abbrev pub AllAtMost : ℕ → List ℕ → Type 0
AllAtMost bound [] = Unit
AllAtMost bound (late ∷ delays) = (late ≤ bound) × AllAtMost bound delays

-- The device is reset at least 500 ms behind the time `at`, and at most 700 ms and two delays behind it.
pub data IsRestart (at bound : ℕ) : Bool → Option ℕ → Type 0 where
  restarts : {t : ℕ} → at + 500 ≤ t → t ≤ at + 700 + 2 * bound → IsRestart at bound true (some t)
  stays : IsRestart at bound false none

-- The flags over time, where they change once.
abbrev pub changed_at : ℕ → Flags → Flags → ℕ → Flags
changed_at at before after t = if ltb t at then before else after

module _ (before after : Flags) (idle : before.reset ≡ false) (at bound flush : ℕ)
    (flushed : flush ≤ bound) where
  stays_on :
      (delays : List ℕ) (now : ℕ)
      → after.reset ≡ false
      → main_loop (changed_at at before after) flush delays now ≡ none
  unfolding main_loop reset_pending
  stays_on [] now e = refl
  stays_on (late ∷ delays) now e =
      let rest = stays_on delays (now + (200 + late)) e in
      elim (Bool-cases (ltb (now + (200 + late)) at)) [
        | inl early ↦ rw (early, idle) rest
        | inr reached ↦ rw (reached, e) rest
      ]

  restarts_once :
      (delays : List ℕ) (now : ℕ)
      → AllAtMost bound delays
      → after.reset ≡ true
      → now ≤ at
      → at ≤ now + 200 * length delays
      → 1 ≤ length delays
      → IsRestart at bound true (main_loop (changed_at at before after) flush delays now)
  unfolding main_loop reset_pending
  restarts_once [] now b e lo hi n = absurd (omega arith)
  restarts_once (late ∷ delays) now b e lo hi n =
      let woken = now + (200 + late) in
      elim (Bool-cases (ltb woken at)) [
        | inl early ↦
            rw (early, idle)
              (restarts_once delays woken b.1 e (ground arith) (ground arith) (ground arith))
        | inr reached ↦
            rw (reached, e)
              (restarts {t = woken + (500 + flush)} (ground arith) (ground (arith, b.0)))
      ]

  main_loop-IsRestart :
      (delays : List ℕ) (now : ℕ) (marked : Bool)
      → AllAtMost bound delays
      → after.reset ≡ marked
      → now ≤ at
      → at ≤ now + 200 * length delays
      → 1 ≤ length delays
      → IsRestart at bound marked (main_loop (changed_at at before after) flush delays now)
  main_loop-IsRestart delays now true b e lo hi n = restarts_once delays now b e lo hi n
  main_loop-IsRestart delays now false b e lo hi n = rw (stays_on delays now e) stays

module _ {R : Type 0} (read : R → ℕ → Option (List ℕ) × R)
    (flash_ok : List FlashOp → FlashOp → Bool) (contents : R → List ℕ)
    (law : IsReader contents read) (finalize : R → Bool) where
  -- With a reader that reads the front of the body and no more than fits: where no reset was asked
  -- for and a request for an upload is handled, with the flags from the time `at` on as it leaves
  -- them, and the waits of the main loop are late by `bound` at most and there are enough of them,
  -- the device is reset at least 500 ms and at most 700 ms and two such delays behind that time if
  -- the updater marked the image, and not at all if it did not.
  pub main_loop-handler :
      (content_len : ℕ) (r : R) (f : Flags) (at bound flush : ℕ) (delays : List ℕ) (now : ℕ)
      → f.reset ≡ false
      → flush ≤ bound
      → AllAtMost bound delays
      → now ≤ at
      → at ≤ now + 200 * length delays
      → 1 ≤ length delays
      → let h = call_request_handler_service read flash_ok finalize content_len r f in
        IsRestart at bound
          (is_marked read flash_ok (calls h.log))
          (main_loop (changed_at at f h.flags) flush delays now)
  main_loop-handler content_len r f at bound flush delays now idle fl b lo hi n =
      let h = call_request_handler_service read flash_ok finalize content_len r f in
      let m =
        call_request_handler_service-marked read flash_ok contents law finalize content_len r f in
      let marked = is_marked read flash_ok (calls h.log) in
      main_loop-IsRestart f h.flags idle at bound flush fl delays now marked b
        (m.1 ∙ ap (λ x. x || marked) idle) lo hi n
