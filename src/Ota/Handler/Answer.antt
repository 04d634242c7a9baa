-- ===== src/Ota/Handler/Answer.antt =====
-- What `call_request_handler_service` of src/ota.rs answers, against what the updater did.
use scoreboard_ctrl.Base.{
  ℕ, ◌≡◌, refl, sym, ap, ◌∙◌, Bool, true, false, Bool-cases, inl, inr, ◌&&◌, ◌||◌, Option, none,
  some, List, [], ◌∷◌, arith,
}
use scoreboard_ctrl.Ota.{OtaError, Outcome, FlashOp, calls, Uploaded, run_ota}
use scoreboard_ctrl.Ota.Upload.{Written, IsReader, IsUpload, run_ota-IsUpload}
use scoreboard_ctrl.Ota.Handler.{
  Flags, claim, release, reply_of, StatusCode, write_to, Handled, respond, handle_claimed,
  call_request_handler_service,
}

abbrev pub is_ok : Option (StatusCode × List ℕ) → Bool
is_ok none = false
is_ok (some (StatusCode.ok, body)) = true
is_ok (some (StatusCode.service_unavailable, body)) = false
is_ok (some (StatusCode.bad_request, body)) = false
is_ok (some (StatusCode.payload_too_large, body)) = false
is_ok (some (StatusCode.internal_server_error, body)) = false

module _ {R : Type 0} (read : R → ℕ → Option (List ℕ) × R)
    (flash_ok : List FlashOp → FlashOp → Bool) where
  -- The last call of the updater was `mark_updated`, and it succeeded.
  abbrev pub is_marked : List FlashOp → Bool
  is_marked [] = false
  is_marked (FlashOp.mark_updated ∷ ops) = flash_ok ops FlashOp.mark_updated
  is_marked (FlashOp.write_firmware offset bytes ∷ ops) = false

  unmarked : (bytes : List ℕ) (ops : List FlashOp) → Written bytes ops → is_marked ops ≡ false
  unmarked _ _ Written.nothing = refl
  unmarked _ _ (Written.chunk more w) = refl

  abbrev succeeded : Outcome → Bool
  succeeded Outcome.ok = true
  succeeded (Outcome.failed e) = false

  module _ (contents : R → List ℕ) (law : IsReader contents read) where
    upload_marked :
        (content_len : ℕ) (body : List ℕ) (u : Uploaded read flash_ok)
        → IsUpload read flash_ok contents law content_len body u
        → succeeded u.outcome ≡ is_marked (calls u.log)
    upload_marked content_len body _ (IsUpload.complete bytes ops e w n b ok_) = rw (e, ok_) refl
    upload_marked content_len body _ (IsUpload.unmarked bytes ops e w n no_) = rw (e, no_) refl
    upload_marked content_len body _ (IsUpload.broken e bytes w) = rw (unmarked bytes _ w) refl

    module _ (finalize : R → Bool) where
      is_ok-respond :
          (o : Outcome) (r : R)
          → is_ok (respond read flash_ok finalize (reply_of o) r) ≡ (succeeded o && finalize r)
      unfolding respond reply_of write_to
      is_ok-respond Outcome.ok r = ground arith
      is_ok-respond (Outcome.failed (OtaError.bad_request m)) r = ground arith
      is_ok-respond (Outcome.failed OtaError.too_large) r = ground arith
      is_ok-respond (Outcome.failed OtaError.truncated) r = ground arith
      is_ok-respond (Outcome.failed OtaError.flash) r = ground arith
      is_ok-respond (Outcome.failed OtaError.io) r = ground arith

      reset-release : (o : Outcome) (f : Flags) → (release o f).reset ≡ (f.reset || succeeded o)
      unfolding release
      reset-release Outcome.ok f = ground arith
      reset-release (Outcome.failed e) f = ground arith

      busy-release : (o : Outcome) (f : Flags) → (release o f).busy ≡ false
      unfolding release
      busy-release Outcome.ok f = refl
      busy-release (Outcome.failed e) f = refl

      abbrev IsMarkedBy : Flags → Handled R → Type 0
      IsMarkedBy f h =
          let m = is_marked (calls h.log) in
          (h.flags.busy ≡ f.busy)
          × (h.flags.reset ≡ (f.reset || m))
          × (is_ok h.written ≡ (m && finalize h.reader))

      -- What `claim` may say of the flags.
      data IsClaim (f : Flags) : Bool × Flags → Type 0 where
        taken : IsClaim f (false, f)
        granted : (f' : Flags) → f.busy ≡ false → f'.reset ≡ f.reset → IsClaim f (true, f')

      claim-IsClaim : (f : Flags) → IsClaim f (claim f)
      unfolding claim
      claim-IsClaim f = elim (Bool-cases f.busy) [
        | inl b ↦ rw b taken
        | inr b ↦ rw b (granted _ refl refl)
      ]

      handle_claimed-IsMarkedBy :
          (content_len : ℕ) (r : R) (f : Flags) (c : Bool × Flags)
          → IsClaim f c
          → IsMarkedBy f (handle_claimed read flash_ok finalize content_len r c)
      unfolding handle_claimed respond write_to
      handle_claimed-IsMarkedBy content_len r f _ taken = (refl, ground arith, ground arith)
      handle_claimed-IsMarkedBy content_len r f _ (granted f' b e) =
          let u = run_ota read flash_ok content_len r [] in
          let m =
            upload_marked content_len (contents r) u
              (run_ota-IsUpload read flash_ok contents law content_len r) in
          (
            busy-release u.outcome f' ∙ sym b,
            rw (reset-release u.outcome f', e, m) refl,
            is_ok-respond u.outcome u.reader ∙ ap (λ x. x && finalize u.reader) m,
          )

      -- With a reader that reads the front of the body and no more than fits, however a request
      -- goes: the flag `OTA_BUSY` is behind it as it was before; the reset is asked for exactly if
      -- it was before or the updater marked the image; and `OK` is answered exactly if the updater
      -- marked the image and the connection still answers.
      pub call_request_handler_service-marked :
          (content_len : ℕ) (r : R) (f : Flags)
          → let h = call_request_handler_service read flash_ok finalize content_len r f in
            let m = is_marked (calls h.log) in
            (h.flags.busy ≡ f.busy)
            × (h.flags.reset ≡ (f.reset || m))
            × (is_ok h.written ≡ (m && finalize h.reader))
      unfolding call_request_handler_service
      call_request_handler_service-marked content_len r f =
          handle_claimed-IsMarkedBy content_len r f (claim f) (claim-IsClaim f)
