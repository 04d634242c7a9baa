-- ===== src/Ota/Upload.antt =====
-- What `run_ota` of src/ota.rs writes and marks.
use scoreboard_ctrl.Base.{
  ℕ, zero, suc, ◌-◌, ◌≤◌, min, ◌≡◌, refl, sym, ap, ◌∙◌, Bool, true, false, Bool-cases, inl, inr,
  Option, none, some, List, [], ◌∷◌, ◌++◌, append_assoc, append-nil, ltb, ◌==◌, length,
  length-append, arith,
}
use scoreboard_ctrl.Ota.{
  erase_size, active_capacity, OtaError, Outcome, FlashOp, Event, calls, due, log_progress,
  log_fw_err, Uploaded, fill_more, fill_from, read_exact_or_eof, finish, on_chunk, upload_from,
  run_ota,
}

-- The line of a round adds no call of the updater.
pub calls-log_progress :
    (content_len last_log offset : ℕ) (log : List Event)
    → calls (log_progress content_len last_log offset log) ≡ calls log
unfolding log_progress
calls-log_progress content_len last_log offset log =
    elim (Bool-cases (due content_len last_log offset)) [ inl d ↦ rw d refl | inr d ↦ rw d refl ]

-- The bytes were written one chunk behind the other, from offset 0 on; the newest call stands first.
pub data Written : List ℕ → List FlashOp → Type 0 where
  nothing : Written [] []
  chunk :
      {bytes : List ℕ} {ops : List FlashOp} (more : List ℕ)
      → Written bytes ops
      → Written (bytes ++ more) (FlashOp.write_firmware (length bytes) more ∷ ops)

-- A reader of the bytes `contents`: what it reads is the front of them, at most as many as fit the
-- buffer.
module _ {R : Type 0} (contents : R → List ℕ) where
  abbrev pub ReadsFront : R → ℕ → Option (List ℕ) × R → Type 0
  ReadsFront r n (none, s) = Unit
  ReadsFront r n (some bytes, s) = (bytes ++ contents s ≡ contents r) × (length bytes ≤ n)

  abbrev pub IsReader : (R → ℕ → Option (List ℕ) × R) → Type 0
  IsReader read = (r : R) (n : ℕ) → ReadsFront r n (read r n)

module _ {R : Type 0} (read : R → ℕ → Option (List ℕ) × R)
    (flash_ok : List FlashOp → FlashOp → Bool) (contents : R → List ℕ)
    (law : IsReader contents read) where
  -- What `read_exact_or_eof` returns goes on behind `filled`.
  abbrev pub FillsFront : ℕ → List ℕ → R → Option (List ℕ) × R → Type 0
  FillsFront want filled r (none, s) = Unit
  FillsFront want filled r (some out, s) =
      (got : List ℕ) × (out ≡ filled ++ got)
      × (got ++ contents s ≡ contents r)
      × (length got ≤ want)

  behind :
      (filled bytes : List ℕ) (want : ℕ) (r s : R) (o : Option (List ℕ) × R)
      → (bytes ++ contents s ≡ contents r) × (length bytes ≤ want)
      → FillsFront (want - length bytes) (filled ++ bytes) s o
      → FillsFront want filled r o
  behind filled bytes want r s (none, t) h f = tt
  behind filled bytes want r s (some out, t) h (got, e, g, le) = (
    bytes ++ got,
    e ∙ append_assoc filled bytes got,
    append_assoc bytes got (contents t) ∙ ap (λ xs. bytes ++ xs) g ∙ h.0,
    omega (arith, length-append bytes got, h.1),
  )

  fill_more-FillsFront :
      (next : ℕ → List ℕ → R → Option (List ℕ) × R) (want : ℕ) (filled : List ℕ) (r : R)
      (o : Option (List ℕ) × R)
      → ((w : ℕ) (f : List ℕ) (s : R) → FillsFront w f s (next w f s))
      → ReadsFront contents r want o
      → FillsFront want filled r (fill_more read flash_ok next want filled o)
  unfolding fill_more
  fill_more-FillsFront next want filled r (none, s) n h = tt
  fill_more-FillsFront next want filled r (some [], s) n h =
      ([], sym (append-nil filled), h.0, omega arith)
  fill_more-FillsFront next want filled r (some (b ∷ bytes), s) n h =
      behind filled (b ∷ bytes) want r s _ h
        (n (want - length (b ∷ bytes)) (filled ++ (b ∷ bytes)) s)

  pub fill_from-FillsFront :
      (fuel want : ℕ) (filled : List ℕ) (r : R)
      → FillsFront want filled r (fill_from read flash_ok fuel want filled r)
  unfolding fill_from
  fill_from-FillsFront zero want filled r = ([], sym (append-nil filled), refl, omega arith)
  fill_from-FillsFront (suc fuel) want filled r = elim (Bool-cases (want == 0)) [
    | inl e ↦ rw e ([], sym (append-nil filled), refl, omega arith)
    | inr e ↦ rw e (
        fill_more-FillsFront (λ w f s. fill_from read flash_ok fuel w f s) want filled r
          (read r want) (λ w f s. fill_from-FillsFront fuel w f s) (law r want))
  ]

  -- The outcome of an upload of `content_len` bytes from `body`: all were written, in order, and the
  -- update is marked; or all were written and the mark failed; or something failed and nothing is
  -- marked.
  pub data IsUpload (content_len : ℕ) (body : List ℕ) : Uploaded read flash_ok → Type 0 where
    complete :
        {r : R} {log : List Event} (bytes : List ℕ) (ops : List FlashOp)
        → calls log ≡ FlashOp.mark_updated ∷ ops
        → Written bytes ops
        → length bytes ≡ content_len
        → bytes ++ contents r ≡ body
        → flash_ok ops FlashOp.mark_updated ≡ true
        → IsUpload content_len body (record { outcome = Outcome.ok; reader = r; log = log })
    unmarked :
        {r : R} {log : List Event} (bytes : List ℕ) (ops : List FlashOp)
        → calls log ≡ FlashOp.mark_updated ∷ ops
        → Written bytes ops
        → length bytes ≡ content_len
        → flash_ok ops FlashOp.mark_updated ≡ false
        → IsUpload content_len body
            (record { outcome = Outcome.failed OtaError.flash; reader = r; log = log })
    broken :
        {r : R} {log : List Event} (e : OtaError) (bytes : List ℕ)
        → Written bytes (calls log)
        → IsUpload content_len body (record { outcome = Outcome.failed e; reader = r; log = log })

  finish-IsUpload :
      (content_len : ℕ) (body bytes : List ℕ) (r : R) (log : List Event)
      → Written bytes (calls log)
      → bytes ++ contents r ≡ body
      → IsUpload content_len body (finish read flash_ok content_len (length bytes) r log)
  unfolding finish log_fw_err
  finish-IsUpload content_len body bytes r log w h =
      elim (Bool-cases (length bytes == content_len)) [
        | inl e ↦ rw e (elim (Bool-cases (flash_ok (calls log) FlashOp.mark_updated)) [
          | inl m ↦ rw m (complete bytes (calls log) refl w (ground arith) h m)
          | inr m ↦ rw m (unmarked bytes (calls log) refl w (ground arith) m)
        ])
        | inr e ↦ rw e (broken OtaError.truncated bytes w)
      ]

  on_chunk-IsUpload :
      (next : ℕ → ℕ → R → List Event → Uploaded read flash_ok) (content_len want last_log : ℕ)
      (body bytes : List ℕ) (r : R) (log : List Event) (o : Option (List ℕ) × R)
      → ((bs : List ℕ) (p : ℕ) (s : R) (l : List Event)
          → Written bs (calls l)
          → bs ++ contents s ≡ body
          → IsUpload content_len body (next (length bs) p s l))
      → FillsFront want [] r o
      → Written bytes (calls log)
      → bytes ++ contents r ≡ body
      → IsUpload content_len body
          (on_chunk read flash_ok next content_len (length bytes) last_log log o)
  unfolding on_chunk log_fw_err
  on_chunk-IsUpload next content_len want last_log body bytes r log (none, s) n f w h =
      broken OtaError.io bytes w
  on_chunk-IsUpload next content_len want last_log body bytes r log (some [], s) n f w h =
      broken OtaError.truncated bytes w
  on_chunk-IsUpload next content_len want last_log body bytes r log (some (b ∷ more), s) n
        (got, e, g, le) w h =
      let op = FlashOp.write_firmware (length bytes) (b ∷ more) in
      elim (Bool-cases (flash_ok (calls log) op)) [
        | inl done_ ↦
            rw (done_, ← length-append bytes (b ∷ more))
              (n (bytes ++ (b ∷ more)) _ s _
                (rw
                  (calls-log_progress content_len last_log (length (bytes ++ (b ∷ more)))
                    (Event.call op ∷ (Event.feed ∷ log)))
                  (chunk (b ∷ more) w))
                (append_assoc bytes (b ∷ more) (contents s)
                  ∙ ap (λ xs. bytes ++ xs) (ap (λ xs. xs ++ contents s) e ∙ g)
                  ∙ h))
        | inr refused ↦
            rw refused (broken OtaError.flash (bytes ++ (b ∷ more)) (chunk (b ∷ more) w))
      ]

  upload_from-IsUpload :
      (fuel content_len last_log : ℕ) (body bytes : List ℕ) (r : R) (log : List Event)
      → Written bytes (calls log)
      → bytes ++ contents r ≡ body
      → IsUpload content_len body
          (upload_from read flash_ok fuel content_len (length bytes) last_log r log)
  unfolding upload_from read_exact_or_eof
  upload_from-IsUpload zero content_len last_log body bytes r log w h =
      finish-IsUpload content_len body bytes r log w h
  upload_from-IsUpload (suc fuel) content_len last_log body bytes r log w h =
      elim (Bool-cases (ltb (length bytes) content_len)) [
        | inl more ↦ rw more (
            let want = min erase_size (content_len - length bytes) in
            on_chunk-IsUpload (λ o p s l. upload_from read flash_ok fuel content_len o p s l)
              content_len want last_log body bytes r log (read_exact_or_eof read flash_ok want r)
              (λ bs p s l w' h'. upload_from-IsUpload fuel content_len p body bs s l w' h')
              (fill_from-FillsFront want want [] r) w h)
        | inr all ↦ rw all (finish-IsUpload content_len body bytes r log w h)
      ]

  -- With a reader that reads the front of the body and no more than fits, and whatever the updater
  -- answers, an upload ends in one of three ways. It succeeds: then exactly the announced number
  -- of bytes, the first of the body, was written in order from offset 0 on, and then the update
  -- was marked. Or all of these were written and the mark failed. Or it fails, and nothing was
  -- marked.
  pub run_ota-IsUpload :
      (content_len : ℕ) (r : R)
      → IsUpload content_len (contents r) (run_ota read flash_ok content_len r [])
  unfolding run_ota
  run_ota-IsUpload content_len r = elim (Bool-cases (content_len == 0)) [
    | inl empty ↦ rw empty (broken _ [] nothing)
    | inr filled ↦ rw filled (elim (Bool-cases (ltb active_capacity content_len)) [
      | inl large ↦ rw large (broken OtaError.too_large [] nothing)
      | inr fits ↦
          rw fits (upload_from-IsUpload content_len content_len 0 (contents r) [] r _ nothing refl)
    ])
  ]
