-- ===== src/Ota/Requests.antt =====
-- The requests for uploads, `call_request_handler_service` of src/ota.rs: they come in any order, and
-- each holds the flag `OTA_BUSY` while its upload runs.
use scoreboard_ctrl.Base.{ℕ, suc, ◌+◌, ◌≤◌, ◌≡◌, ◌↔◌, true, false, if◌then◌else◌, arith}
use scoreboard_ctrl.Ota.{Outcome}
use scoreboard_ctrl.Ota.Handler.{Flags, claim, release}

-- The flags, the number of uploads that run, and how many have ended well.
pub record Uploads : Type 0 where
  pub flags : Flags
  pub running : ℕ
  pub succeeded : ℕ

abbrev count_ok : Outcome → ℕ
count_ok Outcome.ok = 1
count_ok (Outcome.failed e) = 0

-- A request comes, and its upload begins if it may; or an upload that runs ends.
pub data Step (u : Uploads) : Uploads → Type 0 where
  request : Step u (record {
    flags = (claim u.flags).1;
    running = if (claim u.flags).0 then u.running + 1 else u.running;
    succeeded = u.succeeded;
  })
  end :
      {n : ℕ} (o : Outcome)
      → u.running ≡ suc n
      → Step u
          (record { flags = release o u.flags; running = n; succeeded = u.succeeded + count_ok o })

abbrev pub at_start : Uploads
at_start = record { flags = record { busy = false; reset = false }; running = 0; succeeded = 0 }

pub data Reach : Uploads → Type 0 where
  started : Reach at_start
  next : {u v : Uploads} → Reach u → Step u v → Reach v

-- At most one upload runs at a time, the flag says whether one does, and the reset is asked for exactly
-- when an upload has ended well.
pub one_upload :
    {u : Uploads}
    → Reach u
    → (u.running ≤ 1)
      × ((u.flags.busy ≡ true) ↔ (u.running ≡ 1))
      × ((u.flags.reset ≡ true) ↔ (1 ≤ u.succeeded))
unfolding claim release
one_upload started = ground arith
one_upload (next r request) = ground (arith, one_upload r)
one_upload (next r (end Outcome.ok e)) = ground (arith, one_upload r)
one_upload (next r (end (Outcome.failed _) e)) = ground (arith, one_upload r)
