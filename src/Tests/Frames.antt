-- ===== src/Tests/Frames.antt =====
-- `read_serial` of src/main.rs: two stray bytes and a frame in one read.
use scoreboard_ctrl.Base.{ℕ, ◌≡◌, refl, List, [], ◌∷◌, done, arith}
use scoreboard_ctrl.Board.Tasks.{boot}
use scoreboard_ctrl.Serial.{Serial, start, on_read, on_error}
use scoreboard_ctrl.Serial.Collect.{IsValid, collect, show_frames, begun}
use scoreboard_ctrl.Serial.Frames.{read_frames}

-- Two stray bytes, and a whole frame.
abbrev bytes : List (ℕ × ℕ)
bytes = (1, 0xff) ∷ (2, 0) ∷ (3, 0x60) ∷ (4, 0x7a) ∷ (5, 0) ∷ (6, 2) ∷ (7, 6) ∷ (8, 0) ∷ []

abbrev listening : Serial
listening = start 0 (boot.shared)

listening-IsValid : IsValid listening
listening-IsValid = record {
  packet_size = refl;
  index = omega arith;
  skip_size = refl;
  skip_index = omega arith;
  skip_bytes = omega arith;
}

bytes-collect : collect [] bytes ≡ (8, 0x60 ∷ 0x7a ∷ 0 ∷ 2 ∷ 6 ∷ 0 ∷ []) ∷ []
bytes-collect = refl

read_frames_example :
    ((s' : Serial) × (on_read 8 bytes listening ≡ done s')
      × IsValid s'
      × (s'.shared ≡ show_frames (collect (begun listening) bytes) listening.shared))
    × IsValid (on_error listening)
    × (begun (on_error listening) ≡ [])
    × ((on_error listening).shared ≡ listening.shared)
read_frames_example = read_frames 8 bytes listening listening-IsValid (omega arith)
