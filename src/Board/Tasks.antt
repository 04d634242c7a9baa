-- ===== src/Board/Tasks.antt =====
-- The board task among the others. What another task does to the shared state is a clock frame
-- (`read_serial`) or a look at the clock (`heartbeat_task`, the status handlers); the board task does
-- one round at a time. `Reach` holds of every interleaving of these.
use scoreboard_ctrl.Base.{ℕ, ◌≤◌, true, ◌≡◌, [], pos}
use scoreboard_ctrl.Decode.{max_minutes, max_seconds}
use scoreboard_ctrl.Scoreboard.{Shared, default, refresh_running, set_clock}
use scoreboard_ctrl.Board.{Board, Command, has_pending, handle, drain}

pub data Others (w : Shared) : Shared → Type 0 where
  idle : Others w w
  frame :
      {v : Shared} (now m s : ℕ)
      → m ≤ max_minutes
      → s ≤ max_seconds
      → Others w v
      → Others w (set_clock now m s v)
  look : {v : Shared} (now : ℕ) → Others w v → Others w (refresh_running now v)

pub data Step (b : Board) : Board → Type 0 where
  command :
      (now : ℕ) (env : Shared → Shared) (c : Command)
      → ((w : Shared) → Others w (env w))
      → Step b (handle now env c b)
  drained : (now : ℕ) → has_pending b ≡ true → Step b (drain now b)
  others : (w : Shared) → Others b.shared w → Step b (record b { shared = w })

abbrev pub boot : Board
boot = record {
  shared = record { state = default; events = 0 };
  pending_home_dec = 0;
  pending_away_dec = 0;
  pending_min = pos 0;
  pending_sec = pos 0;
  log = [];
}

pub data Reach : Board → Type 0 where
  booted : Reach boot
  next : {b c : Board} → Reach b → Step b c → Reach c
