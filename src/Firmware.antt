-- ===== src/Firmware.antt =====
-- The parts of src/main.rs together: the handlers of `build_app`, the channel of eight commands, `board_task`
-- and the tasks that change the shared state. A handler that sends to a full channel waits, so a request
-- is one step where there is room for what it sends; a request whose log panics restarts the device and is no
-- step.
pub mod Order
pub mod Answers
pub mod Asked
use scoreboard_ctrl.Base.{
  ℕ, ◌+◌, ◌≤◌, ◌≡◌, Bool, true, false, Option, List, [], ◌∷◌, ◌++◌, length, done,
}
use scoreboard_ctrl.Scoreboard.{Shared}
use scoreboard_ctrl.Board.{Board, Command, has_pending, handle, drain}
use scoreboard_ctrl.Board.Tasks
use scoreboard_ctrl.Board.Tasks.{Others}
use scoreboard_ctrl.Status.{Build}
use scoreboard_ctrl.Web.Agent.{Parts, Line}
use scoreboard_ctrl.Web.Portal.{Portal}
use scoreboard_ctrl.Web.Routes.{
  Router, Site, Reply, Found, found, found_u8s, send, serve, build_app,
}

-- The capacity of the channel.
abbrev pub capacity : ℕ
capacity = 8

-- The board with the shared state, the commands in the channel, the oldest first, and the times of the
-- page and the log of the requests.
pub record Firmware : Type 0 where
  pub board : Board
  pub channel : List Command
  pub portal : Portal
  pub log : List (Option Line)

-- What the handlers see.
abbrev pub site_of : Firmware → Site
site_of f = record { portal = f.portal; shared = f.board.shared; sent = []; log = f.log }

-- The state behind a request that ended with this site.
abbrev pub answered : Site → Firmware → Firmware
answered site f = record f {
  board = record (f.board) { shared = site.shared };
  channel = f.channel ++ site.sent;
  portal = site.portal;
  log = site.log;
}

-- The command that a request asks for, by what the router found for it.
abbrev pub asked : Found → List Command
asked (found (send c)) = c ∷ []
asked (found_u8s s minutes seconds) = Command.set_timer minutes seconds ∷ []
asked _ = []

-- A step, with the commands that it asked for.
module _ (router : Router) (feature_ota : Bool) (build : Build) where
  pub data Step (f : Firmware) : List Command → Firmware → Type 0 where
    http :
        (rx : Bool) (now : ℕ) (parts : Parts) (site : Site) (reply : Reply)
        → serve build rx now parts
            (router.dispatch (build_app feature_ota) parts.method parts.path)
            (site_of f)
          ≡ done (site, reply)
        → length (f.channel ++ site.sent) ≤ capacity
        → Step f
            (asked (router.dispatch (build_app feature_ota) parts.method parts.path))
            (answered site f)
    command :
        (now : ℕ) (env : Shared → Shared) (c : Command) (cs : List Command)
        → ((w : Shared) → Others w (env w))
        → f.channel ≡ c ∷ cs
        → Step f [] (record f { board = handle now env c f.board; channel = cs })
    idle :
        (now : ℕ)
        → f.channel ≡ []
        → has_pending f.board ≡ true
        → Step f [] (record f { board = drain now f.board })
    others :
        (w : Shared)
        → Others f.board.shared w
        → Step f [] (record f { board = record (f.board) { shared = w } })

abbrev pub booted : Firmware
booted = record {
  board = Tasks.boot;
  channel = [];
  portal = record { served_ui = false; last_ui_ms = 0 };
  log = [];
}

-- What the firmware reaches, with the commands that the requests asked for, the first one first.
module _ (router : Router) (feature_ota : Bool) (build : Build) where
  pub data Reach : List Command → Firmware → Type 0 where
    start : Reach [] booted
    next :
        {cs ds : List Command} {f g : Firmware}
        → Reach cs f
        → Step router feature_ota build f ds g
        → Reach (cs ++ ds) g
