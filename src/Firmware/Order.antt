-- ===== src/Firmware/Order.antt =====
-- How the handlers of src/main.rs and `board_task` work together: what the handlers do to the shared state
-- is what other tasks may do.
use mathlib.Core.Path.{subst}
use scoreboard_ctrl.Base.{ℕ, Bool, Option, List, ◌∷◌, Run, done, panicked, ◌>>=◌}
use scoreboard_ctrl.Scoreboard.{Shared}
use scoreboard_ctrl.Board.{Command}
use scoreboard_ctrl.Board.Tasks
use scoreboard_ctrl.Board.Tasks.{Others}
use scoreboard_ctrl.Status.{Build}
use scoreboard_ctrl.Web.Agent.{Parts, Line, log_http}
use scoreboard_ctrl.Web.Routes.{
  Router, Site, Reply, Found, fallback, not_allowed, found, found_u8s, ui_page, apple_probe, send,
  set_timer, status, events, ota, logged, mark_ui, probe, get_status, open_events, serve,
}
use scoreboard_ctrl.Firmware.{Firmware, Step, http, command, idle, others, Reach, start, next}

-- What a handler that ends does to the shared state is what another task may do.
abbrev Changes : Shared → Run (Site × Reply) → Type 0
Changes w panicked = Unit
Changes w (done (site, reply)) = Others w site.shared

logged-Changes :
    (parts : Parts) (action : List ℕ) (reply : Reply) (site : Site)
    → Changes site.shared (logged parts action reply site)
unfolding logged
logged-Changes parts action reply site = go (log_http site.portal.served_ui parts action)
  where
    go :
        (r : Run (Option Line))
        → Changes site.shared (r >>= λ line. done (record site { log = line ∷ site.log }, reply))
    go panicked = tt
    go (done line) = Others.idle

serve-Changes :
    (build : Build) (rx : Bool) (now : ℕ) (parts : Parts) (f : Found) (site : Site)
    → Changes site.shared (serve build rx now parts f site)
unfolding serve mark_ui probe get_status open_events
serve-Changes build rx now parts fallback site = logged-Changes parts _ _ site
serve-Changes build rx now parts not_allowed site = Others.idle
serve-Changes build rx now parts (found ui_page) site =
    logged-Changes parts _ _ (record site { portal = _ })
serve-Changes build rx now parts (found apple_probe) site = logged-Changes parts _ _ site
serve-Changes build rx now parts (found (send c)) site = Others.idle
serve-Changes build rx now parts (found set_timer) site = Others.idle
serve-Changes build rx now parts (found status) site = Others.look now Others.idle
serve-Changes build rx now parts (found events) site = logged-Changes parts _ _ site
serve-Changes build rx now parts (found ota) site = Others.idle
serve-Changes build rx now parts (found_u8s s minutes seconds) site = Others.idle

module _ {router : Router} {feature_ota : Bool} {build : Build} where
  -- Each step is one of the board among the other tasks.
  Step-board :
      {cs : List Command} {f g : Firmware}
      → Step router feature_ota build f cs g
      → Tasks.Reach f.board
      → Tasks.Reach g.board
  Step-board {f = f} (http rx now parts site reply e room) r = Tasks.Reach.next r (
      Tasks.Step.others site.shared
        (subst (Changes f.board.shared) e (serve-Changes build rx now parts _ _)))
  Step-board (command now env c cs es e) r = Tasks.Reach.next r (Tasks.Step.command now env c es)
  Step-board (idle now e p) r = Tasks.Reach.next r (Tasks.Step.drained now p)
  Step-board (others w o) r = Tasks.Reach.next r (Tasks.Step.others w o)

  -- However the requests, the rounds of the board and the other tasks interleave, the board is in a state of the
  -- model of `board_task` among the other tasks.
  pub Reach-refines :
      {cs : List Command} {f : Firmware} → Reach router feature_ota build cs f → Tasks.Reach f.board
  Reach-refines start = Tasks.Reach.booted
  Reach-refines (next r s) = Step-board s (Reach-refines r)
