-- ===== src/Firmware/Asked.antt =====
-- What the requests of the phones ask for, against what stands on the scoreboard: the handlers of src/main.rs,
-- the channel and `board_task` from end to end.
use mathlib.Core.Path.{subst}
use scoreboard_ctrl.Base.{
  ℕ, ◌+◌, ◌-◌, ◌≡◌, refl, sym, ap, ◌∙◌, min, Bool, Option, List, [], ◌∷◌, ◌++◌, append-nil, Run,
  done, panicked, ◌>>=◌, arith,
}
use scoreboard_ctrl.Scoreboard.{Shared}
use scoreboard_ctrl.Board.{
  Board, Command, start_stop, start, stop, home_inc, home_dec, away_inc, away_dec, scores_zero,
  reset, led_on, led_off, set_timer, aux, set_led, do_start_stop, do_home_inc, do_home_dec,
  do_away_inc, do_away_dec, do_scores_zero, do_reset, do_set_timer, do_aux, handle, drain_timer,
  drain,
}
use scoreboard_ctrl.Board.Scores.{Inv, Reach-Inv, home_shown, away_shown}
use scoreboard_ctrl.Status.{Build}
use scoreboard_ctrl.Web.Agent.{Parts, Line, log_http}
use scoreboard_ctrl.Web.Routes
use scoreboard_ctrl.Web.Routes.{
  Router, Site, Reply, Found, fallback, not_allowed, found, found_u8s, ui_page, apple_probe, send,
  status, events, ota, logged, mark_ui, probe, get_status, open_events, serve,
}
use scoreboard_ctrl.Firmware.{Firmware, asked, Step, http, command, idle, others, Reach}
use scoreboard_ctrl.Firmware.Order.{Reach-refines}

-- What a command does to the two scores, home first: they count between 0 and 99.
abbrev pub score : Command → ℕ × ℕ → ℕ × ℕ
score home_inc (h, a) = (min (h + 1) 99, a)
score home_dec (h, a) = (h - 1, a)
score away_inc (h, a) = (h, min (a + 1) 99)
score away_dec (h, a) = (h, a - 1)
score scores_zero (h, a) = (0, 0)
score _ (h, a) = (h, a)

abbrev pub scores : List Command → ℕ × ℕ → ℕ × ℕ
scores [] p = p
scores (c ∷ cs) p = scores cs (score c p)

scores-append : (cs ds : List Command) (p : ℕ × ℕ) → scores (cs ++ ds) p ≡ scores ds (scores cs p)
scores-append [] ds p = refl
scores-append (c ∷ cs) ds p = scores-append cs ds (score c p)

abbrev pub on_board : Board → ℕ × ℕ
on_board b = (home_shown b.log, away_shown b.log)

handle-score :
    (now : ℕ) (env : Shared → Shared) (c : Command) (b : Board)
    → Inv b
    → on_board (handle now env c b) ≡ score c (on_board b)
unfolding handle set_led do_start_stop do_home_inc do_home_dec do_away_inc do_away_dec
    do_scores_zero do_reset do_set_timer do_aux
handle-score now env led_on b i = ground arith
handle-score now env led_off b i = ground arith
handle-score now env start_stop b i = ground arith
handle-score now env start b i = ground arith
handle-score now env stop b i = ground arith
handle-score now env home_inc b i = ground (arith, i)
handle-score now env home_dec b i = ground (arith, i)
handle-score now env away_inc b i = ground (arith, i)
handle-score now env away_dec b i = ground (arith, i)
handle-score now env scores_zero b i = ground arith
handle-score now env reset b i = ground arith
handle-score now env (set_timer m s) b i = ground arith
handle-score now env aux b i = ground arith

drain-score : (now : ℕ) (b : Board) → Inv b → on_board (drain now b) ≡ on_board b
unfolding drain drain_timer
drain-score now b i = ground (arith, i.no_home_dec, i.no_away_dec)

-- A handler that ends has sent what was asked for.
abbrev Sends : List Command → Run (Site × Reply) → Type 0
Sends cs panicked = Unit
Sends cs (done (site, reply)) = site.sent ≡ cs

logged-Sends :
    (parts : Parts) (action : List ℕ) (reply : Reply) (site : Site)
    → Sends site.sent (logged parts action reply site)
unfolding logged
logged-Sends parts action reply site = go (log_http site.portal.served_ui parts action)
  where
    go :
        (r : Run (Option Line))
        → Sends site.sent (r >>= λ line. done (record site { log = line ∷ site.log }, reply))
    go panicked = tt
    go (done line) = refl

serve-Sends :
    (build : Build) (rx : Bool) (now : ℕ) (parts : Parts) (f : Found) (site : Site)
    → Sends (asked f ++ site.sent) (serve build rx now parts f site)
unfolding serve mark_ui probe get_status open_events
serve-Sends build rx now parts fallback site = logged-Sends parts _ _ site
serve-Sends build rx now parts not_allowed site = refl
serve-Sends build rx now parts (found ui_page) site =
    logged-Sends parts _ _ (record site { portal = _ })
serve-Sends build rx now parts (found apple_probe) site = logged-Sends parts _ _ site
serve-Sends build rx now parts (found (send c)) site = refl
serve-Sends build rx now parts (found Routes.set_timer) site = refl
serve-Sends build rx now parts (found status) site = refl
serve-Sends build rx now parts (found events) site = logged-Sends parts _ _ site
serve-Sends build rx now parts (found ota) site = refl
serve-Sends build rx now parts (found_u8s s minutes seconds) site = refl

module _ {router : Router} {feature_ota : Bool} {build : Build} where
  Step-score :
      {es : List Command} {f g : Firmware} (p : ℕ × ℕ)
      → Step router feature_ota build f es g
      → Inv f.board
      → scores f.channel (on_board f.board) ≡ p
      → scores g.channel (on_board g.board) ≡ scores es p
  Step-score {f = f} p (http rx now parts site reply e room) i h =
      let sent = subst (Sends _) e (serve-Sends build rx now parts _ _) in
      scores-append f.channel site.sent (on_board f.board)
      ∙ ap (scores site.sent) h
      ∙ ap (λ xs. scores xs p) (sent ∙ append-nil _)
  Step-score {f = f} p (command now env c rest o e) i h =
      ap (scores rest) (handle-score now env c f.board i)
      ∙ ap (λ xs. scores xs (on_board f.board)) (sym e)
      ∙ h
  Step-score {f = f} p (idle now e more) i h = ap (scores f.channel) (drain-score now f.board i) ∙ h
  Step-score p (others w o) i h = h

  -- In every state that the firmware reaches, however the requests, the rounds of the board and the other tasks
  -- interleave: once the commands that are still in the channel are carried out, the scores that
  -- the pressed buttons have put on the scoreboard are those that the requests asked for, each command
  -- counted once and in the order of the requests, from 0 to 99.
  pub scores_asked :
      {cs : List Command} {f : Firmware}
      → Reach router feature_ota build cs f
      → scores f.channel (home_shown f.board.log, away_shown f.board.log) ≡ scores cs (0, 0)
  scores_asked Reach.start = refl
  scores_asked (Reach.next {cs} {ds} {f} r s) =
      Step-score (scores cs (0, 0)) s (Reach-Inv (Reach-refines r)) (scores_asked r)
      ∙ sym (scores-append cs ds (0, 0))
