-- ===== src/Web/Routes/Paths.antt =====
-- The paths of the routes of src/main.rs.
use scoreboard_ctrl.Base.{
  ℕ, sym, take, drop, unwrap_or, ◌+◌, ◌≡◌, refl, ap, ◌∙◌, Bool, true, Option, some, none, List, [],
  ◌∷◌, ◌++◌, codes, Run, done, arith,
}
use scoreboard_ctrl.Board.{Command}
use scoreboard_ctrl.Status.{Build}
use scoreboard_ctrl.Web.Agent.{Parts, Line, log_http}
use scoreboard_ctrl.Web.Routes.{
  exact, send, build_app, unlisted, found, Router, Reply, ok, probe_reply, redirect, Site, logged,
  serve,
}

-- The path at which a command is posted; `SetTimer` has its own.
abbrev pub command_path : Command → Option (List ℕ)
command_path Command.start_stop = some (codes "/api/ctrl/start-stop")
command_path Command.start = some (codes "/api/ctrl/start")
command_path Command.stop = some (codes "/api/ctrl/stop")
command_path Command.home_inc = some (codes "/api/ctrl/home-inc")
command_path Command.home_dec = some (codes "/api/ctrl/home-dec")
command_path Command.away_inc = some (codes "/api/ctrl/away-inc")
command_path Command.away_dec = some (codes "/api/ctrl/away-dec")
command_path Command.scores_zero = some (codes "/api/ctrl/scores-zero")
command_path Command.reset = some (codes "/api/ctrl/reset")
command_path Command.led_on = some (codes "/led/on")
command_path Command.led_off = some (codes "/led/off")
command_path (Command.set_timer minutes seconds) = none
command_path Command.aux = some (codes "/api/ctrl/aux")

-- A request to the app, served.
abbrev pub request : Router → Bool → Build → Bool → ℕ → Parts → Site → Run (Site × Reply)
request router feature_ota build rx now parts site =
    serve build rx now parts (router.dispatch (build_app feature_ota) parts.method parts.path) site

module _ (router : Router) (feature_ota : Bool) where
  -- The route behind `k` others.
  pub at :
      (k : ℕ) (path : List ℕ) (c : Command) (p : List ℕ)
      → take k (build_app feature_ota)
          ++ (record { pattern = exact path; method = codes "POST"; service = send c }
              ∷ drop (k + 1) (build_app feature_ota))
        ≡ build_app feature_ota
      → unlisted path (take k (build_app feature_ota)) ≡ true
      → some path ≡ some p
      → router.dispatch (build_app feature_ota) (codes "POST") p ≡ found (send c)
  at k path c p whole new e =
      let routes = build_app feature_ota in
      let same : path ≡ p = ap (λ o. unwrap_or o []) e in
      rw (← same) (
        ap (λ rs. router.dispatch rs (codes "POST") path) (sym whole)
        ∙ router.to_first (take k routes) (drop (k + 1) routes) (codes "POST") path (send c) new)

  command_found :
      (c : Command) (path : List ℕ)
      → command_path c ≡ some path
      → router.dispatch (build_app feature_ota) (codes "POST") path ≡ found (send c)
  unfolding build_app
  command_found Command.led_on path e = at 5 _ _ path refl refl e
  command_found Command.led_off path e = at 6 _ _ path refl refl e
  command_found Command.start_stop path e = at 7 _ _ path refl refl e
  command_found Command.start path e = at 8 _ _ path refl refl e
  command_found Command.stop path e = at 9 _ _ path refl refl e
  command_found Command.reset path e = at 10 _ _ path refl refl e
  command_found Command.home_inc path e = at 11 _ _ path refl refl e
  command_found Command.home_dec path e = at 12 _ _ path refl refl e
  command_found Command.away_inc path e = at 13 _ _ path refl refl e
  command_found Command.away_dec path e = at 14 _ _ path refl refl e
  command_found Command.scores_zero path e = at 15 _ _ path refl refl e
  command_found Command.aux path e = at 16 _ _ path refl refl e
  command_found (Command.set_timer minutes seconds) path e = absurd (ground arith)

  -- Whatever the router, a POST to the path of a command sends this command and no other, changes nothing else of the
  -- site, and is answered with `OK`.
  pub request-command_path :
      (build : Build) (rx : Bool) (now : ℕ) (parts : Parts) (site : Site) (c : Command)
      → parts.method ≡ codes "POST"
      → command_path c ≡ some parts.path
      → request router feature_ota build rx now parts site
        ≡ done (record site { sent = c ∷ site.sent }, ok)
  unfolding serve
  request-command_path build rx now parts site c m e =
      ap
        (λ meth.
          serve build rx now parts (router.dispatch (build_app feature_ota) meth parts.path) site)
        m
      ∙ ap (λ f. serve build rx now parts f site) (command_found c parts.path e)

  -- A request for a path of no route, if its log does not panic, is redirected to the page and changes nothing but the
  -- log.
  pub request-unlisted :
      (build : Build) (rx : Bool) (now : ℕ) (parts : Parts) (site : Site) (line : Option Line)
      → unlisted parts.path (build_app feature_ota) ≡ true
      → log_http site.portal.served_ui parts (codes "302") ≡ done line
      → request router feature_ota build rx now parts site
        ≡ done (record site { log = line ∷ site.log }, probe_reply redirect)
  unfolding serve logged
  request-unlisted build rx now parts site line u e =
      rw (router.to_fallback (build_app feature_ota) parts.method parts.path u, e)
