-- ===== src/Tests/Portal.antt =====
-- Requests of phones to the web server, src/main.rs.
use scoreboard_ctrl.Base.{
  ℕ, ◌≡◌, refl, true, false, none, some, List, [], ◌∷◌, ◌++◌, bytes_eq, ◌&&◌, not, if◌then◌else◌,
  codes, ◌↔◌, done, panicked, ◌>>=◌, ◌==◌, arith,
}
use scoreboard_ctrl.Scoreboard.{default}
use scoreboard_ctrl.Board.{Command}
use scoreboard_ctrl.Status.{Build}
use scoreboard_ctrl.Web.Agent.{
  Parts, Line, ua_tag, log_http, uncut, hdr, starts_with, log_http_panics_iff,
}
use scoreboard_ctrl.Web.Portal.{mark_ui_served}
use scoreboard_ctrl.Web.Routes.{
  Route, exact, Service, Found, fallback, found, not_allowed, Router, unlisted, not_under, Site, ok,
  probe_reply, apple_done, serve, mark_ui, logged,
}
use scoreboard_ctrl.Web.Routes.Paths.{request, request-command_path}
use scoreboard_ctrl.Web.Routes.Scenes.{Turn, serve_turn, serve_all, probe-serve_all}
use scoreboard_ctrl.Web.Workers.{
  Pool, Trace, Step, Steps, Turns, start, idle, Step-shown, busy, on_accept,
}

-- 27 letters and a character of three bytes, from byte 27 on.
abbrev foreign : List ℕ
foreign = codes "Mozilla/5.0 (X11; Linux) ab" ++ (0xe2 ∷ 0x82 ∷ 0xac ∷ [])

abbrev page_request : List ℕ → Parts
page_request ua = record {
  method = codes "GET";
  path = codes "/";
  header = λ name. if bytes_eq name (codes "User-Agent") then some (some ua) else none;
}

log_http_panics_iff_example : (log_http false (page_request foreign) (codes "UI") ≡ panicked) ↔ (
    (not (starts_with (codes "/api/status") (codes "/"))
      && uncut (hdr (page_request foreign) (codes "User-Agent")))
    ≡ true)
log_http_panics_iff_example = log_http_panics_iff false (page_request foreign) (codes "UI")

-- The panic is there.
log_http-foreign : log_http false (page_request foreign) (codes "UI") ≡ panicked
log_http-foreign = (log_http_panics_iff false (page_request foreign) (codes "UI")).1 refl

-- A router that looks at the routes in order.
abbrev look_up : List Route → List ℕ → List ℕ → Found
look_up [] method path = fallback
look_up (r ∷ routes) method path =
    let later = look_up routes method path in
    if not_under path r.pattern
    then later
    else if bytes_eq r.method method
    then found r.service
    else not_allowed

bytes_eq_self : (xs : List ℕ) → bytes_eq xs xs ≡ true
bytes_eq_self [] = refl
bytes_eq_self (x ∷ xs) = ground (arith, bytes_eq_self xs)

pub look_up-fallback :
    (routes : List Route) (method path : List ℕ)
    → unlisted path routes ≡ true
    → look_up routes method path ≡ fallback
look_up-fallback [] method path h = refl
look_up-fallback (r ∷ routes) method path h =
    let here : not_under path r.pattern ≡ true = ground arith in
    rw here (look_up-fallback routes method path (ground arith))

pub look_up-first :
    (before after : List Route) (method path : List ℕ) (service : Service)
    → unlisted path before ≡ true
    → look_up
        (before ++ (record { pattern = exact path; method = method; service = service } ∷ after))
        method
        path
      ≡ found service
look_up-first [] after method path service h = rw (bytes_eq_self path, bytes_eq_self method) refl
look_up-first (r ∷ before) after method path service h =
    let here : not_under path r.pattern ≡ true = ground arith in
    rw here (look_up-first before after method path service (ground arith))

abbrev pub router : Router
router = record { dispatch = look_up; to_fallback = look_up-fallback; to_first = look_up-first }

abbrev pub build : Build
build = record { sim = false; ver = codes "1"; git = []; date = [] }

abbrev site : Site
site = record {
  portal = record { served_ui = false; last_ui_ms = 0 };
  shared = record { state = default; events = 0 };
  sent = [];
  log = [];
}

abbrev press_start : Parts
press_start = record {
  method = codes "POST";
  path = codes "/api/ctrl/start";
  header = λ name. none;
}

request-command_path_example :
    request router true build true 5 press_start site
    ≡ done (record site { sent = Command.start ∷ [] }, ok)
request-command_path_example =
    request-command_path router true build true 5 press_start site Command.start refl refl

abbrev page_turn : Turn
page_turn = record {
  rx = false;
  now = 1000000;
  parts = page_request (codes "curl");
  found = found Service.ui_page;
}

abbrev status_turn : Turn
status_turn = record {
  rx = false;
  now = 2000000;
  parts = page_request (codes "curl");
  found = not_allowed;
}

-- The page was served, and the log has its line.
abbrev seen : Site
seen = record site {
  portal = record { served_ui = true; last_ui_ms = 1000 };
  log =
      some record {
        method = codes "GET";
        path = codes "/";
        host = codes "-";
        ua = codes "curl";
        served = true;
        action = codes "UI";
      }
      ∷ [];
}

page_turn-seen :
    (serve_turn build page_turn site >>= λ s. serve_all build (status_turn ∷ []) s) ≡ done seen
unfolding serve mark_ui logged log_http ua_tag mark_ui_served
page_turn-seen = refl

abbrev apple_request : Parts
apple_request = record {
  method = codes "GET";
  path = codes "/hotspot-detect.html";
  header = λ name. none;
}

abbrev apple_line : Line
apple_line = record {
  method = codes "GET";
  path = codes "/hotspot-detect.html";
  host = codes "-";
  ua = codes "-";
  served = true;
  action = codes "apple-success";
}

apple_logged : log_http true apple_request (codes "apple-success") ≡ done (some apple_line)
unfolding log_http ua_tag
apple_logged = refl

probe-serve_all_example :
    serve build false 5000000 apple_request (found Service.apple_probe) seen
    ≡ done (record seen { log = some apple_line ∷ seen.log }, probe_reply apple_done)
probe-serve_all_example =
    probe-serve_all build (status_turn ∷ []) 1000000 5000000 (page_request (codes "curl"))
      apple_request site seen (some apple_line) refl (omega arith) page_turn-seen apple_logged

-- The first task accepts.
abbrev one_busy : Pool
one_busy = record { live = 1; serving = true ∷ idle 11 }

Step-shown_example : (1 ≡ busy one_busy.serving) × (false ≡ (busy one_busy.serving == 12))
unfolding on_accept
Step-shown_example =
    Step-shown start (Trace.opened 1) one_busy Steps.begin
      (Step.accepts 0 (idle 12) (true ∷ idle 11) (Turns.here false (idle 11)))
