-- ===== src/Web/Routes.antt =====
-- The routes of `build_app` of src/main.rs and what their handlers do: `MarkUi`, `AppleProbe`,
-- `ProbeReply`, `PortalFallback`, `EventsService` and the closures that send a `Command` or answer
-- with the status. A lock with what stands under it is one step, at `now` microseconds.
pub mod Paths
pub mod Scenes
use scoreboard_ctrl.Base.{
  ℕ, ◌≡◌, Bool, true, false, not, ◌&&◌, ◌||◌, Option, some, none, List, [], ◌∷◌, ◌++◌,
  if◌then◌else◌, bytes_eq, codes, Run, done, ◌>>=◌,
}
use scoreboard_ctrl.Board.{Command}
use scoreboard_ctrl.Scoreboard.{Shared, refresh_running}
use scoreboard_ctrl.Status.{Build, StatusJson, status_of}
use scoreboard_ctrl.Web.Agent.{Parts, Line, log_http, starts_with}
use scoreboard_ctrl.Web.Portal.{Portal, mark_ui_served, apple_probe_done}

-- A path, or one with two segments of type u8 behind it.
pub data Pattern : Type 0 where
  exact two_u8 : List ℕ → Pattern

pub data Service : Type 0 where
  ui_page apple_probe : Service
  send : Command → Service
  set_timer status events ota : Service

pub record Route : Type 0 where
  pub pattern : Pattern
  pub method : List ℕ
  pub service : Service

abbrev get : List ℕ → Service → Route
get path service = record { pattern = exact path; method = codes "GET"; service = service }

abbrev post : List ℕ → Command → Route
post path c = record { pattern = exact path; method = codes "POST"; service = send c }

-- The routes; the argument is `cfg!(feature = "ota")`.
unfoldable pub build_app : Bool → List Route
build_app feature_ota =
    get (codes "/") ui_page
    ∷ get (codes "/index.html") ui_page
    ∷ get (codes "/hotspot-detect.html") apple_probe
    ∷ get (codes "/hotspotdetect.html") apple_probe
    ∷ get (codes "/library/test/success.html") apple_probe
    ∷ post (codes "/led/on") Command.led_on
    ∷ post (codes "/led/off") Command.led_off
    ∷ post (codes "/api/ctrl/start-stop") Command.start_stop
    ∷ post (codes "/api/ctrl/start") Command.start
    ∷ post (codes "/api/ctrl/stop") Command.stop
    ∷ post (codes "/api/ctrl/reset") Command.reset
    ∷ post (codes "/api/ctrl/home-inc") Command.home_inc
    ∷ post (codes "/api/ctrl/home-dec") Command.home_dec
    ∷ post (codes "/api/ctrl/away-inc") Command.away_inc
    ∷ post (codes "/api/ctrl/away-dec") Command.away_dec
    ∷ post (codes "/api/ctrl/scores-zero") Command.scores_zero
    ∷ post (codes "/api/ctrl/aux") Command.aux
    ∷ record {
      pattern = two_u8 (codes "/api/timer/set");
      method = codes "POST";
      service = set_timer;
    }
    ∷ get (codes "/api/status") status
    ∷ get (codes "/api/events") events
    ∷ (if feature_ota
        then record { pattern = exact (codes "/api/ota"); method = codes "POST"; service = ota }
          ∷ []
        else [])

-- What the router finds for a request: no path, a path with another method, or a service, with the two
-- numbers of the path if it has them.
pub data Found : Type 0 where
  fallback not_allowed : Found
  found : Service → Found
  found_u8s : Service → ℕ → ℕ → Found

abbrev pub not_under : List ℕ → Pattern → Bool
not_under path (exact p) = not (bytes_eq p path)
not_under path (two_u8 p) = not (starts_with p path)

abbrev pub unlisted : List ℕ → List Route → Bool
unlisted path [] = true
unlisted path (r ∷ routes) = not_under path r.pattern && unlisted path routes

-- What the code relies on of picoserve's router: a path of no route goes to the fallback, and among the
-- routes the first with the path of a request serves it, if the method is the route's.
pub record Router : Type 0 where
  pub dispatch : List Route → List ℕ → List ℕ → Found
  pub to_fallback :
      (routes : List Route) (method path : List ℕ)
      → unlisted path routes ≡ true
      → dispatch routes method path ≡ fallback
  pub to_first :
      (before after : List Route) (method path : List ℕ) (service : Service)
      → unlisted path before ≡ true
      → dispatch
          (before ++ (record { pattern = exact path; method = method; service = service } ∷ after))
          method
          path
        ≡ found service

pub record Response : Type 0 where
  pub status : ℕ
  pub headers : List (List ℕ × List ℕ)
  pub body : List ℕ

-- `stream` holds the connection, and `upload` leaves it to `OtaService`.
pub data Reply : Type 0 where
  response : Response → Reply
  page stream upload method_not_allowed : Reply
  json : StatusJson → Reply

pub data ProbeReply : Type 0 where
  redirect apple_done : ProbeReply

abbrev pub portal_url : List ℕ
portal_url = codes "http://192.168.0.1/"

abbrev pub apple_success : List ℕ
apple_success = codes "<HTML><HEAD><TITLE>Success</TITLE></HEAD><BODY>Success</BODY></HTML>"

abbrev no_store : List ℕ × List ℕ
no_store = (codes "Cache-Control", codes "no-store")

unfoldable pub probe_reply : ProbeReply → Reply
probe_reply redirect = response record {
  status = 302;
  headers = (codes "Location", portal_url) ∷ no_store ∷ [];
  body = portal_url;
}
probe_reply apple_done = response record {
  status = 200;
  headers = (codes "Content-Type", codes "text/html") ∷ no_store ∷ [];
  body = apple_success;
}

abbrev pub ok : Reply
ok = response record { status = 200; headers = []; body = codes "OK" }

abbrev pub busy : Reply
busy = response record { status = 503; headers = no_store ∷ []; body = codes "busy" }

-- What the handlers share, the commands sent to `board_task` and the lines logged, both newest first.
pub record Site : Type 0 where
  pub portal : Portal
  pub shared : Shared
  pub sent : List Command
  pub log : List (Option Line)

-- `log_http` and the handler's reply.
unfoldable pub logged : Parts → List ℕ → Reply → Site → Run (Site × Reply)
logged parts action reply site = do
  line ← log_http site.portal.served_ui parts action
  done (record site { log = line ∷ site.log }, reply)

unfoldable pub mark_ui : ℕ → Parts → Site → Run (Site × Reply)
mark_ui now parts site =
    logged parts (codes "UI") page (record site { portal = mark_ui_served now site.portal })

unfoldable pub probe : ℕ → Parts → Site → Run (Site × Reply)
probe now parts site =
    let probed = apple_probe_done now site.portal in
    logged parts (if probed then codes "apple-success" else codes "302")
      (probe_reply (if probed then apple_done else redirect)) site

abbrev pub send_command : Command → Site → Run (Site × Reply)
send_command c site = done (record site { sent = c ∷ site.sent }, ok)

unfoldable pub get_status : Build → ℕ → Site → Run (Site × Reply)
get_status build now site =
    let w = refresh_running now site.shared in
    done (record site { shared = w }, json (status_of build now w.state))

-- `rx` is whether `EVENTS.receiver()` gave a receiver; the line `events busy` is left out.
unfoldable pub open_events : Bool → Parts → Site → Run (Site × Reply)
open_events rx parts site = logged parts (codes "events") (if rx then stream else busy) site

-- A request for which the router found this.
unfoldable pub serve : Build → Bool → ℕ → Parts → Found → Site → Run (Site × Reply)
serve build rx now parts fallback site = logged parts (codes "302") (probe_reply redirect) site
serve build rx now parts not_allowed site = done (site, method_not_allowed)
serve build rx now parts (found ui_page) site = mark_ui now parts site
serve build rx now parts (found apple_probe) site = probe now parts site
serve build rx now parts (found (send c)) site = send_command c site
serve build rx now parts (found set_timer) site = done (site, method_not_allowed)
serve build rx now parts (found status) site = get_status build now site
serve build rx now parts (found events) site = open_events rx parts site
serve build rx now parts (found ota) site = done (site, upload)
serve build rx now parts (found_u8s s minutes seconds) site =
    send_command (Command.set_timer minutes seconds) site
