-- ===== src/Web/Routes/Scenes.antt =====
-- What requests to the site of src/main.rs do one after the other.
use mathlib.Core.Path.{subst}
use scoreboard_ctrl.Base.{
  ℕ, ◌-◌, ◌/◌, ◌%◌, ◌≤◌, ◌≡◌, refl, Bool, true, false, ◌&&◌, Option, List, [], ◌∷◌, ltb,
  if◌then◌else◌, codes, Run, done, panicked, ◌>>=◌, arith,
}
use scoreboard_ctrl.Status.{Build}
use scoreboard_ctrl.Web.Agent.{Parts, Line, log_http}
use scoreboard_ctrl.Web.Portal.{
  Portal, mark_ui_served, apple_probe_done, apple_probe_done-mark_ui_served, u32_size,
  ui_captive_ms,
}
use scoreboard_ctrl.Web.Routes.{
  ui_page, apple_probe, send, set_timer, status, events, ota, Found, fallback, not_allowed, found,
  found_u8s, Reply, page, probe_reply, redirect, apple_done, Site, logged, mark_ui, probe,
  get_status, open_events, serve,
}

-- A request as it is served: `rx`, the time, what is read of it, and what the router found.
pub record Turn : Type 0 where
  pub rx : Bool
  pub now : ℕ
  pub parts : Parts
  pub found : Found

abbrev pub serve_turn : Build → Turn → Site → Run Site
serve_turn build t site = do
  (site', reply) ← serve build t.rx t.now t.parts t.found site
  done site'

abbrev pub serve_all : Build → List Turn → Site → Run Site
serve_all build [] site = done site
serve_all build (t ∷ ts) site = do site' ← serve_turn build t site; serve_all build ts site'

-- The request is not for the page.
abbrev pub no_page : Found → Bool
no_page (Found.found ui_page) = false
no_page _ = true

abbrev pub no_pages : List Turn → Bool
no_pages [] = true
no_pages (t ∷ ts) = no_page t.found && no_pages ts

-- If it did not panic, it left the portal as it was.
abbrev Keeps : Portal → Run Site → Type 0
Keeps p (done site) = site.portal ≡ p
Keeps p panicked = Unit

serve_turn-Keeps :
    (build : Build) (t : Turn) (site : Site)
    → no_page t.found ≡ true
    → Keeps site.portal (serve_turn build t site)
unfolding serve logged probe get_status open_events
serve_turn-Keeps build t site h = go t.found h
  where
    log_then :
        (line : Run (Option Line)) (reply : Reply)
        → Keeps site.portal (
            ◌>>=◌ {A = Site × Reply}
              (line >>= λ l. done (record site { log = l ∷ site.log }, reply))
              λ r. done r.0)
    log_then (done l) reply = refl
    log_then panicked reply = tt

    go :
        (f : Found)
        → no_page f ≡ true
        → Keeps site.portal (serve build t.rx t.now t.parts f site >>= λ r. done r.0)
    go fallback h = log_then _ _
    go not_allowed h = refl
    go (Found.found ui_page) h = absurd (ground arith)
    go (Found.found apple_probe) h = log_then _ _
    go (Found.found (send c)) h = refl
    go (Found.found set_timer) h = refl
    go (Found.found status) h = refl
    go (Found.found events) h = log_then _ _
    go (Found.found ota) h = refl
    go (found_u8s s m n) h = refl

Keeps-bind :
    (p : Portal) (r : Run Site) (f : Site → Run Site)
    → Keeps p r
    → ((s : Site) → Keeps s.portal (f s))
    → Keeps p (r >>= f)
Keeps-bind p panicked f k g = tt
Keeps-bind p (done s) f k g = rw (← k) (g s)

kept : (p : Portal) (r : Run Site) (s : Site) → r ≡ done s → Keeps p r → s.portal ≡ p
kept p r s e k = subst (Keeps p) e k

serve_all-Keeps :
    (build : Build) (ts : List Turn) (site : Site)
    → no_pages ts ≡ true
    → Keeps site.portal (serve_all build ts site)
serve_all-Keeps build [] site h = refl
serve_all-Keeps build (t ∷ ts) site h =
    Keeps-bind site.portal (serve_turn build t site) (serve_all build ts)
      (serve_turn-Keeps build t site (ground arith))
      (λ s. serve_all-Keeps build ts s (ground arith))

-- Once the page was served at `t`, whatever the phones ask for then but the page, an Apple probe that is answered at `now`
-- gets the page of success exactly if the milliseconds between the two are, modulo 2 ^ 32, less than 90000; else it is
-- redirected.
pub probe-serve_all :
    (build : Build) (ts : List Turn) (t now : ℕ) (page_parts parts : Parts) (site seen : Site)
    (last : Option Line)
    → no_pages ts ≡ true
    → t ≤ now
    → (serve_turn build
          record { rx = false; now = t; parts = page_parts; found = found ui_page }
          site
        >>= λ s. serve_all build ts s)
      ≡ done seen
    → let apple = ltb ((now / 1000 - t / 1000) % u32_size) ui_captive_ms in
      log_http seen.portal.served_ui parts (if apple then codes "apple-success" else codes "302")
        ≡ done last
      → serve build false now parts (found apple_probe) seen
        ≡ done (
          record seen { log = last ∷ seen.log },
          probe_reply (if apple then apple_done else redirect),
        )
unfolding serve mark_ui logged probe mark_ui_served
probe-serve_all build ts t now page_parts parts site seen last h le e k =
    let marked : seen.portal ≡ mark_ui_served t site.portal =
      kept (mark_ui_served t site.portal) _ seen e (
        Keeps-bind _
          (serve_turn build
            record { rx = false; now = t; parts = page_parts; found = found ui_page } site)
          (serve_all build ts) (log_then (log_http true page_parts (codes "UI")))
          (λ s. serve_all-Keeps build ts s h)) in
    let same : apple_probe_done now seen.portal
        ≡ ltb ((now / 1000 - t / 1000) % u32_size) ui_captive_ms =
      rw marked (apple_probe_done-mark_ui_served site.portal t now le) in
    rw (same, k) refl
  where
    log_then :
        (line : Run (Option Line))
        → Keeps (mark_ui_served t site.portal) (
            ◌>>=◌ {A = Site × Reply}
              (line >>= λ l.
                done
                  (record site { portal = mark_ui_served t site.portal; log = l ∷ site.log }, page))
              λ r. done r.0)
    log_then (done l) = refl
    log_then panicked = tt
