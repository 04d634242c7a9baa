-- ===== src/Tests/StartUp.antt =====
-- The start and the loop of `main` of src/main.rs, the boot loader, the name services of
-- src/net_services.rs, and lines of the log.
use scoreboard_ctrl.Base.{
  ℕ, ◌++◌, ◌≡◌, refl, Bool, true, false, Option, some, List, [], ◌∷◌, take, drop, take-append-drop,
  length-take, replicate, codes, decimal, done, ◌==◌, if◌then◌else◌, arith,
}
use scoreboard_ctrl.Ota.{FlashOp, calls}
use scoreboard_ctrl.Ota.Upload.{IsReader}
use scoreboard_ctrl.Ota.Handler.{Flags, call_request_handler_service}
use scoreboard_ctrl.Ota.Handler.Answer.{is_marked}
use scoreboard_ctrl.Boot.Restart.{main_loop, IsRestart, changed_at, main_loop-handler}
use scoreboard_ctrl.Boot.Loader.{stop_watchdog, bit, bit-stop_watchdog}
use scoreboard_ctrl.Boot.Start.{Features, Texts, main, boot_line}
use scoreboard_ctrl.Boot.Start.Commit.{committed, spawned, ap_up, tasks_of, main-committed}
use scoreboard_ctrl.Web.Task.{WebEvent, connected, socket, web_round}
use scoreboard_ctrl.Dhcp.Server.Start.{dhcp_line}
use scoreboard_ctrl.Uart.Start.{done_line}
use scoreboard_ctrl.Dhcp.Server
use scoreboard_ctrl.Dhcp.Server.Safe.{start-IsValid}
use scoreboard_ctrl.Typed.{SendsBytes, AllBytes-replicate}
use scoreboard_ctrl.Typed.Leases.{IsTypedAnswer}
use scoreboard_ctrl.Typed.Replies.{Ends, services-SendsBytes}
use scoreboard_ctrl.Boot.Logger.{Level, Defmt, enabled, log}
use scoreboard_ctrl.Udp.{Received, packet, failed, Event, emit, peer, bind_retry}
use scoreboard_ctrl.Udp.Served.{sends, Served}
use scoreboard_ctrl.Dns.{on_query}
use scoreboard_ctrl.Dns.Task.{dns_loop}
use scoreboard_ctrl.Dns.Task.Served.{dns_loop-Served}
use scoreboard_ctrl.Mdns.{on_mdns}
use scoreboard_ctrl.Mdns.Task.{mdns_loop, mcast}
use scoreboard_ctrl.Mdns.Task.Served.{mdns_loop-Served}

-- A reader of the bytes that it holds.
abbrev hold : List ℕ → ℕ → Option (List ℕ) × List ℕ
hold r n = (some (take n r), drop n r)

abbrev takes : List FlashOp → FlashOp → Bool
takes ops op = true

hold-IsReader : IsReader (λ (r : List ℕ). r) hold
hold-IsReader r n = (take-append-drop n r, omega (arith, length-take n r))

abbrev no_flags : Flags
no_flags = record { busy = false; reset = false }

abbrev handled_flags : Flags
handled_flags =
    (call_request_handler_service hold takes (λ r. true) 3 (1 ∷ 2 ∷ 3 ∷ []) no_flags).flags

abbrev handled_calls : List FlashOp
handled_calls =
    calls (call_request_handler_service hold takes (λ r. true) 3 (1 ∷ 2 ∷ 3 ∷ []) no_flags).log

main_loop-handler_example :
    IsRestart 450 10
      (is_marked hold takes handled_calls)
      (main_loop (changed_at 450 no_flags handled_flags) 4 (3 ∷ 10 ∷ 0 ∷ []) 100)
main_loop-handler_example =
    main_loop-handler hold takes (λ (r : List ℕ). r) hold-IsReader (λ r. true) 3 (1 ∷ 2 ∷ 3 ∷ [])
      no_flags 450 10 4 (3 ∷ 10 ∷ 0 ∷ []) 100 refl (omega arith) (omega arith) (omega arith)
      (omega arith) (omega arith)

bit-stop_watchdog_example :
    bit (stop_watchdog 0xC0001234) 30 ≡ (if 30 == 30 then 0 else bit 0xC0001234 30)
bit-stop_watchdog_example = bit-stop_watchdog 0xC0001234 30 (omega arith)

watchdog_stopped : stop_watchdog 0xC0001234 ≡ 0x80001234
unfolding stop_watchdog
watchdog_stopped = refl

warned : log Level.warn (codes "late") ≡ some (Defmt.warn (codes "late"))
unfolding log enabled
warned = refl

abbrev device : Features
device = record { simulate = false; usb_log = true; ota = true }

abbrev texts : Texts
texts = record {
  version = codes "0.1.0";
  git_hash = codes "0123456789abcdef";
  git_date = codes "2024-01-01";
}

booted :
    boot_line device texts
    ≡ codes "boot v0.1.0 0123456 2024-01-01 sim=false portal=http://192.168.0.1/"
unfolding boot_line
booted = refl

main-committed_example :
    (spawned (take 37 (main device texts true)) ≡ tasks_of device)
    × (ap_up (take 37 (main device texts true)) ≡ true)
main-committed_example = main-committed device texts true 37 last
  where
    last : committed (take 37 (main device texts true)) ≡ true
    last = unfold main in refl

retried :
    bind_retry (List ℕ) 53 (codes "DNS") (codes "NoRoute" ∷ [])
    ≡ emit (codes "DNS bind :53 NoRoute, retry")
      ∷ (Event.wait 1000 ∷ (emit (codes "DNS listen :53") ∷ []))
unfolding bind_retry decimal
retried = refl

abbrev from_phone : List (Received (List ℕ))
from_phone = failed (codes "Truncated") ∷ (packet (replicate 12 0) (codes "192.168.0.2:5000") ∷ [])

abbrev no_bytes : List ℕ
no_bytes = replicate 512 0

dns_loop-Served_example :
    (events : List (Event (List ℕ))) × (dns_loop (λ e. e) (λ b. true) no_bytes from_phone
      ≡ done events)
    × Served on_query (λ from. peer from ∷ []) no_bytes from_phone (sends events)
dns_loop-Served_example = dns_loop-Served (λ e. e) (λ b. true) from_phone no_bytes

mdns_loop-Served_example :
    (events : List (Event (List ℕ))) × (mdns_loop (λ e. e) (λ b. true) no_bytes from_phone
      ≡ done events)
    × Served on_mdns (λ from. peer from ∷ (mcast ∷ [])) no_bytes from_phone (sends events)
mdns_loop-Served_example = mdns_loop-Served (λ e. e) (λ b. true) from_phone no_bytes

abbrev phone : List ℕ
phone = codes "192.168.0.2:5000"

-- A connection where eleven others are served.
pool_full :
    web_round 3 (connected phone) 11 12
    ≡ socket
      ++ (WebEvent.emit (codes "tcp full 192.168.0.2:5000 live=12/12")
          ∷ (WebEvent.serve ∷ (WebEvent.emit (codes "tcp- live=11/12") ∷ [])))
unfolding web_round decimal
pool_full = refl

offered :
    dhcp_line 2 (0 ∷ 17 ∷ 34 ∷ 171 ∷ 205 ∷ 255 ∷ []) (192 ∷ 168 ∷ 0 ∷ 10 ∷ [])
    ≡ codes "DHCP OFFER mac=001122abcdff -> 192.168.0.10"
unfolding dhcp_line decimal
offered = refl

hunted : done_line (codes "hunt") 4294967290 4 ≡ codes "hunt done stray 4294967290 -> 4 (delta 10)"
unfolding done_line decimal
hunted = refl

services-SendsBytes_example :
    Ends SendsBytes (on_query (replicate 240 0) 240)
    × Ends SendsBytes (on_mdns (replicate 240 0) 240)
    × Ends IsTypedAnswer (Server.on_packet (replicate 240 0) Server.start)
services-SendsBytes_example =
    services-SendsBytes (replicate 240 0) 240 Server.start (AllBytes-replicate 240 0 (omega arith))
      (omega arith) start-IsValid (AllBytes-replicate 400 0 (omega arith))
