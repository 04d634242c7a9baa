-- ===== src/Boot/Start.antt =====
-- The start of `main` in src/main.rs, up to its loop, as the row of what it does. Any await in it may never
-- return, so the device may have done any front of the row. The texts of the build are parameters.
pub mod Commit
use scoreboard_ctrl.Base.{
  ℕ, zero, suc, ◌+◌, ◌*◌, Bool, true, false, List, [], ◌∷◌, ◌++◌, leb, length, take, codes,
  if◌then◌else◌,
}
use scoreboard_ctrl.Ota.Handler.{mark_booted}
use scoreboard_ctrl.Web.Routes.{portal_url}
use scoreboard_ctrl.Web.Workers.{web_task_pool_size}

-- The tasks that are spawned; a web task with its number.
pub data Task : Type 0 where
  watchdog logger wifi heartbeat net dhcp dns mdns board timer serial : Task
  web : ℕ → Task

-- The features of the build.
pub record Features : Type 0 where
  pub simulate : Bool
  pub usb_log : Bool
  pub ota : Bool

-- `VERSION`, `GIT_HASH` and `GIT_DATE`
pub record Texts : Type 0 where
  pub version : List ℕ
  pub git_hash : List ℕ
  pub git_date : List ℕ

unfoldable pub git_short : List ℕ → List ℕ
git_short hash = if leb 7 (length hash) then take 7 hash else hash

-- What `main` does: `init_log` of the build without the log on USB, waits in milliseconds, the calls of the
-- radio's driver and of its control, the set-up of the UART with its rate, and the call of the updater's
-- `mark_booted`.
pub data Action : Type 0 where
  init_log new_radio init_control start_stack new_io commit : Action
  start_watchdog wait new_uart : ℕ → Action
  emit : List ℕ → Action
  spawn : Task → Action
  start_ap_open : List ℕ → ℕ → Action

abbrev pub wifi_ssid : List ℕ
wifi_ssid = codes "Scoreboard"

abbrev show_bool : Bool → List ℕ
show_bool true = codes "true"
show_bool false = codes "false"

unfoldable pub boot_line : Features → Texts → List ℕ
unfolding git_short
boot_line f t =
    codes "boot v"
    ++ (t.version
        ++ (codes " "
            ++ (git_short t.git_hash
                ++ (codes " "
                    ++ (t.git_date
                        ++ (codes " sim="
                            ++ (show_bool f.simulate ++ (codes " portal=" ++ portal_url))))))))

-- Up to the log on USB.
unfoldable pub start_logs : Features → List Action
start_logs f =
    (if f.usb_log then [] else init_log ∷ [])
    ++ (start_watchdog (8 * 1000)
        ∷ (spawn Task.watchdog ∷ (if f.usb_log then spawn Task.logger ∷ (wait 200 ∷ []) else [])))

-- The radio, the state and the network.
unfoldable pub start_network : Features → Texts → List Action
unfolding boot_line
start_network f t =
    emit (boot_line f t)
    ∷ (new_radio
        ∷ (spawn Task.wifi
            ∷ (emit (codes "cyw43 runner up, loading CLM")
                ∷ (init_control
                    ∷ (emit (codes "cyw43 init done")
                        ∷ (spawn Task.heartbeat
                            ∷ (start_stack
                                ∷ (spawn Task.net
                                    ∷ (emit (codes "starting AP '" ++ (wifi_ssid ++ codes "'"))
                                        ∷ (start_ap_open wifi_ssid 6
                                            ∷ (emit (
                                                  codes "AP up ssid="
                                                  ++ (wifi_ssid
                                                      ++ (codes " ip=192.168.0.1 ch=6 sim="
                                                          ++ show_bool f.simulate)))
                                                ∷ [])))))))))))

-- The services and the board.
unfoldable pub start_services : Features → List Action
start_services f =
    spawn Task.dhcp
    ∷ (spawn Task.dns
        ∷ (spawn Task.mdns
            ∷ (new_io
                ∷ (spawn Task.board
                    ∷ (if f.simulate
                        then spawn Task.timer ∷ []
                        else new_uart 38400 ∷ (spawn Task.serial ∷ []))))))

-- The loop over the web tasks, with how many are left.
unfoldable pub start_web : ℕ → ℕ → List Action
start_web zero task_id = []
start_web (suc left) task_id = spawn (Task.web task_id) ∷ start_web left (task_id + 1)

-- `marked` is the answer of the updater.
unfoldable pub commit_boot : Features → Bool → List Action
commit_boot f marked = if f.ota then wait 10 ∷ (commit ∷ (emit (mark_booted marked) ∷ [])) else []

unfoldable pub start_up : Features → Texts → List Action
unfolding start_logs start_network start_services start_web
start_up f t =
    start_logs f ++ (start_network f t ++ (start_services f ++ start_web web_task_pool_size 0))

unfoldable pub main : Features → Texts → Bool → List Action
unfolding start_up commit_boot
main f t marked = start_up f t ++ commit_boot f marked
