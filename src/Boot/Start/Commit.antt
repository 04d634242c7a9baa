-- ===== src/Boot/Start/Commit.antt =====
-- When `main` of src/main.rs commits the image that runs.
use scoreboard_ctrl.Base.{
  ℕ, zero, suc, ◌≡◌, refl, ap, ◌∙◌, Bool, true, false, ◌||◌, List, [], ◌∷◌, ◌++◌, append-nil, take,
  if◌then◌else◌, arith,
}
use scoreboard_ctrl.Boot.Start.{Task, Features, Texts, Action, start_up, commit_boot, main}

abbrev pub is_commit : Action → Bool
is_commit Action.commit = true
is_commit Action.init_log = false
is_commit Action.new_radio = false
is_commit Action.init_control = false
is_commit Action.start_stack = false
is_commit Action.new_io = false
is_commit (Action.start_watchdog n) = false
is_commit (Action.wait n) = false
is_commit (Action.new_uart n) = false
is_commit (Action.emit line) = false
is_commit (Action.spawn t) = false
is_commit (Action.start_ap_open ssid channel) = false

abbrev pub committed : List Action → Bool
committed [] = false
committed (a ∷ acts) = is_commit a || committed acts

-- The tasks that were spawned.
abbrev pub spawned : List Action → List Task
spawned [] = []
spawned (Action.spawn t ∷ acts) = t ∷ spawned acts
spawned (Action.commit ∷ acts) = spawned acts
spawned (Action.init_log ∷ acts) = spawned acts
spawned (Action.new_radio ∷ acts) = spawned acts
spawned (Action.init_control ∷ acts) = spawned acts
spawned (Action.start_stack ∷ acts) = spawned acts
spawned (Action.new_io ∷ acts) = spawned acts
spawned (Action.start_watchdog n ∷ acts) = spawned acts
spawned (Action.wait n ∷ acts) = spawned acts
spawned (Action.new_uart n ∷ acts) = spawned acts
spawned (Action.emit line ∷ acts) = spawned acts
spawned (Action.start_ap_open ssid channel ∷ acts) = spawned acts

-- The network that phones join is up.
abbrev pub is_ap : Action → Bool
is_ap (Action.start_ap_open ssid channel) = true
is_ap Action.commit = false
is_ap Action.init_log = false
is_ap Action.new_radio = false
is_ap Action.init_control = false
is_ap Action.start_stack = false
is_ap Action.new_io = false
is_ap (Action.start_watchdog n) = false
is_ap (Action.wait n) = false
is_ap (Action.new_uart n) = false
is_ap (Action.emit line) = false
is_ap (Action.spawn t) = false

abbrev pub ap_up : List Action → Bool
ap_up [] = false
ap_up (a ∷ acts) = is_ap a || ap_up acts

abbrev pub workers : List Task
workers =
    Task.web 0
    ∷ Task.web 1
    ∷ Task.web 2
    ∷ Task.web 3
    ∷ Task.web 4
    ∷ Task.web 5
    ∷ Task.web 6
    ∷ Task.web 7
    ∷ Task.web 8
    ∷ Task.web 9
    ∷ Task.web 10
    ∷ Task.web 11
    ∷ []

-- The tasks of a build.
abbrev pub tasks_of : Features → List Task
tasks_of f =
    Task.watchdog
    ∷ ((if f.usb_log then Task.logger ∷ [] else [])
        ++ (Task.wifi
            ∷ (Task.heartbeat
                ∷ (Task.net
                    ∷ (Task.dhcp
                        ∷ (Task.dns
                            ∷ (Task.mdns
                                ∷ (Task.board
                                    ∷ ((if f.simulate then Task.timer else Task.serial)
                                        ∷ workers)))))))))

start_up_tasks :
    (simulate usb_log ota : Bool) (t : Texts)
    → let f : Features = record { simulate = simulate; usb_log = usb_log; ota = ota } in
      (spawned (start_up f t) ≡ tasks_of f)
      × (ap_up (start_up f t) ≡ true)
      × (committed (start_up f t) ≡ false)
unfolding start_up
start_up_tasks true true ota t = (refl, refl, refl)
start_up_tasks true false ota t = (refl, refl, refl)
start_up_tasks false true ota t = (refl, refl, refl)
start_up_tasks false false ota t = (refl, refl, refl)

spawned-append : (xs ys : List Action) → spawned (xs ++ ys) ≡ spawned xs ++ spawned ys
spawned-append [] ys = refl
spawned-append (Action.spawn t ∷ xs) ys = ap (◌∷◌ t) (spawned-append xs ys)
spawned-append (Action.commit ∷ xs) ys = spawned-append xs ys
spawned-append (Action.init_log ∷ xs) ys = spawned-append xs ys
spawned-append (Action.new_radio ∷ xs) ys = spawned-append xs ys
spawned-append (Action.init_control ∷ xs) ys = spawned-append xs ys
spawned-append (Action.start_stack ∷ xs) ys = spawned-append xs ys
spawned-append (Action.new_io ∷ xs) ys = spawned-append xs ys
spawned-append (Action.start_watchdog n ∷ xs) ys = spawned-append xs ys
spawned-append (Action.wait n ∷ xs) ys = spawned-append xs ys
spawned-append (Action.new_uart n ∷ xs) ys = spawned-append xs ys
spawned-append (Action.emit line ∷ xs) ys = spawned-append xs ys
spawned-append (Action.start_ap_open ssid channel ∷ xs) ys = spawned-append xs ys

ap_up-append : (xs ys : List Action) → ap_up xs ≡ true → ap_up (xs ++ ys) ≡ true
ap_up-append [] ys h = cc
ap_up-append (x ∷ xs) ys h = ground (arith, ap_up-append xs ys)

-- A front of a row that holds a commit, where its first part holds none, holds all of that part.
past :
    (xs ys : List Action) (n : ℕ)
    → committed xs ≡ false
    → committed (take n (xs ++ ys)) ≡ true
    → (k : ℕ) × (take n (xs ++ ys) ≡ xs ++ take k ys)
past [] ys n h c = (n, refl)
past (x ∷ xs) ys zero h c = absurd (ground arith)
past (x ∷ xs) ys (suc n) h c =
    let (k, e) = past xs ys n (ground arith) (ground arith) in (k, ap (◌∷◌ x) e)

commit_boot-spawned :
    (simulate usb_log ota marked : Bool) (k : ℕ)
    → spawned
        (take k (commit_boot record { simulate = simulate; usb_log = usb_log; ota = ota } marked))
      ≡ []
unfolding commit_boot
commit_boot-spawned simulate usb_log true marked zero = refl
commit_boot-spawned simulate usb_log true marked (suc zero) = refl
commit_boot-spawned simulate usb_log true marked (suc (suc zero)) = refl
commit_boot-spawned simulate usb_log true marked (suc (suc (suc k))) = nothing k
  where
    nothing : (k : ℕ) → spawned (take k []) ≡ []
    nothing zero = refl
    nothing (suc k) = refl
commit_boot-spawned simulate usb_log false marked zero = refl
commit_boot-spawned simulate usb_log false marked (suc k) = refl

-- Wherever the start stops, even in the middle: if the image that runs was committed by then, the
-- network of the phones is up, and every task of the build was spawned, each once.
pub main-committed :
    (f : Features) (t : Texts) (marked : Bool) (n : ℕ)
    → committed (take n (main f t marked)) ≡ true
    → (spawned (take n (main f t marked)) ≡ tasks_of f) × (ap_up (take n (main f t marked)) ≡ true)
unfolding main
main-committed f t marked n c =
    let (all, ap_, none_) = start_up_tasks f.simulate f.usb_log f.ota t in
    let (k, e) = past (start_up f t) (commit_boot f marked) n none_ c in
    (
      ap spawned e
          ∙ spawned-append (start_up f t) (take k (commit_boot f marked))
          ∙ ap (λ xs. spawned (start_up f t) ++ xs)
              (commit_boot-spawned f.simulate f.usb_log f.ota marked k)
          ∙ append-nil (spawned (start_up f t))
          ∙ all,
      ap ap_up e ∙ ap_up-append (start_up f t) (take k (commit_boot f marked)) ap_,
    )
