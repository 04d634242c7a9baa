-- ===== src/Tests/Phones.antt =====
-- The DNS server with the query of the tests of src/net_proto.rs, and the event streams of src/main.rs.
use scoreboard_ctrl.Base.{
  ℕ, ◌≡◌, refl, true, false, some, List, [], ◌∷◌, replicate, inl, done, load, slice,
}
use scoreboard_ctrl.Scoreboard.{visible, publish, refresh_running, age_ms}
use scoreboard_ctrl.Decode.{clock_is_running, resolve_pending_running}
use scoreboard_ctrl.Board.Tasks.{boot}
use scoreboard_ctrl.Dns.{dns_qtype, qtype_behind, skip_name, skip_from, load_u16}
use scoreboard_ctrl.Status.{Build, StatusJson, on_open, on_changed, write_snapshot}
use scoreboard_ctrl.Status.Crowd.{
  Receiver, Crowd, Arm, CrowdStep, CrowdReach, on_arm, connect, run_arm,
}
use scoreboard_ctrl.Status.Crowd.Shows.{Has, crowd-Shows}
use scoreboard_ctrl.Status.Streams.{Shows, last_status}

-- `a.com`, a question for an address, and eleven bytes behind it.
abbrev query : List ℕ
query =
    0x12
    ∷ 0x34
    ∷ 1
    ∷ 0
    ∷ 0
    ∷ 1
    ∷ 0
    ∷ 0
    ∷ 0
    ∷ 0
    ∷ 0
    ∷ 1
    ∷ 1
    ∷ b'a'
    ∷ 3
    ∷ b'c'
    ∷ b'o'
    ∷ b'm'
    ∷ 0
    ∷ 0
    ∷ 1
    ∷ 0
    ∷ 1
    ∷ replicate 11 0xAA

query_type : dns_qtype query 34 ≡ done (some 1)
unfolding dns_qtype qtype_behind skip_name skip_from load_u16 load slice
query_type = refl

abbrev empty_buffer : List ℕ
empty_buffer = replicate 40 0

abbrev build : Build
build = record { sim = false; ver = b'1' ∷ []; git = []; date = [] }

abbrev alone : Crowd
alone = connect build true 5 (record { shared = boot.shared; receivers = [] })

-- Two streams, of which the older has written last.
abbrev two_phones : Crowd
two_phones =
    let c = connect build true 9 alone in run_arm build (Arm.changed 12) 1 c.shared c.receivers

abbrev newest : List Receiver → Receiver
newest [] = record { seen = 0; written = [] }
newest (r ∷ rs) = r

two_phones-newest : Has (newest two_phones.receivers) two_phones.receivers
unfolding connect run_arm
two_phones-newest = inl refl

two_phones-seen : (newest two_phones.receivers).seen ≡ two_phones.shared.events
unfolding connect run_arm on_arm on_open on_changed write_snapshot refresh_running publish
    clock_is_running age_ms resolve_pending_running
two_phones-seen = refl

two_phones-Reach : CrowdReach build two_phones
two_phones-Reach =
    let first = CrowdReach.next (CrowdReach.start boot.shared refl) (CrowdStep.connected true 5) in
    CrowdReach.next (CrowdReach.next first (CrowdStep.connected true 9))
      (CrowdStep.arm (Arm.changed 12) 1)

crowd-Shows_example :
    (j : StatusJson) × (last_status (newest two_phones.receivers).written ≡ some j)
    × Shows (visible two_phones.shared.state) j
crowd-Shows_example =
    crowd-Shows (newest two_phones.receivers) two_phones-Reach two_phones-newest two_phones-seen
