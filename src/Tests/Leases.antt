-- ===== src/Tests/Leases.antt =====
-- The pool of leases of src/net_proto.rs, with one client.
use scoreboard_ctrl.Base.{ℕ, ◌≡◌, refl, List, [], ◌∷◌, replicate, done, arith}
use scoreboard_ctrl.Dhcp.Lease.{Lease, Assigned, empty, slot_for_mac}
use scoreboard_ctrl.Dhcp.Lease.Slots.{Grant, slot_for_mac-Grant}
use scoreboard_ctrl.Dhcp.Lease.Clients.{Grant_lem}

abbrev pool : List Lease
pool = replicate 8 empty

abbrev phone : List ℕ
phone = 1 ∷ 2 ∷ 3 ∷ 4 ∷ 5 ∷ 6 ∷ []

slot_for_mac-Grant_example :
    (a : Assigned) × (slot_for_mac pool 0 phone ≡ done a) × Grant pool 0 phone a
slot_for_mac-Grant_example = slot_for_mac-Grant pool 0 phone (omega arith) (omega arith)

abbrev first : Assigned
first = record { leases = record { mac = phone; seq = 1 } ∷ replicate 7 empty; seq = 1; slot = 0 }

phone-first : slot_for_mac pool 0 phone ≡ done first
unfolding slot_for_mac
phone-first = refl

phone-Grant : Grant pool 0 phone first
phone-Grant = Grant_lem pool 0 phone (omega arith) (omega arith) phone-first
