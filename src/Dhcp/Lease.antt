-- ===== src/Dhcp/Lease.antt =====
-- The pool of leases of src/net_proto.rs: `Lease` and `slot_for_mac`.
pub mod Slots
pub mod Clients
use scoreboard_ctrl.Base.{
  ℕ, suc, ◌+◌, ◌%◌, ◌^◌, Option, none, some, List, [], ◌∷◌, ltb, leb, if◌then◌else◌, length, get_or,
  replicate, set, bytes_eq, Run, done, ◌>>=◌, assert,
}

pub record Lease : Type 0 where
  pub mac : List ℕ
  pub seq : ℕ

abbrev pub no_mac : List ℕ
no_mac = replicate 6 0

-- `Lease::EMPTY`
abbrev pub empty : Lease
empty = record { mac = no_mac; seq = 0 }

-- `wrapping_add(1)` on a u32.
abbrev pub next_seq : ℕ → ℕ
next_seq seq = (seq + 1) % 2 ^ 32

-- `leases.iter().position(|m| m.mac == mac)`
unfoldable pub position : List ℕ → List Lease → Option ℕ
position mac [] = none
position mac (l ∷ ls) =
    if bytes_eq l.mac mac
    then some 0
    else elim (position mac ls) [ none ↦ none | some i ↦ some (suc i) ]

-- The loop for the least-recently-used lease, at index `idx`: `i` is the index of the lowest number so
-- far, `best` that number.
unfoldable pub oldest_from : List Lease → ℕ → ℕ → ℕ → ℕ
oldest_from [] idx best i = i
oldest_from (l ∷ ls) idx best i =
    oldest_from ls (idx + 1) (if leb l.seq best then l.seq else best)
      (if leb l.seq best then idx else i)

-- `leases.first().map(|l| l.seq).unwrap_or(0)`
abbrev pub first_seq : List Lease → ℕ
first_seq [] = 0
first_seq (l ∷ ls) = l.seq

-- `leases[i] = lease`; out of range it panics.
unfoldable pub put : List Lease → ℕ → Lease → Run (List Lease)
put leases i lease = assert (ltb i (length leases)) (set leases i lease)

-- The leases and the number of the last use behind the call, and the slot.
abbrev pub Assigned : Type 0
Assigned = record { leases : List Lease; seq : ℕ; slot : ℕ }

-- `leases[i].seq = seq`, for the client that holds slot `i`.
unfoldable pub renew : List Lease → ℕ → ℕ → Run Assigned
unfolding put
renew leases seq i = do
  let seq' = next_seq seq
  leases' ← put leases i (record (get_or leases i empty) { seq = seq' })
  done (record { leases = leases'; seq = seq'; slot = i % 256 })

-- `leases[i] = Lease { mac, seq }`
unfoldable pub grant : List Lease → ℕ → List ℕ → ℕ → Run Assigned
unfolding put
grant leases seq mac i = do
  let seq' = next_seq seq
  leases' ← put leases i (record { mac = mac; seq = seq' })
  done (record { leases = leases'; seq = seq'; slot = i % 256 })

-- The slot of the client, and the first free slot, if there is one.
unfoldable pub assign : List Lease → ℕ → List ℕ → Option ℕ → Option ℕ → Run Assigned
unfolding oldest_from renew grant
assign leases seq mac (some i) free = renew leases seq i
assign leases seq mac none (some i) = grant leases seq mac i
assign leases seq mac none none = grant leases seq mac (oldest_from leases 0 (first_seq leases) 0)

unfoldable pub slot_for_mac : List Lease → ℕ → List ℕ → Run Assigned
unfolding position assign
slot_for_mac leases seq mac = assign leases seq mac (position mac leases) (position no_mac leases)
