-- ===== src/Dhcp/Lease/Clients.antt =====
-- `slot_for_mac` of src/net_proto.rs as the clients see it.
use scoreboard_ctrl.Base.{
  ℕ, ◌≤◌, ◌<◌, ◌≡◌, ◌≢◌, refl, sym, ap, ◌∙◌, some, List, length, length-set, set, get_or-set_self,
  get_or-set_ne, done, arith,
}
use native.Mathlib.Decide.{ℕ_discrete}
use scoreboard_ctrl.Dhcp.Lease.{
  Lease, no_mac, empty, next_seq, position, assign, Assigned, slot_for_mac,
}
use scoreboard_ctrl.Dhcp.Lease.Slots.{
  lease_at, Choice, held, free, evicted, Grant, renew-done, position-set, granted,
  slot_for_mac-Grant,
}

pub done-injective {ℓ} : {A : Type ℓ} {a b : A} → done a ≡ done b → a ≡ b
done-injective h = cc

pub Grant_lem :
    (ls : List Lease) (seq : ℕ) (mac : List ℕ) {a : Assigned}
    → 0 < length ls
    → length ls ≤ 256
    → slot_for_mac ls seq mac ≡ done a
    → Grant ls seq mac a
Grant_lem ls seq mac h few e =
    let (a', e', g) = slot_for_mac-Grant ls seq mac h few in
    let same = done-injective (sym e' ∙ e) in rw same at g

first_held :
    (ls : List Lease) (mac : List ℕ) (i : ℕ)
    → i < length ls
    → Choice ls mac i
    → (k : ℕ) → k < i
    → (lease_at ls k).mac ≢ mac
first_held ls mac i h (held _ f) k q = f k q
first_held ls mac i h (free u _) k q = u k (omega arith)
first_held ls mac i h (evicted u _ _) k q = u k (omega arith)

-- The slot that was granted is the client's.
pub granted_mine :
    {ls : List Lease} {seq : ℕ} {mac : List ℕ} {a : Assigned}
    → Grant ls seq mac a
    → (lease_at a.leases a.slot).mac ≡ mac
granted_mine {ls} {seq} {mac} {a} g =
    ap (λ l. (lease_at l a.slot).mac) g.leases
    ∙ ap (λ (l : Lease). l.mac)
        (get_or-set_self ls a.slot (record { mac = mac; seq = next_seq seq }) empty g.in_range)

-- A client that asks again, with nobody else between, gets the slot that it got.
pub slot_for_mac_again :
    (ls : List Lease) (seq : ℕ) (mac : List ℕ) {a : Assigned}
    → 0 < length ls
    → length ls ≤ 256
    → slot_for_mac ls seq mac ≡ done a
    → (b : Assigned) × (slot_for_mac a.leases a.seq mac ≡ done b) × (b.slot ≡ a.slot)
unfolding slot_for_mac assign
slot_for_mac_again ls seq mac {a} h few e = (
  granted a.leases a.seq mac a.slot inside small,
  rw (again, assign) (renew-done a.leases a.seq mac a.slot inside small (granted_mine g)),
  refl,
)
  where
    g : Grant ls seq mac a
    g = Grant_lem ls seq mac h few e

    size : length a.leases ≡ length ls
    size = ap length g.leases ∙ length-set ls a.slot (record { mac = mac; seq = next_seq seq })

    inside : a.slot < length a.leases
    inside = omega (arith, size, g.in_range)

    small : length a.leases ≤ 256
    small = omega (arith, size)

    again : position mac a.leases ≡ some a.slot
    again =
        ap (position mac) g.leases
        ∙ position-set mac ls a.slot (next_seq seq) g.in_range
            (first_held ls mac a.slot g.in_range g.choice)

-- No client holds two slots.
abbrev pub IsDistinct : List Lease → Type 0
IsDistinct ls =
    (i j : ℕ)
    → i < length ls
    → j < length ls
    → (lease_at ls i).mac ≡ (lease_at ls j).mac
    → (lease_at ls i).mac ≢ no_mac
    → i ≡ j

-- Another slot than the one granted to `mac` is not held by it, unless `mac` is the empty address.
other_slot :
    (ls : List Lease) (mac : List ℕ) (i j : ℕ)
    → IsDistinct ls
    → i < length ls
    → j < length ls
    → Choice ls mac i
    → mac ≢ no_mac
    → (lease_at ls j).mac ≡ mac
    → i ≡ j
other_slot ls mac i j d hi hj (held m _) n e = d i j hi hj (m ∙ sym e) (λ q. n (sym m ∙ q))
other_slot ls mac i j d hi hj (free u _) n e = absurd (u j hj e)
other_slot ls mac i j d hi hj (evicted u _ _) n e = absurd (u j hj e)

set-IsDistinct :
    (ls : List Lease) (mac : List ℕ) (i seq : ℕ)
    → IsDistinct ls
    → i < length ls
    → Choice ls mac i
    → IsDistinct (set ls i (record { mac = mac; seq = seq }))
set-IsDistinct ls mac i seq d h c j k hj hk e n = elim (ℕ_discrete i j) [
  | yes ij ↦ elim (ℕ_discrete i k) [
    | yes ik ↦ sym ij ∙ ik
    | no ik ↦
        let mine = at_slot j ij in
        sym ij
        ∙ other_slot ls mac i k d h k_in c (λ z. n (mine ∙ z)) (sym (elsewhere k ik) ∙ sym e ∙ mine)
  ]
  | no ij ↦ elim (ℕ_discrete i k) [
    | yes ik ↦
        let mine = at_slot k ik in
        sym (
          other_slot ls mac i j d h j_in c (λ z. n (e ∙ mine ∙ z))
            (sym (elsewhere j ij) ∙ e ∙ mine))
        ∙ ik
    | no ik ↦
        d j k j_in k_in (sym (elsewhere j ij) ∙ e ∙ elsewhere k ik) (λ z. n (elsewhere j ij ∙ z))
  ]
]
  where
    lease : Lease
    lease = record { mac = mac; seq = seq }

    j_in : j < length ls
    j_in = omega (arith, length-set ls i lease)

    k_in : k < length ls
    k_in = omega (arith, length-set ls i lease)

    at_slot : (l : ℕ) → i ≡ l → (lease_at (set ls i lease) l).mac ≡ mac
    at_slot l q = rw (← q) (ap (λ (x : Lease). x.mac) (get_or-set_self ls i lease empty h))

    elsewhere : (l : ℕ) → i ≢ l → (lease_at (set ls i lease) l).mac ≡ (lease_at ls l).mac
    elsewhere l q = ap (λ (x : Lease). x.mac) (get_or-set_ne ls i l lease empty q)

-- A call leaves every client with one slot at most.
pub Grant-IsDistinct :
    {ls : List Lease} {seq : ℕ} {mac : List ℕ} {a : Assigned}
    → Grant ls seq mac a
    → IsDistinct ls
    → IsDistinct a.leases
Grant-IsDistinct {ls} {seq} {mac} {a} g d =
    rw g.leases (set-IsDistinct ls mac a.slot (next_seq seq) d g.in_range g.choice)

-- A client that holds a slot gets it again.
pub slot_for_mac_kept :
    (ls : List Lease) (seq : ℕ) (mac : List ℕ) (i : ℕ)
    → 0 < length ls
    → length ls ≤ 256
    → IsDistinct ls
    → i < length ls
    → (lease_at ls i).mac ≡ mac
    → mac ≢ no_mac
    → (b : Assigned) × (slot_for_mac ls seq mac ≡ done b) × (b.slot ≡ i)
slot_for_mac_kept ls seq mac i h few d hi mine named =
    let (b, e, g) = slot_for_mac-Grant ls seq mac h few in
    (b, e, other_slot ls mac b.slot i d g.in_range hi g.choice named mine)
