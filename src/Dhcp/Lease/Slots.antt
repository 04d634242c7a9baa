-- ===== src/Dhcp/Lease/Slots.antt =====
-- The choice of a slot by `slot_for_mac` of src/net_proto.rs.
use scoreboard_ctrl.Base.{
  ℕ, zero, suc, ◌+◌, ◌%◌, ◌≤◌, ◌<◌, ◌≡◌, ◌≢◌, refl, sym, ap, ◌∙◌, inl, inr, true, none, some, List,
  [], ◌∷◌, Bool-cases, Option-cases, leb, lt→ltb, le_total, if◌then◌else◌, length, set, get_or,
  bytes_eq_iff, done, arith,
}
use scoreboard_ctrl.Dhcp.Lease.{
  Lease, no_mac, empty, next_seq, position, oldest_from, first_seq, Assigned, renew, grant, assign,
  slot_for_mac,
}

abbrev pub lease_at : List Lease → ℕ → Lease
lease_at ls i = get_or ls i empty

-- What `position` finds is the first lease of the address; it finds none where there is none.
position-some :
    (mac : List ℕ) (ls : List Lease) (i : ℕ)
    → position mac ls ≡ some i
    → (i < length ls) × ((lease_at ls i).mac ≡ mac)
unfolding position
position-some mac [] i h = absurd (ground arith)
position-some mac (l ∷ ls) zero h = ground (arith, bytes_eq_iff l.mac mac)
position-some mac (l ∷ ls) (suc i) h = ground (arith, position-some mac ls i)

position-none :
    (mac : List ℕ) (ls : List Lease) (i : ℕ)
    → position mac ls ≡ none
    → i < length ls
    → (lease_at ls i).mac ≢ mac
unfolding position
position-none mac [] i h l = absurd (omega arith)
position-none mac (l ∷ ls) zero h k = ground (arith, bytes_eq_iff l.mac mac)
position-none mac (l ∷ ls) (suc i) h k = ground (arith, position-none mac ls i)

abbrev Lowest : List Lease → ℕ → Type 0
Lowest whole j =
    (j < length whole)
    × ((k : ℕ) → k < length whole → (lease_at whole j).seq ≤ (lease_at whole k).seq)

-- The loop over the leases from index `idx` on ends at the lowest number, if `i` was the index of the
-- lowest before `idx`.
oldest_from-Lowest :
    (whole ls : List Lease) (idx best i : ℕ)
    → ((k : ℕ) → lease_at whole (idx + k) ≡ lease_at ls k)
    → length whole ≡ idx + length ls
    → i < idx
    → best ≡ (lease_at whole i).seq
    → ((k : ℕ) → k < idx → best ≤ (lease_at whole k).seq)
    → Lowest whole (oldest_from ls idx best i)
unfolding oldest_from
oldest_from-Lowest whole [] idx best i same size h e low =
    (omega arith, λ k hk. rw (← e) (low k (omega arith)))
oldest_from-Lowest whole (l ∷ ls) idx best i same size h e low =
    oldest_from-Lowest whole ls (idx + 1) (if leb l.seq best then l.seq else best)
      (if leb l.seq best then idx else i) same' (omega arith) (ground arith) here low'
  where
    at_idx : lease_at whole idx ≡ l
    at_idx = ap (lease_at whole) (omega arith) ∙ same 0

    same' : (k : ℕ) → lease_at whole (idx + 1 + k) ≡ lease_at ls k
    same' k = ap (lease_at whole) (omega arith) ∙ same (suc k)

    here :
        (if leb l.seq best then l.seq else best)
        ≡ (lease_at whole (if leb l.seq best then idx else i)).seq
    here = elim (Bool-cases (leb l.seq best)) [
      | inl t ↦ rw t (sym (ap (λ (x : Lease). x.seq) at_idx))
      | inr f ↦ rw f e
    ]

    low' : (k : ℕ) → k < idx + 1 → (if leb l.seq best then l.seq else best) ≤ (lease_at whole k).seq
    low' k hk = elim (le_total idx k) [
      | inl last ↦ let k_is : k ≡ idx = omega arith in rw (k_is, at_idx) (ground arith)
      | inr before ↦ ground (arith, low k)
    ]

oldest-Lowest : (ls : List Lease) → 0 < length ls → Lowest ls (oldest_from ls 0 (first_seq ls) 0)
unfolding oldest_from
oldest-Lowest [] h = absurd (omega arith)
oldest-Lowest (l ∷ ls) h =
    let t : leb l.seq l.seq ≡ true = ground arith in
    rw t (
      oldest_from-Lowest (l ∷ ls) ls 1 l.seq 0
        (λ k. let e : 1 + k ≡ suc k = omega arith in ap (lease_at (l ∷ ls)) e) (omega arith)
        (omega arith) refl (λ k hk. let z : k ≡ 0 = omega arith in rw z (omega arith)))

position-suc :
    (mac : List ℕ) (l : Lease) (ls : List Lease) (i : ℕ)
    → position mac (l ∷ ls) ≡ some (suc i)
    → (l.mac ≢ mac) × (position mac ls ≡ some i)
unfolding position
position-suc mac l ls i h = ground (arith, bytes_eq_iff l.mac mac)

position-first :
    (mac : List ℕ) (ls : List Lease) (i : ℕ)
    → position mac ls ≡ some i
    → (k : ℕ) → k < i
    → (lease_at ls k).mac ≢ mac
unfolding position
position-first mac [] i h k l = absurd (ground arith)
position-first mac (l ∷ ls) zero h k q = absurd (omega arith)
position-first mac (l ∷ ls) (suc i) h zero q = (position-suc mac l ls i h).0
position-first mac (l ∷ ls) (suc i) h (suc k) q =
    position-first mac ls i (position-suc mac l ls i h).1 k (omega arith)

-- A lease of `mac` behind leases of others is the one that `position` finds.
pub position-set :
    (mac : List ℕ) (ls : List Lease) (i seq : ℕ)
    → i < length ls
    → ((k : ℕ) → k < i → (lease_at ls k).mac ≢ mac)
    → position mac (set ls i (record { mac = mac; seq = seq })) ≡ some i
unfolding position
position-set mac [] i seq h f = absurd (omega arith)
position-set mac (l ∷ ls) zero seq h f = ground (arith, bytes_eq_iff mac mac)
position-set mac (l ∷ ls) (suc i) seq h f = ground (
  arith,
  bytes_eq_iff l.mac mac,
  f 0,
  position-set mac ls i seq (omega arith) (λ k q. f (suc k) (omega arith)),
)

-- Nobody holds the address.
abbrev pub Unknown : List Lease → List ℕ → Type 0
Unknown ls mac = (k : ℕ) → k < length ls → (lease_at ls k).mac ≢ mac

-- How slot `i` is chosen for `mac`: it is the first that `mac` holds; or `mac` holds none, and it is a free
-- one; or none is free either, and it is one with the lowest number.
pub data Choice (ls : List Lease) (mac : List ℕ) (i : ℕ) : Type 0 where
  held : (lease_at ls i).mac ≡ mac → ((k : ℕ) → k < i → (lease_at ls k).mac ≢ mac) → Choice ls mac i
  free : Unknown ls mac → (lease_at ls i).mac ≡ no_mac → Choice ls mac i
  evicted : Unknown ls mac → Unknown ls no_mac → Lowest ls i → Choice ls mac i

-- The outcome of a call: the slot and how it is chosen, and that only its lease changes.
pub record Grant (ls : List Lease) (seq : ℕ) (mac : List ℕ) (a : Assigned) : Type 0 where
  pub in_range : a.slot < length ls
  pub choice : Choice ls mac a.slot
  pub numbered : a.seq ≡ next_seq seq
  pub leases : a.leases ≡ set ls a.slot (record { mac = mac; seq = next_seq seq })

module _ (ls : List Lease) (seq : ℕ) (mac : List ℕ) (i : ℕ) (h : i < length ls)
    (few : length ls ≤ 256) where
  abbrev pub granted : Assigned
  granted = record {
    leases = set ls i (record { mac = mac; seq = next_seq seq });
    seq = next_seq seq;
    slot = i;
  }

  granted-Grant : Choice ls mac i → Grant ls seq mac granted
  granted-Grant c = record { in_range = h; choice = c; numbered = refl; leases = refl }

  small : i % 256 ≡ i
  small = omega arith

  grant-done : grant ls seq mac i ≡ done granted
  unfolding grant
  grant-done = rw (lt→ltb i (length ls) h, small)

  pub renew-done : (lease_at ls i).mac ≡ mac → renew ls seq i ≡ done granted
  unfolding renew
  renew-done e = rw (lt→ltb i (length ls) h, small, e)

-- With a pool of 1 to 256 leases `slot_for_mac` never panics. The client's own slot is taken, else a
-- free one, else one whose number is the lowest; that lease is then the client's, with the next number,
-- modulo 2 ^ 32, and all others are as before.
pub slot_for_mac-Grant :
    (ls : List Lease) (seq : ℕ) (mac : List ℕ)
    → 0 < length ls
    → length ls ≤ 256
    → (a : Assigned) × (slot_for_mac ls seq mac ≡ done a) × Grant ls seq mac a
unfolding slot_for_mac assign
slot_for_mac-Grant ls seq mac h few = elim (Option-cases (position mac ls)) [
  | inr (i, e) ↦
      let (lt, mine) = position-some mac ls i e in
      (
        granted ls seq mac i lt few,
        rw (e, assign) (renew-done ls seq mac i lt few mine),
        granted-Grant ls seq mac i lt few (held mine (position-first mac ls i e)),
      )
  | inl unknown ↦ elim (Option-cases (position no_mac ls)) [
    | inr (i, e) ↦
        let (lt, mine) = position-some no_mac ls i e in
        (
          granted ls seq mac i lt few,
          rw (unknown, e, assign) (grant-done ls seq mac i lt few),
          granted-Grant ls seq mac i lt few (free (λ k. position-none mac ls k unknown) mine),
        )
    | inl none_free ↦
        let i = oldest_from ls 0 (first_seq ls) 0 in
        let low = oldest-Lowest ls h in
        (
          granted ls seq mac i low.0 few,
          rw (unknown, none_free, assign) (grant-done ls seq mac i low.0 few),
          granted-Grant ls seq mac i low.0 few (
              evicted (λ k. position-none mac ls k unknown)
                (λ k. position-none no_mac ls k none_free) low),
        )
  ]
]
