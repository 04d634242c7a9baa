-- ===== src/Mdns/Task/Served.antt =====
-- What the loop of `mdns_task` of src/net_services.rs sends, with its lines of the log.
use scoreboard_ctrl.Base.{
  ℕ, ◌-◌, ◌≤◌, ◌≡◌, refl, sym, ap, ◌∙◌, Bool, Option, none, some, List, [], ◌∷◌, ◌++◌, length,
  length-append, take, drop, replicate, codes, done, slice_lem, Total, total, Total-bind, arith,
}
use mathlib.Core.Path.{subst}
use scoreboard_ctrl.Dns.{skip_name}
use scoreboard_ctrl.Dns.Safe.{skip_name-Total}
use scoreboard_ctrl.Dns.Task.{or_zero}
use scoreboard_ctrl.Dns.Task.Served.{qtype_behind-Total}
use scoreboard_ctrl.Mdns.{on_mdns}
use scoreboard_ctrl.Mdns.Safe.{on_mdns-Total}
use scoreboard_ctrl.Mdns.Task.{mcast, asked_type, mdns_line, answered, mdns_loop}
use scoreboard_ctrl.Trace.Bounds.{format_qname_bounds}
use scoreboard_ctrl.Udp.{Received, packet, failed, peer, Event, emit, send, receive}
use scoreboard_ctrl.Udp.Served.{sends, sends-append, deliver, Served, end, error, next}

asked_type-Total : (pkt : List ℕ) (n : ℕ) → n ≤ length pkt → Total (asked_type pkt n)
unfolding asked_type
asked_type-Total pkt n h =
    Total-bind (skip_name pkt 12) _ (skip_name-Total pkt 12) (λ e _. qtype_behind-Total pkt n e h)

module _ {E : Type 0} (show : E → List ℕ) (is_utf8 : List ℕ → Bool) where
  -- What is done for a packet sends the reply twice, and the line of the log does not panic.
  answered-sends :
      (pkt : List ℕ) (n : ℕ) (from : E) (reply : Option (List ℕ))
      → n ≤ length pkt
      → (events : List (Event E)) × (answered show is_utf8 pkt n from reply ≡ done events)
        × (sends events ≡ deliver (peer from ∷ (mcast ∷ [])) reply)
  unfolding answered
  answered-sends pkt n from none h = ([], refl, refl)
  answered-sends pkt n from (some bytes) h = elim (asked_type-Total pkt n h) [
    | total qtype e ↦
        let (out, k, f, size, le) = format_qname_bounds pkt (replicate 40 0) in
        (
          emit (mdns_line show is_utf8 (take (k - 0) out) (or_zero qtype) from)
              ∷ (send bytes (peer from) ∷ (send bytes mcast ∷ [])),
          rw (e, f, slice_lem out 0 k (omega arith) (omega arith)) refl,
          refl,
        )
  ]

  -- Whatever is received, the loop does not panic, also not in the lines of the log; it sends for each packet the
  -- reply that `on_mdns` gives, to its sender and to the group, and nothing where there is none.
  pub mdns_loop-Served :
      (rs : List (Received E)) (pkt : List ℕ)
      → (events : List (Event E)) × (mdns_loop show is_utf8 pkt rs ≡ done events)
        × Served on_mdns (λ from. peer from ∷ (mcast ∷ [])) pkt rs (sends events)
  unfolding mdns_loop
  mdns_loop-Served [] pkt = ([], refl, end)
  mdns_loop-Served (failed e ∷ rs) pkt =
      let (events, f, s) = mdns_loop-Served rs pkt in
      (emit (codes "mDNS recv " ++ e) ∷ events, rw f refl, error e s)
  mdns_loop-Served (packet bytes from ∷ rs) pkt =
      let pkt' = receive bytes pkt in
      let n = length bytes in
      let fits : n ≤ length pkt' = omega (arith, length-append bytes (drop n pkt)) in
      let (events, f, s) = mdns_loop-Served rs pkt' in
      elim (on_mdns-Total pkt' n fits) [
        | total reply e ↦
            let (now, g, h) = answered-sends pkt' n from reply fits in
            (
              now ++ events,
              rw (e, g, f) refl,
              subst (Served on_mdns (λ from. peer from ∷ (mcast ∷ [])) pkt (packet bytes from ∷ rs))
                  (sym (sends-append now events ∙ ap (λ xs. xs ++ sends events) h))
                  (next bytes from reply e s),
            )
      ]
