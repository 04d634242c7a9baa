-- ===== src/Dns/Task/Served.antt =====
-- What the loop of `dns_task` of src/net_services.rs sends, with its lines of the log.
use scoreboard_ctrl.Base.{
  ℕ, ◌+◌, ◌-◌, ◌≤◌, ◌≡◌, refl, sym, ap, ◌∙◌, Bool, ◌||◌, Option, none, some, List, [], ◌∷◌, ◌++◌,
  length, take, get_or, replicate, codes, ltb, done, load_lem, slice_lem, Total, total, Total-done,
  Total-bind, Total-if, arith,
}
use mathlib.Core.Path.{subst}
use scoreboard_ctrl.Dns.{
  build_dns_reply, dns_qtype, qtype_behind, skip_name, load_u16, sent_reply, on_query,
}
use scoreboard_ctrl.Dns.Safe.{replied, build_dns_reply-Replied, skip_name-Total, load_u16-Total}
use scoreboard_ctrl.Dns.Task.{or_zero, dns_line, reply_to, dns_round, dns_loop}
use scoreboard_ctrl.Trace.Bounds.{format_qname_bounds}
use scoreboard_ctrl.Udp.Served.{sends, sends-append, Served, end, error, next}
use scoreboard_ctrl.Udp.{Received, packet, failed, peer, Event, emit, send, receive}

pub qtype_behind-Total :
    (query : List ℕ) (n : ℕ) (name_end : Option ℕ)
    → n ≤ length query
    → Total (qtype_behind query n name_end)
unfolding qtype_behind
qtype_behind-Total query n none h = Total-done none
qtype_behind-Total query n (some name_end) h =
    Total-if (ltb n (name_end + 4)) _ _ (λ _. Total-done none)
      (λ k.
        Total-bind (load_u16 query name_end) _ (load_u16-Total query name_end (ground arith))
          (λ qtype _. Total-done (some qtype)))

dns_qtype-Total : (query : List ℕ) (n : ℕ) → Total (dns_qtype query n)
unfolding dns_qtype
dns_qtype-Total query n =
    Total-if (ltb n 12 || ltb (length query) n) _ _ (λ _. Total-done none)
      (λ good. rw (slice_lem query 0 n (omega arith) (ground arith)) (
        Total-bind (skip_name (take (n - 0) query) 12) _ (skip_name-Total (take (n - 0) query) 12)
          (λ e _. qtype_behind-Total query n e (ground arith))))

unanswered :
    (pkt : List ℕ) (n : ℕ) (o : List ℕ)
    → build_dns_reply pkt n (replicate 512 0) ≡ done (o, none)
    → on_query pkt n ≡ done none
unfolding on_query sent_reply
unanswered pkt n o e = rw e refl

sent :
    (pkt : List ℕ) (n len : ℕ) (o : List ℕ)
    → build_dns_reply pkt n (replicate 512 0) ≡ done (o, some len)
    → length o ≡ 512
    → len ≤ 512
    → on_query pkt n ≡ done (some (take (len - 0) o))
unfolding on_query sent_reply
sent pkt n len o e size fits = rw (e, slice_lem o 0 len (omega arith) (omega arith)) refl

module _ {E : Type 0} (show : E → List ℕ) (is_utf8 : List ℕ → Bool) where
  -- What a round does behind the reply that was built.
  reply_to-sends :
      (pkt out : List ℕ) (n len : ℕ) (from : E)
      → length out ≡ 512
      → len ≤ 512
      → (events : List (Event E)) × (reply_to show is_utf8 pkt n from (out, some len) ≡ done events)
        × (sends events ≡ (take (len - 0) out, peer from) ∷ [])
  unfolding reply_to
  reply_to-sends pkt out n len from size fits = elim (dns_qtype-Total pkt n) [
    | total qtype e ↦
        let (out', k, f, size', le) = format_qname_bounds pkt (replicate 80 0) in
        let line =
          dns_line show is_utf8 (take (k - 0) out') (or_zero qtype) from (get_or out 7 0) in
        (
          emit line ∷ (send (take (len - 0) out) (peer from) ∷ []),
          rw
              (
                e,
                f,
                slice_lem out' 0 k (omega arith) (omega arith),
                load_lem out 7 (omega arith),
                slice_lem out 0 len (omega arith) (omega arith),
              )
              refl,
          refl,
        )
  ]

  -- Whatever is received, the loop does not panic, also not in the lines of the log; it sends for each
  -- packet the reply that `on_query` gives to its sender, and nothing where there is none.
  pub dns_loop-Served :
      (rs : List (Received E)) (pkt : List ℕ)
      → (events : List (Event E)) × (dns_loop show is_utf8 pkt rs ≡ done events)
        × Served on_query (λ from. peer from ∷ []) pkt rs (sends events)
  unfolding dns_loop dns_round
  dns_loop-Served [] pkt = ([], refl, end)
  dns_loop-Served (failed e ∷ rs) pkt =
      let (events, f, s) = dns_loop-Served rs pkt in
      (emit (codes "DNS recv " ++ e) ∷ events, rw f refl, error e s)
  dns_loop-Served (packet bytes from ∷ rs) pkt =
      let pkt' = receive bytes pkt in
      let n = length bytes in
      let (events, f, s) = dns_loop-Served rs pkt' in
      elim (build_dns_reply-Replied pkt' n (replicate 512 0)) [
        | replied o none e size inside ↦
            (events, rw (e, f) refl, next bytes from none (unanswered pkt' n o e) s)
        | replied o (some len) e size inside ↦
            let (now, g, h) = reply_to-sends pkt' o n len from size inside in
            (
              now ++ events,
              rw (e, g, f) refl,
              subst (Served on_query (λ from. peer from ∷ []) pkt (packet bytes from ∷ rs))
                  (sym (sends-append now events ∙ ap (λ xs. xs ++ sends events) h))
                  (next bytes from (some (take (len - 0) o)) (sent pkt' n len o e size inside) s),
            )
      ]
