-- ===== src/Dns/Task.antt =====
-- `dns_task` of src/net_services.rs: its start and its loop over what the socket receives, with the lines
-- of the log. `show` is the text of an endpoint, and `is_utf8` says whether bytes are UTF-8.
pub mod Served
use scoreboard_ctrl.Base.{
  ℕ, Bool, Option, none, some, List, [], ◌∷◌, ◌++◌, length, replicate, if◌then◌else◌, codes,
  decimal, Run, done, ◌>>=◌, load, slice,
}
use scoreboard_ctrl.Dhcp.{server_ip}
use scoreboard_ctrl.Dns.{build_dns_reply, dns_qtype}
use scoreboard_ctrl.Trace.{format_qname, qtype_name}
use scoreboard_ctrl.Udp.{Received, packet, failed, peer, Event, emit, send, receive, bind_retry}

abbrev pub dotted : List ℕ → List ℕ
dotted [] = []
dotted (b ∷ []) = decimal b
dotted (b ∷ (c ∷ bytes)) = decimal b ++ (codes "." ++ dotted (c ∷ bytes))

-- `unwrap_or(0)`
abbrev pub or_zero : Option ℕ → ℕ
or_zero none = 0
or_zero (some qtype) = qtype

module _ {E : Type 0} (show : E → List ℕ) (is_utf8 : List ℕ → Bool) where
  -- Before the loop.
  unfoldable pub dns_start : List (List ℕ) → List (Event E)
  dns_start errors =
      bind_retry E 53 (codes "DNS") errors
      ++ (emit (codes "DNS hijack A -> " ++ dotted server_ip) ∷ [])

  abbrev pub or_unknown : List ℕ → List ℕ
  or_unknown name = if is_utf8 name then name else codes "?"

  unfoldable pub dns_line : List ℕ → ℕ → E → ℕ → List ℕ
  dns_line name qtype from answers =
      codes "DNS "
      ++ (qtype_name qtype
          ++ (codes " "
              ++ (or_unknown name
                  ++ (codes " from " ++ (show from ++ (codes " an=" ++ decimal answers))))))

  -- Behind `build_dns_reply`; `out[7]` is the number of answers.
  unfoldable pub reply_to : List ℕ → ℕ → E → List ℕ × Option ℕ → Run (List (Event E))
  unfolding dns_line
  reply_to pkt n from (out, none) = done []
  reply_to pkt n from (out, some len) = do
    qtype ← dns_qtype pkt n
    formatted ← format_qname pkt (replicate 80 0)
    name ← slice formatted.0 0 formatted.1
    answers ← load out 7
    bytes ← slice out 0 len
    done (emit (dns_line name (or_zero qtype) from answers) ∷ (send bytes (peer from) ∷ []))

  -- A round: the buffer, and what is done.
  unfoldable pub dns_round : List ℕ → Received E → Run (List ℕ × List (Event E))
  unfolding reply_to
  dns_round pkt (failed e) = done (pkt, emit (codes "DNS recv " ++ e) ∷ [])
  dns_round pkt (packet bytes from) =
      let pkt' = receive bytes pkt in
      (do
        r ← build_dns_reply pkt' (length bytes) (replicate 512 0)
        events ← reply_to pkt' (length bytes) from r
        done (pkt', events))

  unfoldable pub dns_loop : List ℕ → List (Received E) → Run (List (Event E))
  dns_loop pkt [] = done []
  dns_loop pkt (r ∷ rs) = do
    round ← dns_round pkt r
    events ← dns_loop round.0 rs
    done (round.1 ++ events)
