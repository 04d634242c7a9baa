-- ===== src/Mdns/Task.antt =====
-- `mdns_task` of src/net_services.rs: its start and its loop over what the socket receives, with the lines of
-- the log. `show` is the text of an endpoint, and `is_utf8` says whether bytes are UTF-8.
pub mod Served
use scoreboard_ctrl.Base.{
  ℕ, zero, suc, Bool, Option, none, some, List, [], ◌∷◌, ◌++◌, length, replicate, if◌then◌else◌,
  codes, Run, done, ◌>>=◌, slice,
}
use scoreboard_ctrl.Dns.{skip_name, qtype_behind}
use scoreboard_ctrl.Dns.Task.{or_zero, or_unknown}
use scoreboard_ctrl.Trace.{format_qname, qtype_name}
use scoreboard_ctrl.Mdns.{on_mdns, announcement}
use scoreboard_ctrl.Udp.{
  Received, packet, failed, Destination, peer, group, Event, emit, send, wait, receive, bind_retry,
}

abbrev pub mdns_ip : List ℕ
mdns_ip = 224 ∷ 0 ∷ 0 ∷ 251 ∷ []

module _ {E : Type 0} where
  abbrev pub mcast : Destination E
  mcast = group mdns_ip 5353

  -- The loop of the announcements, with how many are left.
  unfoldable pub announce : ℕ → List ℕ → List (Event E)
  announce zero bytes = []
  announce (suc left) bytes = send bytes mcast ∷ (wait 400 ∷ announce left bytes)

  abbrev pub announced : Option (List ℕ) → List (Event E)
  announced none = []
  announced (some bytes) = announce 3 bytes

  -- Before the loop; `joined` is whether the multicast group could be joined.
  unfoldable pub mdns_start : Bool → List (List ℕ) → Run (List (Event E))
  unfolding announce
  mdns_start joined errors = do
    reply ← announcement
    done (
        (if joined then [] else emit (codes "mDNS multicast join failed") ∷ [])
        ++ (bind_retry E 5353 (codes "mDNS") errors
            ++ (emit (codes "mDNS scoreboard.local/sb.local -> 192.168.0.1") ∷ announced reply)))

-- The type that the query was answered for.
unfoldable pub asked_type : List ℕ → ℕ → Run (Option ℕ)
asked_type pkt n = do name_end ← skip_name pkt 12; qtype_behind pkt n name_end

module _ {E : Type 0} (show : E → List ℕ) (is_utf8 : List ℕ → Bool) where
  unfoldable pub mdns_line : List ℕ → ℕ → E → List ℕ
  mdns_line name qtype from =
      codes "mDNS "
      ++ (qtype_name qtype
          ++ (codes " " ++ (or_unknown show is_utf8 name ++ (codes " from " ++ show from))))

  -- Behind `write_mdns_a`: the line of the log, and what is sent.
  unfoldable pub answered : List ℕ → ℕ → E → Option (List ℕ) → Run (List (Event E))
  unfolding mdns_line asked_type
  answered pkt n from none = done []
  answered pkt n from (some bytes) = do
    qtype ← asked_type pkt n
    formatted ← format_qname pkt (replicate 40 0)
    name ← slice formatted.0 0 formatted.1
    done (
        emit (mdns_line name (or_zero qtype) from)
        ∷ (send bytes (peer from) ∷ (send bytes mcast ∷ [])))

  unfoldable pub mdns_loop : List ℕ → List (Received E) → Run (List (Event E))
  unfolding answered
  mdns_loop pkt [] = done []
  mdns_loop pkt (failed e ∷ rs) = do
    events ← mdns_loop pkt rs
    done (emit (codes "mDNS recv " ++ e) ∷ events)
  mdns_loop pkt (packet bytes from ∷ rs) =
      let pkt' = receive bytes pkt in
      (do
        reply ← on_mdns pkt' (length bytes)
        now ← answered pkt' (length bytes) from reply
        events ← mdns_loop pkt' rs
        done (now ++ events))
