-- ===== src/Udp/Served.antt =====
-- What a loop over received packets sends, as in dns_task and mdns_task of src/net_services.rs.
use scoreboard_ctrl.Base.{
  ℕ, ◌≡◌, refl, ap, Option, none, some, List, [], ◌∷◌, ◌++◌, length, Run, done,
}
use scoreboard_ctrl.Udp.{Received, packet, failed, Destination, Event, emit, send, wait, receive}

-- What is sent, and where.
abbrev pub sends : {E : Type 0} → List (Event E) → List (List ℕ × Destination E)
sends [] = []
sends (emit line ∷ events) = sends events
sends (wait ms ∷ events) = sends events
sends (send bytes to ∷ events) = (bytes, to) ∷ sends events

pub sends-append : {E : Type 0} (xs ys : List (Event E)) → sends (xs ++ ys) ≡ sends xs ++ sends ys
sends-append [] ys = refl
sends-append (emit line ∷ xs) ys = sends-append xs ys
sends-append (wait ms ∷ xs) ys = sends-append xs ys
sends-append (send bytes to ∷ xs) ys = ap (◌∷◌ (bytes, to)) (sends-append xs ys)

-- A reply to each of the destinations.
abbrev pub deliver :
    {E : Type 0} → List (Destination E) → Option (List ℕ) → List (List ℕ × Destination E)
deliver tos none = []
deliver [] (some bytes) = []
deliver (to ∷ tos) (some bytes) = (bytes, to) ∷ deliver tos (some bytes)

module _ {E : Type 0} (answer : List ℕ → ℕ → Run (Option (List ℕ)))
    (to : E → List (Destination E)) where
  -- What is sent are, in the order of the packets received, the answers to these, each to
  -- its destinations; a received packet lies in the buffer before what the ones before have left there.
  pub data Served : List ℕ → List (Received E) → List (List ℕ × Destination E) → Type 0 where
    end : {pkt : List ℕ} → Served pkt [] []
    error :
        {pkt : List ℕ} {rs : List (Received E)} {out : List (List ℕ × Destination E)} (e : List ℕ)
        → Served pkt rs out
        → Served pkt (failed e ∷ rs) out
    next :
        {pkt : List ℕ} {rs : List (Received E)} {out : List (List ℕ × Destination E)}
        (bytes : List ℕ) (from : E) (reply : Option (List ℕ))
        → answer (receive bytes pkt) (length bytes) ≡ done reply
        → Served (receive bytes pkt) rs out
        → Served pkt (packet bytes from ∷ rs) (deliver (to from) reply ++ out)
