-- ===== src/Udp.antt =====
-- What the tasks of src/net_services.rs share: `bind_retry`, what a socket receives, and what a task does
-- with it. An endpoint of embassy-net is of a type that is a parameter; its text, and the texts of
-- errors, are what `{:?}` makes of them.
pub mod Served
use scoreboard_ctrl.Base.{
  ℕ, Bool, List, [], ◌∷◌, ◌++◌, codes, decimal, Option, none, some, take, drop, length,
}

-- The results of `recv_from`: the bytes with their sender, or an error.
pub data Received (E : Type 0) : Type 0 where
  packet : List ℕ → E → Received E
  failed : List ℕ → Received E

-- Where a packet is sent: back to an endpoint, or to a multicast group at a port.
pub data Destination (E : Type 0) : Type 0 where
  peer : E → Destination E
  group : List ℕ → ℕ → Destination E

-- The lines of the log, what is sent, and the waits in milliseconds.
pub data Event (E : Type 0) : Type 0 where
  emit : List ℕ → Event E
  send : List ℕ → Destination E → Event E
  wait : ℕ → Event E

-- `recv_from` writes to the front of the buffer.
abbrev pub receive : List ℕ → List ℕ → List ℕ
receive bytes buffer = bytes ++ drop (length bytes) buffer

module _ (E : Type 0) where
  -- `bind_retry`, over the errors of the calls of `bind` that fail before one succeeds.
  unfoldable pub bind_retry : ℕ → List ℕ → List (List ℕ) → List (Event E)
  bind_retry port what [] = emit (what ++ (codes " listen :" ++ decimal port)) ∷ []
  bind_retry port what (e ∷ errors) =
      emit (what ++ (codes " bind :" ++ (decimal port ++ (codes " " ++ (e ++ codes ", retry")))))
      ∷ (wait 1000 ∷ bind_retry port what errors)
