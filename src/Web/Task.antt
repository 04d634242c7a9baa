-- ===== src/Web/Task.antt =====
-- A round of `web_task` of src/main.rs: the socket that it sets up, and what it does with a connection. The
-- server of picoserve that handles the requests of a connection is one event. `E` are the endpoints.
use scoreboard_ctrl.Base.{ℕ, Option, none, Bool, false, List, [], ◌∷◌, ◌++◌, codes, decimal}
use scoreboard_ctrl.Web.Workers.{
  Trace, tcp_full, opened, closed, web_task_pool_size, on_accept, on_served,
}

-- The result of `accept`: an error with its text, or a connection with the text of its remote endpoint.
pub data Accepted : Type 0 where
  refused : List ℕ → Accepted
  connected : List ℕ → Accepted

-- What a task does; times are seconds.
pub data WebEvent : Type 0 where
  set_timeout : ℕ → WebEvent
  set_keep_alive : Option ℕ → WebEvent
  set_nagle_enabled : Bool → WebEvent
  accept : ℕ → WebEvent
  emit : List ℕ → WebEvent
  serve : WebEvent

abbrev of_pool : ℕ → List ℕ
of_pool n = codes "live=" ++ (decimal n ++ (codes "/" ++ decimal web_task_pool_size))

-- The text of a line, with the text of the remote endpoint.
unfoldable pub trace_text : List ℕ → Trace → List ℕ
trace_text remote (tcp_full n) = codes "tcp full " ++ (remote ++ (codes " " ++ of_pool n))
trace_text remote (opened n) = codes "tcp+ " ++ (remote ++ (codes " " ++ of_pool n))
trace_text remote (closed n) = codes "tcp- " ++ of_pool n

-- The socket of a round.
abbrev pub socket : List WebEvent
socket = set_timeout 60 ∷ (set_keep_alive none ∷ (set_nagle_enabled false ∷ (accept 80 ∷ [])))

-- A round of the task with the given number; the counter is `live` when the connection comes and `live'`
-- when it ends.
unfoldable pub web_round : ℕ → Accepted → ℕ → ℕ → List WebEvent
unfolding trace_text on_accept on_served
web_round task_id (refused e) live live' =
    socket ++ (emit (codes "tcp" ++ (decimal task_id ++ (codes " accept " ++ e))) ∷ [])
web_round task_id (connected remote) live live' =
    socket
    ++ (emit (trace_text remote (on_accept live).1)
        ∷ (serve ∷ (emit (trace_text remote (on_served live').1) ∷ [])))
