-- ===== src/Uart/Send/Commands.antt =====
-- The loop of `uart_tx_task` of examples/uart-test.rs: what it does for a command.
use scoreboard_ctrl.Base.{ℕ, Option, none, some, List, Run, done, ◌>>=◌}
use scoreboard_ctrl.Uart.Host.{HostCmd, tx, blast, replay, probe, hunt, listen, help, as_slice}
use scoreboard_ctrl.Uart.Send.{
  Tx, Env, after_millis, send_burst, send_blast, send_gaps, send_bursts, probe_bursts,
}
use scoreboard_ctrl.Uart.Send.Hunt.{hunt_payloads}

abbrev pub replay_frame : Env → Option (List ℕ) → Tx → Tx
replay_frame env none t = t
replay_frame env (some frame) t = send_burst env frame t

unfoldable pub on_command : Env → HostCmd → Tx → Run Tx
on_command env help t = done t
on_command env (tx burst) t = do bytes ← as_slice burst; done (send_burst env bytes t)
on_command env (blast burst) t = do bytes ← as_slice burst; done (send_blast env bytes t)
on_command env replay t = done (replay_frame env env.last_frame t)
on_command env probe t = done (send_bursts env (probe_bursts env.last_frame) t)
on_command env hunt t = done (send_gaps env (hunt_payloads env.last_frame) t)
on_command env listen t = done (after_millis 20000 t)
