-- ===== src/Uart/Send/Times.antt =====
-- How long `uart_tx_task` of examples/uart-test.rs takes for a command.
use scoreboard_ctrl.Base.{
  ℕ, zero, suc, ◌+◌, ◌-◌, ◌*◌, ◌≤◌, ◌≡◌, refl, Bool-cases, inl, inr, Option, none, some, List, [],
  ◌∷◌, length, ◌==◌, take, done, slice_lem, arith,
}
use scoreboard_ctrl.Uart.Host.{HostCmd, tx, blast, replay, probe, hunt, listen, help, as_slice}
use scoreboard_ctrl.Uart.Send.{
  Tx, Env, write_all, after_millis, send_burst, blast_loop, send_blast, wait_rounds, wait_rx_gap,
  send_gap, send_gaps, send_bursts, probe_bursts, chk_variants,
}
use scoreboard_ctrl.Uart.Send.Hunt.{hunt_payloads, framed, clock_layout, other_sofs}
use scoreboard_ctrl.Uart.Send.Commands.{replay_frame, on_command}

wait_rounds_le : (env : Env) (n : ℕ) (t : Tx) → (wait_rounds env n t).at ≤ t.at + 12 * n
unfolding wait_rounds
wait_rounds_le env zero t = omega arith
wait_rounds_le env (suc n) t =
    elim (Bool-cases (env.last_rx_ms (t.at + 12) == env.last_rx_ms t.at)) [
      | inl e ↦ rw e (omega arith)
      | inr e ↦ rw e (omega (arith, wait_rounds_le env n (after_millis 12 t)))
    ]

send_gap_le : (env : Env) (bytes : List ℕ) (t : Tx) → (send_gap env bytes t).at ≤ t.at + 560
unfolding send_gap wait_rx_gap
send_gap_le env bytes t = elim (Bool-cases (env.ok (wait_rx_gap env t).writes)) [
  | inl e ↦ rw e (omega (arith, wait_rounds_le env 40 t))
  | inr e ↦ rw e (omega (arith, wait_rounds_le env 40 t))
]

send_gaps_le :
    (env : Env) (all : List (List ℕ)) (t : Tx) → (send_gaps env all t).at ≤ t.at + 560 * length all
send_gaps_le env [] t = omega arith
send_gaps_le env (bytes ∷ all) t =
    omega (arith, send_gaps_le env all (send_gap env bytes t), send_gap_le env bytes t)

send_burst_le : (env : Env) (bytes : List ℕ) (t : Tx) → (send_burst env bytes t).at ≤ t.at + 300
unfolding send_burst
send_burst_le env bytes t = elim (Bool-cases (env.ok t.writes)) [
  | inl e ↦ rw e (omega arith)
  | inr e ↦ rw e (omega arith)
]

send_bursts_le :
    (env : Env) (all : List (List ℕ)) (t : Tx)
    → (send_bursts env all t).at ≤ t.at + 300 * length all
send_bursts_le env [] t = omega arith
send_bursts_le env (bytes ∷ all) t =
    omega (arith, send_bursts_le env all (send_burst env bytes t), send_burst_le env bytes t)

blast_loop_at : (env : Env) (n : ℕ) (bytes : List ℕ) (t : Tx) → (blast_loop env n bytes t).at ≡ t.at
unfolding blast_loop
blast_loop_at env zero bytes t = refl
blast_loop_at env (suc n) bytes t = elim (Bool-cases (env.ok t.writes)) [
  | inl e ↦ rw e (blast_loop_at env n bytes (write_all bytes t))
  | inr e ↦ rw e refl
]

hunt_payloads-length : (last : Option (List ℕ)) → length (hunt_payloads last) ≡ 117
unfolding hunt_payloads framed clock_layout other_sofs
hunt_payloads-length last = refl

probe_bursts-length : (last : Option (List ℕ)) → length (probe_bursts last) ≤ 16
unfolding probe_bursts chk_variants
probe_bursts-length none = omega arith
probe_bursts-length (some frame) = omega arith

-- A burst does not count more bytes than it holds.
abbrev pub IsCommand : HostCmd → Type 0
IsCommand (tx burst) = burst.len ≤ length burst.buf
IsCommand (blast burst) = burst.len ≤ length burst.buf
IsCommand _ = Unit

-- Every command is done without a panic, and its waits take at most 65520 ms in all, whether the writes succeed or not
-- and whatever is received in between; the time that `blast` spends on writing is not counted.
pub on_command_within :
    (env : Env) (cmd : HostCmd) (t : Tx)
    → IsCommand cmd
    → (t' : Tx) × (on_command env cmd t ≡ done t') × (t'.at ≤ t.at + 65520)
unfolding on_command as_slice send_blast
on_command_within env help t v = (t, refl, omega arith)
on_command_within env (tx burst) t v =
    let bytes = take (burst.len - 0) burst.buf in
    (
      send_burst env bytes t,
      rw (slice_lem burst.buf 0 burst.len (omega arith) v) refl,
      omega (arith, send_burst_le env bytes t),
    )
on_command_within env (blast burst) t v =
    let bytes = take (burst.len - 0) burst.buf in
    (
      send_blast env bytes t,
      rw (slice_lem burst.buf 0 burst.len (omega arith) v) refl,
      omega (arith, blast_loop_at env env.blast_rounds bytes t),
    )
on_command_within env replay t v = (replay_frame env env.last_frame t, refl, le env.last_frame)
  where
    le : (o : Option (List ℕ)) → (replay_frame env o t).at ≤ t.at + 65520
    le none = omega arith
    le (some frame) = omega (arith, send_burst_le env frame t)
on_command_within env probe t v =
    let all = probe_bursts env.last_frame in
    (
      send_bursts env all t,
      refl,
      omega (arith, send_bursts_le env all t, probe_bursts-length env.last_frame),
    )
on_command_within env hunt t v =
    let all = hunt_payloads env.last_frame in
    (
      send_gaps env all t,
      refl,
      omega (arith, send_gaps_le env all t, hunt_payloads-length env.last_frame),
    )
on_command_within env listen t v = (after_millis 20000 t, refl, omega arith)
