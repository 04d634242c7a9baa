-- ===== src/Uart/Start.antt =====
-- `main` of examples/uart-test.rs up to its loop, which only waits, and the lines of `log_help`,
-- `send_chk_variants`, `listen_stray` and `hunt`.
use scoreboard_ctrl.Base.{
  ℕ, ◌+◌, ◌-◌, ◌*◌, ◌%◌, ◌^◌, ◌<◌, ◌≡◌, List, [], ◌∷◌, ◌++◌, codes, decimal, arith,
}

pub data Task : Type 0 where
  watchdog logger uart_rx uart_tx : Task

-- Times are milliseconds; the UART has its rate.
pub data Start : Type 0 where
  start_watchdog wait new_uart : ℕ → Start
  spawn : Task → Start

unfoldable pub main : List Start
main =
    start_watchdog (8 * 1000)
    ∷ (spawn Task.watchdog
        ∷ (spawn Task.logger
            ∷ (wait 500 ∷ (new_uart 38400 ∷ (spawn Task.uart_rx ∷ (spawn Task.uart_tx ∷ []))))))

-- The lines of `log_help`, for the version of the build.
unfoldable pub log_help : List ℕ → List (List ℕ)
log_help version =
    (codes "uart-test v" ++ (version ++ codes " 38400 8N1 GP20 TX / GP21 RX"))
    ∷ (codes "tx <hex>   send bytes on UART1 TX  (tx 60 7a 00 02 06 00)"
        ∷ (codes "blast <hex>  repeat that payload for 500 ms"
            ∷ (codes "replay     resend last 0x60 clock frame"
                ∷ (codes "probe      canned TX bursts, 300 ms gap"
                    ∷ (codes "hunt       framed cmds in RX gaps; watch UART stray + digits"
                        ∷ (codes "listen     20 s stray watch (press wireless remote / buttons)"
                            ∷ (codes "help       this text"
                                ∷ (codes "ENTERBOOTLOADER  UF2 BOOTSEL" ∷ []))))))))

-- `stray1.wrapping_sub(stray0)` on u32.
abbrev pub stray_delta : ℕ → ℕ → ℕ
stray_delta stray0 stray1 = (stray1 + 2 ^ 32 - stray0) % 2 ^ 32

-- The line at the end of `hunt` and of `listen_stray`, with the name of the command.
unfoldable pub done_line : List ℕ → ℕ → ℕ → List ℕ
done_line what stray0 stray1 =
    what
    ++ (codes " done stray "
        ++ (decimal stray0
            ++ (codes " -> "
                ++ (decimal stray1
                    ++ (codes " (delta " ++ (decimal (stray_delta stray0 stray1) ++ codes ")"))))))

-- The lines of `listen_stray`.
unfoldable pub listen_lines : ℕ → ℕ → List (List ℕ)
unfolding done_line
listen_lines stray0 stray1 =
    codes "listen 20s: press wireless remote and board buttons now"
    ∷ (done_line (codes "listen") stray0 stray1 ∷ [])

-- Whatever bytes were counted in between, fewer than 2 ^ 32, the delta is their number.
stray_delta-add :
    (stray0 n : ℕ) → stray0 < 2 ^ 32 → n < 2 ^ 32 → stray_delta stray0 ((stray0 + n) % 2 ^ 32) ≡ n
stray_delta-add stray0 n h k = omega arith
