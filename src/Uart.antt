-- ===== src/Uart.antt =====
-- The RS-232 probe, examples/uart-test.rs: the console's commands and lines, and the tasks that
-- receive and send on the UART.
pub mod Host
pub mod Console
pub mod Receive
pub mod Send
pub mod Typed
pub mod Start
