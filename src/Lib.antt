-- ===== src/Lib.antt =====
-- ScoreboardCtrl: the firmware of a Raspberry Pi Pico W that lets phones control an SK2229R
-- scoreboard. The Pico opens a Wi-Fi network with its own DHCP and DNS servers, serves a page, turns
-- the page's commands into pulses on the scoreboard's buttons, and reads the scoreboard's clock from a
-- UART. This library models the program's own logic.
--
-- Parts and files:
--   Base                 shared helpers: Boolean tests, lists, integers, and Base.Bytes, the accesses
--                        to byte buffers; `Run` is the result of code that may panic by an index out
--                        of range
--   Decode               src/decode.rs: clock frames (`parse_clock_packet`), the hex text of the log
--                        (`write_hex`), and the decisions about the run state of the clock
--   Scoreboard           src/main.rs, `ScoreboardState` and its methods, and the watch `EVENTS`
--   Board                src/main.rs, `board_task`: a function for each command, `drain` for a round
--                        without one; Board.Tasks has the other tasks as steps, and `Reach` holds of
--                        every state that some interleaving reaches;
--                        Board.Heartbeat is a round of `heartbeat_task`
--   Serial               src/main.rs, `read_serial`: framing of the bytes of the UART
--   Dhcp                 src/net_proto.rs: reading options; Dhcp.Lease is the pool of leases
--                        (`slot_for_mac`), Dhcp.Reply is `write_offer_or_ack`, and Dhcp.Server is
--                        the loop of `dhcp_task` in src/net_services.rs
--   Dns                  src/net_proto.rs: `skip_name`, `build_dns_reply`, `dns_qtype`, and the loop of
--                        `dns_task`, which is Dns.Task
--   Mdns                 src/net_services.rs: `qname_matches`, `write_mdns_a` and `mdns_task`
--   Trace                src/ap_log.rs: the name and the type of a question, for the log
--   Status               src/main.rs, `status_of` and the event streams (`StatusEvents`); Status.Crowd is all
--                        of them at once
--   Web                  src/main.rs: Web.Agent is `log_http`, Web.Portal the times of the captive portal,
--                        Web.Routes `build_app` and its handlers over a router that is a parameter, and
--                        Web.Workers the counter of `web_task` and Web.Task its rounds
--   Ota                  src/ota.rs: a firmware upload with what it logs and when it feeds the watchdog, over
--                        a reader and a flash that are parameters; Ota.Handler is the request handler,
--                        and Ota.Rule a rule for the loop
--   BootCmd              src/main.rs, `BootCmd`: the command on USB that restarts into the loader
--   Simulate             src/main.rs, the build with the feature `simulate`: `timer_task` and the commands
--   Uart                 examples/uart-test.rs, the program that probes the UART: Uart.Host parses commands,
--                        Uart.Console gathers lines, Uart.Receive is `uart_rx_task`, Uart.Send is
--                        `uart_tx_task`, Uart.Typed joins the console and the sender, and Uart.Start is `main`
--   Boot                 src/main.rs: Boot.Start is the start of `main` as a row of actions, Boot.Restart its
--                        loop, Boot.Watchdog `watchdog_task`, Boot.Pins the outputs; Boot.Loader is
--                        bootloader/src/main.rs, and Boot.Logger src/defmt_log.rs
--   Udp                  src/net_services.rs: `bind_retry`, and what its tasks receive and do
--   Firmware             src/main.rs: the handlers, the channel of commands, `board_task` and the other tasks
--                        as the steps of one system
--   Typed                src/net_services.rs: what its tasks send, as rows of `u8`
--   Suite                the unit tests of src/decode.rs and src/net_proto.rs, each a statement that is proved
--   Tests                the theorems at concrete inputs
--
-- How they meet: `read_serial` calls `parse_clock_packet` and then `set_clock` on the shared state;
-- `board_task` changes the shared state in critical sections; `publish` ends those that
-- change what is shown, and wakes the event streams; `dhcp_task` takes a slot of the pool for each client and writes
-- the reply; the handlers of Web.Routes send the commands of `board_task` through a
-- channel of eight and refresh the shared state (Firmware); the handler of Ota.Handler sets the flag
-- that the loop of `main` reads (Boot.Restart).
--
-- Conventions: numbers are natural numbers, with the wrap-around of the machine's integers written out
-- where the code can reach it. Times are microseconds, one tick of the
-- time driver, where a file does not say otherwise; all clock readings of one critical section agree. A critical section has no await in
-- it, so it is one step. Buffers that a function of the code changes are among its results.
-- Fuel: the loop over DHCP options takes the length of the packet, and each round moves its index on
-- (Dhcp.Options); the loop over DNS labels takes it too. An upload takes the length of its content, and
-- reading a chunk takes its length: each round handles at least one byte. A name with pointers takes the
-- number of rounds that the code's counter of hops allows, nine in Mdns and eleven in Trace.
--
-- Not modelled: the drivers and libraries (embassy, cyw43, picoserve), the set-up of the hardware, the
-- texts of some log lines, the time that a pulse takes, and the web page.
pub mod Base
pub mod Board
pub mod Boot
pub mod BootCmd
pub mod Decode
pub mod Dhcp
pub mod Dns
pub mod Firmware
pub mod Mdns
pub mod Ota
pub mod Scoreboard
pub mod Serial
pub mod Simulate
pub mod Status
pub mod Suite
pub mod Tests
pub mod Trace
pub mod Typed
pub mod Uart
pub mod Udp
pub mod Web
