-- ===== src/Tests.antt =====
-- The theorems at concrete inputs, and runs of the code on what the tests of src/decode.rs and
-- src/net_proto.rs give it.
mod StartUp
mod Whole
mod Clock
mod Controls
mod Countdown
mod Frames
mod Leases
mod Firmware
mod Packets
mod Phones
mod Names
mod Portal
mod Console
