-- ===== src/Suite.antt =====
-- The unit tests of src/decode.rs and src/net_proto.rs, each as the statement that its assertions hold.
pub mod Decode
pub mod NetProto
