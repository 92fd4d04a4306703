-- ===== src/Std.antt =====
-- The parts of Rust's standard library that the source calls: text, numbers, maps, addresses, files.
pub mod Text
pub mod Number
pub mod Dict
pub mod Bits
pub mod Ip
pub mod Int
pub mod Files
pub mod Socket
