-- ===== src/Net.antt =====
-- The parts of `std::net`, `std::num` and `std::string` that the program parses and prints with.
pub mod Number
pub mod Ipv4
pub mod Ipv6
pub mod Addr
pub mod Utf8
