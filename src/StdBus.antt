-- ===== src/StdBus.antt =====
-- The Standard Bus protocol, src/watlowlib/protocol/stdbus: a module for each file.
pub mod Crc
pub mod Tables
pub mod Framing
pub mod Value
pub mod Tlv
pub mod Payload
pub mod Client
