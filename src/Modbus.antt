-- ===== src/Modbus.antt =====
-- src/watlowlib/protocol/modbus: operations, their lowering onto `anymodbus`, and the codec of register
-- words.
pub mod Ops
pub mod Remap
pub mod Client
pub mod Tables
pub mod Codec
