-- ===== src/Devices.antt =====
-- src/watlowlib/devices: the session over a protocol client.
pub mod Session
pub mod Facade
pub mod Stack
