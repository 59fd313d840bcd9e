-- ===== src/Tests.antt =====
-- Runs of the modelled code at concrete inputs.
pub mod Fixtures
mod StdBus
mod Modbus
mod Registry
mod Devices
mod Streaming
mod Facade
mod Discovery
mod Maintenance
mod Loading
mod Detection
