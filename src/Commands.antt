-- ===== src/Commands.antt =====
-- src/watlowlib/commands: the command descriptor and the parameter commands.
pub mod Command
pub mod Request
pub mod StdBusParameters
pub mod ModbusParameters
pub mod Laws
