-- ===== src/Transport/Settings.antt =====
-- src/watlowlib/transport/base.py: `SerialSettings` with the factory framings. The enumerations of
-- anyserial are parameters; the coercions of `__post_init__` keep their members.
use watlowlib.Base.{ℕ, List, Bool, true, false}
use watlowlib.Errors.{configuration_error}
use watlowlib.Result.{Result, ok, err}
use watlowlib.Devices.Session.{ProtocolKind, stdbus_kind, modbus_kind, auto_kind}

-- `ByteSize.EIGHT`, `Parity.NONE`, `Parity.EVEN` and `StopBits.ONE`
pub record Enumerations (ByteSize Parity StopBits : Type 0) : Type 0 where
  pub eight : ByteSize
  pub no_parity : Parity
  pub even : Parity
  pub one_bit : StopBits

pub record SerialSettings (ByteSize Parity StopBits : Type 0) : Type 0 where
  pub port : List ℕ
  pub baudrate : ℕ
  pub bytesize : ByteSize
  pub parity : Parity
  pub stopbits : StopBits
  pub rtscts : Bool
  pub xonxoff : Bool
  pub exclusive : Bool

module _ {B P S : Type 0} (enums : Enumerations B P S) where
  -- `SerialSettings(port=port)`
  unfoldable pub default_settings : List ℕ → SerialSettings B P S
  default_settings port = record {
    port = port;
    baudrate = 38400;
    bytesize = enums.eight;
    parity = enums.no_parity;
    stopbits = enums.one_bit;
    rtscts = false;
    xonxoff = false;
    exclusive = true;
  }

  unfoldable pub factory_for : ProtocolKind → List ℕ → Result (SerialSettings B P S)
  factory_for stdbus_kind port =
      ok (record (default_settings port) { baudrate = 38400; parity = enums.no_parity })
  factory_for modbus_kind port =
      ok (record (default_settings port) { baudrate = 9600; parity = enums.even })
  factory_for auto_kind port = err configuration_error
