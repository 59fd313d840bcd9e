-- ===== src/Devices/Stack.antt =====
-- The layers together: a facade over a session over the Std Bus client over a transport.
pub mod Read
use watlowlib.Base.{ℕ, Bool, true, false, Option, none, some, Bytes}
use watlowlib.Base.Text.{codes}
use watlowlib.Transport.{Transport}
use watlowlib.StdBus.Value.{Floats}
use watlowlib.StdBus.Client.{Client, StdBusReply, execute as stdbus_execute}
use watlowlib.Registry.Spec.{Name, Arith, read_only, persistent}
use watlowlib.Commands.Command.{Command}
use watlowlib.Commands.Request.{ReadParameterRequest, WriteParameterRequest, ParameterEntry}
use watlowlib.Commands.StdBusParameters.{read_variant, write_variant}
use watlowlib.Devices.Session.{Session, ProtocolClient, stdbus_kind, execute}
use watlowlib.Devices.Facade.{Gateway}

module _ {F : Type 0} (fl : Floats F) (ar : Arith F) (lower : Name → Name) where
  -- `READ_PARAMETER` and `WRITE_PARAMETER` on a session whose client speaks Std Bus.
  abbrev pub read_parameter_command :
      Command F ReadParameterRequest Bytes (StdBusReply F) (ParameterEntry F)
  read_parameter_command = record {
    name = codes "read_parameter";
    stdbus = some (read_variant lower);
    modbus = none;
    safety = read_only;
    target = λ q. some q.target;
  }

  abbrev pub write_parameter_command :
      Command F (WriteParameterRequest F) Bytes (StdBusReply F) (ParameterEntry F)
  write_parameter_command = record {
    name = codes "write_parameter";
    stdbus = some (write_variant lower fl ar);
    modbus = none;
    safety = persistent;
    target = λ q. some q.target;
  }

abbrev pub stdbus_client :
    {S F : Type 0} → Transport S → Floats F → ProtocolClient (Client S) Bytes (StdBusReply F)
stdbus_client t fl = record { kind = stdbus_kind; execute = stdbus_execute t fl }

-- The session of a controller.
unfoldable pub stdbus_gateway :
    {F S : Type 0}
    → Floats F
    → Arith F
    → (Name → Name)
    → (ℕ → Name)
    → Transport S
    → Gateway F (Session F (Client S))
stdbus_gateway fl ar lower show t = record {
  registry = λ s. s.registry;
  read = λ target n.
      execute lower show (stdbus_client t fl) (read_parameter_command fl ar lower)
        (record { target = target; instance_id = n }) false;
  write = λ target value n confirm.
      execute lower show (stdbus_client t fl) (write_parameter_command fl ar lower)
        (record { target = target; value = value; instance_id = n }) confirm;
}
