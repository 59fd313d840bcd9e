-- ===== src/Commands/Request.antt =====
-- src/watlowlib/commands/parameters.py: the requests, `_resolve` and the entry that a command returns.
use watlowlib.Base.{if◌then◌else◌, Bytes}
use watlowlib.Base.Int.{ℤ, pos}
use watlowlib.Result.{Result, ok, ◌>>=◌, ◌>>◌}
use watlowlib.Registry.Spec.{Name, ParameterSpec, validate_instance}
use watlowlib.Registry.Index.{ParameterRegistry, Target, resolve}
use watlowlib.StdBus.Value.{Value}
use watlowlib.Modbus.Ops.{differs}

pub record ReadParameterRequest : Type 0 where
  pub target : Target
  pub instance_id : ℤ

pub record WriteParameterRequest (F : Type 0) : Type 0 where
  pub target : Target
  pub value : Value F
  pub instance_id : ℤ

-- `ParameterEntry`
pub record ParameterEntry (F : Type 0) : Type 0 where
  pub spec : ParameterSpec F
  pub instance_id : ℤ
  pub value : Value F
  pub raw_bytes : Bytes

-- `_resolve`; the instance that it computes is only validated.
unfoldable pub resolve_request :
    {F : Type 0} → (Name → Name) → ParameterRegistry F → Target → ℤ → Result (ParameterSpec F)
resolve_request lower r target n = resolve lower r target >>= λ spec.
    validate_instance spec (if differs n (pos 0) then n else spec.default_instance) >> ok spec
