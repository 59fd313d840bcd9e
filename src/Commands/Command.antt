-- ===== src/Commands/Command.antt =====
-- src/watlowlib/commands/base.py: `Command` and its variants. A context is the session's registry: the
-- address and the port in it go into error messages only. The advisory hints are not modelled.
use watlowlib.Base.{Option}
use watlowlib.Result.{Result}
use watlowlib.Registry.Spec.{Name, SafetyTier}
use watlowlib.Registry.Index.{ParameterRegistry, Target}

-- A variant, from requests `Q` to wire requests `W`, and from replies `P` to responses `A`. The Std Bus
-- `decode` has no use for the request.
pub record Variant (F Q W P A : Type 0) : Type 0 where
  pub encode : ParameterRegistry F → Q → Result W
  pub decode : P → ParameterRegistry F → Q → Result A

-- `getattr(request, "name_or_id", None)` is the field `target`.
pub record Command (F Q W P A : Type 0) : Type 0 where
  pub name : Name
  pub stdbus : Option (Variant F Q W P A)
  pub modbus : Option (Variant F Q W P A)
  pub safety : SafetyTier
  pub target : Q → Option Target
