-- ===== src/Commands/Laws.antt =====
-- The parameter commands: read-only parameters, replies, registers and the instance 0.
use watlowlib.Base.{ℕ, ◌≡◌, ◌≤◌, ◌⊎◌, inl, inr, refl, arith, ◌||◌, if◌then◌else◌, Bytes, Bool-cases}
use watlowlib.Base.Int.{ℤ, pos, ltb_ℤ}
use watlowlib.Errors.{validation_error, protocol_unsupported_error}
use watlowlib.Result.{ok, err}
use watlowlib.StdBus.Value.{Value, Floats}
use watlowlib.StdBus.Payload.{read_response, write_response, encode_read_request, split_param}
use watlowlib.StdBus.Payload.RoundTrip.{join_param-split_param}
use watlowlib.StdBus.Framing.{Frame}
use watlowlib.StdBus.Client.{StdBusReply}
use watlowlib.Modbus.Ops.{differs}
use watlowlib.Modbus.Tables.{Orders, ModbusEncoding}
use watlowlib.Modbus.Codec.{Registers}
use watlowlib.Registry.Spec.{
  Name, ParameterSpec, Arith, flag_r, validate_writable, validate_instance,
}
use watlowlib.Registry.Index.{ParameterRegistry, Target, resolve, resolve_id}
use watlowlib.Commands.Request.{ReadParameterRequest, WriteParameterRequest, resolve_request}
use watlowlib.Commands.StdBusParameters as StdBusParameters
use watlowlib.Commands.ModbusParameters as ModbusParameters

module _ {F : Type 0} (lower : Name → Name) (r : ParameterRegistry F) where
  -- What `_resolve` does with a parameter that is known.
  resolved :
      (target : Target) (n : ℤ) (spec : ParameterSpec F)
      → resolve lower r target ≡ ok spec
      → (resolve_request lower r target n ≡ ok spec)
        ⊎ (resolve_request lower r target n ≡ err validation_error)
  unfolding resolve_request validate_instance
  resolved target n spec e =
      rw e
        (elim (Bool-cases
          (ltb_ℤ (asked n spec) (pos 1) || ltb_ℤ spec.max_instance (asked n spec))) [
            | inl bad ↦ inr (rw bad refl)
            | inr good ↦ inl (rw good refl)
          ])
    where
      asked : ℤ → ParameterSpec F → ℤ
      asked n spec = if differs n (pos 0) then n else spec.default_instance

  module _ {W B : Type 0} (orders : Orders W B) (registers : Registers F W B) (fl : Floats F)
      (ar : Arith F) where
    -- A write to a read-only parameter is refused before a request is made, on either protocol, whatever
    -- the value and the instance are.
    pub write_read_only :
        (q : WriteParameterRequest F) (spec : ParameterSpec F)
        → resolve lower r q.target ≡ ok spec
        → spec.rwes ≡ flag_r
        → (StdBusParameters.encode_write lower fl ar r q ≡ err validation_error)
          × (ModbusParameters.encode_write lower orders registers fl ar r q ≡ err validation_error)
    unfolding StdBusParameters.encode_write ModbusParameters.encode_write
    write_read_only q spec e ro = elim (resolved q.target q.instance_id spec e) [
      | inl known ↦ (rw (known, refused) refl, rw (known, refused) refl)
      | inr unknown ↦ (rw unknown refl, rw unknown refl)
    ]
      where
        refused : validate_writable spec ≡ err validation_error
        refused = unfold validate_writable in rw ro refl

  found :
      (spec : ParameterSpec F) (reply : StdBusReply F) (n : ℕ) (v : Value F)
      → resolve_id lower r spec.parameter_id ≡ ok spec
      → StdBusParameters.entry_of lower reply r
          (split_param spec.parameter_id).0
          (split_param spec.parameter_id).1
          n
          v
        ≡ ok (record { spec = spec; instance_id = pos n; value = v; raw_bytes = reply.raw_frame })
  unfolding StdBusParameters.entry_of
  found spec reply n v known =
      rw ((join_param-split_param spec.parameter_id 0 0 (omega arith)).0, known) refl

  -- A reply that carries the class and the member of a parameter of the registry is decoded to an entry
  -- of that parameter, with the instance, the value and the raw frame of the reply, for a read and for a
  -- write alike.
  pub reply_entry :
      (spec : ParameterSpec F) (frame : Frame) (bytes : Bytes) (n : ℕ) (v : Value F) (tag : ℕ)
      (read_q : ReadParameterRequest) (write_q : WriteParameterRequest F)
      → resolve_id lower r spec.parameter_id ≡ ok spec
      → (StdBusParameters.decode_read lower
            (record {
              frame = frame;
              payload =
                  read_response
                    (split_param spec.parameter_id).0
                    (split_param spec.parameter_id).1
                    n
                    v
                    tag;
              raw_frame = bytes;
            })
            r
            read_q
          ≡ ok (record { spec = spec; instance_id = pos n; value = v; raw_bytes = bytes }))
        × (StdBusParameters.decode_write lower
              (record {
                frame = frame;
                payload =
                    write_response
                      (split_param spec.parameter_id).0
                      (split_param spec.parameter_id).1
                      n
                      v
                      tag;
                raw_frame = bytes;
              })
              r
              write_q
            ≡ ok (record { spec = spec; instance_id = pos n; value = v; raw_bytes = bytes }))
  unfolding StdBusParameters.decode_read StdBusParameters.decode_write
  reply_entry spec frame bytes n v tag read_q write_q known = (
    found spec
        (record {
          frame = frame;
          payload =
              read_response (split_param spec.parameter_id).0 (split_param spec.parameter_id).1 n v
                tag;
          raw_frame = bytes;
        })
        n v known,
    found spec
        (record {
          frame = frame;
          payload =
              write_response (split_param spec.parameter_id).0 (split_param spec.parameter_id).1 n v
                tag;
          raw_frame = bytes;
        })
        n v known,
  )

  zero_accepted :
      (target : Target) (spec : ParameterSpec F) (d m : ℕ)
      → resolve lower r target ≡ ok spec
      → spec.default_instance ≡ pos d
      → spec.max_instance ≡ pos m
      → 1 ≤ d
      → d ≤ m
      → resolve_request lower r target (pos 0) ≡ ok spec
  unfolding resolve_request validate_instance
  zero_accepted target spec d m e default top low high = rw e (rw (default, top) (ground arith))

  -- On either protocol the instance 0, which stands for the default instance of a parameter, is not
  -- replaced by it: where the default instance is in range and not 0, Std Bus asks the device for the
  -- instance 0, and Modbus raises `WatlowProtocolUnsupportedError`, if the parameter has an encoding.
  pub instance_zero :
      {W B : Type 0} (orders : Orders W B) (target : Target) (spec : ParameterSpec F) (d m : ℕ)
      (encoding : ModbusEncoding W B)
      → resolve lower r target ≡ ok spec
      → spec.default_instance ≡ pos d
      → spec.max_instance ≡ pos m
      → 1 ≤ d
      → d ≤ m
      → ModbusParameters.encoding_of orders spec ≡ ok encoding
      → (StdBusParameters.encode_read lower r (record { target = target; instance_id = pos 0 })
          ≡ encode_read_request spec.parameter_id 0)
        × (ModbusParameters.encode_read lower orders r
              (record { target = target; instance_id = pos 0 })
            ≡ err protocol_unsupported_error)
  unfolding StdBusParameters.encode_read ModbusParameters.encode_read
  instance_zero orders target spec d m encoding e default top low high laid =
      (rw zero_resolved refl, rw (zero_resolved, laid, no_register) refl)
    where
      zero_resolved : resolve_request lower r target (pos 0) ≡ ok spec
      zero_resolved = zero_accepted target spec d m e default top low high

      no_register :
          ModbusParameters.modbus_register_address spec (pos 0) ≡ err protocol_unsupported_error
      no_register = unfold ModbusParameters.modbus_register_address in rw default (ground arith)
