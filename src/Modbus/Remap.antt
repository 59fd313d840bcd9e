-- ===== src/Modbus/Remap.antt =====
-- src/watlowlib/protocol/modbus/errors.py: `remap_modbus_exception`. The exceptions of `anymodbus`, and
-- `isinstance` on them, are parameters.
use watlowlib.Base.{◌≡◌, arith, Bool, true, false, List, [], ◌∷◌, ◌||◌, if◌then◌else◌}
use watlowlib.Errors.{
  Error, watlow_error, connection_error, configuration_error, protocol_error, watlow_frame_error,
  protocol_unsupported_error, modbus_error, modbus_illegal_function_error,
  modbus_illegal_data_address_error, modbus_illegal_data_value_error, modbus_slave_failure_error,
  modbus_timeout_error, is_a,
}

-- The exception classes of `anymodbus` that the function names.
pub data ModbusClass : Type 0 where
  illegal_function unsupported_function illegal_data_address illegal_data_value : ModbusClass
  slave_device_failure slave_device_busy acknowledge gateway_path_unavailable : ModbusClass
  gateway_target_failed memory_parity frame_timeout bus_closed connection_lost : ModbusClass
  crc_failure frame_failure configuration unexpected_response : ModbusClass
  unknown_exception modbus_base : ModbusClass

module _ {E : Type 0} (isinstance : E → ModbusClass → Bool) where
  unfoldable pub is_any : E → List ModbusClass → Bool
  is_any e [] = false
  is_any e (c ∷ cs) = isinstance e c || is_any e cs

  unfoldable pub remap_modbus_exception : E → Error
  unfolding is_any
  remap_modbus_exception e =
      if isinstance e illegal_function
      then modbus_illegal_function_error
      else if isinstance e unsupported_function
      then modbus_illegal_function_error
      else if isinstance e illegal_data_address
      then modbus_illegal_data_address_error
      else if isinstance e illegal_data_value
      then modbus_illegal_data_value_error
      else if is_any e (
          slave_device_failure ∷ slave_device_busy ∷ acknowledge ∷ gateway_path_unavailable
          ∷ gateway_target_failed ∷ memory_parity ∷ [])
      then modbus_slave_failure_error
      else if isinstance e frame_timeout
      then modbus_timeout_error
      else if is_any e (bus_closed ∷ connection_lost ∷ [])
      then connection_error
      else if is_any e (crc_failure ∷ frame_failure ∷ [])
      then watlow_frame_error
      else if isinstance e configuration
      then configuration_error
      else if isinstance e unexpected_response
      then protocol_error
      else if is_any e (unknown_exception ∷ modbus_base ∷ [])
      then modbus_error
      else protocol_error

  -- Every exception is retyped within the `WatlowError` hierarchy; and the result is a
  -- `WatlowProtocolUnsupportedError`, on which a session marks a command unsupported, exactly for the
  -- three classes for which a device lacks the function or the register.
  pub remap_unsupported :
      (e : E)
      → (is_a (remap_modbus_exception e) watlow_error ≡ true)
        × (is_a (remap_modbus_exception e) protocol_unsupported_error
            ≡ is_any e (illegal_function ∷ unsupported_function ∷ illegal_data_address ∷ []))
  unfolding remap_modbus_exception
  remap_unsupported e = ground arith
