-- ===== src/Errors.antt =====
-- src/watlowlib/errors.py: the exception classes, with the built-in and third-party classes that the
-- modelled code raises or catches. An exception is its class: messages and the fields of
-- `ErrorContext` are not modelled.
use watlowlib.Base.{ℕ, zero, suc, Bool, false, ◌||◌, List, [], ◌∷◌, ◌++◌, ◌==◌, ◌≡◌, refl}

pub data Error : Type 0 where
  watlow_error configuration_error confirmation_required_error validation_error : Error
  transport_error watlow_timeout_error connection_error : Error
  protocol_error watlow_frame_error protocol_unsupported_error : Error
  no_such_object_error no_such_attribute_error no_such_instance_error : Error
  modbus_error modbus_illegal_function_error modbus_illegal_data_address_error : Error
  modbus_illegal_data_value_error modbus_slave_failure_error modbus_timeout_error : Error
  -- `ValueError`, its subclasses `FrameError` of stdbus/framing.py and `UnicodeError`, and others
  value_error frame_error unicode_error type_error overflow_error key_error timeout_error : Error
  -- any other exception, and one of `anymodbus`
  foreign_error anymodbus_error : Error

-- The base classes of each class, as its class statement lists them.
abbrev pub bases : Error → List Error
bases configuration_error = watlow_error ∷ []
bases confirmation_required_error = configuration_error ∷ []
bases validation_error = configuration_error ∷ []
bases transport_error = watlow_error ∷ []
bases watlow_timeout_error = transport_error ∷ []
bases connection_error = transport_error ∷ []
bases protocol_error = watlow_error ∷ []
bases watlow_frame_error = protocol_error ∷ []
bases protocol_unsupported_error = protocol_error ∷ []
bases no_such_object_error = protocol_error ∷ []
bases no_such_attribute_error = protocol_error ∷ []
bases no_such_instance_error = protocol_error ∷ []
bases modbus_error = protocol_error ∷ []
bases modbus_illegal_function_error = modbus_error ∷ protocol_unsupported_error ∷ []
bases modbus_illegal_data_address_error = modbus_error ∷ protocol_unsupported_error ∷ []
bases modbus_illegal_data_value_error = modbus_error ∷ []
bases modbus_slave_failure_error = modbus_error ∷ []
bases modbus_timeout_error = modbus_error ∷ watlow_timeout_error ∷ []
bases frame_error = value_error ∷ []
bases unicode_error = value_error ∷ []
bases _ = []

-- A number for each class, by which classes are compared.
abbrev index : Error → ℕ
index watlow_error = 0
index configuration_error = 1
index confirmation_required_error = 2
index validation_error = 3
index transport_error = 4
index watlow_timeout_error = 5
index connection_error = 6
index protocol_error = 7
index watlow_frame_error = 8
index protocol_unsupported_error = 9
index no_such_object_error = 10
index no_such_attribute_error = 11
index no_such_instance_error = 12
index modbus_error = 13
index modbus_illegal_function_error = 14
index modbus_illegal_data_address_error = 15
index modbus_illegal_data_value_error = 16
index modbus_slave_failure_error = 17
index modbus_timeout_error = 18
index value_error = 19
index frame_error = 20
index unicode_error = 21
index type_error = 22
index overflow_error = 23
index key_error = 24
index timeout_error = 25
index foreign_error = 26
index anymodbus_error = 27

abbrev collect : (Error → List Error) → List Error → List Error
collect f [] = []
collect f (e ∷ es) = f e ++ collect f es

-- The classes reached in at most `n` steps up the hierarchy, the class itself first.
abbrev pub ancestors : ℕ → Error → List Error
ancestors zero e = e ∷ []
ancestors (suc n) e = e ∷ collect (ancestors n) (bases e)

abbrev among : Error → List Error → Bool
among c [] = false
among c (e ∷ es) = index c == index e || among c es

-- `issubclass(e, c)`: no chain of base classes is longer than four.
abbrev pub is_a : Error → Error → Bool
is_a e c = among c (ancestors 4 e)

-- `except (…)`: is the exception one of the listed classes?
abbrev pub caught_by : List Error → Error → Bool
caught_by [] e = false
caught_by (c ∷ cs) e = is_a e c || caught_by cs e

-- One more level adds no class: four levels are the whole hierarchy.
pub ancestors_complete : (e : Error) → ancestors 5 e ≡ ancestors 4 e
ancestors_complete watlow_error = refl
ancestors_complete _ = refl
