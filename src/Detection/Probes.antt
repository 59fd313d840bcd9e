-- ===== src/Detection/Probes.antt =====
-- What the two probes send, and what the Modbus probe takes for an answer.
use watlowlib.Base.{
  ℕ, ◌≤◌, List, ◌≡◌, ◌⊎◌, inl, inr, refl, ◌∙◌, Bool, true, false, [], ◌∷◌, none, Bytes, Bool-cases,
  if◌then◌else◌,
}
use watlowlib.Errors.{Error, watlow_timeout_error, protocol_unsupported_error, is_a}
use watlowlib.Result.{Result, ok, err}
use watlowlib.Devices.Session.{ProtocolClient, modbus_kind}
use watlowlib.Modbus.Remap.{
  ModbusClass, illegal_function, unsupported_function, illegal_data_address, illegal_data_value,
  slave_device_failure, is_any, remap_modbus_exception, remap_unsupported,
}
use watlowlib.Modbus.Client.{
  Outcome, returned, timed_out, watlow, foreign, Slave, ModbusClient, settle, settle_provider,
  dispatch, perform, execute,
}
use watlowlib.Modbus.Client.Execute.{execute_guards}
use watlowlib.Base.Int.{ℤ, pos}
use watlowlib.StdBus.Payload.{encode_read_request}
use watlowlib.Modbus.Ops.{ModbusOp, read_holding, construct}
use watlowlib.Detection.{
  modbus_answer, probe_modbus, probe_parameter_id, probe_register_address, probe_register_count,
}

-- The payload and the operation that the probes send.
abbrev pub hardware_id_request : Bytes
hardware_id_request = 0x01 ∷ 0x03 ∷ 0x01 ∷ 0x01 ∷ 0x01 ∷ 0x01 ∷ []

abbrev pub hardware_id_op : ModbusOp
hardware_id_op = record { fn = read_holding; address = pos 0; count = pos 2; values = none }

pub request_encoded : encode_read_request probe_parameter_id 1 ≡ ok hardware_id_request
unfolding encode_read_request
request_encoded = refl

pub op_made :
    construct read_holding probe_register_address probe_register_count none ≡ ok hardware_id_op
unfolding construct
op_made = refl

either_way : (b : Bool) (x : Result Bool) → (if b then x else x) ≡ x
either_way true x = refl
either_way false x = refl

-- An exception is of none of the three classes for a function or a register that the device lacks.
abbrev pub Served : {E : Type 0} → (E → ModbusClass → Bool) → E → Type 0
Served isinstance x =
    (isinstance x illegal_function ≡ false)
    × (isinstance x unsupported_function ≡ false)
    × (isinstance x illegal_data_address ≡ false)

-- What a poll of a slave says: words, a time-out, or an exception of anymodbus. The three classes for
-- which a device lacks the function or the register confirm the protocol. The exception responses for an
-- illegal value and for a failure of the slave do not, and neither does any other exception.
abbrev pub Recognises :
    {E : Type 0} → (E → ModbusClass → Bool) → Outcome E (List ℤ) → Result Bool → Type 0
Recognises isinstance (returned ws) r = r ≡ ok true
Recognises isinstance timed_out r = r ≡ ok false
Recognises isinstance (watlow e) r = ⊥
Recognises isinstance (foreign x) r =
    ((isinstance x illegal_function ≡ true) × (r ≡ ok true))
    ⊎ ((isinstance x unsupported_function ≡ true) × (r ≡ ok true))
    ⊎ ((isinstance x illegal_data_address ≡ true) × (r ≡ ok true))
    ⊎ (Served isinstance x × (isinstance x illegal_data_value ≡ true) × (r ≡ ok false))
    ⊎ (Served isinstance x × (isinstance x slave_device_failure ≡ true) × (r ≡ ok false))
    ⊎ (Served isinstance x
        × (isinstance x illegal_data_value ≡ false)
        × (isinstance x slave_device_failure ≡ false)
        × (r ≡ ok false))

module _ {E : Type 0} (isinstance : E → ModbusClass → Bool) where
  lacking :
      (x : E)
      → is_a (remap_modbus_exception isinstance x) protocol_unsupported_error ≡ true
      → modbus_answer {P = List ℤ} (err (remap_modbus_exception isinstance x)) ≡ ok true
  unfolding modbus_answer
  lacking x e = rw e refl

  other :
      (x : E)
      → is_a (remap_modbus_exception isinstance x) protocol_unsupported_error ≡ false
      → modbus_answer {P = List ℤ} (err (remap_modbus_exception isinstance x)) ≡ ok false
  unfolding modbus_answer
  other x e = rw e (
      rw (remap_unsupported isinstance x).0
        (either_way (is_a (remap_modbus_exception isinstance x) watlow_timeout_error) (ok false)))

  -- The flag on which the answer turns.
  flag :
      (x : E) (b : Bool)
      → is_any isinstance x (illegal_function ∷ unsupported_function ∷ illegal_data_address ∷ [])
        ≡ b
      → is_a (remap_modbus_exception isinstance x) protocol_unsupported_error ≡ b
  flag x b e = (remap_unsupported isinstance x).1 ∙ e

  foreign_answer :
      (x : E)
      → Recognises isinstance
          (foreign x)
          (modbus_answer {P = List ℤ} (err (remap_modbus_exception isinstance x)))
  unfolding is_any
  foreign_answer x = elim (Bool-cases (isinstance x illegal_function)) [
    | inl f ↦ inl (f, lacking x (flag x true (rw f refl)))
    | inr f ↦ elim (Bool-cases (isinstance x unsupported_function)) [
      | inl u ↦ inr (inl (u, lacking x (flag x true (rw f (rw u refl)))))
      | inr u ↦ elim (Bool-cases (isinstance x illegal_data_address)) [
        | inl d ↦ inr (inr (inl (d, lacking x (flag x true (rw f (rw u (rw d refl)))))))
        | inr d ↦
            let no = other x (flag x false (rw f (rw u (rw d refl)))) in
            elim (Bool-cases (isinstance x illegal_data_value)) [
              | inl v ↦ inr (inr (inr (inl ((f, u, d), v, no))))
              | inr v ↦ elim (Bool-cases (isinstance x slave_device_failure)) [
                | inl w ↦ inr (inr (inr (inr (inl ((f, u, d), w, no)))))
                | inr w ↦ inr (inr (inr (inr (inr ((f, u, d), v, w, no)))))
              ]
            ]
      ]
    ]
  ]

  answer-Recognises :
      (o : Outcome E (List ℤ))
      → ((e : Error) → ¬ (o ≡ watlow e))
      → Recognises isinstance o (modbus_answer (settle isinstance o))
  unfolding settle modbus_answer
  answer-Recognises (returned ws) h = refl
  answer-Recognises timed_out h = refl
  answer-Recognises (watlow e) h = h e refl
  answer-Recognises (foreign x) h = foreign_answer x

module _ {E S : Type 0} (isinstance : E → ModbusClass → Bool) (provider : ℤ → Outcome E (Slave E S))
    (assertion time_limit : E) where
  -- The Modbus client of a port, as the detection uses it.
  unfoldable pub modbus_client : ProtocolClient (ModbusClient S) ModbusOp (List ℤ)
  modbus_client = record {
    kind = modbus_kind;
    execute = λ op address c. execute isinstance provider assertion time_limit op (pos address) c;
  }

  executed :
      (address : ℕ) (c : ModbusClient S) (slave : Slave E S) (o : Outcome E (List ℤ)) (bus : S)
      → 1 ≤ address
      → address ≤ 247
      → c.disposed ≡ false
      → provider (pos address) ≡ returned slave
      → slave.read_holding_registers (pos 0) (pos 2) c.bus ≡ (o, bus)
      → execute isinstance provider assertion time_limit hardware_id_op (pos address) c
        ≡ (settle isinstance o, record c { bus = bus })
  unfolding perform settle_provider dispatch
  executed address c slave o bus low high live found read =
      elim (execute_guards isinstance provider assertion time_limit hardware_id_op (pos address)
        c) [
          | inl (out, e) ↦ absurd (out (low, high))
          | inr (inl (inside, gone, e)) ↦ cc (gone, live)
          | inr (inr (inside, open_, e)) ↦ e ∙ rw found (rw read refl)
        ]

  -- Over a Modbus client that is not disposed of, on an address from 1 to 247 for which the provider
  -- returns a slave, the probe reads two holding registers from 0 on, once, and leaves the bus as that
  -- read does. It says yes where the read returns words, or raises an exception for a function or an
  -- address that the device lacks; no where it runs into the time limit or raises any other exception of
  -- anymodbus, among them those for an illegal value and for a failure of the slave. The slave itself
  -- raises no `WatlowError`.
  pub probe_modbus-Recognises :
      (address : ℕ) (c : ModbusClient S) (slave : Slave E S) (o : Outcome E (List ℤ)) (bus : S)
      → 1 ≤ address
      → address ≤ 247
      → c.disposed ≡ false
      → provider (pos address) ≡ returned slave
      → slave.read_holding_registers (pos 0) (pos 2) c.bus ≡ (o, bus)
      → ((e : Error) → ¬ (o ≡ watlow e))
      → Recognises isinstance o (probe_modbus modbus_client address c).0
        × ((probe_modbus modbus_client address c).1 ≡ record c { bus = bus })
  unfolding probe_modbus modbus_client
  probe_modbus-Recognises address c slave o bus low high live found read typed = rw op_made (
      rw (executed address c slave o bus low high live found read)
        (answer-Recognises isinstance o typed, refl))
